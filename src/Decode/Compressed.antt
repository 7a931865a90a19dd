-- ===== src/Decode/Compressed.antt =====
-- The compressed instructions of the RISC-V manual (RV64C with doubles): their 16 bits, and the base
-- instruction that each stands for. It is written from the manual and shares nothing with
-- src/exec_c.c but the shapes of the result.
use tinyvm.Base.{ℕ, ◌+◌, ◌*◌, ◌/◌, ◌%◌, ◌^◌, ◌<◌, ◌≢◌, widen}
use tinyvm.Decode.Instr.{
  Instruction, blank, op_lui, op_jal, op_jalr, op_branch, op_load, op_store, op_i_arith, op_r_arith,
  op_i_arith_w, op_r_arith_w, op_system, op_flw_fld, op_fsw_fsd,
}

-- A register of three bits is named by its number without the 8; offsets and constants are in units
-- of the alignment of the format, as the words that the manual scales and signs.
pub data Rvc : Type 0 where
  c_addi4spn : ℕ → ℕ → Rvc
  c_fld c_lw c_ld c_fsd c_sw c_sd : ℕ → ℕ → ℕ → Rvc
  c_addi c_addiw c_li c_lui : ℕ → ℕ → Rvc
  c_addi16sp : ℕ → Rvc
  c_srli c_srai c_andi : ℕ → ℕ → Rvc
  c_sub c_xor c_or c_and c_subw c_addw : ℕ → ℕ → Rvc
  c_j : ℕ → Rvc
  c_beqz c_bnez : ℕ → ℕ → Rvc
  c_slli c_fldsp c_lwsp c_ldsp : ℕ → ℕ → Rvc
  c_jr c_jalr : ℕ → Rvc
  c_mv c_add : ℕ → ℕ → Rvc
  c_ebreak : Rvc
  c_fsdsp c_swsp c_sdsp : ℕ → ℕ → Rvc

-- v[lo + n - 1 : lo] at bit `pos`.
abbrev part : ℕ → ℕ → ℕ → ℕ → ℕ
part v lo n pos = v / 2 ^ lo % 2 ^ n * 2 ^ pos

abbrev quadrant : ℕ → ℕ → ℕ → ℕ
quadrant op f3 body = op + f3 * 2 ^ 13 + body

-- The formats: where the manual puts the bits of the scaled immediate.
abbrev ciw : ℕ → ℕ → ℕ
ciw imm rd = part imm 4 2 11 + part imm 6 4 7 + part imm 2 1 6 + part imm 3 1 5 + rd * 2 ^ 2

abbrev cl_word : ℕ → ℕ → ℕ → ℕ
cl_word imm rs1 r = part imm 3 3 10 + rs1 * 2 ^ 7 + part imm 2 1 6 + part imm 6 1 5 + r * 2 ^ 2

abbrev cl_double : ℕ → ℕ → ℕ → ℕ
cl_double imm rs1 r = part imm 3 3 10 + rs1 * 2 ^ 7 + part imm 6 2 5 + r * 2 ^ 2

abbrev ci : ℕ → ℕ → ℕ
ci imm rd = part imm 5 1 12 + rd * 2 ^ 7 + part imm 0 5 2

abbrev ci_16sp : ℕ → ℕ
ci_16sp imm =
    part imm 9 1 12 + 2 * 2 ^ 7 + part imm 4 1 6 + part imm 6 1 5 + part imm 7 2 3 + part imm 5 1 2

abbrev ci_wordsp : ℕ → ℕ → ℕ
ci_wordsp imm rd = part imm 5 1 12 + rd * 2 ^ 7 + part imm 2 3 4 + part imm 6 2 2

abbrev ci_doublesp : ℕ → ℕ → ℕ
ci_doublesp imm rd = part imm 5 1 12 + rd * 2 ^ 7 + part imm 3 2 5 + part imm 6 3 2

abbrev css_word : ℕ → ℕ → ℕ
css_word imm rs2 = part imm 2 4 9 + part imm 6 2 7 + rs2 * 2 ^ 2

abbrev css_double : ℕ → ℕ → ℕ
css_double imm rs2 = part imm 3 3 10 + part imm 6 3 7 + rs2 * 2 ^ 2

abbrev cb_alu : ℕ → ℕ → ℕ → ℕ
cb_alu funct2 imm rd = part imm 5 1 12 + funct2 * 2 ^ 10 + rd * 2 ^ 7 + part imm 0 5 2

abbrev ca : ℕ → ℕ → ℕ → ℕ → ℕ
ca bit12 funct2 rd rs2 = bit12 * 2 ^ 12 + 3 * 2 ^ 10 + rd * 2 ^ 7 + funct2 * 2 ^ 5 + rs2 * 2 ^ 2

abbrev cj : ℕ → ℕ
cj imm =
    part imm 11 1 12
    + part imm 4 1 11
    + part imm 8 2 9
    + part imm 10 1 8
    + part imm 6 1 7
    + part imm 7 1 6
    + part imm 1 3 3
    + part imm 5 1 2

abbrev cb : ℕ → ℕ → ℕ
cb imm rs1 =
    part imm 8 1 12
    + part imm 3 2 10
    + rs1 * 2 ^ 7
    + part imm 6 2 5
    + part imm 1 2 3
    + part imm 5 1 2

abbrev cr : ℕ → ℕ → ℕ → ℕ
cr bit12 rd rs2 = bit12 * 2 ^ 12 + rd * 2 ^ 7 + rs2 * 2 ^ 2

unfoldable pub encode_c : Rvc → ℕ
encode_c (c_addi4spn rd v) = quadrant 0 0 (ciw (4 * v) rd)
encode_c (c_fld rd rs1 v) = quadrant 0 1 (cl_double (8 * v) rs1 rd)
encode_c (c_lw rd rs1 v) = quadrant 0 2 (cl_word (4 * v) rs1 rd)
encode_c (c_ld rd rs1 v) = quadrant 0 3 (cl_double (8 * v) rs1 rd)
encode_c (c_fsd rs2 rs1 v) = quadrant 0 5 (cl_double (8 * v) rs1 rs2)
encode_c (c_sw rs2 rs1 v) = quadrant 0 6 (cl_word (4 * v) rs1 rs2)
encode_c (c_sd rs2 rs1 v) = quadrant 0 7 (cl_double (8 * v) rs1 rs2)
encode_c (c_addi rd v) = quadrant 1 0 (ci v rd)
encode_c (c_addiw rd v) = quadrant 1 1 (ci v rd)
encode_c (c_li rd v) = quadrant 1 2 (ci v rd)
encode_c (c_lui rd v) = quadrant 1 3 (ci v rd)
encode_c (c_addi16sp v) = quadrant 1 3 (ci_16sp (16 * v))
encode_c (c_srli rd v) = quadrant 1 4 (cb_alu 0 v rd)
encode_c (c_srai rd v) = quadrant 1 4 (cb_alu 1 v rd)
encode_c (c_andi rd v) = quadrant 1 4 (cb_alu 2 v rd)
encode_c (c_sub rd rs2) = quadrant 1 4 (ca 0 0 rd rs2)
encode_c (c_xor rd rs2) = quadrant 1 4 (ca 0 1 rd rs2)
encode_c (c_or rd rs2) = quadrant 1 4 (ca 0 2 rd rs2)
encode_c (c_and rd rs2) = quadrant 1 4 (ca 0 3 rd rs2)
encode_c (c_subw rd rs2) = quadrant 1 4 (ca 1 0 rd rs2)
encode_c (c_addw rd rs2) = quadrant 1 4 (ca 1 1 rd rs2)
encode_c (c_j v) = quadrant 1 5 (cj (2 * v))
encode_c (c_beqz rs1 v) = quadrant 1 6 (cb (2 * v) rs1)
encode_c (c_bnez rs1 v) = quadrant 1 7 (cb (2 * v) rs1)
encode_c (c_slli rd v) = quadrant 2 0 (ci v rd)
encode_c (c_fldsp rd v) = quadrant 2 1 (ci_doublesp (8 * v) rd)
encode_c (c_lwsp rd v) = quadrant 2 2 (ci_wordsp (4 * v) rd)
encode_c (c_ldsp rd v) = quadrant 2 3 (ci_doublesp (8 * v) rd)
encode_c (c_jr rs1) = quadrant 2 4 (cr 0 rs1 0)
encode_c (c_jalr rs1) = quadrant 2 4 (cr 1 rs1 0)
encode_c (c_mv rd rs2) = quadrant 2 4 (cr 0 rd rs2)
encode_c (c_add rd rs2) = quadrant 2 4 (cr 1 rd rs2)
encode_c c_ebreak = quadrant 2 4 (cr 1 0 0)
encode_c (c_fsdsp rs2 v) = quadrant 2 5 (css_double (8 * v) rs2)
encode_c (c_swsp rs2 v) = quadrant 2 6 (css_word (4 * v) rs2)
encode_c (c_sdsp rs2 v) = quadrant 2 7 (css_double (8 * v) rs2)

-- Base instructions of two bytes.
abbrev with_imm : ℕ → ℕ → ℕ → ℕ → ℕ → Instruction
with_imm opcode funct3 rd rs1 imm = record (blank 2) {
  opcode = opcode;
  funct3 = funct3;
  rd = rd;
  rs1 = rs1;
  imm = imm;
}

abbrev no_rd : ℕ → ℕ → ℕ → ℕ → ℕ → Instruction
no_rd opcode funct3 rs1 rs2 imm = record (blank 2) {
  opcode = opcode;
  funct3 = funct3;
  rs1 = rs1;
  rs2 = rs2;
  imm = imm;
}

abbrev two_regs : ℕ → ℕ → ℕ → ℕ → ℕ → ℕ → Instruction
two_regs opcode funct3 funct7 rd rs1 rs2 = record (blank 2) {
  opcode = opcode;
  funct3 = funct3;
  funct7 = funct7;
  rd = rd;
  rs1 = rs1;
  rs2 = rs2;
}

-- x8 to x15, and the stack pointer.
abbrev x : ℕ → ℕ
x r = 8 + r

abbrev sp : ℕ
sp = 2

unfoldable pub expand : Rvc → Instruction
expand (c_addi4spn rd v) = with_imm op_i_arith 0 (x rd) sp (4 * v)
expand (c_fld rd rs1 v) = with_imm op_flw_fld 3 (x rd) (x rs1) (8 * v)
expand (c_lw rd rs1 v) = with_imm op_load 2 (x rd) (x rs1) (4 * v)
expand (c_ld rd rs1 v) = with_imm op_load 3 (x rd) (x rs1) (8 * v)
expand (c_fsd rs2 rs1 v) = no_rd op_fsw_fsd 3 (x rs1) (x rs2) (8 * v)
expand (c_sw rs2 rs1 v) = no_rd op_store 2 (x rs1) (x rs2) (4 * v)
expand (c_sd rs2 rs1 v) = no_rd op_store 3 (x rs1) (x rs2) (8 * v)
expand (c_addi rd v) = with_imm op_i_arith 0 rd rd (widen 6 v)
expand (c_addiw rd v) = with_imm op_i_arith_w 0 rd rd (widen 6 v)
expand (c_li rd v) = with_imm op_i_arith 0 rd 0 (widen 6 v)
expand (c_lui rd v) = with_imm op_lui 0 rd 0 (widen 18 (v * 2 ^ 12))
expand (c_addi16sp v) = with_imm op_i_arith 0 sp sp (widen 10 (16 * v))
expand (c_srli rd v) = with_imm op_i_arith 5 (x rd) (x rd) v
expand (c_srai rd v) = record (with_imm op_i_arith 5 (x rd) (x rd) v) { funct7 = 0x20 }
expand (c_andi rd v) = with_imm op_i_arith 7 (x rd) (x rd) (widen 6 v)
expand (c_sub rd rs2) = two_regs op_r_arith 0 0x20 (x rd) (x rd) (x rs2)
expand (c_xor rd rs2) = two_regs op_r_arith 4 0 (x rd) (x rd) (x rs2)
expand (c_or rd rs2) = two_regs op_r_arith 6 0 (x rd) (x rd) (x rs2)
expand (c_and rd rs2) = two_regs op_r_arith 7 0 (x rd) (x rd) (x rs2)
expand (c_subw rd rs2) = two_regs op_r_arith_w 0 0x20 (x rd) (x rd) (x rs2)
expand (c_addw rd rs2) = two_regs op_r_arith_w 0 0 (x rd) (x rd) (x rs2)
expand (c_j v) = with_imm op_jal 0 0 0 (widen 12 (2 * v))
expand (c_beqz rs1 v) = no_rd op_branch 0 (x rs1) 0 (widen 9 (2 * v))
expand (c_bnez rs1 v) = no_rd op_branch 1 (x rs1) 0 (widen 9 (2 * v))
expand (c_slli rd v) = with_imm op_i_arith 1 rd rd v
expand (c_fldsp rd v) = with_imm op_flw_fld 3 rd sp (8 * v)
expand (c_lwsp rd v) = with_imm op_load 2 rd sp (4 * v)
expand (c_ldsp rd v) = with_imm op_load 3 rd sp (8 * v)
expand (c_jr rs1) = with_imm op_jalr 0 0 rs1 0
expand (c_jalr rs1) = with_imm op_jalr 0 1 rs1 0
expand (c_mv rd rs2) = two_regs op_r_arith 0 0 rd 0 rs2
expand (c_add rd rs2) = two_regs op_r_arith 0 0 rd rd rs2
expand c_ebreak = with_imm op_system 0 0 0 1
expand (c_fsdsp rs2 v) = no_rd op_fsw_fsd 3 sp rs2 (8 * v)
expand (c_swsp rs2 v) = no_rd op_store 2 sp rs2 (4 * v)
expand (c_sdsp rs2 v) = no_rd op_store 3 sp rs2 (8 * v)

-- Registers of three and of five bits, and the immediates of each format; where a number means
-- another instruction (rd = 2 of C.LUI, x0 of C.JALR, C.MV and C.ADD), it is left out. The manual also
-- reserves some immediates 0, which are not left out here.
unfoldable pub IsEncodable : Rvc → Type 0
IsEncodable (c_addi4spn rd v) = (rd < 8) × (v < 2 ^ 8)
IsEncodable (c_fld rd rs1 v) = (rd < 8) × (rs1 < 8) × (v < 2 ^ 5)
IsEncodable (c_lw rd rs1 v) = (rd < 8) × (rs1 < 8) × (v < 2 ^ 5)
IsEncodable (c_ld rd rs1 v) = (rd < 8) × (rs1 < 8) × (v < 2 ^ 5)
IsEncodable (c_fsd rs2 rs1 v) = (rs2 < 8) × (rs1 < 8) × (v < 2 ^ 5)
IsEncodable (c_sw rs2 rs1 v) = (rs2 < 8) × (rs1 < 8) × (v < 2 ^ 5)
IsEncodable (c_sd rs2 rs1 v) = (rs2 < 8) × (rs1 < 8) × (v < 2 ^ 5)
IsEncodable (c_addi rd v) = (rd < 32) × (v < 2 ^ 6)
IsEncodable (c_addiw rd v) = (rd < 32) × (v < 2 ^ 6)
IsEncodable (c_li rd v) = (rd < 32) × (v < 2 ^ 6)
IsEncodable (c_lui rd v) = (rd < 32) × (v < 2 ^ 6) × (rd ≢ 2)
IsEncodable (c_addi16sp v) = v < 2 ^ 6
IsEncodable (c_srli rd v) = (rd < 8) × (v < 2 ^ 6)
IsEncodable (c_srai rd v) = (rd < 8) × (v < 2 ^ 6)
IsEncodable (c_andi rd v) = (rd < 8) × (v < 2 ^ 6)
IsEncodable (c_sub rd rs2) = (rd < 8) × (rs2 < 8)
IsEncodable (c_xor rd rs2) = (rd < 8) × (rs2 < 8)
IsEncodable (c_or rd rs2) = (rd < 8) × (rs2 < 8)
IsEncodable (c_and rd rs2) = (rd < 8) × (rs2 < 8)
IsEncodable (c_subw rd rs2) = (rd < 8) × (rs2 < 8)
IsEncodable (c_addw rd rs2) = (rd < 8) × (rs2 < 8)
IsEncodable (c_j v) = v < 2 ^ 11
IsEncodable (c_beqz rs1 v) = (rs1 < 8) × (v < 2 ^ 8)
IsEncodable (c_bnez rs1 v) = (rs1 < 8) × (v < 2 ^ 8)
IsEncodable (c_slli rd v) = (rd < 32) × (v < 2 ^ 6)
IsEncodable (c_fldsp rd v) = (rd < 32) × (v < 2 ^ 6)
IsEncodable (c_lwsp rd v) = (rd < 32) × (v < 2 ^ 6)
IsEncodable (c_ldsp rd v) = (rd < 32) × (v < 2 ^ 6)
IsEncodable (c_jr rs1) = rs1 < 32
IsEncodable (c_jalr rs1) = (rs1 < 32) × (rs1 ≢ 0)
IsEncodable (c_mv rd rs2) = (rd < 32) × (rs2 < 32) × (rs2 ≢ 0)
IsEncodable (c_add rd rs2) = (rd < 32) × (rs2 < 32) × (rs2 ≢ 0)
IsEncodable c_ebreak = Unit
IsEncodable (c_fsdsp rs2 v) = (rs2 < 32) × (v < 2 ^ 6)
IsEncodable (c_swsp rs2 v) = (rs2 < 32) × (v < 2 ^ 6)
IsEncodable (c_sdsp rs2 v) = (rs2 < 32) × (v < 2 ^ 6)
