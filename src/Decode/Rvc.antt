-- ===== src/Decode/Rvc.antt =====
-- src/exec_c.c: decode_rvc, which expands a 16-bit instruction into a base one, by quadrants.
use tinyvm.Base.{
  ℕ, ◌+◌, ◌-◌, ◌*◌, ◌^◌, ◌&&◌, not, bit_and, bit_or, ◌==◌, if◌then◌else◌, shr, shl64, sar64, truthy,
}
use tinyvm.Cpu.Csr.{reg_sp}
use tinyvm.Decode.Instr.{
  Instruction, blank, op_lui, op_jal, op_jalr, op_branch, op_load, op_store, op_i_arith, op_r_arith,
  op_i_arith_w, op_r_arith_w, op_system, op_flw_fld, op_fsw_fsd, op_illegal, f7_alt, f3_w, f3_d,
  f3_add_sub, f3_sll, f3_xor, f3_srl_sra, f3_or, f3_and, system_ebreak,
}

-- A 3-bit register field stands for x8–x15.
abbrev pub cl : ℕ → ℕ
cl r = r + 8

-- (r >> pos) & mask.
abbrev pub field : ℕ → ℕ → ℕ → ℕ
field r pos mask = bit_and (shr r pos) mask

unfoldable pub rvc_rd_s : ℕ → ℕ
rvc_rd_s r = cl (field r 2 0x7)

unfoldable pub rvc_rs1_s : ℕ → ℕ
rvc_rs1_s r = cl (field r 7 0x7)

unfoldable pub rvc_rd : ℕ → ℕ
rvc_rd r = field r 7 0x1F

unfoldable pub rvc_rs2 : ℕ → ℕ
rvc_rs2 r = field r 2 0x1F

unfoldable pub rvc_b12 : ℕ → ℕ
rvc_b12 r = field r 12 1

unfoldable pub rvc_sub : ℕ → ℕ
rvc_sub r = field r 10 0x3

unfoldable pub rvc_arith : ℕ → ℕ
rvc_arith r = field r 5 0x3

unfoldable pub sext : ℕ → ℕ → ℕ
sext val bits = sar64 (shl64 val (64 - bits)) (64 - bits)

-- The fields are shifted by constants that keep them far below the width of an int.
abbrev pub at_bit : ℕ → ℕ → ℕ
at_bit v k = v * 2 ^ k

unfoldable pub imm_ci : ℕ → ℕ
imm_ci r = sext (bit_or (at_bit (field r 12 1) 5) (field r 2 0x1F)) 6

unfoldable pub imm_addi16sp : ℕ → ℕ
imm_addi16sp r =
    sext
      (bit_or
        (bit_or
          (bit_or (bit_or (at_bit (field r 12 1) 9) (at_bit (field r 6 1) 4))
            (at_bit (field r 5 1) 6))
          (at_bit (field r 3 3) 7))
        (at_bit (field r 2 1) 5))
      10

unfoldable pub imm_lui : ℕ → ℕ
imm_lui r = sext (bit_or (at_bit (field r 12 1) 17) (at_bit (field r 2 0x1F) 12)) 18

unfoldable pub imm_clw : ℕ → ℕ
imm_clw r =
    bit_or (bit_or (at_bit (field r 10 7) 3) (at_bit (field r 6 1) 2)) (at_bit (field r 5 1) 6)

unfoldable pub imm_cld : ℕ → ℕ
imm_cld r = bit_or (at_bit (field r 10 7) 3) (at_bit (field r 5 3) 6)

unfoldable pub imm_cj : ℕ → ℕ
imm_cj r =
    sext
      (bit_or
        (bit_or
          (bit_or
            (bit_or
              (bit_or
                (bit_or (bit_or (at_bit (field r 12 1) 11) (at_bit (field r 11 1) 4))
                  (at_bit (field r 9 3) 8))
                (at_bit (field r 8 1) 10))
              (at_bit (field r 7 1) 6))
            (at_bit (field r 6 1) 7))
          (at_bit (field r 3 7) 1))
        (at_bit (field r 2 1) 5))
      12

unfoldable pub imm_cb : ℕ → ℕ
imm_cb r =
    sext
      (bit_or
        (bit_or
          (bit_or (bit_or (at_bit (field r 12 1) 8) (at_bit (field r 10 3) 3))
            (at_bit (field r 5 3) 6))
          (at_bit (field r 3 3) 1))
        (at_bit (field r 2 1) 5))
      9

unfoldable pub imm_lwsp : ℕ → ℕ
imm_lwsp r =
    bit_or (bit_or (at_bit (field r 12 1) 5) (at_bit (field r 4 7) 2)) (at_bit (field r 2 3) 6)

unfoldable pub imm_ldsp : ℕ → ℕ
imm_ldsp r =
    bit_or (bit_or (at_bit (field r 12 1) 5) (at_bit (field r 5 3) 3)) (at_bit (field r 2 7) 6)

unfoldable pub imm_swsp : ℕ → ℕ
imm_swsp r = bit_or (at_bit (field r 9 0xF) 2) (at_bit (field r 7 3) 6)

unfoldable pub imm_sdsp : ℕ → ℕ
imm_sdsp r = bit_or (at_bit (field r 10 7) 3) (at_bit (field r 7 7) 6)

unfoldable pub imm_addi4spn : ℕ → ℕ
imm_addi4spn r =
    bit_or
      (bit_or (bit_or (at_bit (field r 6 1) 2) (at_bit (field r 5 1) 3)) (at_bit (field r 11 3) 4))
      (at_bit (field r 7 0xF) 6)

-- The shapes that the cases fill in: registers, then the immediate.
abbrev pub i_form : ℕ → ℕ → ℕ → ℕ → ℕ → Instruction
i_form opcode funct3 rd rs1 imm = record (blank 2) {
  opcode = opcode;
  funct3 = funct3;
  rd = rd;
  rs1 = rs1;
  imm = imm;
}

abbrev pub s_form : ℕ → ℕ → ℕ → ℕ → ℕ → Instruction
s_form opcode funct3 rs1 rs2 imm = record (blank 2) {
  opcode = opcode;
  funct3 = funct3;
  rs1 = rs1;
  rs2 = rs2;
  imm = imm;
}

abbrev pub r_form : ℕ → ℕ → ℕ → ℕ → ℕ → ℕ → Instruction
r_form opcode funct3 funct7 rd rs1 rs2 = record (blank 2) {
  opcode = opcode;
  funct3 = funct3;
  funct7 = funct7;
  rd = rd;
  rs1 = rs1;
  rs2 = rs2;
}

abbrev pub illegal : Instruction
illegal = record (blank 2) { opcode = op_illegal }

unfoldable pub decode_q0 : ℕ → ℕ → Instruction
decode_q0 f3 r =
    if f3 == 0
    then i_form op_i_arith f3_add_sub (rvc_rd_s r) reg_sp (imm_addi4spn r)
    else if f3 == 1
    then i_form op_flw_fld f3_d (rvc_rd_s r) (rvc_rs1_s r) (imm_cld r)
    else if f3 == 2
    then i_form op_load f3_w (rvc_rd_s r) (rvc_rs1_s r) (imm_clw r)
    else if f3 == 3
    then i_form op_load f3_d (rvc_rd_s r) (rvc_rs1_s r) (imm_cld r)
    else if f3 == 5
    then s_form op_fsw_fsd f3_d (rvc_rs1_s r) (rvc_rd_s r) (imm_cld r)
    else if f3 == 6
    then s_form op_store f3_w (rvc_rs1_s r) (rvc_rd_s r) (imm_clw r)
    else if f3 == 7
    then s_form op_store f3_d (rvc_rs1_s r) (rvc_rd_s r) (imm_cld r)
    else illegal

-- C.SUB, C.XOR, C.OR and C.AND.
unfoldable pub decode_arith : ℕ → Instruction
decode_arith r =
    let rd = rvc_rs1_s r in
    let op = rvc_arith r in
    if op == 0
    then r_form op_r_arith f3_add_sub f7_alt rd rd (rvc_rd_s r)
    else if op == 1
    then r_form op_r_arith f3_xor 0 rd rd (rvc_rd_s r)
    else if op == 2
    then r_form op_r_arith f3_or 0 rd rd (rvc_rd_s r)
    else r_form op_r_arith f3_and 0 rd rd (rvc_rd_s r)

-- C.SUBW and C.ADDW; the rest is reserved, with the registers stored already.
unfoldable pub decode_arith_w : ℕ → Instruction
decode_arith_w r =
    let rd = rvc_rs1_s r in
    let op = rvc_arith r in
    if op == 0
    then r_form op_r_arith_w f3_add_sub f7_alt rd rd (rvc_rd_s r)
    else if op == 1
    then r_form op_r_arith_w f3_add_sub 0 rd rd (rvc_rd_s r)
    else r_form op_illegal 0 0 rd rd (rvc_rd_s r)

unfoldable pub decode_misc_alu : ℕ → Instruction
decode_misc_alu r =
    let rd = rvc_rs1_s r in
    let sub = rvc_sub r in
    if sub == 0
    then i_form op_i_arith f3_srl_sra rd rd (bit_and (imm_ci r) 0x3F)
    else if sub == 1
    then record (i_form op_i_arith f3_srl_sra rd rd (bit_and (imm_ci r) 0x3F)) { funct7 = f7_alt }
    else if sub == 2
    then i_form op_i_arith f3_and rd rd (imm_ci r)
    else if not (truthy (rvc_b12 r))
    then decode_arith r
    else decode_arith_w r

unfoldable pub decode_q1 : ℕ → ℕ → Instruction
decode_q1 f3 r =
    let rd = rvc_rd r in
    if f3 == 0
    then i_form op_i_arith f3_add_sub rd rd (imm_ci r)
    else if f3 == 1
    then i_form op_i_arith_w f3_add_sub rd rd (imm_ci r)
    else if f3 == 2
    then i_form op_i_arith f3_add_sub rd 0 (imm_ci r)
    else if f3 == 3
    then (if rd == reg_sp
        then i_form op_i_arith f3_add_sub reg_sp reg_sp (imm_addi16sp r)
        else record (blank 2) { opcode = op_lui; rd = rd; imm = imm_lui r })
    else if f3 == 4
    then decode_misc_alu r
    else if f3 == 5
    then record (blank 2) { opcode = op_jal; rd = 0; imm = imm_cj r }
    else if f3 == 6
    then s_form op_branch 0 (rvc_rs1_s r) 0 (imm_cb r)
    else s_form op_branch 1 (rvc_rs1_s r) 0 (imm_cb r)

-- C.JR, C.MV, C.EBREAK, C.JALR and C.ADD.
unfoldable pub decode_cr : ℕ → Instruction
decode_cr r =
    let rs1 = rvc_rd r in
    let rs2 = rvc_rs2 r in
    let b12 = truthy (rvc_b12 r) in
    if not b12 && (rs2 == 0)
    then i_form op_jalr 0 0 rs1 0
    else if not b12
    then r_form op_r_arith f3_add_sub 0 rs1 0 rs2
    else if (rs1 == 0) && (rs2 == 0)
    then record (blank 2) { opcode = op_system; funct3 = 0; imm = system_ebreak }
    else if rs2 == 0
    then i_form op_jalr 0 1 rs1 0
    else r_form op_r_arith f3_add_sub 0 rs1 rs1 rs2

unfoldable pub decode_q2 : ℕ → ℕ → Instruction
decode_q2 f3 r =
    let rd = rvc_rd r in
    if f3 == 0
    then i_form op_i_arith f3_sll rd rd (bit_or (at_bit (field r 12 1) 5) (field r 2 0x1F))
    else if f3 == 1
    then i_form op_flw_fld f3_d rd reg_sp (imm_ldsp r)
    else if f3 == 2
    then i_form op_load f3_w rd reg_sp (imm_lwsp r)
    else if f3 == 3
    then i_form op_load f3_d rd reg_sp (imm_ldsp r)
    else if f3 == 4
    then decode_cr r
    else if f3 == 5
    then s_form op_fsw_fsd f3_d reg_sp (rvc_rs2 r) (imm_sdsp r)
    else if f3 == 6
    then s_form op_store f3_w reg_sp (rvc_rs2 r) (imm_swsp r)
    else s_form op_store f3_d reg_sp (rvc_rs2 r) (imm_sdsp r)

-- A word whose low bits are 11 is no compressed instruction: no case of the switch takes it.
unfoldable pub decode_rvc : ℕ → Instruction
decode_rvc r =
    let op = field r 0 0x3 in
    let f3 = field r 13 0x7 in
    if op == 0
    then decode_q0 f3 r
    else if op == 1
    then decode_q1 f3 r
    else if op == 2
    then decode_q2 f3 r
    else blank 2
