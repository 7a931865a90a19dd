-- ===== src/Execute/Alu.antt =====
-- src/cpu.c: the integer computations of execute, as functions of the operands. `fault` is a signed
-- overflow, which C leaves undefined, and `exits 1` an unknown funct3.
use tinyvm.Base.{
  ℕ, ◌-◌, ◌*◌, ◌/◌, ◌%◌, ◌^◌, ◌&&◌, Bool, not, bit_and, bit_or, bit_xor, ◌==◌, ltb, leb,
  if◌then◌else◌, u32, u64, u64_max, u32_max, add64, sub64, shl64, shr, sar64, add32, sub32, shl32,
  sar32, i64, i32, ltb_ℤ, div_ℤ, mod_ℤ, unsigned, has_flag, Outcome, ok, exits, fault,
}
use tinyvm.Decode.Instr.{
  f7_alt, f7_mext, f3_add_sub, f3_sll, f3_slt, f3_sltu, f3_xor, f3_srl_sra, f3_or, f3_and,
}

-- A C comparison as a number.
abbrev pub flag_of : Bool → ℕ
flag_of b = if b then 1 else 0

-- case OP_BRANCH.
unfoldable pub branch_taken : ℕ → ℕ → ℕ → Outcome Bool
branch_taken funct3 rs1 rs2 =
    if funct3 == 0
    then ok (rs1 == rs2)
    else if funct3 == 1
    then ok (not (rs1 == rs2))
    else if funct3 == 4
    then ok (ltb_ℤ (i64 rs1) (i64 rs2))
    else if funct3 == 5
    then ok (not (ltb_ℤ (i64 rs1) (i64 rs2)))
    else if funct3 == 6
    then ok (ltb rs1 rs2)
    else if funct3 == 7
    then ok (leb rs2 rs1)
    else exits 1

-- case OP_I_ARITH.
unfoldable pub i_arith : ℕ → ℕ → ℕ → ℕ → Outcome ℕ
i_arith funct3 funct7 rs1 imm =
    let shamt = bit_and (u32 imm) 0x3F in
    if funct3 == f3_add_sub
    then ok (add64 rs1 imm)
    else if funct3 == f3_slt
    then ok (flag_of (ltb_ℤ (i64 rs1) (i64 imm)))
    else if funct3 == f3_sltu
    then ok (flag_of (ltb rs1 imm))
    else if funct3 == f3_xor
    then ok (bit_xor rs1 imm)
    else if funct3 == f3_or
    then ok (bit_or rs1 imm)
    else if funct3 == f3_and
    then ok (bit_and rs1 imm)
    else if funct3 == f3_sll
    then ok (shl64 rs1 shamt)
    else if funct3 == f3_srl_sra
    then ok (if has_flag funct7 f7_alt then sar64 rs1 shamt else shr rs1 shamt)
    else exits 1

-- Both quotients of the most negative number by -1 overflow.
abbrev pub div_overflows : ℕ → ℕ → ℕ → Bool
div_overflows w a b = (a == 2 ^ (w - 1)) && (b == 2 ^ w - 1)

-- The M extension. MULH multiplies two i128 that were made from u64, so neither is negative.
unfoldable pub m_ext : ℕ → ℕ → ℕ → Outcome ℕ
m_ext funct3 rs1 rs2 =
    if funct3 == 0
    then ok (u64 (rs1 * rs2))
    else if funct3 == 1
    then (if ltb (rs1 * rs2) (2 ^ 127) then ok (u64 (shr (rs1 * rs2) 64)) else fault)
    else if funct3 == 2
    then ok (u64 (shr (rs1 * rs2 % 2 ^ 128) 64))
    else if funct3 == 3
    then ok (u64 (shr (rs1 * rs2 % 2 ^ 128) 64))
    else if funct3 == 4
    then (if rs2 == 0
        then ok u64_max
        else if div_overflows 64 rs1 rs2
        then fault
        else ok (unsigned 64 (div_ℤ (i64 rs1) (i64 rs2))))
    else if funct3 == 5
    then ok (if rs2 == 0 then u64_max else rs1 / rs2)
    else if funct3 == 6
    then (if rs2 == 0
        then ok rs1
        else if div_overflows 64 rs1 rs2
        then fault
        else ok (unsigned 64 (mod_ℤ (i64 rs1) (i64 rs2))))
    else if funct3 == 7
    then ok (if rs2 == 0 then rs1 else rs1 % rs2)
    else exits 1

-- case OP_R_ARITH.
unfoldable pub r_arith : ℕ → ℕ → ℕ → ℕ → Outcome ℕ
r_arith funct3 funct7 rs1 rs2 =
    let shamt = bit_and (u32 rs2) 0x3F in
    if funct7 == f7_mext
    then m_ext funct3 rs1 rs2
    else if funct3 == f3_add_sub
    then ok (if funct7 == f7_alt then sub64 rs1 rs2 else add64 rs1 rs2)
    else if funct3 == f3_sll
    then ok (shl64 rs1 shamt)
    else if funct3 == f3_slt
    then ok (flag_of (ltb_ℤ (i64 rs1) (i64 rs2)))
    else if funct3 == f3_sltu
    then ok (flag_of (ltb rs1 rs2))
    else if funct3 == f3_xor
    then ok (bit_xor rs1 rs2)
    else if funct3 == f3_srl_sra
    then ok (if funct7 == f7_alt then sar64 rs1 shamt else shr rs1 shamt)
    else if funct3 == f3_or
    then ok (bit_or rs1 rs2)
    else if funct3 == f3_and
    then ok (bit_and rs1 rs2)
    else exits 1

-- case OP_I_ARITH_W: 32 bits in and out.
unfoldable pub i_arith_w : ℕ → ℕ → ℕ → ℕ → Outcome ℕ
i_arith_w funct3 funct7 rs1 imm =
    let rs1w = u32 rs1 in
    let shamt = bit_and (u32 imm) 0x1F in
    if funct3 == f3_add_sub
    then ok (add32 rs1w (u32 imm))
    else if funct3 == f3_sll
    then ok (shl32 rs1w shamt)
    else if funct3 == f3_srl_sra
    then ok (if funct7 == f7_alt then sar32 rs1w shamt else shr rs1w shamt)
    else exits 1

unfoldable pub m_ext_w : ℕ → ℕ → ℕ → Outcome ℕ
m_ext_w funct3 rs1w rs2w =
    if funct3 == 0
    then ok (u32 (rs1w * rs2w))
    else if funct3 == 4
    then (if rs2w == 0
        then ok u32_max
        else if div_overflows 32 rs1w rs2w
        then fault
        else ok (unsigned 32 (div_ℤ (i32 rs1w) (i32 rs2w))))
    else if funct3 == 5
    then ok (if rs2w == 0 then u32_max else rs1w / rs2w)
    else if funct3 == 6
    then (if rs2w == 0
        then ok rs1w
        else if div_overflows 32 rs1w rs2w
        then fault
        else ok (unsigned 32 (mod_ℤ (i32 rs1w) (i32 rs2w))))
    else if funct3 == 7
    then ok (if rs2w == 0 then rs1w else rs1w % rs2w)
    else exits 1

-- case OP_R_ARITH_W.
unfoldable pub r_arith_w : ℕ → ℕ → ℕ → ℕ → Outcome ℕ
r_arith_w funct3 funct7 rs1 rs2 =
    let rs1w = u32 rs1 in
    let rs2w = u32 rs2 in
    let shamt = bit_and rs2w 0x1F in
    if funct7 == f7_mext
    then m_ext_w funct3 rs1w rs2w
    else if funct3 == f3_add_sub
    then ok (if funct7 == f7_alt then sub32 rs1w rs2w else add32 rs1w rs2w)
    else if funct3 == f3_sll
    then ok (shl32 rs1w shamt)
    else if funct3 == f3_srl_sra
    then ok (if funct7 == f7_alt then sar32 rs1w shamt else shr rs1w shamt)
    else exits 1
