-- ===== src/Execute/Manual.antt =====
-- The integer instructions of the RISC-V manual that compute or jump: their format, and what they do to
-- the registers and to the pc.
use tinyvm.Base.{
  ℕ, ◌+◌, ◌*◌, ◌/◌, ◌%◌, ◌^◌, ◌<◌, ◌==◌, Bool, not, ltb, leb, ltb_ℤ, i64, if◌then◌else◌, bit_and,
  bit_or, bit_xor, add64, sub64, shl64, sar64, add32, sub32, shl32, sar32, u32, widen, set_at,
}
use tinyvm.Machine.{Cpu}
use tinyvm.Decode.Instr.{
  op_lui, op_auipc, op_jalr, op_i_arith, op_r_arith, op_i_arith_w, op_r_arith_w,
}
use tinyvm.Decode.Formats.{Format, r_type, i_type, b_type, u_type, j_type}

-- Operations that have a form with a constant, shifts, and the conditions of branches.
pub data Plain : Type 0 where
  add slt sltu xor or and : Plain

pub data Shift : Type 0 where
  sll srl sra : Shift

pub data Condition : Type 0 where
  eq ne lt ge ltu geu : Condition

-- Registers are by number, rd first; constants are the bits of their field.
pub data Op : Type 0 where
  reg_op : Plain → ℕ → ℕ → ℕ → Op
  reg_shift : Shift → ℕ → ℕ → ℕ → Op
  sub addw subw : ℕ → ℕ → ℕ → Op
  shift_w : Shift → ℕ → ℕ → ℕ → Op
  imm_op : Plain → ℕ → ℕ → ℕ → Op
  imm_shift : Shift → ℕ → ℕ → ℕ → Op
  addiw : ℕ → ℕ → ℕ → Op
  imm_shift_w : Shift → ℕ → ℕ → ℕ → Op
  lui auipc jal : ℕ → ℕ → Op
  jalr : ℕ → ℕ → ℕ → Op
  branch : Condition → ℕ → ℕ → ℕ → Op

abbrev pub funct3_of : Plain → ℕ
funct3_of add = 0
funct3_of slt = 2
funct3_of sltu = 3
funct3_of xor = 4
funct3_of or = 6
funct3_of and = 7

abbrev pub shift3_of : Shift → ℕ
shift3_of sll = 1
shift3_of srl = 5
shift3_of sra = 5

abbrev pub shift7_of : Shift → ℕ
shift7_of sll = 0
shift7_of srl = 0
shift7_of sra = 0x20

abbrev pub branch3_of : Condition → ℕ
branch3_of eq = 0
branch3_of ne = 1
branch3_of lt = 4
branch3_of ge = 5
branch3_of ltu = 6
branch3_of geu = 7

abbrev pub format : Op → Format
format (reg_op o rd rs1 rs2) = r_type op_r_arith rd (funct3_of o) rs1 rs2 0
format (reg_shift o rd rs1 rs2) = r_type op_r_arith rd (shift3_of o) rs1 rs2 (shift7_of o)
format (sub rd rs1 rs2) = r_type op_r_arith rd 0 rs1 rs2 0x20
format (addw rd rs1 rs2) = r_type op_r_arith_w rd 0 rs1 rs2 0
format (subw rd rs1 rs2) = r_type op_r_arith_w rd 0 rs1 rs2 0x20
format (shift_w o rd rs1 rs2) = r_type op_r_arith_w rd (shift3_of o) rs1 rs2 (shift7_of o)
format (imm_op o rd rs1 imm) = i_type op_i_arith rd (funct3_of o) rs1 imm
format (imm_shift o rd rs1 shamt) =
    i_type op_i_arith rd (shift3_of o) rs1 (shamt + 2 ^ 5 * shift7_of o)
format (addiw rd rs1 imm) = i_type op_i_arith_w rd 0 rs1 imm
format (imm_shift_w o rd rs1 shamt) =
    i_type op_i_arith_w rd (shift3_of o) rs1 (shamt + 2 ^ 5 * shift7_of o)
format (lui rd v) = u_type op_lui rd v
format (auipc rd v) = u_type op_auipc rd v
format (jal rd v) = j_type rd v
format (jalr rd rs1 imm) = i_type op_jalr rd 0 rs1 imm
format (branch o rs1 rs2 v) = b_type (branch3_of o) rs1 rs2 v

abbrev ThreeRegs : ℕ → ℕ → ℕ → Type 0
ThreeRegs rd rs1 rs2 = (rd < 32) × (rs1 < 32) × (rs2 < 32)

abbrev pub IsOp : Op → Type 0
IsOp (reg_op o rd rs1 rs2) = ThreeRegs rd rs1 rs2
IsOp (reg_shift o rd rs1 rs2) = ThreeRegs rd rs1 rs2
IsOp (sub rd rs1 rs2) = ThreeRegs rd rs1 rs2
IsOp (addw rd rs1 rs2) = ThreeRegs rd rs1 rs2
IsOp (subw rd rs1 rs2) = ThreeRegs rd rs1 rs2
IsOp (shift_w o rd rs1 rs2) = ThreeRegs rd rs1 rs2
IsOp (imm_op o rd rs1 imm) = (rd < 32) × (rs1 < 32) × (imm < 2 ^ 12)
IsOp (imm_shift o rd rs1 shamt) = (rd < 32) × (rs1 < 32) × (shamt < 64)
IsOp (addiw rd rs1 imm) = (rd < 32) × (rs1 < 32) × (imm < 2 ^ 12)
IsOp (imm_shift_w o rd rs1 shamt) = (rd < 32) × (rs1 < 32) × (shamt < 32)
IsOp (lui rd v) = (rd < 32) × (v < 2 ^ 20)
IsOp (auipc rd v) = (rd < 32) × (v < 2 ^ 20)
IsOp (jal rd v) = (rd < 32) × (v < 2 ^ 20)
IsOp (jalr rd rs1 imm) = (rd < 32) × (rs1 < 32) × (imm < 2 ^ 12)
IsOp (branch o rs1 rs2 v) = (rs1 < 32) × (rs2 < 32) × (v < 2 ^ 12)

-- The results, modulo 2 ^ 64; a shift takes the low six bits of its distance.
abbrev pub result : Plain → ℕ → ℕ → ℕ
result add a b = add64 a b
result slt a b = if ltb_ℤ (i64 a) (i64 b) then 1 else 0
result sltu a b = if ltb a b then 1 else 0
result xor a b = bit_xor a b
result or a b = bit_or a b
result and a b = bit_and a b

abbrev pub shifted : Shift → ℕ → ℕ → ℕ
shifted sll a k = shl64 a k
shifted srl a k = a / 2 ^ k
shifted sra a k = sar64 a k

-- The operations on 32 bits, before their result is widened by its sign.
abbrev pub shifted_w : Shift → ℕ → ℕ → ℕ
shifted_w sll a k = shl32 a k
shifted_w srl a k = a / 2 ^ k
shifted_w sra a k = sar32 a k

abbrev pub holds : Condition → ℕ → ℕ → Bool
holds eq a b = a == b
holds ne a b = not (a == b)
holds lt a b = ltb_ℤ (i64 a) (i64 b)
holds ge a b = not (ltb_ℤ (i64 a) (i64 b))
holds ltu a b = ltb a b
holds geu a b = leb b a

-- x0 stays.
abbrev pub put : (ℕ → ℕ) → ℕ → ℕ → ℕ → ℕ
put regs rd v = if rd == 0 then regs else set_at regs rd v

abbrev pub computes : ℕ → ℕ → ℕ → Cpu → Cpu
computes size rd v c = record c { regs = put c.regs rd v; pc = add64 c.pc size }

abbrev pub jumps : ℕ → ℕ → ℕ → Cpu → Cpu
jumps size rd target c = record c { regs = put c.regs rd (add64 c.pc size); pc = target }

-- The hart after an instruction of `size` bytes.
abbrev pub run_op : ℕ → Op → Cpu → Cpu
run_op size (reg_op o rd rs1 rs2) c = computes size rd (result o (c.regs rs1) (c.regs rs2)) c
run_op size (reg_shift o rd rs1 rs2) c =
    computes size rd (shifted o (c.regs rs1) (c.regs rs2 % 64)) c
run_op size (sub rd rs1 rs2) c = computes size rd (sub64 (c.regs rs1) (c.regs rs2)) c
run_op size (addw rd rs1 rs2) c = computes size rd (widen 32 (add32 (c.regs rs1) (c.regs rs2))) c
run_op size (subw rd rs1 rs2) c =
    computes size rd (widen 32 (sub32 (u32 (c.regs rs1)) (u32 (c.regs rs2)))) c
run_op size (shift_w o rd rs1 rs2) c =
    computes size rd (widen 32 (shifted_w o (u32 (c.regs rs1)) (c.regs rs2 % 32))) c
run_op size (imm_op o rd rs1 imm) c = computes size rd (result o (c.regs rs1) (widen 12 imm)) c
run_op size (imm_shift o rd rs1 shamt) c = computes size rd (shifted o (c.regs rs1) shamt) c
run_op size (addiw rd rs1 imm) c = computes size rd (widen 32 (add32 (c.regs rs1) (widen 12 imm))) c
run_op size (imm_shift_w o rd rs1 shamt) c =
    computes size rd (widen 32 (shifted_w o (u32 (c.regs rs1)) shamt)) c
run_op size (lui rd v) c = computes size rd (widen 32 (v * 2 ^ 12)) c
run_op size (auipc rd v) c = computes size rd (add64 c.pc (widen 32 (v * 2 ^ 12))) c
run_op size (jal rd v) c = jumps size rd (add64 c.pc (widen 21 (2 * v))) c
run_op size (jalr rd rs1 imm) c = jumps size rd (2 * (add64 (c.regs rs1) (widen 12 imm) / 2)) c
run_op size (branch o rs1 rs2 v) c = record c {
  pc = if holds o (c.regs rs1) (c.regs rs2) then add64 c.pc (widen 13 (2 * v)) else add64 c.pc size;
}
