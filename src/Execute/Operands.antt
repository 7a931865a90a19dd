-- ===== src/Execute/Operands.antt =====
-- The operands of the integer instructions of the manual (Execute/Manual) fit their formats.
use tinyvm.Base.{◌^◌, ◌<◌, refl, inl, inr, arith}
use tinyvm.Decode.Formats.{IsFormat}
use tinyvm.Execute.Manual.{
  Plain, add, slt, sltu, xor, or, and, Shift, sll, srl, sra, Condition, eq, ne, lt, ge, ltu, geu,
  Op, reg_op, reg_shift, sub, addw, subw, shift_w, imm_op, imm_shift, addiw, imm_shift_w, lui,
  auipc, jal, jalr, branch, format, IsOp, funct3_of, shift3_of, shift7_of, branch3_of,
}

-- The operands of an integer instruction fit its format.
funct3-fits : (o : Plain) → funct3_of o < 2 ^ 3
funct3-fits add = omega arith
funct3-fits slt = omega arith
funct3-fits sltu = omega arith
funct3-fits xor = omega arith
funct3-fits or = omega arith
funct3-fits and = omega arith

shift-fits : (o : Shift) → (shift3_of o < 2 ^ 3) × (shift7_of o < 2 ^ 6)
shift-fits sll = (omega arith, omega arith)
shift-fits srl = (omega arith, omega arith)
shift-fits sra = (omega arith, omega arith)

branch3-fits : (o : Condition) → branch3_of o < 2 ^ 3
branch3-fits eq = omega arith
branch3-fits ne = omega arith
branch3-fits lt = omega arith
branch3-fits ge = omega arith
branch3-fits ltu = omega arith
branch3-fits geu = omega arith

pub format-IsFormat : (op : Op) → IsOp op → IsFormat (format op)
format-IsFormat (reg_op o rd rs1 rs2) h = (inl refl, h.0, funct3-fits o, h.1, h.2, omega arith)
format-IsFormat (reg_shift o rd rs1 rs2) h =
    (inl refl, h.0, (shift-fits o).0, h.1, h.2, omega (arith, (shift-fits o).1))
format-IsFormat (sub rd rs1 rs2) h = (inl refl, h.0, omega arith, h.1, h.2, omega arith)
format-IsFormat (addw rd rs1 rs2) h = (inr (inl refl), h.0, omega arith, h.1, h.2, omega arith)
format-IsFormat (subw rd rs1 rs2) h = (inr (inl refl), h.0, omega arith, h.1, h.2, omega arith)
format-IsFormat (shift_w o rd rs1 rs2) h =
    (inr (inl refl), h.0, (shift-fits o).0, h.1, h.2, omega (arith, (shift-fits o).1))
format-IsFormat (imm_op o rd rs1 imm) h = (ground arith, h.0, funct3-fits o, h.1, h.2)
format-IsFormat (imm_shift o rd rs1 shamt) h =
    (ground arith, h.0, (shift-fits o).0, h.1, omega (arith, h.2, (shift-fits o).1))
format-IsFormat (addiw rd rs1 imm) h = (ground arith, h.0, omega arith, h.1, h.2)
format-IsFormat (imm_shift_w o rd rs1 shamt) h =
    (ground arith, h.0, (shift-fits o).0, h.1, omega (arith, h.2, (shift-fits o).1))
format-IsFormat (lui rd v) h = (inl refl, h.0, h.1)
format-IsFormat (auipc rd v) h = (inr refl, h.0, h.1)
format-IsFormat (jal rd v) h = h
format-IsFormat (jalr rd rs1 imm) h = (inl refl, h.0, omega arith, h.1, h.2)
format-IsFormat (branch o rs1 rs2 v) h = (branch3-fits o, h.0, h.1, h.2)
