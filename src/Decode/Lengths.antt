-- ===== src/Decode/Lengths.antt =====
-- The base formats of the manual fill 32 bits that end in 11.
use tinyvm.Base.{ℕ, ◌+◌, ◌*◌, ◌/◌, ◌%◌, ◌^◌, ◌<◌, ◌≡◌, refl, arith}
use tinyvm.Decode.Instr.{op_branch, op_jal}
use tinyvm.Decode.Formats.{
  Format, r_type, i_type, s_type, b_type, u_type, j_type, encode, IsFormat, layout, IsIOpcode,
  IsSOpcode, IsUOpcode, IsROpcode,
}

abbrev IsLong : ℕ → Type 0
IsLong raw = (raw < 2 ^ 32) × (raw % 4 ≡ 3)

abbrev IsLongOpcode : ℕ → Type 0
IsLongOpcode o = (o < 2 ^ 7) × (o % 4 ≡ 3)

i-IsLongOpcode : (o : ℕ) → IsIOpcode o → IsLongOpcode o
i-IsLongOpcode o h = ground arith

s-IsLongOpcode : (o : ℕ) → IsSOpcode o → IsLongOpcode o
s-IsLongOpcode o h = ground arith

u-IsLongOpcode : (o : ℕ) → IsUOpcode o → IsLongOpcode o
u-IsLongOpcode o h = ground arith

r-IsLongOpcode : (o : ℕ) → IsROpcode o → IsLongOpcode o
r-IsLongOpcode o h = ground arith

low-IsLong : (o rest : ℕ) → IsLongOpcode o → rest < 2 ^ 25 → IsLong (o + 2 ^ 7 * rest)
low-IsLong o rest h l = (omega (arith, h.0), omega (arith, h.1))

layout-IsLong :
    (opcode rd funct3 rs1 rs2 funct7 : ℕ)
    → IsLongOpcode opcode
    → rd < 2 ^ 5
    → funct3 < 2 ^ 3
    → rs1 < 2 ^ 5
    → rs2 < 2 ^ 5
    → funct7 < 2 ^ 7
    → IsLong (layout opcode rd funct3 rs1 rs2 funct7)
layout-IsLong opcode rd funct3 rs1 rs2 funct7 h hd h3 h1 h2 h7 =
    low-IsLong opcode (rd + 2 ^ 5 * (funct3 + 2 ^ 3 * (rs1 + 2 ^ 5 * (rs2 + 2 ^ 5 * funct7)))) h
      (omega arith)

pub encode-IsLong : (f : Format) → IsFormat f → (encode f < 2 ^ 32) × (encode f % 4 ≡ 3)
encode-IsLong (r_type opcode rd funct3 rs1 rs2 funct7) h =
    layout-IsLong opcode rd funct3 rs1 rs2 funct7 (r-IsLongOpcode opcode h.0) h.1 h.2 h.3 h.4 h.5
encode-IsLong (i_type opcode rd funct3 rs1 imm) h =
    layout-IsLong opcode rd funct3 rs1 (imm % 2 ^ 5) (imm / 2 ^ 5) (i-IsLongOpcode opcode h.0) h.1
      h.2 h.3 (omega arith) (omega arith)
encode-IsLong (s_type opcode funct3 rs1 rs2 imm) h =
    layout-IsLong opcode (imm % 2 ^ 5) funct3 rs1 rs2 (imm / 2 ^ 5) (s-IsLongOpcode opcode h.0)
      (omega arith) h.1 h.2 h.3 (omega arith)
encode-IsLong (b_type funct3 rs1 rs2 v) h =
    layout-IsLong op_branch (v / 2 ^ 10 % 2 + 2 * (v % 2 ^ 4)) funct3 rs1 rs2
      (v / 2 ^ 4 % 2 ^ 6 + 2 ^ 6 * (v / 2 ^ 11)) (omega arith, refl) (omega arith) h.0 h.1 h.2
      (omega arith)
encode-IsLong (u_type opcode rd v) h =
    low-IsLong opcode (rd + 2 ^ 5 * v) (u-IsLongOpcode opcode h.0) (omega arith)
encode-IsLong (j_type rd v) h =
    low-IsLong op_jal
      (rd
        + 2 ^ 5
          * (v / 2 ^ 11 % 2 ^ 8
              + 2 ^ 8 * (v / 2 ^ 10 % 2 + 2 * (v % 2 ^ 10 + 2 ^ 10 * (v / 2 ^ 19)))))
      (omega arith, refl) (omega arith)
