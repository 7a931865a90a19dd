-- ===== src/Decode/Formats.antt =====
-- The base formats of the RISC-V manual: how an instruction of each format is laid out in 32 bits, and
-- what its fields and its immediate are. It is written from the manual and shares nothing with
-- src/cpu.c but the opcodes and the record of the result.
use tinyvm.Base.{ℕ, ◌+◌, ◌*◌, ◌/◌, ◌%◌, ◌^◌, ◌<◌, ◌≡◌, ◌⊎◌, widen}
use tinyvm.Decode.Instr.{
  Instruction, op_lui, op_auipc, op_jal, op_jalr, op_branch, op_load, op_store, op_i_arith,
  op_i_arith_w, op_system, op_flw_fld, op_fsw_fsd, op_r_arith, op_r_arith_w, op_amo, op_fp,
}

-- The offsets of branches and jumps are in units of two bytes, and the immediate of the U format is
-- the upper 20 bits. The opcode comes first, then the registers and functs that the format has.
pub data Format : Type 0 where
  r_type : ℕ → ℕ → ℕ → ℕ → ℕ → ℕ → Format
  i_type : ℕ → ℕ → ℕ → ℕ → ℕ → Format
  s_type : ℕ → ℕ → ℕ → ℕ → ℕ → Format
  b_type : ℕ → ℕ → ℕ → ℕ → Format
  u_type : ℕ → ℕ → ℕ → Format
  j_type : ℕ → ℕ → Format

-- opcode[6:0], rd[11:7], funct3[14:12], rs1[19:15], rs2[24:20] and funct7[31:25].
abbrev pub layout : ℕ → ℕ → ℕ → ℕ → ℕ → ℕ → ℕ
layout opcode rd funct3 rs1 rs2 funct7 =
    opcode + 2 ^ 7 * (rd + 2 ^ 5 * (funct3 + 2 ^ 3 * (rs1 + 2 ^ 5 * (rs2 + 2 ^ 5 * funct7))))

-- v is the immediate without its bit 0, which is 0 in the formats B and J.
abbrev pub encode : Format → ℕ
encode (r_type opcode rd funct3 rs1 rs2 funct7) = layout opcode rd funct3 rs1 rs2 funct7
encode (i_type opcode rd funct3 rs1 imm) = layout opcode rd funct3 rs1 (imm % 2 ^ 5) (imm / 2 ^ 5)
encode (s_type opcode funct3 rs1 rs2 imm) = layout opcode (imm % 2 ^ 5) funct3 rs1 rs2 (imm / 2 ^ 5)
encode (b_type funct3 rs1 rs2 v) =
    layout op_branch (v / 2 ^ 10 % 2 + 2 * (v % 2 ^ 4)) funct3 rs1 rs2
      (v / 2 ^ 4 % 2 ^ 6 + 2 ^ 6 * (v / 2 ^ 11))
encode (u_type opcode rd v) = opcode + 2 ^ 7 * (rd + 2 ^ 5 * v)
encode (j_type rd v) =
    op_jal
    + 2 ^ 7
      * (rd
          + 2 ^ 5
            * (v / 2 ^ 11 % 2 ^ 8
                + 2 ^ 8 * (v / 2 ^ 10 % 2 + 2 * (v % 2 ^ 10 + 2 ^ 10 * (v / 2 ^ 19)))))

abbrev pub IsIOpcode : ℕ → Type 0
IsIOpcode o =
    (o ≡ op_jalr)
    ⊎ (o ≡ op_load)
    ⊎ (o ≡ op_flw_fld)
    ⊎ (o ≡ op_i_arith)
    ⊎ (o ≡ op_i_arith_w)
    ⊎ (o ≡ op_system)

abbrev pub IsROpcode : ℕ → Type 0
IsROpcode o = (o ≡ op_r_arith) ⊎ (o ≡ op_r_arith_w) ⊎ (o ≡ op_amo) ⊎ (o ≡ op_fp)

abbrev pub IsSOpcode : ℕ → Type 0
IsSOpcode o = (o ≡ op_store) ⊎ (o ≡ op_fsw_fsd)

abbrev pub IsUOpcode : ℕ → Type 0
IsUOpcode o = (o ≡ op_lui) ⊎ (o ≡ op_auipc)

-- The fields are as wide as the format has them, and the opcode is one of the format.
abbrev pub IsFormat : Format → Type 0
IsFormat (r_type opcode rd funct3 rs1 rs2 funct7) =
    IsROpcode opcode
    × (rd < 2 ^ 5)
    × (funct3 < 2 ^ 3)
    × (rs1 < 2 ^ 5)
    × (rs2 < 2 ^ 5)
    × (funct7 < 2 ^ 7)
IsFormat (i_type opcode rd funct3 rs1 imm) =
    IsIOpcode opcode × (rd < 2 ^ 5) × (funct3 < 2 ^ 3) × (rs1 < 2 ^ 5) × (imm < 2 ^ 12)
IsFormat (s_type opcode funct3 rs1 rs2 imm) =
    IsSOpcode opcode × (funct3 < 2 ^ 3) × (rs1 < 2 ^ 5) × (rs2 < 2 ^ 5) × (imm < 2 ^ 12)
IsFormat (b_type funct3 rs1 rs2 v) = (funct3 < 2 ^ 3) × (rs1 < 2 ^ 5) × (rs2 < 2 ^ 5) × (v < 2 ^ 12)
IsFormat (u_type opcode rd v) = IsUOpcode opcode × (rd < 2 ^ 5) × (v < 2 ^ 20)
IsFormat (j_type rd v) = (rd < 2 ^ 5) × (v < 2 ^ 20)

-- The fields that the format has, and the immediate with its sign. The shifts by a constant have their
-- kind in the top seven bits of the immediate.
abbrev pub HasFields : Format → Instruction → Type 0
HasFields (r_type opcode rd funct3 rs1 rs2 funct7) inst =
    (inst.opcode ≡ opcode)
    × (inst.rd ≡ rd)
    × (inst.funct3 ≡ funct3)
    × (inst.rs1 ≡ rs1)
    × (inst.rs2 ≡ rs2)
    × (inst.funct7 ≡ funct7)
    × (inst.imm ≡ 0)
HasFields (i_type opcode rd funct3 rs1 imm) inst =
    (inst.opcode ≡ opcode)
    × (inst.rd ≡ rd)
    × (inst.funct3 ≡ funct3)
    × (inst.rs1 ≡ rs1)
    × (inst.imm ≡ widen 12 imm)
    × (inst.funct7 ≡ imm / 2 ^ 5)
HasFields (s_type opcode funct3 rs1 rs2 imm) inst =
    (inst.opcode ≡ opcode)
    × (inst.funct3 ≡ funct3)
    × (inst.rs1 ≡ rs1)
    × (inst.rs2 ≡ rs2)
    × (inst.imm ≡ widen 12 imm)
HasFields (b_type funct3 rs1 rs2 v) inst =
    (inst.opcode ≡ op_branch)
    × (inst.funct3 ≡ funct3)
    × (inst.rs1 ≡ rs1)
    × (inst.rs2 ≡ rs2)
    × (inst.imm ≡ widen 13 (2 * v))
HasFields (u_type opcode rd v) inst =
    (inst.opcode ≡ opcode) × (inst.rd ≡ rd) × (inst.imm ≡ widen 32 (v * 2 ^ 12))
HasFields (j_type rd v) inst =
    (inst.opcode ≡ op_jal) × (inst.rd ≡ rd) × (inst.imm ≡ widen 21 (2 * v))
