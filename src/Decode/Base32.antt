-- ===== src/Decode/Base32.antt =====
-- src/cpu.c: sign_extend and decode.
use tinyvm.Base.{ℕ, ◌-◌, ◌||◌, bit_and, bit_or, ◌==◌, if◌then◌else◌, shr, shl64, shl32, sar64}
use tinyvm.Decode.Instr.{
  Instruction, op_lui, op_auipc, op_jal, op_jalr, op_branch, op_load, op_store, op_i_arith,
  op_i_arith_w, op_system, op_flw_fld, op_fsw_fsd,
}

-- (i64)(val << shift) >> shift, with shift = 64 - bits.
unfoldable pub sign_extend : ℕ → ℕ → ℕ
sign_extend val bits = sar64 (shl64 val (64 - bits)) (64 - bits)

-- The immediates of the formats I, S, B, U and J, out of the 32 bits.
unfoldable pub imm_i : ℕ → ℕ
imm_i raw = sign_extend (shr raw 20) 12

unfoldable pub imm_s : ℕ → ℕ
imm_s raw = sign_extend (bit_or (shl32 (shr raw 25) 5) (bit_and (shr raw 7) 0x1F)) 12

unfoldable pub imm_b : ℕ → ℕ
imm_b raw =
    sign_extend
      (bit_or
        (bit_or (bit_or (shl32 (shr raw 31) 12) (shl32 (bit_and (shr raw 7) 1) 11))
          (shl32 (bit_and (shr raw 25) 0x3F) 5))
        (shl32 (bit_and (shr raw 8) 0xF) 1))
      13

unfoldable pub imm_u : ℕ → ℕ
imm_u raw = sign_extend (bit_and raw 0xFFFFF000) 32

unfoldable pub imm_j : ℕ → ℕ
imm_j raw =
    sign_extend
      (bit_or
        (bit_or (bit_or (shl32 (shr raw 31) 20) (shl32 (bit_and (shr raw 12) 0xFF) 12))
          (shl32 (bit_and (shr raw 20) 1) 11))
        (shl32 (bit_and (shr raw 21) 0x3FF) 1))
      21

-- The switch on the opcode; R-type instructions have no immediate.
unfoldable pub decode_imm : ℕ → ℕ → ℕ
decode_imm opcode raw =
    if opcode == op_jalr
      || (opcode == op_load
          || (opcode == op_flw_fld
              || (opcode == op_i_arith || (opcode == op_i_arith_w || opcode == op_system))))
    then imm_i raw
    else if opcode == op_store || opcode == op_fsw_fsd
    then imm_s raw
    else if opcode == op_branch
    then imm_b raw
    else if opcode == op_lui || opcode == op_auipc
    then imm_u raw
    else if opcode == op_jal
    then imm_j raw
    else 0

unfoldable pub decode : ℕ → Instruction
decode raw = record {
  opcode = bit_and raw 0x7F;
  rd = bit_and (shr raw 7) 0x1F;
  rs1 = bit_and (shr raw 15) 0x1F;
  rs2 = bit_and (shr raw 20) 0x1F;
  funct3 = bit_and (shr raw 12) 0x07;
  funct7 = bit_and (shr raw 25) 0x7F;
  imm = decode_imm (bit_and raw 0x7F) raw;
  size = 4;
}
