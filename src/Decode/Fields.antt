-- ===== src/Decode/Fields.antt =====
-- src/cpu.c and src/exec_c.c: every field that the decoders make is in range, so that the register
-- and CSR arrays are never indexed outside.
use tinyvm.Base.{
  ℕ, ◌-◌, ◌^◌, ◌≤◌, ◌<◌, bit_and, ◌==◌, ◌||◌, if-elim, shr, ℤ, pos, negsuc, unsigned, shr_ℤ, i64,
  shl64, arith,
}
use tinyvm.Base.Bits.{bit_and-le_right}
use tinyvm.Decode.Instr.{Instruction}
use tinyvm.Decode.Base32.{sign_extend, imm_i, imm_s, imm_b, imm_u, imm_j, decode_imm, decode}

-- The size is that of one of the two encodings.
pub record InRange (inst : Instruction) : Type 0 where
  pub opcode_fits : inst.opcode < 256
  pub rd_fits : inst.rd < 32
  pub rs1_fits : inst.rs1 < 32
  pub rs2_fits : inst.rs2 < 32
  pub funct3_fits : inst.funct3 < 8
  pub funct7_fits : inst.funct7 < 128
  pub imm_fits : inst.imm < 2 ^ 64
  pub size_fits : inst.size ≤ 4

pub unsigned64-lt : (z : ℤ) → unsigned 64 z < 2 ^ 64
unsigned64-lt (pos n) = omega arith
unsigned64-lt (negsuc n) = omega arith

sign_extend-lt : (val bits : ℕ) → sign_extend val bits < 2 ^ 64
unfolding sign_extend
sign_extend-lt val bits = unsigned64-lt (shr_ℤ (i64 (shl64 val (64 - bits))) (64 - bits))

decode_imm-lt : (opcode raw : ℕ) → decode_imm opcode raw < 2 ^ 64
unfolding decode_imm imm_i imm_s imm_b imm_u imm_j
decode_imm-lt opcode raw =
    let P = λ (v : ℕ). v < 2 ^ 64 in
    let has_imm_i =
      opcode == 0x67
      || (opcode == 0x03
          || (opcode == 0x07 || (opcode == 0x13 || (opcode == 0x1B || opcode == 0x73)))) in
    if-elim P has_imm_i _ _ (λ _. sign_extend-lt _ 12)
      λ _.
        if-elim P (opcode == 0x23 || opcode == 0x27) _ _ (λ _. sign_extend-lt _ 12)
          λ _.
            if-elim P (opcode == 0x63) _ _ (λ _. sign_extend-lt _ 13)
              λ _.
                if-elim P (opcode == 0x37 || opcode == 0x17) _ _ (λ _. sign_extend-lt _ 32)
                  λ _. if-elim P (opcode == 0x6F) _ _ (λ _. sign_extend-lt _ 21) (λ _. omega arith)

-- A masked field.
pub field-lt : (raw w m : ℕ) → m < 2 ^ w → bit_and raw m < 2 ^ w
field-lt raw w m h = omega (arith, bit_and-le_right w raw m h)

-- Whatever the 32 bits are, the decoded registers, functs and immediate are in range.
pub decode-InRange : (raw : ℕ) → InRange (decode raw)
unfolding decode
decode-InRange raw = record {
  opcode_fits = omega (arith, field-lt raw 7 0x7F (omega arith));
  rd_fits = field-lt (shr raw 7) 5 0x1F (omega arith);
  rs1_fits = field-lt (shr raw 15) 5 0x1F (omega arith);
  rs2_fits = field-lt (shr raw 20) 5 0x1F (omega arith);
  funct3_fits = field-lt (shr raw 12) 3 0x07 (omega arith);
  funct7_fits = field-lt (shr raw 25) 7 0x7F (omega arith);
  imm_fits = decode_imm-lt (bit_and raw 0x7F) raw;
  size_fits = omega arith;
}
