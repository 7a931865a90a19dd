-- ===== src/Decode/Instr.antt =====
-- include/exec.h: the decoded instruction; include/opcodes.h: the codes that both decoders use.
use tinyvm.Base.{ℕ}

-- `imm` is the 64-bit pattern of the source's i64.
pub record Instruction : Type 0 where
  pub opcode : ℕ
  pub rd : ℕ
  pub rs1 : ℕ
  pub rs2 : ℕ
  pub funct3 : ℕ
  pub funct7 : ℕ
  pub imm : ℕ
  pub size : ℕ

abbrev pub op_lui : ℕ
op_lui = 0x37

abbrev pub op_auipc : ℕ
op_auipc = 0x17

abbrev pub op_jal : ℕ
op_jal = 0x6F

abbrev pub op_jalr : ℕ
op_jalr = 0x67

abbrev pub op_branch : ℕ
op_branch = 0x63

abbrev pub op_load : ℕ
op_load = 0x03

abbrev pub op_store : ℕ
op_store = 0x23

abbrev pub op_i_arith : ℕ
op_i_arith = 0x13

abbrev pub op_r_arith : ℕ
op_r_arith = 0x33

abbrev pub op_i_arith_w : ℕ
op_i_arith_w = 0x1B

abbrev pub op_r_arith_w : ℕ
op_r_arith_w = 0x3B

abbrev pub op_system : ℕ
op_system = 0x73

abbrev pub op_fence : ℕ
op_fence = 0x0F

abbrev pub op_amo : ℕ
op_amo = 0x2F

abbrev pub op_flw_fld : ℕ
op_flw_fld = 0x07

abbrev pub op_fsw_fsd : ℕ
op_fsw_fsd = 0x27

abbrev pub op_fmadd : ℕ
op_fmadd = 0x43

abbrev pub op_fmsub : ℕ
op_fmsub = 0x47

abbrev pub op_fnmsub : ℕ
op_fnmsub = 0x4B

abbrev pub op_fnmadd : ℕ
op_fnmadd = 0x4F

abbrev pub op_fp : ℕ
op_fp = 0x53

-- What the compressed decoder stores for a reserved encoding.
abbrev pub op_illegal : ℕ
op_illegal = 0xFF

abbrev pub f7_alt : ℕ
f7_alt = 0x20

abbrev pub f7_mext : ℕ
f7_mext = 0x01

-- funct3 of loads and stores that the compressed decoder uses.
abbrev pub f3_w : ℕ
f3_w = 2

abbrev pub f3_d : ℕ
f3_d = 3

-- funct3 of arithmetic.
abbrev pub f3_add_sub : ℕ
f3_add_sub = 0

abbrev pub f3_sll : ℕ
f3_sll = 1

abbrev pub f3_slt : ℕ
f3_slt = 2

abbrev pub f3_sltu : ℕ
f3_sltu = 3

abbrev pub f3_xor : ℕ
f3_xor = 4

abbrev pub f3_srl_sra : ℕ
f3_srl_sra = 5

abbrev pub f3_or : ℕ
f3_or = 6

abbrev pub f3_and : ℕ
f3_and = 7

abbrev pub system_ebreak : ℕ
system_ebreak = 1

-- Instruction inst = {.size = …}: the other fields start at 0.
abbrev pub blank : ℕ → Instruction
blank size = record {
  opcode = 0;
  rd = 0;
  rs1 = 0;
  rs2 = 0;
  funct3 = 0;
  funct7 = 0;
  imm = 0;
  size = size;
}
