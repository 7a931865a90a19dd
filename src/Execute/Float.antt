-- ===== src/Execute/Float.antt =====
-- src/cpu.c: the float registers, fclass, and execute_fp_single and execute_fp_double.
-- The arithmetic of the host's float and double is not in the source: it is a parameter, on bit
-- patterns. The registers, the dispatch and the sign operations are the source's.
use tinyvm.Base.{
  ℕ, ◌+◌, ◌*◌, ◌/◌, ◌^◌, ◌&&◌, Bool, not, bit_and, bit_or, bit_xor, ◌==◌, if◌then◌else◌, u32, u64,
  not64, not32, shr, widen, set_at, Outcome, ok, exits, fault, spins,
}
use tinyvm.Machine.{Cpu}
use tinyvm.Cpu.Csr.{reg_write}
use tinyvm.Decode.Instr.{Instruction, op_fmadd, op_fmsub, op_fnmsub}
use tinyvm.Execute.Alu.{flag_of}

-- One width of IEEE numbers, as the host compiles the C operators and the functions of math.h.
pub record FloatFormat : Type 0 where
  pub add : ℕ → ℕ → ℕ
  pub sub : ℕ → ℕ → ℕ
  pub mul : ℕ → ℕ → ℕ
  pub div : ℕ → ℕ → ℕ
  pub sqrt : ℕ → ℕ
  pub neg : ℕ → ℕ
  pub fmin : ℕ → ℕ → ℕ
  pub fmax : ℕ → ℕ → ℕ
  pub eq : ℕ → ℕ → Bool
  pub lt : ℕ → ℕ → Bool
  pub le : ℕ → ℕ → Bool
  pub is_inf : ℕ → Bool
  pub is_nan : ℕ → Bool
  pub is_normal : ℕ → Bool
  pub is_subnormal : ℕ → Bool
  pub signbit : ℕ → Bool
  pub to_i32 : ℕ → ℕ
  pub to_u32 : ℕ → ℕ
  pub to_i64 : ℕ → ℕ
  pub to_u64 : ℕ → ℕ
  pub of_i32 : ℕ → ℕ
  pub of_u32 : ℕ → ℕ
  pub of_i64 : ℕ → ℕ
  pub of_u64 : ℕ → ℕ

-- `narrow` is (float)d, `extend` is (double)f.
pub record HostFloat : Type 0 where
  pub single : FloatFormat
  pub double : FloatFormat
  pub narrow : ℕ → ℕ
  pub extend : ℕ → ℕ

-- memcpy of the low four bytes of a register.
unfoldable pub freg_get_f : Cpu → ℕ → ℕ
freg_get_f c r = u32 (c.fregs r)

unfoldable pub freg_get_d : Cpu → ℕ → ℕ
freg_get_d c r = c.fregs r

-- The high four bytes stay as they are.
unfoldable pub freg_set_f : Cpu → ℕ → ℕ → Cpu
freg_set_f c r v = record c { fregs = set_at c.fregs r (c.fregs r / 2 ^ 32 * 2 ^ 32 + u32 v) }

unfoldable pub freg_set_d : Cpu → ℕ → ℕ → Cpu
freg_set_d c r v = record c { fregs = set_at c.fregs r v }

-- fclass_f and fclass_d: zero is the pattern 0 in both widths.
unfoldable pub fclass : FloatFormat → ℕ → ℕ
fclass f v =
    let negative = f.lt v 0 in
    let positive = f.lt 0 v in
    let is_zero = f.eq v 0 in
    if f.is_inf v && negative
    then 2 ^ 0
    else if f.is_normal v && negative
    then 2 ^ 1
    else if f.is_subnormal v && negative
    then 2 ^ 2
    else if is_zero && f.signbit v
    then 2 ^ 3
    else if is_zero && not (f.signbit v)
    then 2 ^ 4
    else if f.is_subnormal v && positive
    then 2 ^ 5
    else if f.is_normal v && positive
    then 2 ^ 6
    else if f.is_inf v && positive
    then 2 ^ 7
    else if f.is_nan v
    then 2 ^ 9
    else 0

-- The sign operations, at a sign mask and the complement of the width.
unfoldable pub fsgnj : ℕ → ℕ → (ℕ → ℕ) → ℕ → ℕ → ℕ → Outcome ℕ
fsgnj sign rest complement funct3 a b =
    if funct3 == 0
    then ok (bit_or (bit_and a rest) (bit_and b sign))
    else if funct3 == 1
    then ok (bit_or (bit_and a rest) (bit_and (complement b) sign))
    else if funct3 == 2
    then ok (bit_or (bit_and a rest) (bit_and (bit_xor a b) sign))
    else exits 1

unfoldable pub fsgnj_s : ℕ → ℕ → ℕ → Outcome ℕ
fsgnj_s = fsgnj 0x80000000 0x7FFFFFFF not32

unfoldable pub fsgnj_d : ℕ → ℕ → ℕ → Outcome ℕ
fsgnj_d = fsgnj 0x8000000000000000 (not64 0x8000000000000000) not64

unfoldable pub fminmax : FloatFormat → ℕ → ℕ → ℕ → ℕ
fminmax f funct3 a b =
    if f.is_nan a
    then b
    else if f.is_nan b
    then a
    else if funct3 == 0
    then f.fmin a b
    else f.fmax a b

-- fcvt to an integer, by rs2. The two 32-bit results are widened as the source casts them.
unfoldable pub fcvt_fi : FloatFormat → ℕ → ℕ → Outcome ℕ
fcvt_fi f kind v =
    if kind == 0
    then ok (widen 32 (u32 (f.to_i32 v)))
    else if kind == 1
    then ok (u32 (f.to_u32 v))
    else if kind == 2
    then ok (u64 (f.to_i64 v))
    else if kind == 3
    then ok (u64 (f.to_u64 v))
    else exits 1

unfoldable pub fcvt_if : FloatFormat → ℕ → ℕ → Outcome ℕ
fcvt_if f kind x =
    if kind == 0
    then ok (f.of_i32 (u32 x))
    else if kind == 1
    then ok (f.of_u32 (u32 x))
    else if kind == 2
    then ok (f.of_i64 x)
    else if kind == 3
    then ok (f.of_u64 x)
    else exits 1

unfoldable pub fcmp : FloatFormat → ℕ → ℕ → ℕ → Outcome ℕ
fcmp f funct3 a b =
    if funct3 == 2
    then ok (flag_of (f.eq a b))
    else if funct3 == 1
    then ok (flag_of (f.lt a b))
    else if funct3 == 0
    then ok (flag_of (f.le a b))
    else exits 1

-- Store a computed value: in a float register of either width, or in an integer register.
abbrev pub then_set : (Cpu → ℕ → ℕ → Cpu) → Cpu → ℕ → Outcome ℕ → Outcome Cpu
then_set put c rd (ok v) = ok (put c rd v)
then_set put c rd (exits code) = exits code
then_set put c rd fault = fault
then_set put c rd spins = spins

module _ (host : HostFloat) where
  unfoldable pub execute_fp_single : Cpu → Instruction → Outcome Cpu
  execute_fp_single c inst =
      let f = host.single in
      let funct5 = shr inst.funct7 2 in
      let rd = inst.rd in
      let rs1i = c.regs inst.rs1 in
      let fs1 = freg_get_f c inst.rs1 in
      let fs2 = freg_get_f c inst.rs2 in
      if funct5 == 0x00
      then ok (freg_set_f c rd (f.add fs1 fs2))
      else if funct5 == 0x01
      then ok (freg_set_f c rd (f.sub fs1 fs2))
      else if funct5 == 0x02
      then ok (freg_set_f c rd (f.mul fs1 fs2))
      else if funct5 == 0x03
      then ok (freg_set_f c rd (f.div fs1 fs2))
      else if funct5 == 0x0B
      then ok (freg_set_f c rd (f.sqrt fs1))
      else if funct5 == 0x04
      then then_set freg_set_f c rd (fsgnj_s inst.funct3 fs1 fs2)
      else if funct5 == 0x05
      then ok (freg_set_f c rd (fminmax f inst.funct3 fs1 fs2))
      else if funct5 == 0x08
      then ok (freg_set_f c rd (host.narrow (freg_get_d c inst.rs1)))
      else if funct5 == 0x18
      then then_set reg_write c rd (fcvt_fi f inst.rs2 fs1)
      else if funct5 == 0x1A
      then then_set freg_set_f c rd (fcvt_if f inst.rs2 rs1i)
      else if funct5 == 0x1C
      then ok (reg_write c rd (if inst.funct3 == 0 then widen 32 fs1 else fclass f fs1))
      else if funct5 == 0x14
      then then_set reg_write c rd (fcmp f inst.funct3 fs1 fs2)
      else if funct5 == 0x1E
      then ok (freg_set_f c rd (u32 rs1i))
      else exits 1

  unfoldable pub execute_fp_double : Cpu → Instruction → Outcome Cpu
  execute_fp_double c inst =
      let f = host.double in
      let funct5 = shr inst.funct7 2 in
      let rd = inst.rd in
      let rs1i = c.regs inst.rs1 in
      let fd1 = freg_get_d c inst.rs1 in
      let fd2 = freg_get_d c inst.rs2 in
      if funct5 == 0x00
      then ok (freg_set_d c rd (f.add fd1 fd2))
      else if funct5 == 0x01
      then ok (freg_set_d c rd (f.sub fd1 fd2))
      else if funct5 == 0x02
      then ok (freg_set_d c rd (f.mul fd1 fd2))
      else if funct5 == 0x03
      then ok (freg_set_d c rd (f.div fd1 fd2))
      else if funct5 == 0x0B
      then ok (freg_set_d c rd (f.sqrt fd1))
      else if funct5 == 0x04
      then then_set freg_set_d c rd (fsgnj_d inst.funct3 fd1 fd2)
      else if funct5 == 0x05
      then ok (freg_set_d c rd (fminmax f inst.funct3 fd1 fd2))
      else if funct5 == 0x08
      then ok (freg_set_d c rd (host.extend (freg_get_f c inst.rs1)))
      else if funct5 == 0x18
      then then_set reg_write c rd (fcvt_fi f inst.rs2 fd1)
      else if funct5 == 0x1A
      then then_set freg_set_d c rd (fcvt_if f inst.rs2 rs1i)
      else if funct5 == 0x1C
      then ok (reg_write c rd (if inst.funct3 == 0 then fd1 else fclass f fd1))
      else if funct5 == 0x14
      then then_set reg_write c rd (fcmp f inst.funct3 fd1 fd2)
      else if funct5 == 0x1E
      then ok (freg_set_d c rd rs1i)
      else exits 1

  -- a * b + c and its variants, in the two operations that the expression is written with.
  unfoldable pub fused : FloatFormat → ℕ → ℕ → ℕ → ℕ → ℕ
  fused f opcode a b c =
      if opcode == op_fmadd
      then f.add (f.mul a b) c
      else if opcode == op_fmsub
      then f.sub (f.mul a b) c
      else if opcode == op_fnmsub
      then f.add (f.mul (f.neg a) b) c
      else f.sub (f.mul (f.neg a) b) c

  unfoldable pub execute_fma : Cpu → Instruction → Cpu
  execute_fma c inst =
      let rs3 = shr inst.funct7 2 in
      if bit_and inst.funct7 3 == 0
      then freg_set_f c inst.rd (
          fused host.single inst.opcode (freg_get_f c inst.rs1) (freg_get_f c inst.rs2)
            (freg_get_f c rs3))
      else freg_set_d c inst.rd (
          fused host.double inst.opcode (freg_get_d c inst.rs1) (freg_get_d c inst.rs2)
            (freg_get_d c rs3))
