-- ===== src/Wf/Alu.antt =====
-- src/cpu.c: every integer result fits a register, and every 32-bit one 32 bits.
use tinyvm.Base.{
  ℕ, ◌*◌, ◌/◌, ◌%◌, ◌^◌, ◌<◌, Bool, bit_and, ◌==◌, ltb, if-elim, u32, u64_max, shr, ℤ, pos, negsuc,
  unsigned, widen, signed, has_flag, ltb_ℤ, i64, Outcome, ok, exits, fault, spins, arith, sar64,
  sub64, add64,
}
use native.Mathlib.Nat.{div-le_self, mod-le}
use tinyvm.Base.Bits.{bit_and-lt, bit_or-lt, bit_xor-lt}
use tinyvm.Decode.Instr.{f7_alt, f7_mext}
use tinyvm.Execute.Alu.{flag_of, i_arith, m_ext, r_arith, div_overflows}
use tinyvm.Wf.Defs.{IsU64, IsU32}

-- What holds of the result, if there is one.
abbrev pub Result : (ℕ → Type 0) → Outcome ℕ → Type 0
Result P (ok v) = P v
Result P (exits c) = Unit
Result P fault = Unit
Result P spins = Unit

unsigned64-fits : (z : ℤ) → IsU64 (unsigned 64 z)
unsigned64-fits (pos n) = omega arith
unsigned64-fits (negsuc n) = omega arith

unsigned32-fits : (z : ℤ) → IsU32 (unsigned 32 z)
unsigned32-fits (pos n) = omega arith
unsigned32-fits (negsuc n) = omega arith

pub widen-fits : (w v : ℕ) → IsU64 (widen w v)
widen-fits w v = unsigned64-fits (signed w v)

pub flag_of-fits : (b : Bool) → IsU64 (flag_of b)
flag_of-fits b = if-elim IsU64 b 1 0 (λ _. omega arith) (λ _. omega arith)

shr-fits : (w a k : ℕ) → a < 2 ^ w → shr a k < 2 ^ w
shr-fits w a k h = omega (arith, div-le_self a (2 ^ k))

div-fits : (w a b : ℕ) → a < 2 ^ w → a / b < 2 ^ w
div-fits w a b h = omega (arith, div-le_self a b)

mod-fits : (w a b : ℕ) → a < 2 ^ w → a % b < 2 ^ w
mod-fits w a b h = omega (arith, mod-le a b)

module _ (rs1 rs2 : ℕ) (h : IsU64 rs1) (k : IsU64 rs2) where
  pub i_arith-fits : (funct3 funct7 : ℕ) → Result IsU64 (i_arith funct3 funct7 rs1 rs2)
  unfolding i_arith
  i_arith-fits funct3 funct7 =
      let P = Result IsU64 in
      let shamt = bit_and (u32 rs2) 0x3F in
      if-elim P (funct3 == 0) _ _ (λ _. omega arith)
        λ _.
          if-elim P (funct3 == 2) _ _ (λ _. flag_of-fits (ltb_ℤ (i64 rs1) (i64 rs2)))
            λ _.
              if-elim P (funct3 == 3) _ _ (λ _. flag_of-fits (ltb rs1 rs2))
                λ _.
                  if-elim P (funct3 == 4) _ _ (λ _. bit_xor-lt 64 rs1 rs2 h k)
                    λ _.
                      if-elim P (funct3 == 6) _ _ (λ _. bit_or-lt 64 rs1 rs2 h k)
                        λ _.
                          if-elim P (funct3 == 7) _ _ (λ _. bit_and-lt 64 rs1 rs2 h)
                            λ _.
                              if-elim P (funct3 == 1) _ _ (λ _. omega arith)
                                λ _.
                                  if-elim P (funct3 == 5) _ _
                                    (λ _.
                                      if-elim IsU64 (has_flag funct7 f7_alt) (sar64 rs1 shamt)
                                        (shr rs1 shamt) (λ _. unsigned64-fits _)
                                        (λ _. shr-fits 64 rs1 shamt h))
                                    (λ _. tt)

  m_ext-fits : (funct3 : ℕ) → Result IsU64 (m_ext funct3 rs1 rs2)
  unfolding m_ext
  m_ext-fits funct3 =
      let P = Result IsU64 in
      if-elim P (funct3 == 0) _ _ (λ _. omega arith)
        λ _.
          if-elim P (funct3 == 1) _ _
            (λ _. if-elim P (ltb (rs1 * rs2) (2 ^ 127)) _ _ (λ _. omega arith) (λ _. tt))
            λ _.
              if-elim P (funct3 == 2) _ _ (λ _. omega arith)
                λ _.
                  if-elim P (funct3 == 3) _ _ (λ _. omega arith)
                    λ _.
                      if-elim P (funct3 == 4) _ _
                        (λ _.
                          if-elim P (rs2 == 0) _ _ (λ _. omega arith)
                            λ _.
                              if-elim P (div_overflows 64 rs1 rs2) _ _ (λ _. tt)
                                (λ _. unsigned64-fits _))
                        λ _.
                          if-elim P (funct3 == 5) _ _
                            (λ _.
                              if-elim IsU64 (rs2 == 0) u64_max (rs1 / rs2) (λ _. omega arith)
                                (λ _. div-fits 64 rs1 rs2 h))
                            λ _.
                              if-elim P (funct3 == 6) _ _
                                (λ _.
                                  if-elim P (rs2 == 0) _ _ (λ _. h)
                                    λ _.
                                      if-elim P (div_overflows 64 rs1 rs2) _ _ (λ _. tt)
                                        (λ _. unsigned64-fits _))
                                λ _.
                                  if-elim P (funct3 == 7) _ _
                                    (λ _.
                                      if-elim IsU64 (rs2 == 0) rs1 (rs1 % rs2) (λ _. h)
                                        (λ _. mod-fits 64 rs1 rs2 h))
                                    (λ _. tt)

  pub r_arith-fits : (funct3 funct7 : ℕ) → Result IsU64 (r_arith funct3 funct7 rs1 rs2)
  unfolding r_arith
  r_arith-fits funct3 funct7 =
      let P = Result IsU64 in
      let shamt = bit_and (u32 rs2) 0x3F in
      if-elim P (funct7 == f7_mext) _ _ (λ _. m_ext-fits funct3)
        λ _.
          if-elim P (funct3 == 0) _ _
            (λ _.
              if-elim IsU64 (funct7 == f7_alt) (sub64 rs1 rs2) (add64 rs1 rs2) (λ _. omega arith)
                (λ _. omega arith))
            λ _.
              if-elim P (funct3 == 1) _ _ (λ _. omega arith)
                λ _.
                  if-elim P (funct3 == 2) _ _ (λ _. flag_of-fits (ltb_ℤ (i64 rs1) (i64 rs2)))
                    λ _.
                      if-elim P (funct3 == 3) _ _ (λ _. flag_of-fits (ltb rs1 rs2))
                        λ _.
                          if-elim P (funct3 == 4) _ _ (λ _. bit_xor-lt 64 rs1 rs2 h k)
                            λ _.
                              if-elim P (funct3 == 5) _ _
                                (λ _.
                                  if-elim IsU64 (funct7 == f7_alt) (sar64 rs1 shamt) (shr rs1 shamt)
                                    (λ _. unsigned64-fits _) (λ _. shr-fits 64 rs1 shamt h))
                                λ _.
                                  if-elim P (funct3 == 6) _ _ (λ _. bit_or-lt 64 rs1 rs2 h k)
                                    λ _.
                                      if-elim P (funct3 == 7) _ _ (λ _. bit_and-lt 64 rs1 rs2 h)
                                        (λ _. tt)
