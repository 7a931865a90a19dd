-- ===== src/Decode/RvcImm.antt =====
-- src/exec_c.c: the register fields of a compressed instruction are below 32, and every immediate
-- fits 64 bits.
use tinyvm.Base.{ℕ, ◌^◌, ◌≤◌, ◌<◌, bit_or, shr, arith}
use native.Mathlib.Nat.{mul-le-mul, pow-le-pow_right}
use tinyvm.Base.Bits.{bit_or-lt}
use tinyvm.Decode.Fields.{unsigned64-lt, field-lt}
use tinyvm.Decode.Rvc.{
  field, rvc_rd_s, rvc_rs1_s, rvc_rd, rvc_rs2, sext, at_bit, imm_ci, imm_clw, imm_cld, imm_lwsp,
  imm_ldsp, imm_swsp, imm_sdsp, imm_addi4spn,
}

abbrev pub Imm : ℕ → Type 0
Imm v = v < 2 ^ 64

pub sext-lt : (val bits : ℕ) → Imm (sext val bits)
unfolding sext
sext-lt val bits = unsigned64-lt _

pub both : (a b : ℕ) → Imm a → Imm b → Imm (bit_or a b)
both a b = bit_or-lt 64 a b

two-pos : 0 < 2
two-pos = omega arith

-- A field of up to five bits, moved up by at most 17.
pub piece : (r p m k : ℕ) → m < 2 ^ 5 → k ≤ 17 → Imm (at_bit (field r p m) k)
piece r p m k h l =
    let v : field r p m ≤ 31 = omega (arith, field-lt (shr r p) 5 m h) in
    omega (arith, mul-le-mul v (pow-le-pow_right two-pos l))

pub imm_addi4spn-lt : (r : ℕ) → Imm (imm_addi4spn r)
unfolding imm_addi4spn
imm_addi4spn-lt r =
    both _ _
      (both _ _
        (both _ _ (piece r 6 1 2 (omega arith) (omega arith))
          (piece r 5 1 3 (omega arith) (omega arith)))
        (piece r 11 3 4 (omega arith) (omega arith)))
      (piece r 7 0xF 6 (omega arith) (omega arith))

pub imm_clw-lt : (r : ℕ) → Imm (imm_clw r)
unfolding imm_clw
imm_clw-lt r =
    both _ _
      (both _ _ (piece r 10 7 3 (omega arith) (omega arith))
        (piece r 6 1 2 (omega arith) (omega arith)))
      (piece r 5 1 6 (omega arith) (omega arith))

pub imm_cld-lt : (r : ℕ) → Imm (imm_cld r)
unfolding imm_cld
imm_cld-lt r =
    both _ _ (piece r 10 7 3 (omega arith) (omega arith))
      (piece r 5 3 6 (omega arith) (omega arith))

pub imm_lwsp-lt : (r : ℕ) → Imm (imm_lwsp r)
unfolding imm_lwsp
imm_lwsp-lt r =
    both _ _
      (both _ _ (piece r 12 1 5 (omega arith) (omega arith))
        (piece r 4 7 2 (omega arith) (omega arith)))
      (piece r 2 3 6 (omega arith) (omega arith))

pub imm_ldsp-lt : (r : ℕ) → Imm (imm_ldsp r)
unfolding imm_ldsp
imm_ldsp-lt r =
    both _ _
      (both _ _ (piece r 12 1 5 (omega arith) (omega arith))
        (piece r 5 3 3 (omega arith) (omega arith)))
      (piece r 2 7 6 (omega arith) (omega arith))

pub imm_swsp-lt : (r : ℕ) → Imm (imm_swsp r)
unfolding imm_swsp
imm_swsp-lt r =
    both _ _ (piece r 9 0xF 2 (omega arith) (omega arith))
      (piece r 7 3 6 (omega arith) (omega arith))

pub imm_sdsp-lt : (r : ℕ) → Imm (imm_sdsp r)
unfolding imm_sdsp
imm_sdsp-lt r =
    both _ _ (piece r 10 7 3 (omega arith) (omega arith))
      (piece r 7 7 6 (omega arith) (omega arith))

-- The register fields.
pub rvc_rd_s-lt : (r : ℕ) → rvc_rd_s r < 32
unfolding rvc_rd_s
rvc_rd_s-lt r = omega (arith, field-lt (shr r 2) 3 7 (omega arith))

pub rvc_rs1_s-lt : (r : ℕ) → rvc_rs1_s r < 32
unfolding rvc_rs1_s
rvc_rs1_s-lt r = omega (arith, field-lt (shr r 7) 3 7 (omega arith))

pub rvc_rd-lt : (r : ℕ) → rvc_rd r < 32
unfolding rvc_rd
rvc_rd-lt r = omega (arith, field-lt (shr r 7) 5 0x1F (omega arith))

pub rvc_rs2-lt : (r : ℕ) → rvc_rs2 r < 32
unfolding rvc_rs2
rvc_rs2-lt r = omega (arith, field-lt (shr r 2) 5 0x1F (omega arith))

pub imm_ci-lt : (r : ℕ) → Imm (imm_ci r)
unfolding imm_ci
imm_ci-lt r = sext-lt _ 6
