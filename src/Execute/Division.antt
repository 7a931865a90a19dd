-- ===== src/Execute/Division.antt =====
-- src/cpu.c: the high products of the M extension.
use tinyvm.Base.{ℕ, ◌+◌, ◌-◌, ◌*◌, ◌/◌, ◌^◌, ◌≤◌, ◌<◌, ◌≡◌, ◌≢◌, ◌∙◌, sym, ap, true, ltb, ok, arith}
use native.Mathlib.Nat.{add-mul}
use tinyvm.Execute.Alu.{m_ext}

-- The high half of a product of a negative first operand and a positive second one: the words stand for
-- rs1 - 2 ^ 64 and rs2, and their product is negative.
abbrev pub signed_high : ℕ → ℕ → ℕ
signed_high rs1 rs2 = (2 ^ 128 - (2 ^ 64 - rs1) * rs2) / 2 ^ 64

signed_high-unsigned :
    (rs1 rs2 : ℕ)
    → rs1 < 2 ^ 64
    → 0 < rs2
    → rs2 < 2 ^ 64
    → signed_high rs1 rs2 ≡ 2 ^ 64 - rs2 + rs1 * rs2 / 2 ^ 64
signed_high-unsigned rs1 rs2 h z k =
    let d : ℕ = 2 ^ 64 - rs1 in
    let whole : d + rs1 ≡ 2 ^ 64 = omega arith in
    let parts : 2 ^ 64 * rs2 ≡ d * rs2 + rs1 * rs2 =
      ap (λ (t : ℕ). t * rs2) (sym whole) ∙ add-mul d rs1 rs2 in
    omega (arith, parts)

-- For a negative first operand and a positive second one, where MULH is defined at all, it gives the high
-- half of the product of the two words as unsigned numbers, and that is never the high half of their
-- signed product.
pub m_ext-mulh :
    (rs1 rs2 : ℕ)
    → 2 ^ 63 ≤ rs1
    → rs1 < 2 ^ 64
    → 0 < rs2
    → rs2 < 2 ^ 63
    → rs1 * rs2 < 2 ^ 127
    → (m_ext 1 rs1 rs2 ≡ ok (rs1 * rs2 / 2 ^ 64)) × (rs1 * rs2 / 2 ^ 64 ≢ signed_high rs1 rs2)
unfolding m_ext
m_ext-mulh rs1 rs2 n h z k small =
    let defined : ltb (rs1 * rs2) (2 ^ 127) ≡ true = ground (arith, small) in
    let signed = signed_high-unsigned rs1 rs2 h z (omega arith) in
    (rw defined (ap ok (omega (arith, small))), λ e. omega (arith, e, signed))
