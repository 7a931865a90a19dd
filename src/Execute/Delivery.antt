-- ===== src/Execute/Delivery.antt =====
-- src/cpu.c: cpu_check_interrupts misses no interrupt.
use tinyvm.Base.{
  ℕ, zero, suc, ◌^◌, ◌<◌, ◌≡◌, refl, sym, ◌∙◌, ◌⊎◌, inl, inr, true, ◌&&◌, bit_and, if◌then◌else◌,
  if-elim, has_flag, truthy, not64, Option, none, some, arith,
}
use tinyvm.Base.Bits.{bit-zero, bit-bit_and, has_flag-bit}
use tinyvm.Machine.{Cpu}
use tinyvm.Cpu.Csr.{csr_mip, csr_mie, csr_mideleg}
use tinyvm.Execute.Step.{highest_bit, next_interrupt, take_interrupt, deliver, m_enabled, s_enabled}
use tinyvm.Execute.Priority.{
  IsHighest, highest_bit-IsHighest, IsMOpen, IsSOpen, IsMOpen-m_enabled, IsSOpen-s_enabled,
}

abbrev pub IsSome : Option ℕ → Type 0
IsSome none = ⊥
IsSome (some k) = Unit

-- The line is pending and enabled, and M-mode or S-mode, whichever has it, takes interrupts now.
-- The scan of M-mode looks at the lines below 12, that of S-mode at those below 10.
pub record Deliverable (c : Cpu) (k : ℕ) : Type 0 where
  pub pending : has_flag (c.csrs csr_mip) (2 ^ k) ≡ true
  pub enabled : has_flag (c.csrs csr_mie) (2 ^ k) ≡ true
  pub taker :
      ((k < 12) × (has_flag (not64 (c.csrs csr_mideleg)) (2 ^ k) ≡ true) × IsMOpen c)
      ⊎ ((k < 10) × (has_flag (c.csrs csr_mideleg) (2 ^ k) ≡ true) × IsSOpen c)

both_flags :
    (k x y : ℕ)
    → has_flag x (2 ^ k) ≡ true
    → has_flag y (2 ^ k) ≡ true
    → has_flag (bit_and x y) (2 ^ k) ≡ true
both_flags k x y h l =
    has_flag-bit k (bit_and x y)
    ∙ ground (arith, bit-bit_and k x y, sym (has_flag-bit k x) ∙ h, sym (has_flag-bit k y) ∙ l)

flag-truthy : (k x : ℕ) → has_flag x (2 ^ k) ≡ true → truthy x ≡ true
flag-truthy k zero h = absurd (ground (arith, sym (has_flag-bit k 0) ∙ h, bit-zero k))
flag-truthy k (suc x) h = ground arith

found :
    (n word k : ℕ) (o : Option ℕ)
    → IsHighest n word o
    → k < n
    → has_flag word (2 ^ k) ≡ true
    → IsSome o
found n word k none h l f = ground (arith, h k l, f)
found n word k (some j) h l f = tt

highest_bit-IsSome :
    (n word k : ℕ) → k < n → has_flag word (2 ^ k) ≡ true → IsSome (highest_bit n word)
highest_bit-IsSome n word k l f =
    found n word k (highest_bit n word) (highest_bit-IsHighest n word) l f

first_of :
    (o p : Option ℕ) → IsSome o ⊎ IsSome p → IsSome (elim o [ some line ↦ some line | none ↦ p ])
first_of none p (inl h) = absurd h
first_of none p (inr h) = h
first_of (some line) p h = tt

deliver-IsSome : (o : Option ℕ) (c : Cpu) → IsSome o → (deliver o c).0 ≡ true
deliver-IsSome none c h = absurd h
deliver-IsSome (some line) c h = refl

module _ (c : Cpu) (k : ℕ) (d : Deliverable c k) where
  next_interrupt-IsSome : IsSome (next_interrupt c)
  unfolding next_interrupt
  next_interrupt-IsSome =
      let pending = bit_and (c.csrs csr_mip) (c.csrs csr_mie) in
      let m_pending = bit_and pending (not64 (c.csrs csr_mideleg)) in
      let s_pending = bit_and pending (c.csrs csr_mideleg) in
      let flag = both_flags k (c.csrs csr_mip) (c.csrs csr_mie) d.pending d.enabled in
      let some_pending = flag-truthy k pending flag in
      let in_s = if truthy s_pending && s_enabled c then highest_bit 10 s_pending else none in
      elim d.taker [
        | inl (low, mine, on) ↦
            let m_flag = both_flags k pending (not64 (c.csrs csr_mideleg)) flag mine in
            rw (some_pending, flag-truthy k m_pending m_flag, IsMOpen-m_enabled c on)
              (first_of (highest_bit 12 m_pending) in_s
                (inl (highest_bit-IsSome 12 m_pending k low m_flag)))
        | inr (low, delegated, on) ↦
            let s_flag = both_flags k pending (c.csrs csr_mideleg) flag delegated in
            let s_found : IsSome in_s =
              rw (flag-truthy k s_pending s_flag, IsSOpen-s_enabled c on)
                (highest_bit-IsSome 10 s_pending k low s_flag) in
            rw (some_pending) (
              if-elim IsSome (truthy m_pending && m_enabled c) _ _
                (λ _. first_of (highest_bit 12 m_pending) in_s (inr s_found)) (λ _. s_found))
      ]

  -- If some line is pending and enabled and is below the limit of the scan of the mode that has it,
  -- and that mode takes interrupts now (for M-mode, the hart is below it or MIE is set; for S-mode,
  -- the hart is in U-mode, or in S-mode with SIE set), then the check takes an interrupt.
  pub take_interrupt-delivers : (take_interrupt c).0 ≡ true
  unfolding take_interrupt
  take_interrupt-delivers = deliver-IsSome (next_interrupt c) c next_interrupt-IsSome
