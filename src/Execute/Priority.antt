-- ===== src/Execute/Priority.antt =====
-- src/cpu.c: what the loops of cpu_check_interrupts find, and which interrupts they may deliver.
use tinyvm.Base.{
  ℕ, zero, suc, ◌^◌, ◌<◌, ◌≡◌, ◌⊎◌, inl, inr, true, false, not, ◌&&◌, ◌==◌, ltb, Bool-cases,
  bit_and, if◌then◌else◌, if-elim, and_right, below-elim, has_flag, truthy, not64, Option, none,
  some, arith,
}
use tinyvm.Base.Bits.{bit, has_flag-bit, has_flag-bit_and_left, has_flag-bit_and_right}
use tinyvm.Machine.{Cpu}
use tinyvm.Cpu.Csr.{csr_mip, csr_mie, csr_mideleg, csr_mstatus}
use tinyvm.Execute.Step.{highest_bit, next_interrupt, m_enabled, s_enabled}

abbrev pub IsHighest : ℕ → ℕ → Option ℕ → Type 0
IsHighest n word none = (j : ℕ) → j < n → has_flag word (2 ^ j) ≡ false
IsHighest n word (some k) =
    (k < n)
    × (has_flag word (2 ^ k) ≡ true)
    × ((j : ℕ) → k < j → j < n → has_flag word (2 ^ j) ≡ false)

raise-IsHighest :
    (n word : ℕ) (o : Option ℕ)
    → has_flag word (2 ^ n) ≡ false
    → IsHighest n word o
    → IsHighest (suc n) word o
raise-IsHighest n word none e h = below-elim (λ j. has_flag word (2 ^ j) ≡ false) n e h
raise-IsHighest n word (some k) e (l, f, h) = (
  omega (arith, l),
  f,
  λ j a b.
      below-elim (λ j. k < j → has_flag word (2 ^ j) ≡ false) n (λ _. e) (λ j q r. h j r q) j b a,
)

-- The scan from bit n - 1 down finds the highest set bit below n, and finds none exactly when no
-- bit below n is set.
pub highest_bit-IsHighest : (n word : ℕ) → IsHighest n word (highest_bit n word)
unfolding highest_bit
highest_bit-IsHighest zero word = λ j l. absurd (omega arith)
highest_bit-IsHighest (suc k) word =
    if-elim (IsHighest (suc k) word) (has_flag word (2 ^ k)) (some k) (highest_bit k word)
      (λ e. (omega arith, e, λ j a b. absurd (omega arith)))
      (λ e. raise-IsHighest k word (highest_bit k word) e (highest_bit-IsHighest k word))

-- The privilege is below M-mode or MIE (bit 3) is set; it is U-mode, or S-mode with SIE (bit 1) set.
abbrev pub IsMOpen : Cpu → Type 0
IsMOpen c = (c.privilege < 3) ⊎ (bit (c.csrs csr_mstatus) 3 ≡ 1)

abbrev pub IsSOpen : Cpu → Type 0
IsSOpen c = (c.privilege ≡ 0) ⊎ ((c.privilege ≡ 1) × (bit (c.csrs csr_mstatus) 1 ≡ 1))

m_enabled-IsMOpen : (c : Cpu) → m_enabled c ≡ true → IsMOpen c
unfolding m_enabled
m_enabled-IsMOpen c e =
    let flag = has_flag-bit 3 (c.csrs csr_mstatus) in
    elim (Bool-cases (ltb c.privilege 3)) [
      | inl below ↦ inl (ground (arith, below))
      | inr at_m ↦ inr (ground (arith, e, flag, at_m))
    ]

s_enabled-IsSOpen : (c : Cpu) → s_enabled c ≡ true → IsSOpen c
unfolding s_enabled
s_enabled-IsSOpen c e =
    let flag = has_flag-bit 1 (c.csrs csr_mstatus) in
    elim (Bool-cases (c.privilege == 0)) [
      | inl user ↦ inl (ground (arith, user))
      | inr other ↦ inr (ground (arith, e, flag, other), ground (arith, e, flag, other))
    ]

pub IsMOpen-m_enabled : (c : Cpu) → IsMOpen c → m_enabled c ≡ true
unfolding m_enabled
IsMOpen-m_enabled c h = ground (arith, h, has_flag-bit 3 (c.csrs csr_mstatus))

pub IsSOpen-s_enabled : (c : Cpu) → IsSOpen c → s_enabled c ≡ true
unfolding s_enabled
IsSOpen-s_enabled c h = ground (arith, h, has_flag-bit 1 (c.csrs csr_mstatus))

-- What allows a line: which mode takes it, and that the mode has interrupts enabled.
abbrev pub MayTake : Cpu → Option ℕ → Type 0
MayTake c none = Unit
MayTake c (some k) =
    (has_flag (c.csrs csr_mip) (2 ^ k) ≡ true)
    × (has_flag (c.csrs csr_mie) (2 ^ k) ≡ true)
    × (((has_flag (not64 (c.csrs csr_mideleg)) (2 ^ k) ≡ true) × IsMOpen c)
        ⊎ ((has_flag (c.csrs csr_mideleg) (2 ^ k) ≡ true) × IsSOpen c))

module _ (c : Cpu) where
  pending_of :
      (k : ℕ)
      → has_flag (bit_and (c.csrs csr_mip) (c.csrs csr_mie)) (2 ^ k) ≡ true
      → (has_flag (c.csrs csr_mip) (2 ^ k) ≡ true) × (has_flag (c.csrs csr_mie) (2 ^ k) ≡ true)
  pending_of k h = (
    has_flag-bit_and_left k (c.csrs csr_mip) (c.csrs csr_mie) h,
    has_flag-bit_and_right k (c.csrs csr_mip) (c.csrs csr_mie) h,
  )

  in_m-MayTake :
      (n : ℕ) (o : Option ℕ)
      → m_enabled c ≡ true
      → IsHighest n
          (bit_and (bit_and (c.csrs csr_mip) (c.csrs csr_mie)) (not64 (c.csrs csr_mideleg)))
          o
      → MayTake c o
  in_m-MayTake n none e h = tt
  in_m-MayTake n (some k) e (l, f, h) =
      let pending = bit_and (c.csrs csr_mip) (c.csrs csr_mie) in
      let deleg = not64 (c.csrs csr_mideleg) in
      let p = pending_of k (has_flag-bit_and_left k pending deleg f) in
      (p.0, p.1, inl (has_flag-bit_and_right k pending deleg f, m_enabled-IsMOpen c e))

  in_s-MayTake :
      (n : ℕ) (o : Option ℕ)
      → s_enabled c ≡ true
      → IsHighest n (bit_and (bit_and (c.csrs csr_mip) (c.csrs csr_mie)) (c.csrs csr_mideleg)) o
      → MayTake c o
  in_s-MayTake n none e h = tt
  in_s-MayTake n (some k) e (l, f, h) =
      let pending = bit_and (c.csrs csr_mip) (c.csrs csr_mie) in
      let p = pending_of k (has_flag-bit_and_left k pending (c.csrs csr_mideleg) f) in
      (
        p.0,
        p.1,
        inr (has_flag-bit_and_right k pending (c.csrs csr_mideleg) f, s_enabled-IsSOpen c e),
      )

  first_of-MayTake :
      (o p : Option ℕ)
      → MayTake c o
      → MayTake c p
      → MayTake c (elim o [ some line ↦ some line | none ↦ p ])
  first_of-MayTake none p h k = k
  first_of-MayTake (some line) p h k = h

-- A line that is to be delivered is pending in mip and enabled in mie, and either it is not
-- delegated, and the hart is below M-mode or MIE is set, or it is delegated, and the hart is in
-- U-mode, or in S-mode with SIE set.
pub next_interrupt-MayTake : (c : Cpu) → MayTake c (next_interrupt c)
unfolding next_interrupt
next_interrupt-MayTake c =
    let pending = bit_and (c.csrs csr_mip) (c.csrs csr_mie) in
    let m_pending = bit_and pending (not64 (c.csrs csr_mideleg)) in
    let s_pending = bit_and pending (c.csrs csr_mideleg) in
    let s_test = truthy s_pending && s_enabled c in
    let m_test = truthy m_pending && m_enabled c in
    let in_s = if s_test then highest_bit 10 s_pending else none in
    let s_may : MayTake c in_s =
      if-elim (MayTake c) s_test (highest_bit 10 s_pending) none
        (λ e.
          in_s-MayTake c 10 (highest_bit 10 s_pending)
            (and_right (truthy s_pending) (s_enabled c) e) (highest_bit-IsHighest 10 s_pending))
        (λ _. tt) in
    if-elim (MayTake c) (not (truthy pending)) _ _ (λ _. tt)
      λ _.
        if-elim (MayTake c) m_test _ _
          (λ e.
            first_of-MayTake c (highest_bit 12 m_pending) in_s
              (in_m-MayTake c 12 (highest_bit 12 m_pending)
                (and_right (truthy m_pending) (m_enabled c) e) (highest_bit-IsHighest 12 m_pending))
              s_may)
          (λ _. s_may)
