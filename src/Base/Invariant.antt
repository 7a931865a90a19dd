-- ===== src/Base/Invariant.antt =====
-- Invariants of actions: one rule for each way to build an action.
use Prim.Native.Nat.{ℕ}
use mathlib.Core.Bool.{Bool, true, false}
use mathlib.Core.Path.{◌≡◌, refl}
use tinyvm.Base.Test.{if◌then◌else◌}
use tinyvm.Base.Action.{
  Outcome, ok, exits, fault, spins, Exec, pure, exit, crash, spin, gets, modify, state, continue,
  ◌>>=◌,
}

-- What holds of the value and the state if the action returns.
abbrev pub Post : {A : Type 0} → (A → Type 0) → Outcome A → Type 0
Post P (ok a) = P a
Post P (exits c) = Unit
Post P fault = Unit
Post P spins = Unit

-- `m`, from a state that satisfies `P`, returns (if it does) in such a state, with a value in `Q`.
pub record Gives {S A : Type 0} (P : S → Type 0) (Q : A → Type 0) (m : Exec S A) : Type 0 where
  pub at : (s : S) → P s → Post (λ r. Q r.0 × P r.1) (m s)

abbrev pub Any : {A : Type 0} → A → Type 0
Any a = Unit

abbrev pub Keeps : {S A : Type 0} → (S → Type 0) → Exec S A → Type 0
Keeps P m = Gives P Any m

module _ {S : Type 0} {P : S → Type 0} where
  pub Gives-pure : {A : Type 0} {Q : A → Type 0} (a : A) → Q a → Gives P Q (pure a)
  unfolding pure
  Gives-pure a q = record { at = λ s h. (q, h) }

  pub Keeps-pure : {A : Type 0} (a : A) → Keeps P (pure a)
  unfolding pure
  Keeps-pure a = record { at = λ s h. (tt, h) }

  pub Gives-exit : {A : Type 0} {Q : A → Type 0} (c : ℕ) → Gives P Q (exit c)
  unfolding exit
  Gives-exit c = record { at = λ s h. tt }

  pub Gives-crash : {A : Type 0} {Q : A → Type 0} → Gives P Q crash
  unfolding crash
  Gives-crash = record { at = λ s h. tt }

  pub Gives-spin : {A : Type 0} {Q : A → Type 0} → Gives P Q spin
  unfolding spin
  Gives-spin = record { at = λ s h. tt }

  pub Gives-gets :
      {A : Type 0} {Q : A → Type 0} (f : S → A) → ((s : S) → P s → Q (f s)) → Gives P Q (gets f)
  unfolding gets
  Gives-gets f q = record { at = λ s h. (q s h, h) }

  pub Keeps-gets : {A : Type 0} (f : S → A) → Keeps P (gets f)
  unfolding gets
  Keeps-gets f = record { at = λ s h. (tt, h) }

  pub Keeps-modify : (f : S → S) → ((s : S) → P s → P (f s)) → Keeps P (modify f)
  unfolding modify
  Keeps-modify f k = record { at = λ s h. (tt, k s h) }

  pub Gives-state :
      {A : Type 0} {Q : A → Type 0} (f : S → A × S)
      → ((s : S) → P s → Q (f s).0 × P (f s).1)
      → Gives P Q (state f)
  unfolding state
  Gives-state f k = record { at = k }

  pub Gives-if :
      {A : Type 0} {Q : A → Type 0} (b : Bool) (m n : Exec S A)
      → (b ≡ true → Gives P Q m)
      → (b ≡ false → Gives P Q n)
      → Gives P Q (if b then m else n)
  Gives-if true m n km kn = km refl
  Gives-if false m n km kn = kn refl

  continue-Post :
      {A B : Type 0} {Q : A → Type 0} {R : B → Type 0} (r : Outcome (A × S)) (f : A → Exec S B)
      → Post (λ r. Q r.0 × P r.1) r
      → ((a : A) → Q a → Gives P R (f a))
      → Post (λ r. R r.0 × P r.1) (continue r f)
  continue-Post (ok (a, s)) f (q, p) k = (k a q).at s p
  continue-Post (exits c) f h k = tt
  continue-Post fault f h k = tt
  continue-Post spins f h k = tt

  pub Gives-bind :
      {A B : Type 0} {Q : A → Type 0} {R : B → Type 0} (m : Exec S A) (f : A → Exec S B)
      → Gives P Q m
      → ((a : A) → Q a → Gives P R (f a))
      → Gives P R (m >>= f)
  unfolding ◌>>=◌
  Gives-bind m f km kf = record { at = λ s h. continue-Post (m s) f (km.at s h) kf }

  pub Gives-weaken :
      {A : Type 0} {Q R : A → Type 0} {m : Exec S A}
      → ((a : A) → Q a → R a)
      → Gives P Q m
      → Gives P R m
  Gives-weaken {A} {Q} {R} {m} f k = record { at = λ s h. weaken (m s) (k.at s h) }
    where
      weaken : (r : Outcome (A × S)) → Post (λ r. Q r.0 × P r.1) r → Post (λ r. R r.0 × P r.1) r
      weaken (ok (a, s)) (q, p) = (f a q, p)
      weaken (exits c) h = tt
      weaken fault h = tt
      weaken spins h = tt
