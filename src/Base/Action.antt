-- ===== src/Base/Action.antt =====
-- Actions on a state. An action returns a value and the new state, ends the process by exit(), or
-- crashes: `fault` is what C leaves undefined, such as a host access outside an array. `spins` is
-- a loop that is still running after the rounds that the model gives it.
use Prim.Native.Nat.{ℕ}

pub data Outcome {ℓ} (A : Type ℓ) : Type ℓ where
  ok : A → Outcome A
  exits : ℕ → Outcome A
  fault : Outcome A
  spins : Outcome A

abbrev pub Exec : Type 0 → Type 0 → Type 0
Exec S A = S → Outcome (A × S)

module _ {S : Type 0} where
  unfoldable pub pure : {A : Type 0} → A → Exec S A
  pure a s = ok (a, s)

  unfoldable pub exit : {A : Type 0} → ℕ → Exec S A
  exit c s = exits c

  unfoldable pub crash : {A : Type 0} → Exec S A
  crash s = fault

  unfoldable pub spin : {A : Type 0} → Exec S A
  spin s = spins

  unfoldable pub gets : {A : Type 0} → (S → A) → Exec S A
  gets f s = ok (f s, s)

  unfoldable pub modify : (S → S) → Exec S (Unit {0})
  modify f s = ok (tt, f s)

  -- An action that is computed from the state, such as a pure handler that returns both.
  unfoldable pub state : {A : Type 0} → (S → A × S) → Exec S A
  state f s = ok (f s)

  abbrev pub continue : {A B : Type 0} → Outcome (A × S) → (A → Exec S B) → Outcome (B × S)
  continue (ok (a, s)) f = f a s
  continue (exits c) f = exits c
  continue fault f = fault
  continue spins f = spins

  infixl 5 ◌>>=◌ ◌>>◌
  unfoldable pub ◌>>=◌ : {A B : Type 0} → Exec S A → (A → Exec S B) → Exec S B
  ◌>>=◌ m f s = continue (m s) f

  abbrev pub ◌>>◌ : {B : Type 0} → Exec S (Unit {0}) → Exec S B → Exec S B
  m >> k = m >>= λ _. k
