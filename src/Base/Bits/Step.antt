-- ===== src/Base/Bits/Step.antt =====
-- Each native bit operation stands for a recursion over binary digits that is given fuel. These
-- are the equations without the fuel: the lowest digit, and the same operation on the rest.
use Prim.Native.Nat.{
  ℕ, zero, suc, ◌+◌, ◌*◌, ◌/◌, ◌%◌, ◌≤◌, min, max, differ, digits, bitwise, bit_and, bit_or,
  bit_xor, bit_and-bitwise, bit_or-bitwise, bit_xor-bitwise,
}
use mathlib.Core.Path.{◌≡◌, refl}
use native.Mathlib.Omega.{arith}

abbrev pub digit_xor : ℕ → ℕ → ℕ
digit_xor = differ

-- `rest` is the value at a left operand of 0, `op` the operation on one digit.
module _ (rest : ℕ → ℕ) (op : ℕ → ℕ → ℕ) where
  -- Two amounts of fuel that cover the left operand give one value.
  enough : (k j x y : ℕ) → x ≤ k → x ≤ j → digits rest op k x y ≡ digits rest op j x y
  enough (suc k) (suc j) (suc x) y hk hj =
      rw (enough k j (suc x / 2) (y / 2) (omega arith) (omega arith))
  enough (suc k) (suc j) zero y hk hj = refl
  enough (suc k) zero zero y hk hj = refl
  enough zero (suc j) zero y hk hj = refl
  enough zero zero zero y hk hj = refl
  enough zero j (suc x) y hk hj = absurd (omega arith)
  enough (suc k) zero (suc x) y hk hj = absurd (omega arith)

  lowest :
      (x y : ℕ)
      → bitwise rest op (suc x) y ≡ bitwise rest op (suc x / 2) (y / 2) * 2 + op (suc x % 2) (y % 2)
  lowest x y = rw (enough x (suc x / 2) (suc x / 2) (y / 2) (omega arith) (omega arith))

pub bit_and_step : (x y : ℕ) → bit_and x y ≡ bit_and (x / 2) (y / 2) * 2 + min (x % 2) (y % 2)
bit_and_step (suc x) y = simp bit_and-bitwise (lowest (λ d. 0) min x y)
bit_and_step zero y = simp bit_and-bitwise (omega arith)

pub bit_or_step : (x y : ℕ) → bit_or x y ≡ bit_or (x / 2) (y / 2) * 2 + max (x % 2) (y % 2)
bit_or_step (suc x) y = simp bit_or-bitwise (lowest (λ d. d) max x y)
bit_or_step zero y = simp bit_or-bitwise (omega arith)

pub bit_xor_step : (x y : ℕ) → bit_xor x y ≡ bit_xor (x / 2) (y / 2) * 2 + digit_xor (x % 2) (y % 2)
bit_xor_step (suc x) y = simp bit_xor-bitwise (lowest (λ d. d) differ x y)
bit_xor_step zero y = simp bit_xor-bitwise (omega arith)
