-- ===== src/Base/Bits/Laws.antt =====
-- Laws of &, | and ^ at variables. A word is known by its bits: `bit x i` is 0 or 1.
use Prim.Native.Nat.{
  ℕ, zero, suc, ◌+◌, ◌-◌, ◌*◌, ◌/◌, ◌%◌, ◌^◌, ◌≤◌, ◌<◌, min, max, bit_and, bit_or, bit_xor,
  bit_and-bitwise,
}
use mathlib.Core.Path.{◌≡◌, refl, sym, ◌∙◌, ap}
use native.Mathlib.Nat.{
  div-div-eq-div-mul, pow-succ', pow-suc, one-le-pow, mod-lt, div-add-mod, mul_comm, mod-eq_of_lt,
  mul-add-mod_self_right,
}
use native.Mathlib.Omega.{arith}
use tinyvm.Base.Bits.Step.{bit_and_step, bit_or_step, bit_xor_step, digit_xor}

abbrev pub bit : ℕ → ℕ → ℕ
bit x i = x / 2 ^ i % 2

absorbs_left : (y : ℕ) → bit_and 0 y ≡ 0
absorbs_left y = simp bit_and-bitwise (omega arith)

-- By as many steps as the left operand allows.
absorbs_right : (x k : ℕ) → x ≤ k → bit_and x 0 ≡ 0
absorbs_right (suc x) (suc k) l =
    let tail = absorbs_right (suc x / 2) k (omega (arith, l)) in
    omega (arith, tail, bit_and_step (suc x) 0)
absorbs_right (suc x) zero l = absurd (omega (arith, l))
absorbs_right zero k l = absorbs_left 0

halve : (a b : ℕ) → a ≡ 2 * b → a / 2 ≡ b
halve a b h = omega arith

mul-pow-suc : (q k : ℕ) → q * 2 ^ suc k ≡ 2 * (q * 2 ^ k)
mul-pow-suc q k = omega (arith, ap (λ (t : ℕ). q * t) (pow-suc 2 k))

pub bit-suc : (x i : ℕ) → bit x (suc i) ≡ bit (x / 2) i
bit-suc x i = ap (λ (t : ℕ). t % 2) (rw (pow-succ' 2 i) (sym (div-div-eq-div-mul x 2 (2 ^ i))))

pub bit-bit_and : (i a b : ℕ) → bit (bit_and a b) i ≡ min (bit a i) (bit b i)
bit-bit_and zero a b = omega (arith, bit_and_step a b)
bit-bit_and (suc i) a b =
    let half : bit_and a b / 2 ≡ bit_and (a / 2) (b / 2) = omega (arith, bit_and_step a b) in
    rw (bit-suc (bit_and a b) i, bit-suc a i, bit-suc b i, half) (bit-bit_and i (a / 2) (b / 2))

pub bit-bit_or : (i a b : ℕ) → bit (bit_or a b) i ≡ max (bit a i) (bit b i)
bit-bit_or zero a b = omega (arith, bit_or_step a b)
bit-bit_or (suc i) a b =
    let half : bit_or a b / 2 ≡ bit_or (a / 2) (b / 2) = omega (arith, bit_or_step a b) in
    rw (bit-suc (bit_or a b) i, bit-suc a i, bit-suc b i, half) (bit-bit_or i (a / 2) (b / 2))

-- Words of the same width with the same bits are equal.
pub bits_ext : (w a b : ℕ) → a < 2 ^ w → b < 2 ^ w → ((i : ℕ) → i < w → bit a i ≡ bit b i) → a ≡ b
bits_ext zero a b p q h = omega arith
bits_ext (suc w) a b p q h = omega (
  arith,
  h 0 (omega arith),
  bits_ext w (a / 2) (b / 2) (omega (arith, pow-suc 2 w)) (omega (arith, pow-suc 2 w))
      λ (i : ℕ) (l : i < w). sym (bit-suc a i) ∙ h (suc i) (omega arith) ∙ bit-suc b i,
)

pub bit_and-le_left : (n a b : ℕ) → a ≤ n → bit_and a b ≤ a
bit_and-le_left zero zero b h = omega (arith, absorbs_left b)
bit_and-le_left zero (suc a) b h = absurd (omega arith)
bit_and-le_left (suc n) zero b h = omega (arith, absorbs_left b)
bit_and-le_left (suc n) (suc a) b h =
    omega (arith, bit_and_step (suc a) b, bit_and-le_left n (suc a / 2) (b / 2) (omega arith))

pub bit_and-le_right : (w a b : ℕ) → b < 2 ^ w → bit_and a b ≤ b
bit_and-le_right zero a zero h = omega (arith, absorbs_right a a (omega arith))
bit_and-le_right zero a (suc b) h = absurd (omega arith)
bit_and-le_right (suc w) a b h = omega (
  arith,
  pow-suc 2 w,
  bit_and_step a b,
  bit_and-le_right w (a / 2) (b / 2) (omega (arith, pow-suc 2 w)),
)

pub bit_or-lt : (w a b : ℕ) → a < 2 ^ w → b < 2 ^ w → bit_or a b < 2 ^ w
bit_or-lt zero zero zero p q = omega arith
bit_or-lt zero (suc a) b p q = absurd (omega arith)
bit_or-lt zero zero (suc b) p q = absurd (omega arith)
bit_or-lt (suc w) a b p q = omega (
  arith,
  pow-suc 2 w,
  bit_or_step a b,
  bit_or-lt w (a / 2) (b / 2) (omega (arith, pow-suc 2 w)) (omega (arith, pow-suc 2 w)),
)

bit_or-zero_left : (w y : ℕ) → y < 2 ^ w → bit_or 0 y ≡ y
bit_or-zero_left zero zero h = omega (arith, bit_or_step 0 0)
bit_or-zero_left zero (suc y) h = absurd (omega arith)
bit_or-zero_left (suc w) y h =
    omega
      (arith, pow-suc 2 w, bit_or_step 0 y, bit_or-zero_left w (y / 2) (omega (arith, pow-suc 2 w)))

bit_or-zero_right : (n x : ℕ) → x ≤ n → bit_or x 0 ≡ x
bit_or-zero_right zero zero h = refl
bit_or-zero_right zero (suc x) h = absurd (omega arith)
bit_or-zero_right (suc n) zero h = refl
bit_or-zero_right (suc n) (suc x) h =
    omega (arith, bit_or_step (suc x) 0, bit_or-zero_right n (suc x / 2) (omega arith))

-- Where no bit is in both, | is a sum.
pub bit_or-add : (k q y : ℕ) → y < 2 ^ k → bit_or (q * 2 ^ k) y ≡ q * 2 ^ k + y
bit_or-add zero q zero h = omega (arith, bit_or-zero_right (q * 1) (q * 1) (omega arith))
bit_or-add zero q (suc y) h = absurd (omega arith)
bit_or-add (suc k) q y h =
    let half = halve (q * 2 ^ suc k) (q * 2 ^ k) (mul-pow-suc q k) in
    omega (
      arith,
      half,
      mul-pow-suc q k,
      bit_or_step (q * 2 ^ suc k) y,
      ap (λ (t : ℕ). bit_or t (y / 2)) half,
      bit_or-add k q (y / 2) (omega (arith, pow-suc 2 k)),
    )

-- & with a mask whose low k bits are 0.
pub bit_and-shifted : (k x m : ℕ) → bit_and x (m * 2 ^ k) ≡ bit_and (x / 2 ^ k) m * 2 ^ k
bit_and-shifted zero x m =
    let e1 : m * 2 ^ 0 ≡ m = omega arith in
    let e2 : x / 2 ^ 0 ≡ x = omega arith in rw (e1, e2) (omega arith)
bit_and-shifted (suc k) x m =
    let half = halve (m * 2 ^ suc k) (m * 2 ^ k) (mul-pow-suc m k) in
    let quotient : x / 2 / 2 ^ k ≡ x / 2 ^ suc k =
      rw (pow-succ' 2 k) (div-div-eq-div-mul x 2 (2 ^ k)) in
    omega (
      arith,
      half,
      mul-pow-suc m k,
      mul-pow-suc (bit_and (x / 2 ^ suc k) m) k,
      bit_and_step x (m * 2 ^ suc k),
      ap (λ (t : ℕ). bit_and (x / 2) t) half,
      ap (λ (t : ℕ). bit_and t m * 2 ^ k) quotient,
      bit_and-shifted k (x / 2) m,
    )

digit_xor-le : (a b : ℕ) → digit_xor (a % 2) (b % 2) ≤ 1
digit_xor-le a b = le_one (a % 2) (b % 2) (omega arith) (omega arith)
  where
    le_one : (x y : ℕ) → x ≤ 1 → y ≤ 1 → digit_xor x y ≤ 1
    le_one zero y p q = q
    le_one (suc zero) zero p q = p
    le_one (suc zero) (suc zero) p q = omega arith
    le_one (suc zero) (suc (suc y)) p q = absurd (omega arith)
    le_one (suc (suc x)) y p q = absurd (omega arith)

pub bit_xor-lt : (w a b : ℕ) → a < 2 ^ w → b < 2 ^ w → bit_xor a b < 2 ^ w
bit_xor-lt zero zero zero p q = omega arith
bit_xor-lt zero (suc a) b p q = absurd (omega arith)
bit_xor-lt zero zero (suc b) p q = absurd (omega arith)
bit_xor-lt (suc w) a b p q = omega (
  arith,
  pow-suc 2 w,
  bit_xor_step a b,
  digit_xor-le a b,
  bit_xor-lt w (a / 2) (b / 2) (omega (arith, pow-suc 2 w)) (omega (arith, pow-suc 2 w)),
)

-- A mask of one bit, and of the k low bits.
pub bit_and_flag : (k a : ℕ) → bit_and a (2 ^ k) ≡ bit a k * 2 ^ k
bit_and_flag zero a = omega (arith, bit_and_step a 1, absorbs_right (a / 2) (a / 2) (omega arith))
bit_and_flag (suc k) a = omega (
  arith,
  pow-suc 2 k,
  bit-suc a k,
  bit_and_step a (2 ^ suc k),
  bit_and_flag k (a / 2),
  ap (λ (t : ℕ). bit_and (a / 2) t) (halve (2 ^ suc k) (2 ^ k) (pow-succ' 2 k)),
  ap (λ (t : ℕ). t * 2 ^ k) (bit-suc a k),
  mul-pow-suc (bit a (suc k)) k,
)

halve_mask : (k : ℕ) → (2 ^ suc k - 1) / 2 ≡ 2 ^ k - 1
halve_mask k = omega (arith, pow-suc 2 k, one-le-pow k 2)

mod-pow-suc : (a k : ℕ) → a % 2 ^ suc k ≡ a / 2 % 2 ^ k * 2 + a % 2
mod-pow-suc a k =
    let q = a / 2 / 2 ^ k in
    let r = a / 2 % 2 ^ k * 2 + a % 2 in
    let below : r < 2 ^ suc k =
      omega (arith, pow-suc 2 k, one-le-pow k 2, mod-lt (a / 2) (one-le-pow k 2 (omega arith))) in
    let parts : a ≡ q * 2 ^ suc k + r =
      omega (arith, mul-pow-suc q k, div-add-mod (a / 2) (2 ^ k), mul_comm q (2 ^ k)) in
    ap (λ (t : ℕ). t % 2 ^ suc k) parts
    ∙ mul-add-mod_self_right q (2 ^ suc k) r
    ∙ mod-eq_of_lt below

pub bit_and_mask : (k a : ℕ) → bit_and a (2 ^ k - 1) ≡ a % 2 ^ k
bit_and_mask zero a = omega (arith, absorbs_right a a (omega arith))
bit_and_mask (suc k) a = omega (
  arith,
  pow-suc 2 k,
  one-le-pow k 2,
  bit_and_step a (2 ^ suc k - 1),
  bit_and_mask k (a / 2),
  ap (λ (t : ℕ). bit_and (a / 2) t) (halve_mask k),
  mod-pow-suc a k,
)
