-- ===== src/Base/Bits/Flags.antt =====
-- The words that the source builds with 1 << k, ~m, |= and &= ~, bit by bit.
use Prim.Native.Nat.{ℕ, zero, suc, ◌-◌, ◌*◌, ◌/◌, ◌^◌, ◌≤◌, ◌<◌, bit_and}
use mathlib.Core.Path.{◌≡◌, refl, ◌∙◌}
use native.Mathlib.Nat.{pow-suc, one-le-pow}
use native.Mathlib.Omega.{arith}
use tinyvm.Base.Test.{◌==◌, if◌then◌else◌}
use tinyvm.Base.Word.{u64, not64, has_flag, set_flags, clear_flags, truthy}
use tinyvm.Base.Bits.Laws.{bit, bit-suc, bit-bit_and, bit-bit_or, bit_and_flag, bit_and-le_left}

pub bit-zero : (i : ℕ) → bit 0 i ≡ 0
bit-zero zero = refl
bit-zero (suc i) = bit-suc 0 i ∙ bit-zero i

pub bit-two_pow : (k i : ℕ) → bit (2 ^ k) i ≡ (if i == k then 1 else 0)
bit-two_pow zero zero = refl
bit-two_pow zero (suc i) = ground (arith, bit-suc 1 i, bit-zero i)
bit-two_pow (suc k) zero = ground (arith, pow-suc 2 k)
bit-two_pow (suc k) (suc i) =
    let half : 2 ^ suc k / 2 ≡ 2 ^ k = omega (arith, pow-suc 2 k) in
    rw (bit-suc (2 ^ suc k) i, half) (bit-two_pow k i ∙ ground arith)

pub bit-complement : (w m i : ℕ) → m < 2 ^ w → i < w → bit (2 ^ w - 1 - m) i ≡ 1 - bit m i
bit-complement zero m i h l = absurd (omega arith)
bit-complement (suc w) m zero h l = omega (arith, pow-suc 2 w, one-le-pow w 2)
bit-complement (suc w) m (suc i) h l =
    let half : (2 ^ suc w - 1 - m) / 2 ≡ 2 ^ w - 1 - m / 2 =
      omega (arith, pow-suc 2 w, one-le-pow w 2) in
    rw (bit-suc (2 ^ suc w - 1 - m) i, half, bit-suc m i)
      (bit-complement w (m / 2) i (omega (arith, pow-suc 2 w)) (omega arith))

-- ~m on u64.
pub bit-not64 : (m i : ℕ) → m < 2 ^ 64 → i < 64 → bit (not64 m) i ≡ 1 - bit m i
bit-not64 m i h l = let same : u64 m ≡ m = omega arith in rw same (bit-complement 64 m i h l)

-- x |= 1 << k.
pub bit-set_flag : (k x i : ℕ) → bit (set_flags x (2 ^ k)) i ≡ (if i == k then 1 else bit x i)
bit-set_flag k x i = ground (arith, bit-bit_or i x (2 ^ k), bit-two_pow k i)

-- x &= ~m.
pub bit-clear_flags :
    (m x i : ℕ)
    → m < 2 ^ 64
    → i < 64
    → bit (clear_flags x m) i ≡ (if bit m i == 1 then 0 else bit x i)
bit-clear_flags m x i h l = ground (arith, bit-bit_and i x (not64 m), bit-not64 m i h l)

truthy-mul : (b p : ℕ) → b ≤ 1 → 1 ≤ p → truthy (b * p) ≡ (b == 1)
truthy-mul zero p h l = ground arith
truthy-mul (suc zero) p h l = ground arith
truthy-mul (suc (suc b)) p h l = absurd (omega arith)

-- x & (1 << k) as a condition.
pub has_flag-bit : (k x : ℕ) → has_flag x (2 ^ k) ≡ (bit x k == 1)
has_flag-bit k x = ground (
  arith,
  bit_and_flag k x,
  truthy-mul (bit x k) (2 ^ k) (omega arith) (one-le-pow k 2 (omega arith)),
)

pub bit_and-lt : (w a b : ℕ) → a < 2 ^ w → bit_and a b < 2 ^ w
bit_and-lt w a b h = omega (arith, bit_and-le_left a a b (omega arith))
