-- ===== src/Base/Bits/Set.antt =====
-- Single bits of words that are set, cleared or copied one flag at a time.
use Prim.Native.Nat.{ℕ, ◌^◌, ◌<◌, bit_and}
use mathlib.Core.Path.{◌≡◌, refl, sym, ◌∙◌}
use mathlib.Core.Bool.{Bool, true, false}
use native.Mathlib.Omega.{arith}
use tinyvm.Base.Test.{◌==◌, if◌then◌else◌}
use tinyvm.Base.Word.{has_flag, set_flags, clear_flags}
use tinyvm.Base.Bits.Laws.{bit, bit-bit_and}
use tinyvm.Base.Bits.Flags.{bit-two_pow, bit-set_flag, bit-clear_flags, has_flag-bit}

-- x &= ~(1 << k).
pub bit-clear_flag :
    (k x i : ℕ)
    → 2 ^ k < 2 ^ 64
    → i < 64
    → bit (clear_flags x (2 ^ k)) i ≡ (if i == k then 0 else bit x i)
bit-clear_flag k x i h l = ground (arith, bit-clear_flags (2 ^ k) x i h l, bit-two_pow k i)

-- if (b) x |= 1 << k.
pub bit-set_if :
    (b : Bool) (k x i : ℕ)
    → bit (if b then set_flags x (2 ^ k) else x) i
      ≡ (if b then (if i == k then 1 else bit x i) else bit x i)
bit-set_if true k x i = bit-set_flag k x i
bit-set_if false k x i = refl

-- if (x & (1 << j)) x |= 1 << k.
pub bit-copy_flag :
    (j k x i : ℕ)
    → bit (if has_flag x (2 ^ j) then set_flags x (2 ^ k) else x) i
      ≡ (if bit x j == 1 then (if i == k then 1 else bit x i) else bit x i)
bit-copy_flag j k x i = rw (has_flag-bit j x) (bit-set_if (bit x j == 1) k x i)

pub has_flag-set_flags : (k x : ℕ) → has_flag (set_flags x (2 ^ k)) (2 ^ k) ≡ true
has_flag-set_flags k x = has_flag-bit k (set_flags x (2 ^ k)) ∙ ground (arith, bit-set_flag k x k)

pub has_flag-clear_flags :
    (k x : ℕ) → 2 ^ k < 2 ^ 64 → k < 64 → has_flag (clear_flags x (2 ^ k)) (2 ^ k) ≡ false
has_flag-clear_flags k x h l =
    has_flag-bit k (clear_flags x (2 ^ k)) ∙ ground (arith, bit-clear_flag k x k h l)

-- x & y has a flag exactly if both have it.
pub has_flag-bit_and_left :
    (k x y : ℕ) → has_flag (bit_and x y) (2 ^ k) ≡ true → has_flag x (2 ^ k) ≡ true
has_flag-bit_and_left k x y h =
    has_flag-bit k x ∙ ground (arith, sym (has_flag-bit k (bit_and x y)) ∙ h, bit-bit_and k x y)

pub has_flag-bit_and_right :
    (k x y : ℕ) → has_flag (bit_and x y) (2 ^ k) ≡ true → has_flag y (2 ^ k) ≡ true
has_flag-bit_and_right k x y h =
    has_flag-bit k y ∙ ground (arith, sym (has_flag-bit k (bit_and x y)) ∙ h, bit-bit_and k x y)
