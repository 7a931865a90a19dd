-- ===== src/Base/Signed.antt =====
-- Signed C integers: the i64, i32, … that a word of w bits stands for in two's complement.
use Prim.Native.Nat.{ℕ, suc, ◌+◌, ◌-◌, ◌/◌, ◌%◌, ◌^◌}
use mathlib.Core.Bool.{Bool}
use tinyvm.Base.Test.{ltb, if◌then◌else◌}

-- `negsuc n` is -(n + 1).
pub data ℤ : Type 0 where
  pos : ℕ → ℤ
  negsuc : ℕ → ℤ

abbrev pub pos_part : ℤ → ℕ
pos_part (pos n) = n
pos_part (negsuc n) = 0

abbrev pub neg_part : ℤ → ℕ
neg_part (pos n) = 0
neg_part (negsuc n) = suc n

-- (i8)x … (i64)x at a word of w bits, and (u8)z … (u64)z back.
abbrev pub signed : ℕ → ℕ → ℤ
signed w x = if ltb x (2 ^ (w - 1)) then pos x else negsuc (2 ^ w - 1 - x)

abbrev pub unsigned : ℕ → ℤ → ℕ
unsigned w (pos n) = n % 2 ^ w
unsigned w (negsuc n) = 2 ^ w - 1 - n % 2 ^ w

abbrev pub i64 : ℕ → ℤ
i64 = signed 64

abbrev pub i32 : ℕ → ℤ
i32 = signed 32

abbrev pub ltb_ℤ : ℤ → ℤ → Bool
ltb_ℤ a b = ltb (pos_part a + neg_part b) (pos_part b + neg_part a)

-- z >> k on a signed integer: the host shifts in copies of the sign.
abbrev pub shr_ℤ : ℤ → ℕ → ℤ
shr_ℤ (pos n) k = pos (n / 2 ^ k)
shr_ℤ (negsuc n) k = negsuc (n / 2 ^ k)

-- -n as an integer.
abbrev pub neg_ℕ : ℕ → ℤ
neg_ℕ n = if ltb 0 n then negsuc (n - 1) else pos 0

-- a / b and a % b at b ≠ 0: C divides towards zero, and the remainder has the sign of a.
abbrev pub div_ℤ : ℤ → ℤ → ℤ
div_ℤ (pos a) (pos b) = pos (a / b)
div_ℤ (pos a) (negsuc b) = neg_ℕ (a / suc b)
div_ℤ (negsuc a) (pos b) = neg_ℕ (suc a / b)
div_ℤ (negsuc a) (negsuc b) = pos (suc a / suc b)

abbrev pub mod_ℤ : ℤ → ℤ → ℤ
mod_ℤ (pos a) (pos b) = pos (a % b)
mod_ℤ (pos a) (negsuc b) = pos (a % suc b)
mod_ℤ (negsuc a) (pos b) = neg_ℕ (suc a % b)
mod_ℤ (negsuc a) (negsuc b) = neg_ℕ (suc a % suc b)

-- (u64)(i64)(iW)x: the word of w bits widened with copies of its sign.
abbrev pub widen : ℕ → ℕ → ℕ
widen w x = unsigned 64 (signed w x)

-- (u64)((i64)x >> k) and (u32)((i32)x >> k).
abbrev pub sar64 : ℕ → ℕ → ℕ
sar64 x k = unsigned 64 (shr_ℤ (i64 x) k)

abbrev pub sar32 : ℕ → ℕ → ℕ
sar32 x k = unsigned 32 (shr_ℤ (i32 x) k)
