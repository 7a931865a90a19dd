-- ===== src/Base/Word.antt =====
-- Unsigned C words: a value is a number, and each operation that can leave the width says `% 2 ^ w`.
use Prim.Native.Nat.{ℕ, ◌+◌, ◌-◌, ◌*◌, ◌/◌, ◌%◌, ◌^◌, bit_and, bit_or}
use mathlib.Core.Bool.{Bool, not}
use tinyvm.Base.Test.{◌==◌}

-- The casts (u8), (u16), (u32) and (u64) of include/types.h.
abbrev pub u8 : ℕ → ℕ
u8 n = n % 2 ^ 8

abbrev pub u16 : ℕ → ℕ
u16 n = n % 2 ^ 16

abbrev pub u32 : ℕ → ℕ
u32 n = n % 2 ^ 32

abbrev pub u64 : ℕ → ℕ
u64 n = n % 2 ^ 64

-- UINT64_MAX, which is also (u64)-1.
abbrev pub u64_max : ℕ
u64_max = 2 ^ 64 - 1

abbrev pub u32_max : ℕ
u32_max = 2 ^ 32 - 1

-- a + b, a - b and a << k on u64. `-` on ℕ stops at 0, so the modulus is added first.
abbrev pub add64 : ℕ → ℕ → ℕ
add64 a b = u64 (a + b)

abbrev pub sub64 : ℕ → ℕ → ℕ
sub64 a b = u64 (a + 2 ^ 64 - b)

abbrev pub shl64 : ℕ → ℕ → ℕ
shl64 a k = u64 (a * 2 ^ k)

abbrev pub add32 : ℕ → ℕ → ℕ
add32 a b = u32 (a + b)

abbrev pub sub32 : ℕ → ℕ → ℕ
sub32 a b = u32 (a + 2 ^ 32 - b)

abbrev pub shl32 : ℕ → ℕ → ℕ
shl32 a k = u32 (a * 2 ^ k)

-- x >> k on an unsigned word.
abbrev pub shr : ℕ → ℕ → ℕ
shr a k = a / 2 ^ k

-- ~x on u64 and u32.
abbrev pub not64 : ℕ → ℕ
not64 a = u64_max - u64 a

abbrev pub not32 : ℕ → ℕ
not32 a = u32_max - u32 a

-- A word as a C truth value.
abbrev pub truthy : ℕ → Bool
truthy a = not (a == 0)

-- x & m as a C truth value.
abbrev pub has_flag : ℕ → ℕ → Bool
has_flag a m = truthy (bit_and a m)

-- x |= m and x &= ~m on u64.
abbrev pub set_flags : ℕ → ℕ → ℕ
set_flags a m = bit_or a m

abbrev pub clear_flags : ℕ → ℕ → ℕ
clear_flags a m = bit_and a (not64 m)
