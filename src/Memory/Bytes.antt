-- ===== src/Memory/Bytes.antt =====
-- src/memory.c: the memcpy of default_read and default_write, byte by byte.
use tinyvm.Base.{
  ℕ, zero, suc, ◌+◌, ◌*◌, ◌/◌, ◌%◌, ◌^◌, ◌≤◌, ◌<◌, ◌≡◌, ◌⊎◌, inl, refl, sym, ap, ◌∙◌, ◌==◌,
  if◌then◌else◌, set_at, u8, arith,
}
use native.Mathlib.Nat.{
  pow-succ', mul-add-mod_self_left, mod-eq_of_lt, mod-lt, div-add-mod, one-le-pow, mul_assoc,
}
use tinyvm.Memory.{load_bytes, store_bytes}

-- A store leaves the bytes outside its range alone.
pub store_bytes-outside :
    (f : ℕ → ℕ) (off val w j : ℕ) → (j < off) ⊎ (off + w ≤ j) → store_bytes f off val w j ≡ f j
unfolding store_bytes
store_bytes-outside f off val zero j h = refl
store_bytes-outside f off val (suc w) j h =
    store_bytes-outside (set_at f off (u8 val)) (off + 1) (val / 256) w j (beside off w j h)
    ∙ other off w j h
  where
    beside : (off w j : ℕ) → (j < off) ⊎ (off + suc w ≤ j) → (j < off + 1) ⊎ (off + 1 + w ≤ j)
    beside off w j h = ground arith

    other : (off w j : ℕ) → (j < off) ⊎ (off + suc w ≤ j) → (if j == off then u8 val else f j) ≡ f j
    other off w j h = ground arith

joined_mod :
    (n q r s : ℕ) → s < 256 → r < n → (256 * n * q + (s + 256 * r)) % (256 * n) ≡ s + 256 * r
joined_mod n q r s h l =
    mul-add-mod_self_left (256 * n) q (s + 256 * r) ∙ mod-eq_of_lt (omega arith)

whole : (val n q r : ℕ) → val / 256 ≡ n * q + r → val ≡ 256 * n * q + (val % 256 + 256 * r)
whole val n q r h = omega (arith, h, mul_assoc 256 n q)

split_mod : (val w : ℕ) → val % 256 + 256 * (val / 256 % 256 ^ w) ≡ val % 256 ^ suc w
split_mod val w =
    let n = 256 ^ w in
    let h : val / 256 ≡ n * (val / 256 / n) + val / 256 % n = sym (div-add-mod (val / 256) n) in
    let v : val ≡ 256 * n * (val / 256 / n) + (val % 256 + 256 * (val / 256 % n)) =
      whole val n (val / 256 / n) (val / 256 % n) h in
    rw (pow-succ' 256 w) (
      sym (
        ap (λ x. x % (256 * n)) v
        ∙ joined_mod n (val / 256 / n) (val / 256 % n) (val % 256) (omega arith)
            (mod-lt (val / 256) (one-le-pow w 256 (omega arith)))))

-- A load of the range that a store wrote gives the value's low bytes back.
pub load_bytes-store_bytes :
    (f : ℕ → ℕ) (off val w : ℕ) → load_bytes (store_bytes f off val w) off w ≡ val % 256 ^ w
unfolding load_bytes store_bytes
load_bytes-store_bytes f off val zero = omega arith
load_bytes-store_bytes f off val (suc w) =
    let g = set_at f off (u8 val) in
    let first = store_bytes-outside g (off + 1) (val / 256) w off (inl (omega arith)) in
    let here : g off ≡ u8 val = ground arith in
    let rest = load_bytes-store_bytes g (off + 1) (val / 256) w in
    omega (arith, first, here, rest, split_mod val w)
