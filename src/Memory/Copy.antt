-- ===== src/Memory/Copy.antt =====
-- src/memory.c: buffers moved by memcpy, in the RAM that is the first region of the table.
use tinyvm.Base.{
  ℕ, zero, suc, ◌+◌, ◌-◌, ◌^◌, ◌≤◌, ◌<◌, ◌≡◌, refl, ap, ◌∙◌, true, false, ◌==◌, leb, List, [], ◌∷◌,
  ◌++◌, length, set_at, add64, sub64, ok, pure, modify, ◌>>=◌, arith,
}
use tinyvm.Machine.{Machine, MemRegion}
use tinyvm.Memory.{
  load_list, store_list, region_has, find_region, found_or_exit, mem_find_region, data_or_crash,
  mem_read_buf, mem_write_buf,
}
use tinyvm.Memory.RoundTrip.{ram}

pub length-load_list : (f : ℕ → ℕ) (off k : ℕ) → length (load_list f off k) ≡ k
unfolding load_list
length-load_list f off zero = refl
length-load_list f off (suc k) = ap suc (length-load_list f (off + 1) k)

pub load_list-append :
    (f : ℕ → ℕ) (off k l : ℕ)
    → load_list f off (k + l) ≡ load_list f off k ++ load_list f (off + k) l
unfolding load_list
load_list-append f off zero l =
    let a : 0 + l ≡ l = omega arith in let b : off + 0 ≡ off = omega arith in rw (a, b) refl
load_list-append f off (suc k) l =
    let shift : off + 1 + k ≡ off + suc k = omega arith in
    let more : suc k + l ≡ suc (k + l) = omega arith in
    rw (more) (
      ap (λ xs. f off ∷ xs)
        (load_list-append f (off + 1) k l
          ∙ ap (λ i. load_list f (off + 1) k ++ load_list f i l) shift))

pub store_list-append :
    (f : ℕ → ℕ) (off : ℕ) (xs ys : List ℕ)
    → store_list f off (xs ++ ys) ≡ store_list (store_list f off xs) (off + length xs) ys
unfolding store_list
store_list-append f off [] ys = ap (λ i. store_list f i ys) (omega arith)
store_list-append f off (x ∷ xs) ys =
    let shift : off + 1 + length xs ≡ off + suc (length xs) = omega arith in
    store_list-append (set_at f off x) (off + 1) xs ys
    ∙ ap (λ i. store_list (store_list (set_at f off x) (off + 1) xs) i ys) shift

-- What was stored loads back.
pub store_list-before :
    (f : ℕ → ℕ) (off : ℕ) (bs : List ℕ) (j : ℕ) → j < off → store_list f off bs j ≡ f j
unfolding store_list
store_list-before f off [] j h = refl
store_list-before f off (b ∷ bs) j h =
    let other : (j == off) ≡ false = ground arith in
    store_list-before (set_at f off b) (off + 1) bs j (omega (arith, h)) ∙ rw (other) refl

pub load_list-store_list :
    (f : ℕ → ℕ) (off : ℕ) (bs : List ℕ) → load_list (store_list f off bs) off (length bs) ≡ bs
unfolding load_list store_list
load_list-store_list f off [] = refl
load_list-store_list f off (b ∷ bs) =
    let here : (off == off) ≡ true = ground arith in
    let first : store_list (set_at f off b) (off + 1) bs off ≡ b =
      store_list-before (set_at f off b) (off + 1) bs off (omega arith) ∙ rw (here) refl in
    rw (first, load_list-store_list (set_at f off b) (off + 1) bs) refl

pub store_list-after :
    (f : ℕ → ℕ) (off : ℕ) (bs : List ℕ) (j : ℕ) → off + length bs ≤ j → store_list f off bs j ≡ f j
unfolding store_list
store_list-after f off [] j h = refl
store_list-after f off (b ∷ bs) j h =
    let other : (j == off) ≡ false = ground arith in
    store_list-after (set_at f off b) (off + 1) bs j (omega (arith, h)) ∙ rw (other) refl

-- Arrays that agree on a range load the same from it.
pub load_list-agree :
    (f g : ℕ → ℕ) (off k : ℕ)
    → ((j : ℕ) → off ≤ j → j < off + k → f j ≡ g j)
    → load_list f off k ≡ load_list g off k
unfolding load_list
load_list-agree f g off zero h = refl
load_list-agree f g off (suc k) h =
    let first = h off (omega arith) (omega arith) in
    let rest = load_list-agree f g (off + 1) k λ j l m. h j (omega arith) (omega arith) in
    rw (first, rest) refl

-- The machine with its RAM, the first region, at `base`.
abbrev pub with_ram : ℕ → ℕ → List MemRegion → Machine → (ℕ → ℕ) → Machine
with_ram base size rs m f = record m { regions = ram base size f ∷ rs }

-- The range is in the RAM, which does not wrap around.
pub record InRam (base size addr len : ℕ) : Type 0 where
  pub above : base ≤ addr
  pub below : addr + len ≤ base + size
  pub no_wrap : base + size < 2 ^ 64

pub sub64-ge : (a b : ℕ) → b ≤ a → a < 2 ^ 64 → sub64 a b ≡ a - b
sub64-ge a b h k = omega (arith, h, k)

module _ (base size : ℕ) (rs : List MemRegion) (m : Machine) (f : ℕ → ℕ) (addr len : ℕ)
    (h : InRam base size addr len) where
  pub offset_of : sub64 addr base ≡ addr - base
  offset_of = sub64-ge addr base h.above (omega (arith, h.above, h.below, h.no_wrap))

  pub first_found : region_has (ram base size f) addr len ≡ true
  first_found =
      let a = h.above in
      let b = h.below in
      let c = h.no_wrap in
      let e : add64 addr len ≡ addr + len = omega arith in
      let e' : add64 base size ≡ base + size = omega arith in rw (e, e') ground arith

  pub in_first : leb (sub64 addr base + len) size ≡ true
  in_first = let a = h.above in let b = h.below in rw (offset_of) ground arith

  pub read_ram :
      mem_read_buf addr len (with_ram base size rs m f)
      ≡ ok (load_list f (addr - base) len, with_ram base size rs m f)
  unfolding mem_read_buf mem_find_region find_region found_or_exit data_or_crash ◌>>=◌ pure
  read_ram = rw (first_found, in_first, offset_of) refl

module _ (base size : ℕ) (rs : List MemRegion) (m : Machine) (f : ℕ → ℕ) (addr : ℕ) (src : List ℕ)
    (h : InRam base size addr (length src)) where
  pub write_ram :
      mem_write_buf addr src (with_ram base size rs m f)
      ≡ ok (tt, with_ram base size rs m (store_list f (addr - base) src))
  unfolding mem_write_buf mem_find_region find_region found_or_exit data_or_crash ◌>>=◌ pure modify
  write_ram =
      rw
        (
          first_found base size rs m f addr (length src) h,
          in_first base size rs m f addr (length src) h,
          offset_of base size rs m f addr (length src) h,
        )
        refl
