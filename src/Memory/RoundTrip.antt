-- ===== src/Memory/RoundTrip.antt =====
-- src/memory.c: reads after writes in the RAM, through mem_find_region.
use tinyvm.Base.{
  ℕ, suc, ◌+◌, ◌-◌, ◌%◌, ◌^◌, ◌≤◌, ◌≡◌, refl, ap, subst, true, false, if-elim, Option, none, some,
  List, [], ◌∷◌, set, sub64, ok, pure, modify, ◌>>=◌, ◌>>◌, arith,
}
use tinyvm.Machine.{Machine, MemRegion, plain_ram}
use tinyvm.Memory.{
  store_bytes, in_data, region_has, find_region, found_or_exit, mem_find_region, set_region,
  data_or_crash, default_read, default_write, DeviceIo, region_read, region_write, mem_read,
  mem_write,
}
use tinyvm.Memory.Bytes.{load_bytes-store_bytes}

-- A region of RAM.
abbrev pub ram : ℕ → ℕ → (ℕ → ℕ) → MemRegion
ram base size f = record { base = base; size = size; bytes = some f; device = plain_ram }

-- New bytes in the region that is found, at its place in the table: it is found again.
abbrev StaysFound : ℕ → List MemRegion → ℕ → ℕ → Option (ℕ × MemRegion) → Type 0
StaysFound k rs addr w none = Unit
StaysFound k rs addr w (some (j, r)) =
    (k ≤ j)
    × ((g : Option (ℕ → ℕ))
        → find_region k (set rs (j - k) (record r { bytes = g })) addr w
          ≡ some (j, record r { bytes = g }))

next-StaysFound :
    (k : ℕ) (r₀ : MemRegion) (rs : List MemRegion) (addr w : ℕ) (o : Option (ℕ × MemRegion))
    → region_has r₀ addr w ≡ false
    → StaysFound (k + 1) rs addr w o
    → StaysFound k (r₀ ∷ rs) addr w o
unfolding find_region
next-StaysFound k r₀ rs addr w none e h = tt
next-StaysFound k r₀ rs addr w (some (j, r)) e (l, h) = (
  omega (arith, l),
  λ g. let step : j - k ≡ suc (j - (k + 1)) = omega (arith, l) in rw (step, e) (h g),
)

find_region-StaysFound :
    (k : ℕ) (rs : List MemRegion) (addr w : ℕ) → StaysFound k rs addr w (find_region k rs addr w)
unfolding find_region
find_region-StaysFound k [] addr w = tt
find_region-StaysFound k (r₀ ∷ rs) addr w =
    if-elim (StaysFound k (r₀ ∷ rs) addr w) (region_has r₀ addr w) (some (k, r₀))
      (find_region (k + 1) rs addr w)
      (λ e. (omega arith, λ g. let here : k - k ≡ 0 = omega arith in rw (here, e) refl))
      (λ e.
        next-StaysFound k r₀ rs addr w (find_region (k + 1) rs addr w) e
          (find_region-StaysFound (k + 1) rs addr w))

module _ (io : DeviceIo) (m : Machine) (w addr i base size : ℕ) (f : ℕ → ℕ) where
  -- The machine after the value is stored in region i.
  abbrev pub stored : ℕ → Machine
  stored val = set_region i (ram base size (store_bytes f (sub64 addr base) val w)) m

  module _ (found : find_region 0 m.regions addr w ≡ some (i, ram base size f))
      (fits : in_data (ram base size f) (sub64 addr base) w ≡ true) where
    write-stored : (val : ℕ) → mem_write io w addr val m ≡ ok (tt, stored val)
    unfolding mem_write mem_find_region found_or_exit region_write default_write data_or_crash ◌>>=◌
        pure modify
    write-stored val = rw (found, fits) refl

    found_again :
        (val : ℕ)
        → find_region 0 (stored val).regions addr w
          ≡ some (i, ram base size (store_bytes f (sub64 addr base) val w))
    found_again val =
        let h =
          subst (StaysFound 0 m.regions addr w) found (find_region-StaysFound 0 m.regions addr w) in
        let r = ram base size (store_bytes f (sub64 addr base) val w) in
        subst (λ k. find_region 0 (set m.regions k r) addr w ≡ some (i, r)) (omega arith)
          (h.1 r.bytes)

    -- A write of any width to an address that the table sends to a RAM region, inside its
    -- bytes, succeeds, and a read of that address and width then returns the value's low bytes and
    -- changes nothing.
    pub mem_read-mem_write :
        (val : ℕ)
        → (do mem_write io w addr val; mem_read io w addr) m ≡ ok (val % 256 ^ w, stored val)
    unfolding ◌>>=◌ mem_read mem_find_region found_or_exit region_read default_read data_or_crash
        pure
    mem_read-mem_write val =
        rw (write-stored val, found_again val, fits)
          (ap (λ v. ok (v, stored val)) (load_bytes-store_bytes f (sub64 addr base) val w))
