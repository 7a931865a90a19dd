-- ===== src/Wf/Memory.antt =====
-- src/memory.c: reads give words of their width, and writes keep the machine well-formed.
use tinyvm.Base.{
  ℕ, zero, suc, ◌+◌, ◌/◌, ◌^◌, ◌≤◌, ◌<◌, ◌==◌, if-elim, Option, none, some, List, [], ◌∷◌, set_at,
  set, u8, u16, u32, sub64, arith, Gives, Keeps, Gives-pure, Gives-exit, Gives-crash, Keeps-modify,
  Gives-if, Gives-bind,
}
use native.Mathlib.Nat.{pow-le-pow_right, pow-suc}
use tinyvm.Machine.{Machine, MemRegion, plain_ram}
use tinyvm.Memory.{
  DeviceIo, load_bytes, store_bytes, find_region, region_has, found_or_exit, mem_find_region,
  set_region, data_or_crash, default_read, default_write, in_data, region_read, region_write,
  mem_read, mem_write, mem_read8, mem_read16, mem_read32, mem_read64, mem_write8, mem_write16,
  mem_write32, mem_write64,
}
use tinyvm.Wf.Defs.{IsMachine, IsIo, IsU64, IsU32, IsU8, AreBytes, AreRegions}

-- `w` bytes make a word of `w` bytes.
pub load_bytes-lt : (f : ℕ → ℕ) (off w : ℕ) → ((i : ℕ) → IsU8 (f i)) → load_bytes f off w < 256 ^ w
unfolding load_bytes
load_bytes-lt f off zero h = omega arith
load_bytes-lt f off (suc w) h = omega (arith, h off, load_bytes-lt f (off + 1) w h, pow-suc 256 w)

store_bytes-fit :
    (f : ℕ → ℕ) (off val w : ℕ)
    → ((i : ℕ) → IsU8 (f i))
    → (i : ℕ) → IsU8 (store_bytes f off val w i)
unfolding store_bytes
store_bytes-fit f off val zero h = h
store_bytes-fit f off val (suc w) h =
    store_bytes-fit (set_at f off (u8 val)) (off + 1) (val / 256) w
      (λ i. if-elim IsU8 (i == off) (u8 val) (f i) (λ _. omega arith) (λ _. h i))

set-AreRegions :
    (rs : List MemRegion) (i : ℕ) (r : MemRegion)
    → AreRegions rs
    → AreBytes r.bytes
    → AreRegions (set rs i r)
set-AreRegions [] i r h k = tt
set-AreRegions (s ∷ rs) zero r h k = (k, h.1)
set-AreRegions (s ∷ rs) (suc i) r h k = (h.0, set-AreRegions rs i r h.1 k)

pub set_region-IsMachine :
    (i : ℕ) (r : MemRegion) (m : Machine)
    → AreBytes r.bytes
    → IsMachine m
    → IsMachine (set_region i r m)
set_region-IsMachine i r m k h = record {
  is_cpu = h.is_cpu;
  are_regions = set-AreRegions m.regions i r h.are_regions k;
  is_virtio = h.is_virtio;
  mtimecmp_fits = h.mtimecmp_fits;
  is_plic = h.is_plic;
  is_uart = h.is_uart;
}

abbrev pub IsFound : ℕ × MemRegion → Type 0
IsFound found = AreBytes found.1.bytes

abbrev AllFound : Option (ℕ × MemRegion) → Type 0
AllFound none = Unit
AllFound (some found) = IsFound found

find_region-AllFound :
    (i : ℕ) (rs : List MemRegion) (addr w : ℕ) → AreRegions rs → AllFound (find_region i rs addr w)
unfolding find_region
find_region-AllFound i [] addr w h = tt
find_region-AllFound i (r ∷ rs) addr w h =
    if-elim AllFound (region_has r addr w) (some (i, r)) _ (λ _. h.0)
      (λ _. find_region-AllFound (i + 1) rs addr w h.1)

found_or_exit-Gives :
    (o : Option (ℕ × MemRegion)) → AllFound o → Gives IsMachine IsFound (found_or_exit o)
unfolding found_or_exit
found_or_exit-Gives none h = Gives-exit 1
found_or_exit-Gives (some found) h = Gives-pure found h

pub mem_find_region-Gives : (addr w : ℕ) → Gives IsMachine IsFound (mem_find_region addr w)
mem_find_region-Gives addr w = record {
  at = λ m h.
      unfold mem_find_region in
      (found_or_exit-Gives (find_region 0 m.regions addr w)
          (find_region-AllFound 0 m.regions addr w h.are_regions)).at
        m h;
}

abbrev pub IsData : (ℕ → ℕ) → Type 0
IsData f = (i : ℕ) → IsU8 (f i)

pub data_or_crash-Gives :
    (o : Option (ℕ → ℕ)) → AreBytes o → Gives IsMachine IsData (data_or_crash o)
unfolding data_or_crash
data_or_crash-Gives none h = Gives-crash
data_or_crash-Gives (some f) h = Gives-pure f h

default_read-Gives :
    (r : MemRegion) (off w : ℕ)
    → AreBytes r.bytes
    → w ≤ 8
    → Gives IsMachine IsU64 (default_read r off w)
unfolding default_read
default_read-Gives r off w k l = Gives-bind _ _ (data_or_crash-Gives r.bytes k) λ f b.
    Gives-if (in_data r off w) _ _
      (λ _. Gives-pure _ (
        omega (
          arith,
          load_bytes-lt f off w b,
          pow-le-pow_right {n = 256} (omega arith) {i = w} {j = 8} l,
        )))
      (λ _. Gives-crash)

default_write-Keeps :
    (i : ℕ) (r : MemRegion) (off val w : ℕ)
    → AreBytes r.bytes
    → Keeps IsMachine (default_write i r off val w)
unfolding default_write
default_write-Keeps i r off val w k = Gives-bind _ _ (data_or_crash-Gives r.bytes k) λ f b.
    Gives-if (in_data r off w) _ _
      (λ _. Keeps-modify _ (λ m h. set_region-IsMachine i _ m (store_bytes-fit f off val w b) h))
      (λ _. Gives-crash)

module _ (io : DeviceIo) (is_io : IsIo io) where
  region_read-Gives :
      (r : MemRegion) (off w : ℕ)
      → AreBytes r.bytes
      → w ≤ 8
      → Gives IsMachine IsU64 (region_read io r off w)
  unfolding region_read
  region_read-Gives r off w k l =
      elim r.device
        as (λ d.
          Gives IsMachine IsU64
            (elim d [ plain_ram ↦ default_read r off w | device ↦ io.read device off w ])) [
              | plain_ram ↦ default_read-Gives r off w k l
              | device ↦ is_io.read_gives device off w
            ]

  region_write-Keeps :
      (i : ℕ) (r : MemRegion) (off val w : ℕ)
      → AreBytes r.bytes
      → IsU64 val
      → Keeps IsMachine (region_write io i r off val w)
  unfolding region_write
  region_write-Keeps i r off val w k l =
      elim r.device
        as (λ d. Keeps IsMachine (elim d [
          | plain_ram ↦ default_write i r off val w
          | device ↦ io.write device off val w
        ])) [
          | plain_ram ↦ default_write-Keeps i r off val w k
          | device ↦ is_io.write_keeps device off val w l
        ]

  pub mem_read-Gives : (w addr : ℕ) → w ≤ 8 → Gives IsMachine IsU64 (mem_read io w addr)
  unfolding mem_read
  mem_read-Gives w addr l =
      Gives-bind _ _ (mem_find_region-Gives addr w)
        λ found k. region_read-Gives found.1 (sub64 addr found.1.base) w k l

  pub mem_write-Keeps : (w addr val : ℕ) → IsU64 val → Keeps IsMachine (mem_write io w addr val)
  unfolding mem_write
  mem_write-Keeps w addr val l =
      Gives-bind _ _ (mem_find_region-Gives addr w)
        λ found k. region_write-Keeps found.0 found.1 (sub64 addr found.1.base) val w k l

  pub mem_read8-Gives : (addr : ℕ) → Gives IsMachine (λ v. v < 2 ^ 8) (mem_read8 io addr)
  unfolding mem_read8
  mem_read8-Gives addr =
      Gives-bind _ _ (mem_read-Gives 1 addr (omega arith)) (λ v _. Gives-pure (u8 v) (omega arith))

  pub mem_read16-Gives : (addr : ℕ) → Gives IsMachine (λ v. v < 2 ^ 16) (mem_read16 io addr)
  unfolding mem_read16
  mem_read16-Gives addr =
      Gives-bind _ _ (mem_read-Gives 2 addr (omega arith)) (λ v _. Gives-pure (u16 v) (omega arith))

  pub mem_read32-Gives : (addr : ℕ) → Gives IsMachine IsU32 (mem_read32 io addr)
  unfolding mem_read32
  mem_read32-Gives addr =
      Gives-bind _ _ (mem_read-Gives 4 addr (omega arith)) (λ v _. Gives-pure (u32 v) (omega arith))

  pub mem_read64-Gives : (addr : ℕ) → Gives IsMachine IsU64 (mem_read64 io addr)
  unfolding mem_read64
  mem_read64-Gives addr = mem_read-Gives 8 addr (omega arith)

  pub mem_write8-Keeps : (addr val : ℕ) → IsU64 val → Keeps IsMachine (mem_write8 io addr val)
  unfolding mem_write8
  mem_write8-Keeps = mem_write-Keeps 1

  pub mem_write16-Keeps : (addr val : ℕ) → IsU64 val → Keeps IsMachine (mem_write16 io addr val)
  unfolding mem_write16
  mem_write16-Keeps = mem_write-Keeps 2

  pub mem_write32-Keeps : (addr val : ℕ) → IsU64 val → Keeps IsMachine (mem_write32 io addr val)
  unfolding mem_write32
  mem_write32-Keeps = mem_write-Keeps 4

  pub mem_write64-Keeps : (addr val : ℕ) → IsU64 val → Keeps IsMachine (mem_write64 io addr val)
  unfolding mem_write64
  mem_write64-Keeps = mem_write-Keeps 8
