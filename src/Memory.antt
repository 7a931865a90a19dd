-- ===== src/Memory.antt =====
-- src/memory.c: the regions of the physical address space, and reads and writes through them.
-- The host is little-endian. A section's parameter gives the handlers of the devices; the file
-- Device/Table fills it.
pub mod Bytes
pub mod RoundTrip
pub mod Copy
use tinyvm.Base.{
  ℕ, zero, suc, ◌+◌, ◌-◌, ◌*◌, ◌/◌, ◌%◌, ◌^◌, ◌&&◌, Bool, true, false, bit_and, ◌==◌, ltb, leb,
  if◌then◌else◌, Option, none, some, List, [], ◌∷◌, ◌++◌, set_at, length, set, u8, u16, u32, u64,
  add64, Exec, pure, exit, crash, modify, gets, ◌>>=◌, ◌>>◌, sub64,
}
use tinyvm.Machine.{Machine, MemRegion, Device, plain_ram}

abbrev pub max_regions : ℕ
max_regions = 8

-- memcpy between an array of bytes and a word: `width` bytes from the lowest address up.
unfoldable pub load_bytes : (ℕ → ℕ) → ℕ → ℕ → ℕ
load_bytes f off zero = 0
load_bytes f off (suc width) = f off + 256 * load_bytes f (off + 1) width

unfoldable pub store_bytes : (ℕ → ℕ) → ℕ → ℕ → ℕ → ℕ → ℕ
store_bytes f off val zero = f
store_bytes f off val (suc width) = store_bytes (set_at f off (u8 val)) (off + 1) (val / 256) width

-- memcpy of a whole buffer.
unfoldable pub store_list : (ℕ → ℕ) → ℕ → List ℕ → ℕ → ℕ
store_list f off [] = f
store_list f off (b ∷ bs) = store_list (set_at f off b) (off + 1) bs

unfoldable pub load_list : (ℕ → ℕ) → ℕ → ℕ → List ℕ
load_list f off zero = []
load_list f off (suc len) = f off ∷ load_list f (off + 1) len

-- An access of the host at r->data + offset: NULL and anything outside the array are undefined.
abbrev pub in_data : MemRegion → ℕ → ℕ → Bool
in_data r offset width = leb (offset + width) r.size

-- The sums wrap at 2^64, as the source's do.
abbrev pub region_has : MemRegion → ℕ → ℕ → Bool
region_has r addr width = leb r.base addr && leb (add64 addr width) (add64 r.base r.size)

-- The first region that passes the test, and its index, which counts from `i`.
unfoldable pub find_region : ℕ → List MemRegion → ℕ → ℕ → Option (ℕ × MemRegion)
find_region i [] addr width = none
find_region i (r ∷ rs) addr width =
    if region_has r addr width then some (i, r) else find_region (i + 1) rs addr width

-- exit(1) when no region has the address.
unfoldable pub found_or_exit : Option (ℕ × MemRegion) → Exec Machine (ℕ × MemRegion)
found_or_exit none = exit 1
found_or_exit (some found) = pure found

unfoldable pub mem_find_region : ℕ → ℕ → Exec Machine (ℕ × MemRegion)
mem_find_region addr width m = found_or_exit (find_region 0 m.regions addr width) m

-- The index of the region is its place in mem->regions, so a write lands in the shared array.
abbrev pub set_region : ℕ → MemRegion → Machine → Machine
set_region i r m = record m { regions = set m.regions i r }

unfoldable pub data_or_crash : Option (ℕ → ℕ) → Exec Machine (ℕ → ℕ)
data_or_crash none = crash
data_or_crash (some f) = pure f

unfoldable pub default_read : MemRegion → ℕ → ℕ → Exec Machine ℕ
default_read r offset width = do
  f ← data_or_crash r.bytes
  if in_data r offset width then pure (load_bytes f offset width) else crash

unfoldable pub default_write : ℕ → MemRegion → ℕ → ℕ → ℕ → Exec Machine (Unit {0})
default_write i r offset val width = do
  f ← data_or_crash r.bytes
  if in_data r offset width
      then modify (set_region i (record r { bytes = some (store_bytes f offset val width) }))
      else crash

-- Returns NULL, and changes nothing, when the table is full.
unfoldable pub add_region : List MemRegion → MemRegion → Bool × List MemRegion
add_region rs r = if leb max_regions (length rs) then (false, rs) else (true, rs ++ r ∷ [])

-- calloc gives zeroed bytes; it is taken to succeed.
unfoldable pub mem_add_region : ℕ → ℕ → Machine → Bool × Machine
mem_add_region base size m =
    let r : MemRegion = record {
      base = base;
      size = size;
      bytes = some (λ _. 0);
      device = plain_ram;
    } in
    let (added, rs) = add_region m.regions r in (added, record m { regions = rs })

unfoldable pub mem_add_device : ℕ → ℕ → Device → Machine → Bool × Machine
mem_add_device base size device m =
    let r : MemRegion = record { base = base; size = size; bytes = none; device = device } in
    let (added, rs) = add_region m.regions r in (added, record m { regions = rs })

-- The read and write handlers of the devices: an offset, (a value,) and a width.
pub record DeviceIo : Type 0 where
  pub read : Device → ℕ → ℕ → Exec Machine ℕ
  pub write : Device → ℕ → ℕ → ℕ → Exec Machine (Unit {0})

module _ (io : DeviceIo) where
  -- r->read(r, addr - r->base, width).
  unfoldable pub region_read : MemRegion → ℕ → ℕ → Exec Machine ℕ
  region_read r offset width = elim r.device [
    | plain_ram ↦ default_read r offset width
    | device ↦ io.read device offset width
  ]

  unfoldable pub region_write : ℕ → MemRegion → ℕ → ℕ → ℕ → Exec Machine (Unit {0})
  region_write i r offset val width = elim r.device [
    | plain_ram ↦ default_write i r offset val width
    | device ↦ io.write device offset val width
  ]

  unfoldable pub mem_read : ℕ → ℕ → Exec Machine ℕ
  mem_read width addr = do
    found ← mem_find_region addr width
    region_read found.1 (sub64 addr found.1.base) width

  unfoldable pub mem_write : ℕ → ℕ → ℕ → Exec Machine (Unit {0})
  mem_write width addr val = do
    found ← mem_find_region addr width
    region_write found.0 found.1 (sub64 addr found.1.base) val width

  unfoldable pub mem_read8 : ℕ → Exec Machine ℕ
  mem_read8 addr = do v ← mem_read 1 addr; pure (u8 v)

  unfoldable pub mem_read16 : ℕ → Exec Machine ℕ
  mem_read16 addr = do v ← mem_read 2 addr; pure (u16 v)

  unfoldable pub mem_read32 : ℕ → Exec Machine ℕ
  mem_read32 addr = do v ← mem_read 4 addr; pure (u32 v)

  unfoldable pub mem_read64 : ℕ → Exec Machine ℕ
  mem_read64 addr = mem_read 8 addr

  unfoldable pub mem_write8 : ℕ → ℕ → Exec Machine (Unit {0})
  mem_write8 addr val = mem_write 1 addr val

  unfoldable pub mem_write16 : ℕ → ℕ → Exec Machine (Unit {0})
  mem_write16 addr val = mem_write 2 addr val

  unfoldable pub mem_write32 : ℕ → ℕ → Exec Machine (Unit {0})
  mem_write32 addr val = mem_write 4 addr val

  unfoldable pub mem_write64 : ℕ → ℕ → Exec Machine (Unit {0})
  mem_write64 addr val = mem_write 8 addr val

-- These two go to r->data whatever the region's handlers are.
unfoldable pub mem_read_buf : ℕ → ℕ → Exec Machine (List ℕ)
mem_read_buf addr len = do
  found ← mem_find_region addr len
  f ← data_or_crash found.1.bytes
  if in_data found.1 (sub64 addr found.1.base) len
      then pure (load_list f (sub64 addr found.1.base) len)
      else crash

unfoldable pub mem_write_buf : ℕ → List ℕ → Exec Machine (Unit {0})
mem_write_buf addr src = do
  found ← mem_find_region addr (length src)
  f ← data_or_crash found.1.bytes
  if in_data found.1 (sub64 addr found.1.base) (length src)
      then modify (
          set_region found.0
            (record found.1 { bytes = some (store_list f (sub64 addr found.1.base) src) }))
      else crash
