-- ===== src/Device/Stopping.antt =====
-- src/virtio_blk.c: the loop of blk_do_read, where the target is not inside the guest's memory.
use tinyvm.Base.{
  Bool-cases, ℕ, zero, suc, ◌+◌, ◌-◌, ◌^◌, ◌≤◌, ◌<◌, ◌≡◌, refl, ap, sym, subst, ◌∙◌, ◌⊎◌, inl, inr,
  false, ◌&&◌, leb, none, List, length, add64, exits, exit, ◌>>=◌, arith,
}
use tinyvm.Machine.{Machine, MemRegion}
use tinyvm.Memory.{
  load_list, region_has, find_region, found_or_exit, mem_find_region, mem_write_buf,
}
use tinyvm.Memory.RoundTrip.{ram}
use tinyvm.Memory.Copy.{with_ram, InRam, length-load_list}
use tinyvm.Device.Block.{HostFile, blk_do_read, chunk_of}
use tinyvm.Device.Reading.{Reads, ShortRead, chunk_of-lt, chunk_of-le, copied, round_is, next_round}

-- No region but the RAM has a part of the range.
abbrev pub IsOnlyRam : List MemRegion → ℕ → ℕ → Type 0
IsOnlyRam rs dst len =
    (addr width : ℕ)
    → 0 < width
    → dst ≤ addr
    → addr + width ≤ dst + len
    → find_region 1 rs addr width ≡ none

-- Some byte of the range is below the RAM or above it.
abbrev pub LeavesRam : ℕ → ℕ → ℕ → ℕ → Type 0
LeavesRam base size dst len = (dst < base) ⊎ (base + size < dst + len)

module _ (file : HostFile) (base size : ℕ) (rs : List MemRegion) (m : Machine)
    (bounded : base + size < 2 ^ 64) where
  write_exits :
      (dst : ℕ) (src : List ℕ) (f : ℕ → ℕ)
      → dst + length src < 2 ^ 64
      → LeavesRam base size dst (length src)
      → find_region 1 rs dst (length src) ≡ none
      → mem_write_buf dst src (with_ram base size rs m f) ≡ exits 1
  unfolding mem_write_buf mem_find_region find_region found_or_exit exit ◌>>=◌
  write_exits dst src f fits leaves elsewhere =
      let e : add64 dst (length src) ≡ dst + length src = omega arith in
      let e' : add64 base size ≡ base + size = omega arith in
      let missed : region_has (ram base size f) dst (length src) ≡ false =
        rw (e, e') ground (arith, leaves) in
      rw (missed, elsewhere) refl

  -- The chunk is in the RAM, or the write of it ends the process.
  chunk_cases : (dst count : ℕ) → InRam base size dst count ⊎ LeavesRam base size dst count
  chunk_cases dst count = elim (Bool-cases (leb base dst && leb (dst + count) (base + size))) [
    | inl e ↦
        inl (record { above = ground (arith, e); below = ground (arith, e); no_wrap = bounded })
    | inr e ↦ elim (Bool-cases (leb base dst)) [
      | inl low ↦ inr (inr (ground (arith, e, low)))
      | inr low ↦ inr (inl (ground (arith, low)))
    ]
  ]

  module _ (reads : Reads file m.disk) (sized : m.disk.size < 2 ^ 63) where
    -- The RAM is the first region and does not wrap around at 2^64, nor does the target, which is not
    -- empty. Inside the disk, and with a target that no other region has a part of and that is not all
    -- inside the RAM, the loop ends within as many rounds as there are bytes, whatever short reads
    -- pread makes: the write of the first chunk that is not all inside the RAM ends the process with
    -- status 1.
    pub blk_do_read-exits :
        (rounds offset dst len : ℕ) (f : ℕ → ℕ)
        → len ≤ rounds
        → 0 < len
        → len < 2 ^ 32
        → dst + len < 2 ^ 64
        → offset + len ≤ m.disk.size
        → IsOnlyRam rs dst len
        → LeavesRam base size dst len
        → blk_do_read file rounds offset dst len (with_ram base size rs m f) ≡ exits 1
    unfolding ◌>>=◌
    blk_do_read-exits zero offset dst len f enough positive fits below inside only leaves =
        absurd (omega (arith, enough, positive))
    blk_do_read-exits (suc rounds) offset dst len f enough positive fits below inside only leaves =
        let r : ShortRead file m.disk offset (chunk_of len) =
          reads offset (chunk_of len) (chunk_of-lt len positive)
            (omega (arith, inside, chunk_of-le len)) in
        let a = r.positive in
        let le : r.count ≤ len = omega (arith, r.at_most, chunk_of-le len) in
        let small : offset + len < 2 ^ 63 = omega (arith, inside, sized) in
        let buf = load_list m.disk.bytes offset r.count in
        let measure : length buf ≡ r.count = length-load_list m.disk.bytes offset r.count in
        elim (chunk_cases dst r.count) [
          | inl in_ram ↦
              let c = in_ram.above in
              let d = in_ram.below in
              let above : base + size < dst + len = ground (arith, leaves, c) in
              next_round file base size rs m offset dst len f positive fits small rounds r in_ram
              ∙ blk_do_read-exits rounds (offset + r.count) (dst + r.count) (len - r.count)
                  (copied file base size rs m offset dst r.count f) (omega (arith, enough, a))
                  (omega (arith, above, d, le)) (omega (arith, fits)) (omega (arith, below, le))
                  (omega (arith, inside, le))
                  (λ addr width p q t. only addr width p (omega (arith, q)) (omega (arith, t, le)))
                  (inr (omega (arith, above, le)))
          | inr leaves' ↦
              round_is file base size rs m offset dst len f positive fits small rounds r (
                rw
                  (write_exits dst buf f (omega (arith, measure, below, le))
                    (subst (LeavesRam base size dst) (sym measure) leaves')
                    (ap (find_region 1 rs dst) measure
                      ∙ only dst r.count a (omega arith) (omega (arith, le))))
                  refl)
        ]
