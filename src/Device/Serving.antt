-- ===== src/Device/Serving.antt =====
-- src/virtio.c, src/virtio_blk.c: blk_handle_request against the pure account of Device/Request, with the
-- rings, the descriptors and the buffers in the RAM.
use tinyvm.Base.{
  ℕ, ◌+◌, ◌*◌, ◌%◌, ◌≤◌, ◌<◌, ◌≡◌, ◌≢◌, refl, subst, false, ◌==◌, List, u16, add64, ok, pure, gets,
  modify, ◌>>=◌, arith,
}
use native.Mathlib.Nat.{mod-lt}
use tinyvm.Machine.{Machine, MemRegion}
use tinyvm.Memory.{
  DeviceIo, find_region, found_or_exit, mem_find_region, region_read, region_write, default_read,
  default_write, data_or_crash, mem_read, mem_write, mem_read16, mem_read32, mem_read64,
  mem_write16, mem_write32,
}
use tinyvm.Memory.Copy.{with_ram, InRam, first_found, in_first, offset_of}
use tinyvm.Device.Virtio.{queue_of, remainder, vq_desc_read, vq_ring_post}
use tinyvm.Device.Request.{word, put_word, desc_place, desc_at, used_index, used_place, posted}

module _ (io : DeviceIo) (base size : ℕ) (rs : List MemRegion) (m : Machine) where
  -- Words of the RAM.
  pub read_word :
      (f : ℕ → ℕ) (addr width : ℕ)
      → InRam base size addr width
      → mem_read io width addr (with_ram base size rs m f)
        ≡ ok (word base f addr width, with_ram base size rs m f)
  unfolding mem_read mem_find_region find_region found_or_exit region_read default_read
      data_or_crash pure ◌>>=◌
  read_word f addr width h =
      rw
        (
          first_found base size rs m f addr width h,
          in_first base size rs m f addr width h,
          offset_of base size rs m f addr width h,
        )
        refl

  pub write_word :
      (f : ℕ → ℕ) (addr width val : ℕ)
      → InRam base size addr width
      → mem_write io width addr val (with_ram base size rs m f)
        ≡ ok (tt, with_ram base size rs m (put_word base f addr width val))
  unfolding mem_write mem_find_region find_region found_or_exit region_write default_write
      data_or_crash pure modify ◌>>=◌
  write_word f addr width val h =
      rw
        (
          first_found base size rs m f addr width h,
          in_first base size rs m f addr width h,
          offset_of base size rs m f addr width h,
        )
        refl

  pub part :
      (addr len off width : ℕ)
      → off + width ≤ len
      → InRam base size addr len
      → InRam base size (addr + off) width
  part addr len off width h k =
      let a = k.above in
      let b = k.below in record { above = omega arith; below = omega arith; no_wrap = k.no_wrap }

  pub no_wrap_at :
      (addr len off : ℕ) → off < len → InRam base size addr len → add64 addr off ≡ addr + off
  no_wrap_at addr len off h k = let b = k.below in let c = k.no_wrap in omega arith

  pub vq_desc_read-desc_at :
      (f : ℕ → ℕ) (desc_base index : ℕ)
      → InRam base size (desc_place base desc_base index) 16
      → vq_desc_read io desc_base index (with_ram base size rs m f)
        ≡ ok (desc_at base f (desc_place base desc_base index), with_ram base size rs m f)
  unfolding vq_desc_read mem_read16 mem_read32 mem_read64 pure ◌>>=◌
  vq_desc_read-desc_at f desc_base index h =
      let place = desc_place base desc_base index in
      let zero_off : place + 0 ≡ place = omega arith in
      let whole = subst (λ a. InRam base size a 8) zero_off (part place 16 0 8 (omega arith) h) in
      rw
        (
          read_word f place 8 whole,
          no_wrap_at place 16 8 (omega arith) h,
          read_word f (place + 8) 4 (part place 16 8 4 (omega arith) h),
          no_wrap_at place 16 12 (omega arith) h,
          read_word f (place + 12) 2 (part place 16 12 2 (omega arith) h),
          no_wrap_at place 16 14 (omega arith) h,
          read_word f (place + 14) 2 (part place 16 14 2 (omega arith) h),
        )
        refl

  -- The used ring, which has entries, is in the RAM.
  pub vq_ring_post-posted :
      (n head : ℕ) (f : ℕ → ℕ)
      → (queue_of n m).used.size ≢ 0
      → InRam base size (queue_of n m).used.base (4 + 8 * (queue_of n m).used.size)
      → vq_ring_post io n head 0 (with_ram base size rs m f)
        ≡ ok (tt, with_ram base size rs m (posted base (queue_of n m).used head f))
  unfolding vq_ring_post remainder mem_read16 mem_write16 mem_write32 gets pure ◌>>=◌
  vq_ring_post-posted n head f some_entries h =
      let ring = (queue_of n m).used in
      let all : ℕ = 4 + 8 * ring.size in
      let index = used_index base ring f in
      let slot = index % ring.size in
      let place = used_place base ring f in
      let inside : slot < ring.size = mod-lt index (omega arith) in
      let at_index = part ring.base all 2 2 (omega arith) h in
      let entry : InRam base size place 8 =
        let k = part ring.base all (4 + slot * 8) 8 (omega arith) h in
        subst (λ a. InRam base size a 8) (omega arith) k in
      let first : InRam base size place 4 = record {
        above = entry.above;
        below = omega (arith, entry.below);
        no_wrap = entry.no_wrap;
      } in
      let second = part place 8 4 4 (omega arith) entry in
      let divides : (ring.size == 0) ≡ false = ground arith in
      let to_index = no_wrap_at ring.base all 2 (omega arith) h in
      let to_entries = no_wrap_at ring.base all 4 (omega arith) h in
      let to_place : add64 (ring.base + 4) (slot * 8) ≡ place =
        omega (arith, entry.below, entry.no_wrap) in
      let g = put_word base f place 4 head in
      rw
        (
          to_index,
          read_word f (ring.base + 2) 2 at_index,
          divides,
          to_entries,
          to_place,
          write_word f place 4 head first,
          no_wrap_at place 8 4 (omega arith) entry,
          write_word g (place + 4) 4 0 second,
          to_index,
          write_word (put_word base g (place + 4) 4 0) (ring.base + 2) 2 (u16 (index + 1)) at_index,
        )
        refl
