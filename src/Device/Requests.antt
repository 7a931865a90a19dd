-- ===== src/Device/Requests.antt =====
-- src/virtio_blk.c: blk_handle_request does what Device/Request says.
use tinyvm.Base.{
  ℕ, ◌+◌, ◌-◌, ◌*◌, ◌^◌, ◌≤◌, ◌<◌, ◌≡◌, ◌≢◌, ◌⊎◌, inl, inr, refl, true, ◌==◌, if◌then◌else◌, ltb,
  Bool-cases, min, zero, suc, List, [], ◌∷◌, length, ok, pure, gets, ◌>>=◌, arith,
}
use tinyvm.Machine.{Machine, MemRegion, Disk}
use tinyvm.Memory.{DeviceIo, mem_read32, mem_read64, mem_write8, store_list}
use tinyvm.Memory.Copy.{with_ram, InRam, write_ram}
use tinyvm.Device.Virtio.{VirtqDesc, queue_of}
use tinyvm.Device.Block.{
  HostFile, take, blk_id, virtio_blk_t_in, virtio_blk_t_out, virtio_blk_t_get_id, blk_do_get_id,
  blk_transfer, blk_handle_request,
}
use tinyvm.Device.Reading.{Reads, read_all}
use tinyvm.Device.Writing.{Writes, write_all}
use tinyvm.Device.Request.{
  Request, put_word, desc_place, hdr_of, buffer_of, status_of, request_of, result_of, disk_after,
  memory_after, served,
}
use tinyvm.Device.Serving.{
  read_word, write_word, part, no_wrap_at, vq_desc_read-desc_at, vq_ring_post-posted,
}

length-take : (xs : List ℕ) (k : ℕ) → length (take xs k) ≤ k
unfolding take
length-take xs zero = omega arith
length-take [] (suc k) = omega arith
length-take (x ∷ xs) (suc k) = omega (arith, length-take xs k)

-- The chain of descriptors that starts at `head`, its header, its buffer and its status are in the RAM,
-- and the blocks to read or write are on the disk.
pub record IsRequest (base size desc_base head : ℕ) (f : ℕ → ℕ) (disk : Disk) : Type 0 where
  pub header_desc : InRam base size (desc_place base desc_base head) 16
  pub buffer_desc :
      InRam base size (desc_place base desc_base (hdr_of base f desc_base head).next) 16
  pub status_desc :
      InRam base size (desc_place base desc_base (buffer_of base f desc_base head).next) 16
  pub header : InRam base size (hdr_of base f desc_base head).addr 16
  pub buffer :
      InRam base size (buffer_of base f desc_base head).addr (buffer_of base f desc_base head).len
  pub status : InRam base size (status_of base f desc_base head).addr 1
  pub on_disk :
      let r = request_of base f desc_base head in
      ((r.type == virtio_blk_t_in) ≡ true) ⊎ ((r.type == virtio_blk_t_out) ≡ true)
      → r.offset + r.len ≤ disk.size

module _ (file : HostFile) (base size : ℕ) (rs : List MemRegion) (m : Machine) where
  get_id-take :
      (f : ℕ → ℕ) (addr len : ℕ)
      → InRam base size addr len
      → blk_do_get_id addr len (with_ram base size rs m f)
        ≡ ok (
          0,
          with_ram base size rs m
              (store_list f (addr - base) (take blk_id (min len (length blk_id)))),
        )
  unfolding blk_do_get_id pure ◌>>=◌
  get_id-take f addr len h =
      let k : ℕ = min len (length blk_id) in
      let least : (if ltb len 11 then len else 11) ≡ k = ground arith in
      let a = h.above in
      let b = h.below in
      let fits : InRam base size addr (length (take blk_id k)) = record {
        above = a;
        below = omega (arith, length-take blk_id k, b);
        no_wrap = h.no_wrap;
      } in
      rw (least, write_ram base size rs m f addr (take blk_id k) fits) refl

  blk_transfer-after :
      (f : ℕ → ℕ) (r : Request) (desc : VirtqDesc)
      → Reads file m.disk
      → Writes file
      → m.disk.size < 2 ^ 63
      → desc.addr ≡ r.addr
      → desc.len ≡ r.len
      → r.len < 2 ^ 32
      → InRam base size r.addr r.len
      → (((r.type == virtio_blk_t_in) ≡ true) ⊎ ((r.type == virtio_blk_t_out) ≡ true)
          → r.offset + r.len ≤ m.disk.size)
      → blk_transfer file r.type r.offset desc (with_ram base size rs m f)
        ≡ ok (
          result_of base r,
          with_ram base size rs
              (record m { disk = disk_after base r m.disk f })
              (memory_after base r m.disk f),
        )
  unfolding blk_transfer pure
  blk_transfer-after f r desc reads writes sized a l short in_ram on_disk =
      elim (Bool-cases (r.type == virtio_blk_t_in)) [
        | inl e ↦
            rw (e, a, l)
              (read_all file base size rs m reads sized r.len r.offset r.addr r.len f (omega arith)
                in_ram short (on_disk (inl e)))
        | inr e ↦ elim (Bool-cases (r.type == virtio_blk_t_out)) [
          | inl e' ↦
              rw (e, e', a, l)
                (write_all file base size rs m f writes r.len r.offset r.addr r.len m.disk
                  (omega arith) in_ram short (on_disk (inr e')) sized)
          | inr e' ↦ elim (Bool-cases (r.type == virtio_blk_t_get_id)) [
            | inl e'' ↦ rw (e, e', e'', a, l) (get_id-take f r.addr r.len in_ram)
            | inr e'' ↦ rw (e, e', e'') refl
          ]
        ]
      ]

  -- A request whose chain, header, buffer and status are in the RAM, with its blocks on the disk and a used
  -- ring that has entries and is in the RAM, is served in whole: by its type the buffer gets the blocks, the
  -- blocks get the buffer, the buffer gets the name of the device, or nothing moves; then the status is
  -- written, for an unknown type that of an error, and the used ring gets an entry with the head of the
  -- chain. Nothing else changes, whatever short transfers pread and pwrite make.
  pub blk_handle_request-served :
      (io : DeviceIo) (n head : ℕ) (f : ℕ → ℕ)
      → Reads file m.disk
      → Writes file
      → m.disk.size < 2 ^ 63
      → (queue_of n m).used.size ≢ 0
      → InRam base size (queue_of n m).used.base (4 + 8 * (queue_of n m).used.size)
      → IsRequest base size (queue_of n m).desc_base head f m.disk
      → let r = request_of base f (queue_of n m).desc_base head in
        blk_handle_request file io n head (with_ram base size rs m f)
        ≡ ok (
          tt,
          with_ram base size rs
              (record m { disk = disk_after base r m.disk f })
              (served base (queue_of n m).used head r m.disk f),
        )
  unfolding blk_handle_request mem_read32 mem_read64 mem_write8 gets pure ◌>>=◌
  blk_handle_request-served io n head f reads writes sized some_entries ring h =
      let desc_base = (queue_of n m).desc_base in
      let r = request_of base f desc_base head in
      let hdr = hdr_of base f desc_base head in
      let buffer = buffer_of base f desc_base head in
      let status = status_of base f desc_base head in
      let m' : Machine = record m { disk = disk_after base r m.disk f } in
      let g = memory_after base r m.disk f in
      let type : InRam base size hdr.addr 4 = record {
        above = h.header.above;
        below = omega (arith, h.header.below);
        no_wrap = h.header.no_wrap;
      } in
      rw
        (
          vq_desc_read-desc_at io base size rs m f desc_base head h.header_desc,
          vq_desc_read-desc_at io base size rs m f desc_base hdr.next h.buffer_desc,
          vq_desc_read-desc_at io base size rs m f desc_base buffer.next h.status_desc,
          read_word io base size rs m f hdr.addr 4 type,
          no_wrap_at io base size rs m hdr.addr 16 8 (omega arith) h.header,
          read_word io base size rs m f (hdr.addr + 8) 8
              (part io base size rs m hdr.addr 16 8 8 (omega arith) h.header),
          blk_transfer-after f r buffer reads writes sized refl refl (omega arith) h.buffer
              h.on_disk,
          write_word io base size rs m' g status.addr 1 (result_of base r) h.status,
        )
        (vq_ring_post-posted io base size rs m' n head
          (put_word base g status.addr 1 (result_of base r)) some_entries ring)
