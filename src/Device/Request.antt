-- ===== src/Device/Request.antt =====
-- src/virtio_blk.c: what a request of the guest asks for and does, on the bytes of the RAM and of the disk.
use tinyvm.Base.{ℕ, ◌+◌, ◌-◌, ◌*◌, ◌%◌, ◌==◌, if◌then◌else◌, min, u16, u32, u64, add64, length}
use tinyvm.Machine.{Disk, VirtqRing}
use tinyvm.Memory.{load_bytes, store_bytes, load_list, store_list}
use tinyvm.Device.Block.{
  take, blk_id, sector_size, virtio_blk_t_in, virtio_blk_t_out, virtio_blk_t_get_id,
  virtio_blk_s_ok, virtio_blk_s_ioerr,
}
use tinyvm.Device.Virtio.{
  VirtqDesc, virtq_desc_size, ring_idx_off, ring_entries_off, used_entry_size,
}
use tinyvm.Device.Writing.{overwritten}

-- A request, decoded: what to do, at which byte of the disk, with which bytes of the memory, and where
-- the status goes.
pub record Request : Type 0 where
  pub type : ℕ
  pub offset : ℕ
  pub addr : ℕ
  pub len : ℕ
  pub status_addr : ℕ

-- The memory is the array f from `base` on.
module _ (base : ℕ) where
  abbrev pub word : (ℕ → ℕ) → ℕ → ℕ → ℕ
  word f addr width = load_bytes f (addr - base) width

  abbrev pub put_word : (ℕ → ℕ) → ℕ → ℕ → ℕ → ℕ → ℕ
  put_word f addr width val = store_bytes f (addr - base) val width

  -- The place of a descriptor in the table, and its fields.
  abbrev pub desc_place : ℕ → ℕ → ℕ
  desc_place desc_base index = add64 desc_base (index * virtq_desc_size)

  abbrev pub desc_at : (ℕ → ℕ) → ℕ → VirtqDesc
  desc_at f place = record {
    addr = word f place 8;
    len = u32 (word f (place + 8) 4);
    flags = u16 (word f (place + 12) 2);
    next = u16 (word f (place + 14) 2);
  }

  -- The three descriptors of the chain: the header, the buffer and the status.
  abbrev pub hdr_of : (ℕ → ℕ) → ℕ → ℕ → VirtqDesc
  hdr_of f desc_base head = desc_at f (desc_place desc_base head)

  abbrev pub buffer_of : (ℕ → ℕ) → ℕ → ℕ → VirtqDesc
  buffer_of f desc_base head = desc_at f (desc_place desc_base (hdr_of f desc_base head).next)

  abbrev pub status_of : (ℕ → ℕ) → ℕ → ℕ → VirtqDesc
  status_of f desc_base head = desc_at f (desc_place desc_base (buffer_of f desc_base head).next)

  abbrev pub request_of : (ℕ → ℕ) → ℕ → ℕ → Request
  request_of f desc_base head = record {
    type = u32 (word f (hdr_of f desc_base head).addr 4);
    offset = u64 (word f ((hdr_of f desc_base head).addr + 8) 8 * sector_size);
    addr = (buffer_of f desc_base head).addr;
    len = (buffer_of f desc_base head).len;
    status_addr = (status_of f desc_base head).addr;
  }

  -- The status, the disk and the memory after the transfer.
  abbrev pub result_of : Request → ℕ
  result_of r =
      if r.type == virtio_blk_t_in
      then virtio_blk_s_ok
      else if r.type == virtio_blk_t_out
      then virtio_blk_s_ok
      else if r.type == virtio_blk_t_get_id
      then virtio_blk_s_ok
      else virtio_blk_s_ioerr

  abbrev pub disk_after : Request → Disk → (ℕ → ℕ) → Disk
  disk_after r disk f =
      if r.type == virtio_blk_t_in
      then disk
      else if r.type == virtio_blk_t_out
      then overwritten disk r.offset (load_list f (r.addr - base) r.len)
      else disk

  abbrev pub memory_after : Request → Disk → (ℕ → ℕ) → ℕ → ℕ
  memory_after r disk f =
      if r.type == virtio_blk_t_in
      then store_list f (r.addr - base) (load_list disk.bytes r.offset r.len)
      else if r.type == virtio_blk_t_out
      then f
      else if r.type == virtio_blk_t_get_id
      then store_list f (r.addr - base) (take blk_id (min r.len (length blk_id)))
      else f

  -- The used ring gets an entry with the head of the chain and no length, and its index moves on.
  abbrev pub used_index : VirtqRing → (ℕ → ℕ) → ℕ
  used_index ring f = u16 (word f (ring.base + ring_idx_off) 2)

  abbrev pub used_place : VirtqRing → (ℕ → ℕ) → ℕ
  used_place ring f = ring.base + ring_entries_off + used_index ring f % ring.size * used_entry_size

  abbrev pub posted : VirtqRing → ℕ → (ℕ → ℕ) → ℕ → ℕ
  posted ring head f =
      let place = used_place ring f in
      put_word (put_word (put_word f place 4 head) (place + 4) 4 0) (ring.base + ring_idx_off) 2
        (u16 (used_index ring f + 1))

  -- The memory after the request: the transfer, the status, and the used ring.
  abbrev pub served : VirtqRing → ℕ → Request → Disk → (ℕ → ℕ) → ℕ → ℕ
  served ring head r disk f =
      posted ring head (put_word (memory_after r disk f) r.status_addr 1 (result_of r))
