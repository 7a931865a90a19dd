-- ===== src/Device/Block.antt =====
-- src/virtio_blk.c: the block device. A parameter gives what pread, pwrite and ftruncate do to the
-- file, and another the number of requests that one notification may serve.
use tinyvm.Base.{
  ℕ, zero, suc, ◌*◌, true, false, not, ◌==◌, ltb, if◌then◌else◌, Option, none, some, List, [], ◌∷◌,
  length, ℤ, i64, u32, u64, add64, sub32, shr, Exec, pure, spin, modify, gets, state, ◌>>=◌, ◌>>◌,
}
use tinyvm.Machine.{Machine, Disk, VirtioDevice, blk_dev}
use tinyvm.Memory.{DeviceIo, mem_read32, mem_read64, mem_write8, mem_read_buf, mem_write_buf}
use tinyvm.Device.Virtio.{
  VirtqDesc, queue_of, vq_desc_read, vq_ring_has_next, vq_ring_next, vq_ring_post,
  virtio_notify_guest,
}

abbrev pub sector_size : ℕ
sector_size = 512

abbrev pub default_disk_size : ℕ
default_disk_size = 64 * 1024 * 1024

abbrev pub virtio_blk_t_in : ℕ
virtio_blk_t_in = 0

abbrev pub virtio_blk_t_out : ℕ
virtio_blk_t_out = 1

abbrev pub virtio_blk_t_get_id : ℕ
virtio_blk_t_get_id = 8

abbrev pub virtio_blk_s_ok : ℕ
virtio_blk_s_ok = 0

abbrev pub virtio_blk_s_ioerr : ℕ
virtio_blk_s_ioerr = 1

-- pread and pwrite at an offset; `none` is a negative result. pread gives the bytes it has read.
pub record HostFile : Type 0 where
  pub pread : Disk → ℤ → ℕ → Option (List ℕ)
  pub pwrite : Disk → ℤ → List ℕ → Option ℕ × Disk
  pub ftruncate : Disk → ℕ → Disk

-- "tinyvm-blk" and its terminating 0.
abbrev pub blk_id : List ℕ
blk_id = 116 ∷ 105 ∷ 110 ∷ 121 ∷ 118 ∷ 109 ∷ 45 ∷ 98 ∷ 108 ∷ 107 ∷ 0 ∷ []

unfoldable pub take : List ℕ → ℕ → List ℕ
take xs zero = []
take [] (suc k) = []
take (x ∷ xs) (suc k) = x ∷ take xs k

abbrev pub chunk_of : ℕ → ℕ
chunk_of len = if ltb len sector_size then len else sector_size

unfoldable pub blk_do_get_id : ℕ → ℕ → Exec Machine ℕ
blk_do_get_id dst len = do
  mem_write_buf dst (take blk_id (if ltb len (length blk_id) then len else length blk_id))
  pure virtio_blk_s_ok

module _ (file : HostFile) where
  -- The loop of blk_do_read, for at most `rounds` rounds. The offset is an off_t, by its 64 bits;
  -- pread keeps offset + n inside the file, so that the source's signed sum does not overflow.
  unfoldable pub blk_do_read : ℕ → ℕ → ℕ → ℕ → Exec Machine ℕ
  blk_do_read zero offset dst len = if len == 0 then pure virtio_blk_s_ok else spin
  blk_do_read (suc rounds) offset dst len = elim (len == 0) [
    | true ↦ pure virtio_blk_s_ok
    | false ↦ gets (λ m. file.pread m.disk (i64 offset) (chunk_of len)) >>= λ got. elim got [
      | none ↦ pure virtio_blk_s_ioerr
      | some buf ↦
          mem_write_buf dst buf
          >> blk_do_read rounds (add64 offset (length buf)) (add64 dst (length buf))
              (sub32 len (length buf))
    ]
  ]

  abbrev pub write_file : ℕ → List ℕ → Machine → Option ℕ × Machine
  write_file offset buf m =
      let (put, disk) = file.pwrite m.disk (i64 offset) buf in (put, record m { disk = disk })

  -- The loop of blk_do_write, for at most `rounds` rounds.
  unfoldable pub blk_do_write : ℕ → ℕ → ℕ → ℕ → Exec Machine ℕ
  blk_do_write zero offset src len = if len == 0 then pure virtio_blk_s_ok else spin
  blk_do_write (suc rounds) offset src len = elim (len == 0) [
    | true ↦ pure virtio_blk_s_ok
    | false ↦ mem_read_buf src (chunk_of len) >>= λ buf. state (write_file offset buf) >>= λ put.
        elim put [
          | none ↦ pure virtio_blk_s_ioerr
          | some n ↦ blk_do_write rounds (add64 offset n) (add64 src n) (sub32 len n)
        ]
  ]

  -- The switch on the type of the request. A loop over `len` bytes gets `len` rounds, which is enough
  -- if each round moves a byte.
  unfoldable pub blk_transfer : ℕ → ℕ → VirtqDesc → Exec Machine ℕ
  blk_transfer type offset desc =
      if type == virtio_blk_t_in
      then blk_do_read desc.len offset desc.addr desc.len
      else if type == virtio_blk_t_out
      then blk_do_write desc.len offset desc.addr desc.len
      else if type == virtio_blk_t_get_id
      then blk_do_get_id desc.addr desc.len
      else pure virtio_blk_s_ioerr

  module _ (io : DeviceIo) where
    unfoldable pub blk_handle_request : ℕ → ℕ → Exec Machine (Unit {0})
    blk_handle_request n head = do
      desc_base ← gets (λ m. (queue_of n m).desc_base)
      hdr ← vq_desc_read io desc_base head
      buffer ← vq_desc_read io desc_base hdr.next
      status ← vq_desc_read io desc_base buffer.next
      type ← mem_read32 io hdr.addr
      sector ← mem_read64 io (add64 hdr.addr 8)
      result ← blk_transfer type (u64 (sector * sector_size)) buffer
      mem_write8 io status.addr result
      vq_ring_post io n head 0

    -- The loop of blk_notify, for at most `rounds` requests.
    unfoldable pub blk_serve : ℕ → ℕ → Exec Machine (Unit {0})
    blk_serve zero n = do
      avail ← gets (λ m. (queue_of n m).avail)
      more ← vq_ring_has_next io avail
      if more then spin else pure tt
    blk_serve (suc rounds) n = do
      avail ← gets (λ m. (queue_of n m).avail)
      more ← vq_ring_has_next io avail
      let rest = blk_serve rounds n
      if more then (do head ← vq_ring_next io n; blk_handle_request n head; rest) else pure tt

    unfoldable pub blk_notify : ℕ → ℕ → Exec Machine (Unit {0})
    blk_notify rounds n = do
      ready ← gets (λ m. (queue_of n m).ready)
      if not ready then pure tt else do blk_serve rounds n; modify (virtio_notify_guest n)

unfoldable pub blk_read_config : ℕ → Machine → ℕ
blk_read_config offset m =
    if offset == 0
    then u32 m.virtio.disk_capacity
    else if offset == 4
    then u32 (shr m.virtio.disk_capacity 32)
    else 0

-- s_blk_dev.device_id.
unfoldable pub device_id : VirtioDevice → ℕ
device_id blk_dev = 2
