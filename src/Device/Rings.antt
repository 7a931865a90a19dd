-- ===== src/Device/Rings.antt =====
-- src/virtio.c, src/virtio_blk.c: what a notification does on a ring of no entries, and what a
-- request that is served leaves in the used ring.
use tinyvm.Base.{
  ℕ, suc, ◌≡◌, ◌≢◌, refl, true, false, ◌==◌, add64, ok, fault, crash, pure, gets, ◌>>=◌, arith,
}
use tinyvm.Machine.{Machine}
use tinyvm.Memory.{DeviceIo, mem_read16}
use tinyvm.Device.Virtio.{queue_of, remainder, vq_ring_has_next, vq_ring_next, ring_idx_off}
use tinyvm.Device.Block.{HostFile, blk_serve, blk_notify}

-- With a ready queue whose size the guest has left at 0, a notification is undefined as soon as the
-- index that the guest publishes in the available ring is not the cursor: the entry is found by a
-- division by 0. Reading that index is taken to leave the machine as it is.
pub blk_notify-fault :
    (file : HostFile) (io : DeviceIo) (rounds n idx : ℕ) (m : Machine)
    → (queue_of n m).ready ≡ true
    → (queue_of n m).avail.size ≡ 0
    → mem_read16 io (add64 (queue_of n m).avail.base ring_idx_off) m ≡ ok (idx, m)
    → (queue_of n m).avail.cursor ≢ idx
    → blk_notify file io (suc rounds) n m ≡ fault
unfolding blk_notify blk_serve vq_ring_has_next vq_ring_next remainder gets pure crash ◌>>=◌
blk_notify-fault file io rounds n idx m ready empty published behind =
    let more : ((queue_of n m).avail.cursor == idx) ≡ false = ground arith in
    rw (ready, published, more, empty) refl
