-- ===== src/Device/Virtio.antt =====
-- src/virtio.c: the descriptor table and the rings of a queue, and the notification of the guest.
-- A slot is named by its index in s_slots; the functions that take a VirtqRing * to change it, or
-- to change memory meanwhile, take the index of the slot whose ring it is.
use tinyvm.Base.{
  ℕ, ◌+◌, ◌*◌, ◌%◌, Bool, not, bit_or, ◌==◌, if◌then◌else◌, set_at, u16, add64, Exec, pure, crash,
  modify, gets, ◌>>=◌, ◌>>◌,
}
use tinyvm.Machine.{Machine, VirtqRing, Virtqueue, VirtioSlot}
use tinyvm.Device.Plic.{plic_set_pending}
use tinyvm.Memory.{DeviceIo, mem_read16, mem_read32, mem_read64, mem_write16, mem_write32}

abbrev pub virtq_desc_size : ℕ
virtq_desc_size = 16

abbrev pub ring_idx_off : ℕ
ring_idx_off = 2

abbrev pub ring_entries_off : ℕ
ring_entries_off = 4

abbrev pub avail_entry_size : ℕ
avail_entry_size = 2

abbrev pub used_entry_size : ℕ
used_entry_size = 8

pub record VirtqDesc : Type 0 where
  pub addr : ℕ
  pub len : ℕ
  pub flags : ℕ
  pub next : ℕ

-- s_slots[n] = f(s_slots[n]).
abbrev pub on_slot : ℕ → (VirtioSlot → VirtioSlot) → Machine → Machine
on_slot n f m =
    let v = m.virtio in record m { virtio = record v { slots = set_at v.slots n (f (v.slots n)) } }

abbrev pub on_queue : ℕ → (Virtqueue → Virtqueue) → Machine → Machine
on_queue n f m = on_slot n (λ s. record s { vq = f s.vq }) m

abbrev pub queue_of : ℕ → Machine → Virtqueue
queue_of n m = (m.virtio.slots n).vq

-- a % b: dividing by 0 is undefined.
unfoldable pub remainder : ℕ → ℕ → Exec Machine ℕ
remainder a b = if b == 0 then crash else pure (a % b)

module _ (io : DeviceIo) where
  unfoldable pub vq_desc_read : ℕ → ℕ → Exec Machine VirtqDesc
  vq_desc_read desc_base index = do
    let base = add64 desc_base (index * virtq_desc_size)
    addr ← mem_read64 io base
    len ← mem_read32 io (add64 base 8)
    flags ← mem_read16 io (add64 base 12)
    next ← mem_read16 io (add64 base 14)
    pure (record { addr = addr; len = len; flags = flags; next = next })

  unfoldable pub vq_ring_has_next : VirtqRing → Exec Machine Bool
  vq_ring_has_next ring = do
    guest_idx ← mem_read16 io (add64 ring.base ring_idx_off)
    pure (not (ring.cursor == guest_idx))

  -- The cursor moves on before the entry is read.
  unfoldable pub vq_ring_next : ℕ → Exec Machine ℕ
  vq_ring_next n = do
    ring ← gets (λ m. (queue_of n m).avail)
    entry ← remainder ring.cursor ring.size
    modify (
        on_queue n
          (λ q. let a = q.avail in record q { avail = record a { cursor = u16 (a.cursor + 1) } }))
    mem_read16 io (add64 (add64 ring.base ring_entries_off) (entry * avail_entry_size))

  -- The base is read again after the entry is written.
  unfoldable pub vq_ring_post : ℕ → ℕ → ℕ → Exec Machine (Unit {0})
  vq_ring_post n id len = do
    ring ← gets (λ m. (queue_of n m).used)
    idx ← mem_read16 io (add64 ring.base ring_idx_off)
    slot ← remainder idx ring.size
    let entry = add64 (add64 ring.base ring_entries_off) (slot * used_entry_size)
    mem_write32 io entry id
    mem_write32 io (add64 entry 4) len
    base ← gets (λ m. (queue_of n m).used.base)
    mem_write16 io (add64 base ring_idx_off) (u16 (idx + 1))

unfoldable pub virtio_notify_guest : ℕ → Machine → Machine
virtio_notify_guest n m =
    let m₁ = on_slot n (λ s. record s { interrupt_status = bit_or s.interrupt_status 1 }) m in
    plic_set_pending (m₁.virtio.slots n).irq m₁
