-- ===== src/Wf/Virtio.antt =====
-- src/virtio.c: the registers of a slot fit their C types, and keep doing so.
use tinyvm.Base.{ℕ, ◌==◌, arith, Exec, Keeps, Keeps-pure, Keeps-modify, Gives-if}
use tinyvm.Base.Bits.{bit_or-lt}
use tinyvm.Machine.{Machine, VirtioDevice, blk_dev}
use tinyvm.Device.Block.{blk_read_config, device_id}
use tinyvm.Device.Virtio.{virtio_notify_guest}
use tinyvm.Device.Transport.{virtio_read, virtio_write, virtio_mmio_queue_notify_off}
use tinyvm.Wf.Defs.{IsMachine, IsU64}
use tinyvm.Wf.Device.{plic_set_pending-IsMachine}
use tinyvm.Wf.Slot.{on_slot-IsMachine, registers, write_slot-IsSlot}

small_id : (d : VirtioDevice) → IsU64 (device_id d)
unfolding device_id
small_id blk_dev = omega arith

device_id-fits : (n : ℕ) (m : Machine) → IsU64 (device_id (m.virtio.slots n).dev)
device_id-fits n m = small_id (m.virtio.slots n).dev

pub virtio_read-fits : (n offset : ℕ) (m : Machine) → IsMachine m → IsU64 (virtio_read n offset m)
unfolding virtio_read blk_read_config
virtio_read-fits n offset m h =
    let s = h.is_virtio.are_slots n in
    ground (arith, device_id-fits n m, s.status_fits, s.interrupt_status_fits)

pub virtio_notify_guest-IsMachine :
    (n : ℕ) (m : Machine) → IsMachine m → IsMachine (virtio_notify_guest n m)
unfolding virtio_notify_guest
virtio_notify_guest-IsMachine n m h = plic_set_pending-IsMachine _ _ (
    on_slot-IsMachine n _ m
      (λ s l.
        registers s _ _ _ _ _ l l.status_fits l.device_features_sel_fits l.driver_features_sel_fits
          l.queue_sel_fits
          (bit_or-lt 32 s.interrupt_status 1 l.interrupt_status_fits (omega arith)))
      h)

module _ (notify : ℕ → Exec Machine (Unit {0})) (keeps : (n : ℕ) → Keeps IsMachine (notify n)) where
  pub virtio_write-Keeps : (n offset val : ℕ) → Keeps IsMachine (virtio_write notify n offset val)
  unfolding virtio_write
  virtio_write-Keeps n offset val =
      Gives-if (offset == virtio_mmio_queue_notify_off) _ _
        (λ _. Gives-if (val == 0) _ _ (λ _. keeps n) (λ _. Keeps-pure tt))
        (λ _.
          Keeps-modify _
            (λ m h. on_slot-IsMachine n _ m (λ s l. write_slot-IsSlot val s l offset) h))
