-- ===== src/Device/Transport.antt =====
-- src/virtio.c: the registers of a virtio slot, and virtio_init; virtio_blk_init of
-- src/virtio_blk.c. A parameter gives the notification of a device.
use tinyvm.Base.{
  ℕ, ◌+◌, ◌-◌, ◌*◌, false, not, bit_and, bit_or, ◌==◌, leb, if◌then◌else◌, Option, none, some,
  set_at, u16, u32, shl64, not32, ◌/◌, Exec, pure, modify,
}
use tinyvm.Machine.{
  Machine, Disk, VirtqRing, Virtqueue, VirtioSlot, VirtioDevice, blk_dev, virtio_mmio,
}
use tinyvm.Memory.{mem_add_device}
use tinyvm.Device.Virtio.{on_slot}
use tinyvm.Device.Block.{HostFile, blk_read_config, device_id, sector_size, default_disk_size}

abbrev pub virtio_magic : ℕ
virtio_magic = 0x74726976

abbrev pub virtio_vendor_id : ℕ
virtio_vendor_id = 0x554D4551

abbrev pub virtio_ver : ℕ
virtio_ver = 2

abbrev pub virtqueue_max_size : ℕ
virtqueue_max_size = 128

abbrev pub max_virtio_devices : ℕ
max_virtio_devices = 8

abbrev pub virtio_mmio_base : ℕ
virtio_mmio_base = 0x10001000

abbrev pub virtio_mmio_size : ℕ
virtio_mmio_size = 0x1000

abbrev pub virtio_irq : ℕ
virtio_irq = 2

abbrev pub virtio_mmio_magic_off : ℕ
virtio_mmio_magic_off = 0x000

abbrev pub virtio_mmio_version_off : ℕ
virtio_mmio_version_off = 0x004

abbrev pub virtio_mmio_device_id_off : ℕ
virtio_mmio_device_id_off = 0x008

abbrev pub virtio_mmio_vendor_id_off : ℕ
virtio_mmio_vendor_id_off = 0x00C

abbrev pub virtio_mmio_device_features_off : ℕ
virtio_mmio_device_features_off = 0x010

abbrev pub virtio_mmio_device_features_sel_off : ℕ
virtio_mmio_device_features_sel_off = 0x014

abbrev pub virtio_mmio_driver_features_sel_off : ℕ
virtio_mmio_driver_features_sel_off = 0x024

abbrev pub virtio_mmio_queue_sel_off : ℕ
virtio_mmio_queue_sel_off = 0x030

abbrev pub virtio_mmio_queue_num_max_off : ℕ
virtio_mmio_queue_num_max_off = 0x034

abbrev pub virtio_mmio_queue_num_off : ℕ
virtio_mmio_queue_num_off = 0x038

abbrev pub virtio_mmio_queue_ready_off : ℕ
virtio_mmio_queue_ready_off = 0x044

abbrev pub virtio_mmio_queue_notify_off : ℕ
virtio_mmio_queue_notify_off = 0x050

abbrev pub virtio_mmio_interrupt_status_off : ℕ
virtio_mmio_interrupt_status_off = 0x060

abbrev pub virtio_mmio_interrupt_ack_off : ℕ
virtio_mmio_interrupt_ack_off = 0x064

abbrev pub virtio_mmio_status_off : ℕ
virtio_mmio_status_off = 0x070

abbrev pub virtio_mmio_queue_desc_low_off : ℕ
virtio_mmio_queue_desc_low_off = 0x080

abbrev pub virtio_mmio_queue_desc_high_off : ℕ
virtio_mmio_queue_desc_high_off = 0x084

abbrev pub virtio_mmio_queue_driver_low_off : ℕ
virtio_mmio_queue_driver_low_off = 0x090

abbrev pub virtio_mmio_queue_driver_high_off : ℕ
virtio_mmio_queue_driver_high_off = 0x094

abbrev pub virtio_mmio_queue_device_low_off : ℕ
virtio_mmio_queue_device_low_off = 0x0A0

abbrev pub virtio_mmio_queue_device_high_off : ℕ
virtio_mmio_queue_device_high_off = 0x0A4

abbrev pub virtio_mmio_config_off : ℕ
virtio_mmio_config_off = 0x100

-- A read changes nothing.
unfoldable pub virtio_read : ℕ → ℕ → Machine → ℕ
virtio_read n offset m =
    let s = m.virtio.slots n in
    if offset == virtio_mmio_magic_off
    then virtio_magic
    else if offset == virtio_mmio_version_off
    then virtio_ver
    else if offset == virtio_mmio_device_id_off
    then device_id s.dev
    else if offset == virtio_mmio_vendor_id_off
    then virtio_vendor_id
    else if offset == virtio_mmio_device_features_off
    then (if s.device_features_sel == 1 then 1 else 0)
    else if offset == virtio_mmio_queue_num_max_off
    then virtqueue_max_size
    else if offset == virtio_mmio_queue_ready_off
    then (if s.vq.ready then 1 else 0)
    else if offset == virtio_mmio_interrupt_status_off
    then s.interrupt_status
    else if offset == virtio_mmio_status_off
    then s.status
    else if leb virtio_mmio_config_off offset
    then blk_read_config (u32 (offset - virtio_mmio_config_off)) m
    else 0

unfoldable pub set_addr_low : ℕ → ℕ → ℕ
set_addr_low addr val = bit_or (bit_and addr 0xFFFFFFFF00000000) (u32 val)

unfoldable pub set_addr_high : ℕ → ℕ → ℕ
set_addr_high addr val = bit_or (bit_and addr 0xFFFFFFFF) (shl64 val 32)

unfoldable pub virtio_set_queue_size : ℕ → VirtioSlot → VirtioSlot
virtio_set_queue_size val s =
    let q = s.vq in
    let avail = q.avail in
    let used = q.used in
    record s {
      vq = record q {
        avail = record avail { size = u16 val };
        used = record used { size = u16 val };
      };
    }

-- memset(&s->vq, 0, sizeof(s->vq)).
abbrev pub zero_ring : VirtqRing
zero_ring = record { base = 0; size = 0; cursor = 0 }

abbrev pub zero_queue : Virtqueue
zero_queue = record { desc_base = 0; avail = zero_ring; used = zero_ring; ready = false }

abbrev pub set_desc : (ℕ → ℕ → ℕ) → ℕ → VirtioSlot → VirtioSlot
set_desc f val s = let q = s.vq in record s { vq = record q { desc_base = f q.desc_base val } }

abbrev pub set_avail : (ℕ → ℕ → ℕ) → ℕ → VirtioSlot → VirtioSlot
set_avail f val s =
    let q = s.vq in
    let r = q.avail in record s { vq = record q { avail = record r { base = f r.base val } } }

abbrev pub set_used : (ℕ → ℕ → ℕ) → ℕ → VirtioSlot → VirtioSlot
set_used f val s =
    let q = s.vq in
    let r = q.used in record s { vq = record q { used = record r { base = f r.base val } } }

-- The cases of virtio_write that change the slot only, which are all but the notification.
unfoldable pub write_slot : ℕ → ℕ → VirtioSlot → VirtioSlot
write_slot offset val s =
    if offset == virtio_mmio_device_features_sel_off
    then record s { device_features_sel = u32 val }
    else if offset == virtio_mmio_driver_features_sel_off
    then record s { driver_features_sel = u32 val }
    else if offset == virtio_mmio_queue_sel_off
    then record s { queue_sel = u32 val }
    else if offset == virtio_mmio_queue_num_off
    then (if s.queue_sel == 0 then virtio_set_queue_size (u32 val) s else s)
    else if offset == virtio_mmio_queue_ready_off
    then (if s.queue_sel == 0
        then (let q = s.vq in record s { vq = record q { ready = not (val == 0) } })
        else s)
    else if offset == virtio_mmio_interrupt_ack_off
    then record s { interrupt_status = bit_and s.interrupt_status (not32 (u32 val)) }
    else if offset == virtio_mmio_status_off
    then (if val == 0
        then record s { status = 0; vq = zero_queue; interrupt_status = 0 }
        else record s { status = u32 val })
    else if offset == virtio_mmio_queue_desc_low_off
    then set_desc set_addr_low val s
    else if offset == virtio_mmio_queue_desc_high_off
    then set_desc set_addr_high val s
    else if offset == virtio_mmio_queue_driver_low_off
    then set_avail set_addr_low val s
    else if offset == virtio_mmio_queue_driver_high_off
    then set_avail set_addr_high val s
    else if offset == virtio_mmio_queue_device_low_off
    then set_used set_addr_low val s
    else if offset == virtio_mmio_queue_device_high_off
    then set_used set_addr_high val s
    else s

module _ (notify : ℕ → Exec Machine (Unit {0})) where
  unfoldable pub virtio_write : ℕ → ℕ → ℕ → Exec Machine (Unit {0})
  virtio_write n offset val =
      if offset == virtio_mmio_queue_notify_off
      then (if val == 0 then notify n else pure tt)
      else modify (on_slot n (write_slot offset val))

-- A full table prints a message and adds nothing.
unfoldable pub virtio_init : VirtioDevice → Machine → Machine
virtio_init dev m =
    if leb max_virtio_devices m.virtio.slot_count
    then m
    else let v = m.virtio in
      let idx = v.slot_count in
      let s = v.slots idx in
      let slots' = set_at v.slots idx (record s { dev = dev; irq = virtio_irq + idx }) in
      let m₁ = record m { virtio = record v { slots = slots'; slot_count = idx + 1 } } in
      (mem_add_device (virtio_mmio_base + idx * virtio_mmio_size) virtio_mmio_size (virtio_mmio idx)
        m₁).1

-- `opened` is the file if it could be opened.
unfoldable pub virtio_blk_init : HostFile → Option Disk → Machine → Machine
virtio_blk_init file none m = m
virtio_blk_init file (some disk) m =
    let grown = if disk.size == 0 then file.ftruncate disk default_disk_size else disk in
    let size = if disk.size == 0 then default_disk_size else disk.size in
    let v = m.virtio in
    virtio_init blk_dev
      (record m { disk = grown; virtio = record v { disk_capacity = size / sector_size } })
