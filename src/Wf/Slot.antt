-- ===== src/Wf/Slot.antt =====
-- src/virtio.c: what a write of a register leaves in a slot fits its C types.
use tinyvm.Base.{ℕ, not, bit_and, ◌==◌, if-elim, u16, u32, shl64, arith}
use tinyvm.Base.Bits.{bit_or-lt, bit_and-lt}
use tinyvm.Machine.{Machine, VirtqRing, Virtqueue, VirtioSlot}
use tinyvm.Device.Virtio.{on_slot, on_queue}
use tinyvm.Device.Transport.{
  set_addr_low, set_addr_high, virtio_set_queue_size, zero_ring, zero_queue, set_desc, set_avail,
  set_used, write_slot, virtio_mmio_queue_ready_off, virtio_mmio_status_off,
  virtio_mmio_device_features_sel_off, virtio_mmio_driver_features_sel_off,
  virtio_mmio_queue_sel_off, virtio_mmio_queue_num_off, virtio_mmio_interrupt_ack_off,
  virtio_mmio_queue_desc_low_off, virtio_mmio_queue_desc_high_off, virtio_mmio_queue_driver_low_off,
  virtio_mmio_queue_driver_high_off, virtio_mmio_queue_device_low_off,
  virtio_mmio_queue_device_high_off,
}
use tinyvm.Wf.Defs.{IsMachine, IsSlot, IsQueue, IsRing, IsU64, IsU32}

pub on_slot-IsMachine :
    (n : ℕ) (f : VirtioSlot → VirtioSlot) (m : Machine)
    → ((s : VirtioSlot) → IsSlot s → IsSlot (f s))
    → IsMachine m
    → IsMachine (on_slot n f m)
on_slot-IsMachine n f m k h =
    let v = h.is_virtio in
    record {
      is_cpu = h.is_cpu;
      are_regions = h.are_regions;
      mtimecmp_fits = h.mtimecmp_fits;
      is_plic = h.is_plic;
      is_uart = h.is_uart;
      is_virtio = record {
        are_slots = λ j.
            if-elim IsSlot (j == n) _ _ (λ _. k (m.virtio.slots n) (v.are_slots n))
              (λ _. v.are_slots j);
        slot_count_fits = v.slot_count_fits;
        disk_capacity_fits = v.disk_capacity_fits;
      };
    }

set_queue-IsSlot :
    (s : VirtioSlot) (q : Virtqueue) → IsSlot s → IsQueue q → IsSlot (record s { vq = q })
set_queue-IsSlot s q h k = record {
  is_queue = k;
  status_fits = h.status_fits;
  device_features_sel_fits = h.device_features_sel_fits;
  driver_features_sel_fits = h.driver_features_sel_fits;
  queue_sel_fits = h.queue_sel_fits;
  interrupt_status_fits = h.interrupt_status_fits;
}

pub on_queue-IsMachine :
    (n : ℕ) (f : Virtqueue → Virtqueue) (m : Machine)
    → ((q : Virtqueue) → IsQueue q → IsQueue (f q))
    → IsMachine m
    → IsMachine (on_queue n f m)
on_queue-IsMachine n f m k h =
    on_slot-IsMachine n _ m (λ s l. set_queue-IsSlot s (f s.vq) l (k s.vq l.is_queue)) h

set_addr_low-fits : (addr val : ℕ) → IsU64 addr → IsU64 (set_addr_low addr val)
unfolding set_addr_low
set_addr_low-fits addr val h =
    bit_or-lt 64 (bit_and addr 0xFFFFFFFF00000000) (u32 val) (bit_and-lt 64 addr _ h) (omega arith)

set_addr_high-fits : (addr val : ℕ) → IsU64 addr → IsU64 (set_addr_high addr val)
unfolding set_addr_high
set_addr_high-fits addr val h =
    bit_or-lt 64 (bit_and addr 0xFFFFFFFF) (shl64 val 32) (bit_and-lt 64 addr _ h) (omega arith)

zero_ring-IsRing : IsRing zero_ring
zero_ring-IsRing = record {
  base_fits = omega arith;
  size_fits = omega arith;
  cursor_fits = omega arith;
}

pub zero_queue-IsQueue : IsQueue zero_queue
zero_queue-IsQueue = record {
  desc_base_fits = omega arith;
  is_avail = zero_ring-IsRing;
  is_used = zero_ring-IsRing;
}

set_base : (r : VirtqRing) (base : ℕ) → IsRing r → IsU64 base → IsRing (record r { base = base })
set_base r base h k = record { base_fits = k; size_fits = h.size_fits; cursor_fits = h.cursor_fits }

resize : (r : VirtqRing) (val : ℕ) → IsRing r → IsRing (record r { size = u16 val })
resize r val h = record {
  base_fits = h.base_fits;
  size_fits = omega arith;
  cursor_fits = h.cursor_fits;
}

-- Registers of the slot beside the queue.
pub registers :
    (s : VirtioSlot) (status device driver queue interrupt : ℕ)
    → IsSlot s
    → IsU32 status
    → IsU32 device
    → IsU32 driver
    → IsU32 queue
    → IsU32 interrupt
    → IsSlot (record s {
      status = status;
      device_features_sel = device;
      driver_features_sel = driver;
      queue_sel = queue;
      interrupt_status = interrupt;
    })
registers s status device driver queue interrupt h a b c d e = record {
  is_queue = h.is_queue;
  status_fits = a;
  device_features_sel_fits = b;
  driver_features_sel_fits = c;
  queue_sel_fits = d;
  interrupt_status_fits = e;
}

module _ (val : ℕ) (s : VirtioSlot) (h : IsSlot s) where
  set_queue_size : IsSlot (virtio_set_queue_size (u32 val) s)
  unfolding virtio_set_queue_size
  set_queue_size =
      let q = h.is_queue in
      set_queue-IsSlot s _ h (record {
        desc_base_fits = q.desc_base_fits;
        is_avail = resize s.vq.avail (u32 val) q.is_avail;
        is_used = resize s.vq.used (u32 val) q.is_used;
      })

  module _ (f : ℕ → ℕ → ℕ) (fits : (addr val : ℕ) → IsU64 addr → IsU64 (f addr val)) where
    set_desc-IsSlot : IsSlot (set_desc f val s)
    set_desc-IsSlot =
        let q = h.is_queue in
        set_queue-IsSlot s _ h (record {
          desc_base_fits = fits s.vq.desc_base val q.desc_base_fits;
          is_avail = q.is_avail;
          is_used = q.is_used;
        })

    set_avail-IsSlot : IsSlot (set_avail f val s)
    set_avail-IsSlot =
        let q = h.is_queue in
        set_queue-IsSlot s _ h (record {
          desc_base_fits = q.desc_base_fits;
          is_avail =
              set_base s.vq.avail _ q.is_avail (fits s.vq.avail.base val q.is_avail.base_fits);
          is_used = q.is_used;
        })

    set_used-IsSlot : IsSlot (set_used f val s)
    set_used-IsSlot =
        let q = h.is_queue in
        set_queue-IsSlot s _ h (record {
          desc_base_fits = q.desc_base_fits;
          is_avail = q.is_avail;
          is_used = set_base s.vq.used _ q.is_used (fits s.vq.used.base val q.is_used.base_fits);
        })

  reset : IsSlot (record s { status = 0; vq = zero_queue; interrupt_status = 0 })
  reset = record {
    is_queue = zero_queue-IsQueue;
    status_fits = omega arith;
    device_features_sel_fits = h.device_features_sel_fits;
    driver_features_sel_fits = h.driver_features_sel_fits;
    queue_sel_fits = h.queue_sel_fits;
    interrupt_status_fits = omega arith;
  }

  pub write_slot-IsSlot : (offset : ℕ) → IsSlot (write_slot offset val s)
  unfolding write_slot
  write_slot-IsSlot offset =
      let fits : IsU32 (u32 val) = omega arith in
      let a = h.status_fits in
      let b = h.device_features_sel_fits in
      let c = h.driver_features_sel_fits in
      let d = h.queue_sel_fits in
      let e = h.interrupt_status_fits in
      if-elim IsSlot (offset == virtio_mmio_device_features_sel_off) _ _
        (λ _. registers s _ _ _ _ _ h a fits c d e)
        λ _.
          if-elim IsSlot (offset == virtio_mmio_driver_features_sel_off) _ _
            (λ _. registers s _ _ _ _ _ h a b fits d e)
            λ _.
              if-elim IsSlot (offset == virtio_mmio_queue_sel_off) _ _
                (λ _. registers s _ _ _ _ _ h a b c fits e)
                λ _.
                  if-elim IsSlot (offset == virtio_mmio_queue_num_off) _ _
                    (λ _. if-elim IsSlot (s.queue_sel == 0) _ s (λ _. set_queue_size) (λ _. h))
                    λ _.
                      if-elim IsSlot (offset == virtio_mmio_queue_ready_off) _ _
                        (λ _.
                          if-elim IsSlot (s.queue_sel == 0)
                            (let q = s.vq in record s { vq = record q { ready = not (val == 0) } })
                            s
                            (λ _. set_queue-IsSlot s _ h (record {
                              desc_base_fits = h.is_queue.desc_base_fits;
                              is_avail = h.is_queue.is_avail;
                              is_used = h.is_queue.is_used;
                            }))
                            (λ _. h))
                        λ _.
                          if-elim IsSlot (offset == virtio_mmio_interrupt_ack_off) _ _
                            (λ _.
                              registers s _ _ _ _ _ h a b c d
                                (bit_and-lt 32 s.interrupt_status _ e))
                            λ _.
                              if-elim IsSlot (offset == virtio_mmio_status_off) _ _
                                (λ _.
                                  if-elim IsSlot (val == 0) _ _ (λ _. reset)
                                    (λ _. registers s _ _ _ _ _ h fits b c d e))
                                λ _.
                                  if-elim IsSlot (offset == virtio_mmio_queue_desc_low_off) _ _
                                    (λ _. set_desc-IsSlot set_addr_low set_addr_low-fits)
                                    λ _.
                                      if-elim IsSlot (offset == virtio_mmio_queue_desc_high_off) _ _
                                        (λ _. set_desc-IsSlot set_addr_high set_addr_high-fits)
                                        λ _.
                                          if-elim IsSlot
                                            (offset == virtio_mmio_queue_driver_low_off) _ _
                                            (λ _. set_avail-IsSlot set_addr_low set_addr_low-fits)
                                            λ _.
                                              if-elim IsSlot
                                                (offset == virtio_mmio_queue_driver_high_off) _ _
                                                (λ _.
                                                  set_avail-IsSlot set_addr_high set_addr_high-fits)
                                                λ _.
                                                  if-elim IsSlot
                                                    (offset == virtio_mmio_queue_device_low_off) _ _
                                                    (λ _.
                                                      set_used-IsSlot set_addr_low
                                                        set_addr_low-fits)
                                                    λ _.
                                                      if-elim IsSlot
                                                        (offset
                                                          == virtio_mmio_queue_device_high_off)
                                                        _ s
                                                        (λ _.
                                                          set_used-IsSlot set_addr_high
                                                            set_addr_high-fits)
                                                        (λ _. h)
