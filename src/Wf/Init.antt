-- ===== src/Wf/Init.antt =====
-- src/main.c: the state that the calls before boot() leave is well-formed.
use tinyvm.Base.{
  refl, Bool, ℕ, true, false, ◌==◌, ltb, leb, if-elim, Option, none, some, List, [], ◌∷◌, ◌++◌,
  length, arith,
}
use tinyvm.Machine.{
  Machine, Cpu, MemRegion, Device, IrqSource, Disk, VirtioDevice, VirtioSlot, plain_ram,
}
use tinyvm.Memory.{add_region, mem_add_region, mem_add_device, max_regions}
use tinyvm.Cpu.Csr.{csr_medeleg, csr_mideleg, priv_m}
use tinyvm.Device.Block.{HostFile}
use tinyvm.Device.Transport.{max_virtio_devices, virtio_init, virtio_blk_init}
use tinyvm.Execute.Step.{cpu_add_irq_source, cpu_init, max_irq_sources}
use tinyvm.Boot.Main.{static_machine, uart_init, plic_init, clint_init, init}
use tinyvm.Wf.Defs.{IsMachine, IsCpu, IsSlot, IsU64, AreRegions, AreBytes}
use tinyvm.Wf.Cpu.{set_csr-IsCpu, set_reg-IsCpu, goto-IsCpu}
use tinyvm.Wf.Device.{set_cpu-IsMachine}
use tinyvm.Wf.Slot.{zero_queue-IsQueue}

set_regions-IsMachine :
    (m : Machine) (rs : List MemRegion)
    → IsMachine m
    → AreRegions rs
    → IsMachine (record m { regions = rs })
set_regions-IsMachine m rs h k = record {
  is_cpu = h.is_cpu;
  are_regions = k;
  mtimecmp_fits = h.mtimecmp_fits;
  is_plic = h.is_plic;
  is_uart = h.is_uart;
  is_virtio = h.is_virtio;
}

append-AreRegions :
    (rs : List MemRegion) (r : MemRegion)
    → AreRegions rs
    → AreBytes r.bytes
    → AreRegions (rs ++ r ∷ [])
append-AreRegions [] r h k = (k, tt)
append-AreRegions (s ∷ rs) r h k = (h.0, append-AreRegions rs r h.1 k)

add_region-AreRegions :
    (rs : List MemRegion) (r : MemRegion)
    → AreRegions rs
    → AreBytes r.bytes
    → AreRegions (add_region rs r).1
unfolding add_region
add_region-AreRegions rs r h k =
    if-elim (λ (p : Bool × List MemRegion). AreRegions p.1) (leb max_regions (length rs))
      (false, rs) (true, rs ++ r ∷ []) (λ _. h) (λ _. append-AreRegions rs r h k)

add_device-IsMachine :
    (base size : ℕ) (d : Device) (m : Machine)
    → IsMachine m
    → IsMachine (mem_add_device base size d m).1
unfolding mem_add_device
add_device-IsMachine base size d m h = set_regions-IsMachine m _ h (
    add_region-AreRegions m.regions (record { base = base; size = size; bytes = none; device = d })
      h.are_regions tt)

add_ram-IsMachine :
    (base size : ℕ) (m : Machine) → IsMachine m → IsMachine (mem_add_region base size m).1
unfolding mem_add_region
add_ram-IsMachine base size m h = set_regions-IsMachine m _ h (
    add_region-AreRegions m.regions
      (record { base = base; size = size; bytes = some (λ _. 0); device = plain_ram }) h.are_regions
      (λ i. omega arith))

set_sources :
    (m : Machine) (ss : List IrqSource) → IsMachine m → IsMachine (record m { irq_sources = ss })
set_sources m ss h = record {
  is_cpu = h.is_cpu;
  are_regions = h.are_regions;
  mtimecmp_fits = h.mtimecmp_fits;
  is_plic = h.is_plic;
  is_uart = h.is_uart;
  is_virtio = h.is_virtio;
}

add_source-IsMachine :
    (fn : IrqSource) (m : Machine) → IsMachine m → IsMachine (cpu_add_irq_source fn m)
unfolding cpu_add_irq_source
add_source-IsMachine fn m h =
    if-elim IsMachine (ltb (length m.irq_sources) max_irq_sources) _ m (λ _. set_sources m _ h)
      (λ _. h)

fresh-IsSlot :
    (s : VirtioSlot) (d : VirtioDevice) (irq : ℕ)
    → IsSlot s
    → IsSlot (record s { dev = d; irq = irq })
fresh-IsSlot s d irq h = record {
  is_queue = h.is_queue;
  status_fits = h.status_fits;
  device_features_sel_fits = h.device_features_sel_fits;
  driver_features_sel_fits = h.driver_features_sel_fits;
  queue_sel_fits = h.queue_sel_fits;
  interrupt_status_fits = h.interrupt_status_fits;
}

virtio_init-IsMachine : (d : VirtioDevice) (m : Machine) → IsMachine m → IsMachine (virtio_init d m)
unfolding virtio_init
virtio_init-IsMachine d m h =
    let v = h.is_virtio in
    let idx = m.virtio.slot_count in
    if-elim IsMachine (leb max_virtio_devices idx) m _ (λ _. h)
      λ room. add_device-IsMachine _ _ _ _ (record {
        is_cpu = h.is_cpu;
        are_regions = h.are_regions;
        mtimecmp_fits = h.mtimecmp_fits;
        is_plic = h.is_plic;
        is_uart = h.is_uart;
        is_virtio = record {
          are_slots = λ j.
              if-elim IsSlot (j == idx) _ _ (λ _. fresh-IsSlot _ d _ (v.are_slots idx))
                (λ _. v.are_slots j);
          slot_count_fits = ground (arith, room);
          disk_capacity_fits = v.disk_capacity_fits;
        };
      })

abbrev pub IsOpened : Option Disk → Type 0
IsOpened none = Unit
IsOpened (some disk) = IsU64 disk.size

virtio_blk_init-IsMachine :
    (file : HostFile) (opened : Option Disk) (m : Machine)
    → IsOpened opened
    → IsMachine m
    → IsMachine (virtio_blk_init file opened m)
unfolding virtio_blk_init
virtio_blk_init-IsMachine file none m k h = h
virtio_blk_init-IsMachine file (some disk) m k h = virtio_init-IsMachine _ _ (record {
  is_cpu = h.is_cpu;
  are_regions = h.are_regions;
  mtimecmp_fits = h.mtimecmp_fits;
  is_plic = h.is_plic;
  is_uart = h.is_uart;
  is_virtio = record {
    are_slots = h.is_virtio.are_slots;
    slot_count_fits = h.is_virtio.slot_count_fits;
    disk_capacity_fits = ground (arith, k);
  };
})

cpu_init-IsCpu : (c : Cpu) → IsCpu c → IsCpu (cpu_init c)
unfolding cpu_init
cpu_init-IsCpu c h =
    let deleg =
      set_csr-IsCpu _ csr_mideleg 0xFFFF (set_csr-IsCpu c csr_medeleg 0xFFFF h (omega arith))
        (omega arith) in
    goto-IsCpu _ priv_m 0x80000000
      (set_reg-IsCpu _ 11 0 (λ e. ground arith)
        (set_reg-IsCpu _ 10 0 (λ e. ground arith) deleg (omega arith)) (omega arith))
      (omega arith) (omega arith)

static_machine-IsSlot :
    (input : List (Option ℕ)) (n : ℕ) → IsSlot ((static_machine input).virtio.slots n)
static_machine-IsSlot input n = record {
  is_queue = zero_queue-IsQueue;
  status_fits = omega arith;
  device_features_sel_fits = omega arith;
  driver_features_sel_fits = omega arith;
  queue_sel_fits = omega arith;
  interrupt_status_fits = omega arith;
}

pub static_machine-IsMachine : (input : List (Option ℕ)) → IsMachine (static_machine input)
static_machine-IsMachine input = record {
  is_cpu = record {
    x0 = refl;
    regs_fit = λ r. omega arith;
    fregs_fit = λ r. omega arith;
    pc_fits = omega arith;
    csrs_fit = λ a. omega arith;
    privilege_fits = omega arith;
    steps_fit = omega arith;
  };
  are_regions = tt;
  mtimecmp_fits = omega arith;
  is_plic = record {
    priority_fits = λ i. omega arith;
    pending_fits = omega arith;
    enable_fits = λ i. omega arith;
    threshold_fits = λ i. omega arith;
    claimed_fits = omega arith;
  };
  is_uart = record {
    lcr_fits = omega arith;
    ier_fits = omega arith;
    mcr_fits = omega arith;
    scr_fits = omega arith;
    dll_fits = omega arith;
    dlh_fits = omega arith;
    rx_buf_fits = omega arith;
  };
  is_virtio = record {
    are_slots = static_machine-IsSlot input;
    slot_count_fits = omega arith;
    disk_capacity_fits = omega arith;
  };
}

pub init-IsMachine :
    (file : HostFile) (opened : Option Disk) (m : Machine)
    → IsOpened opened
    → IsMachine m
    → IsMachine (init file opened m)
unfolding init uart_init plic_init clint_init
init-IsMachine file opened m k h =
    let ready = add_ram-IsMachine _ _ m h in
    let serial = add_device-IsMachine _ _ _ _ (add_source-IsMachine _ _ ready) in
    let plic = add_device-IsMachine _ _ _ _ serial in
    let disk = virtio_blk_init-IsMachine file opened _ k plic in
    let timer = add_device-IsMachine _ _ _ _ (add_source-IsMachine _ _ disk) in
    set_cpu-IsMachine _ _ timer (cpu_init-IsCpu _ timer.is_cpu)
