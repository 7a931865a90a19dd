-- ===== src/Machine.antt =====
-- The state of the emulator: include/cpu.h (CPU), include/memory.h (Memory), the static state of
-- src/plic.c, src/uart.c, src/clint.c, src/virtio.c, src/virtio_blk.c and src/exec_a.c, and the
-- host's terminal and disk file.
use tinyvm.Base.{ℕ, Bool, Option, List}

-- A C array of registers is a function from the index. Decode.Fields shows that every index that
-- the decoder makes is in range.
pub record Cpu : Type 0 where
  pub regs : ℕ → ℕ
  pub fregs : ℕ → ℕ
  pub fcsr : ℕ
  pub pc : ℕ
  pub csrs : ℕ → ℕ
  pub privilege : ℕ
  pub halted : Bool
  pub steps : ℕ

-- The pair of handlers that a region points to: default_read/default_write, or a device's.
pub data Device : Type 0 where
  plain_ram clint_mmio uart_mmio plic_mmio : Device
  virtio_mmio : ℕ → Device

-- `bytes` is r->data: `none` is NULL, which a device's region has.
pub record MemRegion : Type 0 where
  pub base : ℕ
  pub size : ℕ
  pub bytes : Option (ℕ → ℕ)
  pub device : Device

pub record Plic : Type 0 where
  pub priority : ℕ → ℕ
  pub pending : ℕ
  pub enable : ℕ → ℕ
  pub threshold : ℕ → ℕ
  pub claimed : ℕ

pub record Uart : Type 0 where
  pub lcr : ℕ
  pub ier : ℕ
  pub mcr : ℕ
  pub scr : ℕ
  pub dll : ℕ
  pub dlh : ℕ
  pub rx_buf : ℕ
  pub rx_ready : Bool
  pub thre_ip : Bool

-- include/virtio.h. `cursor` is the index up to which the host has read.
pub record VirtqRing : Type 0 where
  pub base : ℕ
  pub size : ℕ
  pub cursor : ℕ

pub record Virtqueue : Type 0 where
  pub desc_base : ℕ
  pub avail : VirtqRing
  pub used : VirtqRing
  pub ready : Bool

-- The one device that src/virtio_blk.c passes to virtio_init.
pub data VirtioDevice : Type 0 where
  blk_dev : VirtioDevice

pub record VirtioSlot : Type 0 where
  pub dev : VirtioDevice
  pub vq : Virtqueue
  pub status : ℕ
  pub device_features_sel : ℕ
  pub driver_features_sel : ℕ
  pub queue_sel : ℕ
  pub interrupt_status : ℕ
  pub irq : ℕ

-- s_slots and s_slot_count of src/virtio.c, and disk_capacity of src/virtio_blk.c.
pub record Virtio : Type 0 where
  pub slots : ℕ → VirtioSlot
  pub slot_count : ℕ
  pub disk_capacity : ℕ

-- The file that disk_fd has open: its bytes and how many there are.
pub record Disk : Type 0 where
  pub bytes : ℕ → ℕ
  pub size : ℕ

pub data IrqSource : Type 0 where
  clint_source uart_source : IrqSource

-- `regions` holds mem->count entries; `input` is what each read() of the terminal will give (`none`
-- is no byte), and `output` what was written, the latest byte first.
pub record Machine : Type 0 where
  pub cpu : Cpu
  pub regions : List MemRegion
  pub irq_sources : List IrqSource
  pub mtimecmp : ℕ
  pub plic : Plic
  pub uart : Uart
  pub virtio : Virtio
  pub disk : Disk
  pub reservation : ℕ
  pub input : List (Option ℕ)
  pub output : List ℕ

abbrev pub set_cpu : Machine → Cpu → Machine
set_cpu m c = record m { cpu = c }

abbrev pub on_cpu : (Cpu → Cpu) → Machine → Machine
on_cpu f m = set_cpu m (f m.cpu)
