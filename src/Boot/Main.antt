-- ===== src/Boot/Main.antt =====
-- src/main.c, and the init functions of src/uart.c, src/plic.c and src/clint.c. The settings of the
-- host's terminal are not part of the state.
use Prim.Native.String.{String, compare}
use Prim.Native.Nat.{eq}
use tinyvm.Base.{
  ℕ, ◌*◌, ◌-◌, ◌^◌, Bool, true, false, if◌then◌else◌, Option, List, [], ◌∷◌, Exec, pure, exit,
  modify, ◌>>=◌, ◌>>◌,
}
use tinyvm.Machine.{
  Machine, Cpu, Plic, Uart, VirtioSlot, Disk, blk_dev, uart_mmio, plic_mmio, clint_mmio,
  uart_source, clint_source, on_cpu,
}
use tinyvm.Memory.{DeviceIo, mem_add_region, mem_add_device}
use tinyvm.Device.Block.{HostFile}
use tinyvm.Device.Clint.{clint_base, clint_size}
use tinyvm.Device.Plic.{plic_base, plic_size}
use tinyvm.Device.Uart.{uart_base, uart_size}
use tinyvm.Device.Transport.{zero_queue, virtio_blk_init}
use tinyvm.Device.Table.{device_io}
use tinyvm.Execute.Float.{HostFloat}
use tinyvm.Execute.Step.{cpu_add_irq_source, cpu_init, run}
use tinyvm.Boot.Elf.{HostFiles, elf_boot}
use tinyvm.Boot.Modes.{kernel_boot, linux_boot}

abbrev pub ram_base : ℕ
ram_base = 0x80000000

abbrev pub ram_size : ℕ
ram_size = 256 * 1024 * 1024

-- The static variables before main: all zero but mtimecmp and the reservation.
abbrev pub static_cpu : Cpu
static_cpu = record {
  regs = λ _. 0;
  fregs = λ _. 0;
  fcsr = 0;
  pc = 0;
  csrs = λ _. 0;
  privilege = 0;
  halted = false;
  steps = 0;
}

abbrev pub static_plic : Plic
static_plic = record {
  priority = λ _. 0;
  pending = 0;
  enable = λ _. 0;
  threshold = λ _. 0;
  claimed = 0;
}

abbrev pub static_uart : Uart
static_uart = record {
  lcr = 0;
  ier = 0;
  mcr = 0;
  scr = 0;
  dll = 0;
  dlh = 0;
  rx_buf = 0;
  rx_ready = false;
  thre_ip = false;
}

-- The pointer to the device is NULL here, but no slot is in use.
abbrev pub static_slot : VirtioSlot
static_slot = record {
  dev = blk_dev;
  vq = zero_queue;
  status = 0;
  device_features_sel = 0;
  driver_features_sel = 0;
  queue_sel = 0;
  interrupt_status = 0;
  irq = 0;
}

abbrev pub static_machine : List (Option ℕ) → Machine
static_machine input = record {
  cpu = static_cpu;
  regions = [];
  irq_sources = [];
  mtimecmp = 2 ^ 64 - 1;
  plic = static_plic;
  uart = static_uart;
  virtio = record { slots = λ _. static_slot; slot_count = 0; disk_capacity = 0 };
  disk = record { bytes = λ _. 0; size = 0 };
  reservation = 2 ^ 64 - 1;
  input = input;
  output = [];
}

unfoldable pub uart_init : Machine → Machine
uart_init m = (mem_add_device uart_base uart_size uart_mmio (cpu_add_irq_source uart_source m)).1

unfoldable pub plic_init : Machine → Machine
plic_init m = (mem_add_device plic_base plic_size plic_mmio m).1

unfoldable pub clint_init : Machine → Machine
clint_init m =
    (mem_add_device clint_base clint_size clint_mmio (cpu_add_irq_source clint_source m)).1

-- The calls of main before boot().
unfoldable pub init : HostFile → Option Disk → Machine → Machine
init file disk m =
    let m₁ = (mem_add_region ram_base ram_size m).1 in
    let m₂ = plic_init (uart_init m₁) in
    let m₃ = clint_init (virtio_blk_init file disk m₂) in on_cpu cpu_init m₃

-- strcmp(a, b) == 0.
unfoldable pub is_same : String → String → Bool
is_same a b = elim (compare a b) [ eq ↦ true | _ ↦ false ]

module _ (files : HostFiles) (io : DeviceIo) where
  unfoldable pub boot : String → String → Exec Machine Bool
  boot mode binary =
      if is_same mode "linux"
      then linux_boot files io binary "dtb/tinyvm.dtb" "rootfs/initramfs.cpio.gz"
      else if is_same mode "elf"
      then elf_boot files binary
      else if is_same mode "kernel"
      then kernel_boot files binary
      else pure false

abbrev pub disk_path : List String → String
disk_path [] = "disk/vda.img"
disk_path (path ∷ rest) = path

-- What main needs from the host: the file of the disk, the files, what open() gives for a disk
-- path, and the floats.
pub record Host : Type 0 where
  pub file : HostFile
  pub files : HostFiles
  pub open_disk : String → Option Disk
  pub floats : HostFloat

-- main on the arguments after the program's name, with at most `rounds` steps. A `return 1` of main
-- ends the process.
unfoldable pub main : Host → ℕ → ℕ → ℕ → List String → Exec Machine (Unit {0})
main host requests depth rounds [] = exit 1
main host requests depth rounds (mode ∷ []) = exit 1
main host requests depth rounds (mode ∷ binary ∷ rest) = do
  let io = device_io host.file requests depth
  modify (init host.file (host.open_disk (disk_path rest)))
  booted ← boot host.files io mode binary
  if booted then run io host.floats rounds else exit 1
