-- ===== src/Tests/Fixtures.antt =====
-- The machines, hosts and files that the tests use.
use tinyvm.Base.{ℕ, true, false, ◌==◌, if◌then◌else◌, [], ◌∷◌, pure, Gives-pure, Keeps-pure, arith}
use tinyvm.Machine.{Machine, Cpu, Plic, Uart, clint_source}
use tinyvm.Cpu.Csr.{csr_mstatus, reg_a0, reg_a7}
use tinyvm.Memory.{DeviceIo}
use tinyvm.Memory.RoundTrip.{ram}
use tinyvm.Sbi.{sbi_eid_timer}
use tinyvm.Execute.Float.{FloatFormat, HostFloat}
use tinyvm.Wf.Defs.{IsIo, IsHost}
use tinyvm.Base.{u8}
use tinyvm.Machine.{Virtio, VirtioSlot, VirtqRing, Disk, blk_dev}

-- A hart in U-mode at the start of the RAM, with interrupts of the timer pending and delegated; it
-- asks the firmware for a timer at 77.
abbrev pub test_csrs : ℕ → ℕ
test_csrs a =
    if a == csr_mstatus
    then 0x22
    else if a == 0x304
    then 0x222
    else if a == 0x303
    then 0x222
    else if a == 0x344
    then 0x20
    else if a == 0x302
    then 0xFFFF
    else 0

abbrev pub test_regs : ℕ → ℕ
test_regs r = if r == reg_a7 then sbi_eid_timer else if r == reg_a0 then 77 else 0

abbrev pub test_cpu : Cpu
test_cpu = record {
  regs = test_regs;
  fregs = λ _. 0;
  fcsr = 0;
  pc = 0x80000000;
  csrs = test_csrs;
  privilege = 0;
  halted = false;
  steps = 100;
}

-- Sources 3 and 5 are pending and enabled in both contexts; 5 has the higher priority.
abbrev pub test_plic : Plic
test_plic = record {
  priority = λ i. i;
  pending = 0x28;
  enable = λ _. 0x28;
  threshold = λ _. 0;
  claimed = 0;
}

abbrev pub test_uart : Uart
test_uart = record {
  lcr = 0;
  ier = 0;
  mcr = 0;
  scr = 0;
  dll = 0;
  dlh = 0;
  rx_buf = 0;
  rx_ready = false;
  thre_ip = false;
}

abbrev pub test_bytes : ℕ → ℕ
test_bytes _ = 0

-- A queue of 4 entries at 0x80000100, 0x80000200 and 0x80000300, which is ready.
abbrev pub test_ring : ℕ → VirtqRing
test_ring base = record { base = base; size = 4; cursor = 0 }

abbrev pub test_slot : VirtioSlot
test_slot = record {
  dev = blk_dev;
  vq = record {
    desc_base = 0x80000100;
    avail = test_ring 0x80000200;
    used = test_ring 0x80000300;
    ready = true;
  };
  status = 0xF;
  device_features_sel = 0;
  driver_features_sel = 0;
  queue_sel = 0;
  interrupt_status = 0;
  irq = 1;
}

abbrev pub test_virtio : Virtio
test_virtio = record { slots = λ _. test_slot; slot_count = 1; disk_capacity = 2 }

-- A disk of two sectors.
abbrev pub test_disk : Disk
test_disk = record { bytes = λ i. u8 i; size = 1024 }

abbrev pub test_machine : Machine
test_machine = record {
  cpu = test_cpu;
  regions = ram 0x80000000 0x1000 test_bytes ∷ [];
  irq_sources = clint_source ∷ [];
  mtimecmp = 0;
  plic = test_plic;
  uart = test_uart;
  virtio = test_virtio;
  disk = test_disk;
  reservation = 0;
  input = [];
  output = [];
}

-- Without virtio devices.
abbrev pub no_virtio : DeviceIo
no_virtio = record { read = λ d offset width. pure 0; write = λ d offset val width. pure tt }

pub no_virtio-IsIo : IsIo no_virtio
no_virtio-IsIo = record {
  read_gives = λ d offset width. Gives-pure 0 (omega arith);
  write_keeps = λ d offset val width h. Keeps-pure tt;
}

-- Floats on which every operation gives 0 and every test is false.
abbrev pub zero_format : FloatFormat
zero_format = record {
  add = λ _ _. 0;
  sub = λ _ _. 0;
  mul = λ _ _. 0;
  div = λ _ _. 0;
  sqrt = λ _. 0;
  neg = λ _. 0;
  fmin = λ _ _. 0;
  fmax = λ _ _. 0;
  eq = λ _ _. false;
  lt = λ _ _. false;
  le = λ _ _. false;
  is_inf = λ _. false;
  is_nan = λ _. false;
  is_normal = λ _. false;
  is_subnormal = λ _. false;
  signbit = λ _. false;
  to_i32 = λ _. 0;
  to_u32 = λ _. 0;
  to_i64 = λ _. 0;
  to_u64 = λ _. 0;
  of_i32 = λ _. 0;
  of_u32 = λ _. 0;
  of_i64 = λ _. 0;
  of_u64 = λ _. 0;
}

abbrev pub zero_host : HostFloat
zero_host = record { single = zero_format; double = zero_format; narrow = λ _. 0; extend = λ _. 0 }

pub zero_host-IsHost : IsHost zero_host
zero_host-IsHost = record {
  add_fits = λ _ _. omega arith;
  sub_fits = λ _ _. omega arith;
  mul_fits = λ _ _. omega arith;
  div_fits = λ _ _. omega arith;
  sqrt_fits = λ _. omega arith;
  fmin_fits = λ _ _. omega arith;
  fmax_fits = λ _ _. omega arith;
  extend_fits = λ _. omega arith;
  of_i32_fits = λ _. omega arith;
  of_u32_fits = λ _. omega arith;
  of_i64_fits = λ _. omega arith;
  of_u64_fits = λ _. omega arith;
}
