-- ===== src/Device/Clint.antt =====
-- src/clint.c: the timer comparator. mtime is the step counter of the CPU.
use tinyvm.Base.{ℕ, ◌==◌, leb, if◌then◌else◌}
use tinyvm.Machine.{Machine, on_cpu}
use tinyvm.Cpu.Csr.{cpu_raise_irq, cpu_lower_irq, mip_stip}

abbrev pub clint_base : ℕ
clint_base = 0x2000000

abbrev pub clint_size : ℕ
clint_size = 0x10000

abbrev pub clint_mtimecmp_off : ℕ
clint_mtimecmp_off = 0x4000

abbrev pub clint_mtime_off : ℕ
clint_mtime_off = 0xBFF8

-- STIP is high exactly while mtime has reached mtimecmp.
unfoldable pub clint_irq_source : Machine → Machine
clint_irq_source m =
    if leb m.mtimecmp m.cpu.steps
    then on_cpu (λ c. cpu_raise_irq c mip_stip) m
    else on_cpu (λ c. cpu_lower_irq c mip_stip) m

unfoldable pub clint_read : ℕ → Machine → ℕ
clint_read offset m =
    if offset == clint_mtime_off
    then m.cpu.steps
    else if offset == clint_mtimecmp_off
    then m.mtimecmp
    else 0

unfoldable pub clint_write : ℕ → ℕ → Machine → Machine
clint_write offset val m = if offset == clint_mtimecmp_off then record m { mtimecmp = val } else m

unfoldable pub clint_set_timecmp : ℕ → Machine → Machine
clint_set_timecmp val m = record m { mtimecmp = val }
