-- ===== src/Execute/Step.antt =====
-- src/cpu.c: the interrupt sources, cpu_check_interrupts, cpu_init and cpu_step; src/main.c: the
-- loop of main.
use tinyvm.Base.{
  ℕ, zero, suc, ◌^◌, ◌&&◌, ◌||◌, Bool, true, false, not, bit_and, bit_or, ◌==◌, ltb, if◌then◌else◌,
  Option, none, some, List, [], ◌∷◌, ◌++◌, length, set_at, add64, not64, has_flag, truthy, Exec,
  pure, modify, gets, state, ◌>>=◌, ◌>>◌,
}
use tinyvm.Machine.{Machine, Cpu, IrqSource, clint_source, uart_source, on_cpu}
use tinyvm.Cpu.Csr.{
  set_csr, csr_mip, csr_mie, csr_mideleg, csr_medeleg, csr_mstatus, mstatus_mie, mstatus_sie,
  priv_u, priv_s, priv_m,
}
use tinyvm.Cpu.Trap.{cpu_trap}
use tinyvm.Device.Clint.{clint_irq_source}
use tinyvm.Device.Uart.{uart_irq_source}
use tinyvm.Memory.{DeviceIo, mem_read16, mem_read32}
use tinyvm.Mmu.{mmu_translate, mmu_fault, mmu_fetch}
use tinyvm.Decode.Instr.{Instruction}
use tinyvm.Decode.Base32.{decode}
use tinyvm.Decode.Rvc.{decode_rvc}
use tinyvm.Execute.Float.{HostFloat}
use tinyvm.Execute.Dispatch.{execute}

abbrev pub max_irq_sources : ℕ
max_irq_sources = 8

-- A full table drops the source.
unfoldable pub cpu_add_irq_source : IrqSource → Machine → Machine
cpu_add_irq_source fn m =
    if ltb (length m.irq_sources) max_irq_sources
    then record m { irq_sources = m.irq_sources ++ fn ∷ [] }
    else m

unfoldable pub poll : IrqSource → Exec Machine (Unit {0})
poll clint_source = modify clint_irq_source
poll uart_source = uart_irq_source

unfoldable pub poll_all : List IrqSource → Exec Machine (Unit {0})
poll_all [] = pure tt
poll_all (s ∷ ss) = do poll s; poll_all ss

-- for (bit = n - 1; bit >= 0; bit--): the first set bit from the top.
unfoldable pub highest_bit : ℕ → ℕ → Option ℕ
highest_bit zero word = none
highest_bit (suc k) word = if has_flag word (2 ^ k) then some k else highest_bit k word

-- The cause of an interrupt.
abbrev pub interrupt_cause : ℕ → ℕ
interrupt_cause line = bit_or (2 ^ 63) line

abbrev pub deliver : Option ℕ → Cpu → Bool × Cpu
deliver none c = (false, c)
deliver (some line) c = (true, cpu_trap c (interrupt_cause line) 0)

unfoldable pub m_enabled : Cpu → Bool
m_enabled c = ltb c.privilege priv_m || has_flag (c.csrs csr_mstatus) mstatus_mie

unfoldable pub s_enabled : Cpu → Bool
s_enabled c =
    (c.privilege == priv_u)
    || ((c.privilege == priv_s) && has_flag (c.csrs csr_mstatus) mstatus_sie)

-- The line to deliver: the top one in M-mode, or else the top one delegated to S-mode.
unfoldable pub next_interrupt : Cpu → Option ℕ
next_interrupt c =
    let pending = bit_and (c.csrs csr_mip) (c.csrs csr_mie) in
    let m_pending = bit_and pending (not64 (c.csrs csr_mideleg)) in
    let s_pending = bit_and pending (c.csrs csr_mideleg) in
    let in_s = if truthy s_pending && s_enabled c then highest_bit 10 s_pending else none in
    if not (truthy pending)
    then none
    else if truthy m_pending && m_enabled c
    then elim (highest_bit 12 m_pending) [ some line ↦ some line | none ↦ in_s ]
    else in_s

unfoldable pub take_interrupt : Cpu → Bool × Cpu
take_interrupt c = deliver (next_interrupt c) c

unfoldable pub cpu_check_interrupts : Exec Machine Bool
cpu_check_interrupts = do
  sources ← gets (λ m. m.irq_sources)
  poll_all sources
  state (λ m. let (taken, c) = take_interrupt m.cpu in (taken, record m { cpu = c }))

unfoldable pub cpu_init : Cpu → Cpu
cpu_init c =
    let c₁ = set_csr (set_csr c csr_medeleg 0xFFFF) csr_mideleg 0xFFFF in
    record c₁ { privilege = priv_m; pc = 0x80000000; regs = set_at (set_at c.regs 10 0) 11 0 }

module _ (io : DeviceIo) (host : HostFloat) where
  -- Instructions whose low bits are 11 have 32 bits, all others 16.
  unfoldable pub fetch : ℕ → Exec Machine Instruction
  fetch pc_pa = do
    lo ← mem_read16 io pc_pa
    if not (bit_and lo 3 == 3)
        then pure (decode_rvc lo)
        else do raw ← mem_read32 io pc_pa; pure (decode raw)

  unfoldable pub fetch_execute : Exec Machine (Unit {0})
  fetch_execute = do
    pc ← gets (λ m. m.cpu.pc)
    pc_pa ← mmu_translate io pc mmu_fetch
    if pc_pa == mmu_fault then pure tt else do inst ← fetch pc_pa; execute io host inst

  unfoldable pub cpu_step : Exec Machine (Unit {0})
  cpu_step = do
    modify (on_cpu (λ c. record c { steps = add64 c.steps 1 }))
    trapped ← cpu_check_interrupts
    if trapped then pure tt else fetch_execute

  -- while (!g_cpu.halted) cpu_step(…), for at most `rounds` steps.
  unfoldable pub run : ℕ → Exec Machine (Unit {0})
  run zero = pure tt
  run (suc rounds) = do
    halted ← gets (λ m. m.cpu.halted)
    let rest = run rounds
    if halted then pure tt else do cpu_step; rest
