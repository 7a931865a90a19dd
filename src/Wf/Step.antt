-- ===== src/Wf/Step.antt =====
-- src/cpu.c: one step of the CPU, and any number of them, keeps the machine well-formed.
use tinyvm.Base.{
  ℕ, zero, suc, ◌^◌, ◌≤◌, ◌<◌, not, bit_and, ◌==◌, ◌&&◌, if◌then◌else◌, if-elim, truthy, has_flag,
  add64, not64, Option, none, some, List, [], ◌∷◌, arith, Gives, Keeps, Keeps-pure, Gives-pure,
  Keeps-gets, Keeps-modify, Gives-state, Gives-if, Gives-bind,
}
use tinyvm.Base.Bits.{bit_or-lt}
use tinyvm.Machine.{Cpu, IrqSource, clint_source, uart_source}
use tinyvm.Cpu.Csr.{csr_mip, csr_mie, csr_mideleg}
use tinyvm.Memory.{DeviceIo}
use tinyvm.Mmu.{mmu_fault, mmu_fetch}
use tinyvm.Decode.Base32.{decode}
use tinyvm.Decode.Rvc.{decode_rvc}
use tinyvm.Decode.Fields.{InRange, decode-InRange}
use tinyvm.Decode.RvcFields.{decode_rvc-InRange}
use tinyvm.Execute.Float.{HostFloat}
use tinyvm.Execute.Step.{
  poll, poll_all, highest_bit, deliver, interrupt_cause, m_enabled, s_enabled, next_interrupt,
  take_interrupt, cpu_check_interrupts, fetch, fetch_execute, cpu_step, run,
}
use tinyvm.Wf.Defs.{IsMachine, IsCpu, IsIo, IsHost}
use tinyvm.Wf.Trap.{cpu_trap-IsCpu}
use tinyvm.Wf.Device.{set_cpu-IsMachine, clint_irq_source-IsMachine}
use tinyvm.Wf.Serial.{uart_irq_source-Keeps}
use tinyvm.Wf.Sbi.{on_cpu-Keeps, gets_pc}
use tinyvm.Wf.Memory.{mem_read16-Gives, mem_read32-Gives}
use tinyvm.Wf.Mmu.{mmu_translate-Gives}
use tinyvm.Wf.Dispatch.{execute-Keeps}

poll-Keeps : (s : IrqSource) → Keeps IsMachine (poll s)
unfolding poll
poll-Keeps clint_source = Keeps-modify _ clint_irq_source-IsMachine
poll-Keeps uart_source = uart_irq_source-Keeps

poll_all-Keeps : (ss : List IrqSource) → Keeps IsMachine (poll_all ss)
unfolding poll_all
poll_all-Keeps [] = Keeps-pure tt
poll_all-Keeps (s ∷ ss) = Gives-bind _ _ (poll-Keeps s) (λ _ _. poll_all-Keeps ss)

-- A line to deliver, if there is one, is below 12.
abbrev IsLine : Option ℕ → Type 0
IsLine none = Unit
IsLine (some k) = k < 12

highest_bit-IsLine : (n word : ℕ) → n ≤ 12 → IsLine (highest_bit n word)
unfolding highest_bit
highest_bit-IsLine zero word h = tt
highest_bit-IsLine (suc k) word h =
    if-elim IsLine (has_flag word (2 ^ k)) (some k) (highest_bit k word) (λ _. h)
      (λ _. highest_bit-IsLine k word (omega (arith, h)))

first_of-IsLine :
    (o p : Option ℕ) → IsLine o → IsLine p → IsLine (elim o [ some line ↦ some line | none ↦ p ])
first_of-IsLine none p h k = k
first_of-IsLine (some line) p h k = h

pub next_interrupt-IsLine : (c : Cpu) → IsLine (next_interrupt c)
unfolding next_interrupt
next_interrupt-IsLine c =
    let pending = bit_and (c.csrs csr_mip) (c.csrs csr_mie) in
    let m_pending = bit_and pending (not64 (c.csrs csr_mideleg)) in
    let s_pending = bit_and pending (c.csrs csr_mideleg) in
    let in_s = if truthy s_pending && s_enabled c then highest_bit 10 s_pending else none in
    let is_line : IsLine in_s =
      if-elim IsLine (truthy s_pending && s_enabled c) (highest_bit 10 s_pending) none
        (λ _. highest_bit-IsLine 10 s_pending (omega arith)) (λ _. tt) in
    if-elim IsLine (not (truthy pending)) _ _ (λ _. tt)
      λ _.
        if-elim IsLine (truthy m_pending && m_enabled c) _ _
          (λ _. first_of-IsLine _ in_s (highest_bit-IsLine 12 m_pending (omega arith)) is_line)
          (λ _. is_line)

deliver-IsCpu : (o : Option ℕ) (c : Cpu) → IsLine o → IsCpu c → IsCpu (deliver o c).1
deliver-IsCpu none c l h = h
deliver-IsCpu (some k) c l h =
    cpu_trap-IsCpu c (interrupt_cause k) 0 h
      (bit_or-lt 64 (2 ^ 63) k (omega arith) (omega (arith, l))) (omega arith)

take_interrupt-IsCpu : (c : Cpu) → IsCpu c → IsCpu (take_interrupt c).1
unfolding take_interrupt
take_interrupt-IsCpu c h = deliver-IsCpu (next_interrupt c) c (next_interrupt-IsLine c) h

cpu_check_interrupts-Keeps : Keeps IsMachine cpu_check_interrupts
unfolding cpu_check_interrupts
cpu_check_interrupts-Keeps = Gives-bind _ _ (Keeps-gets _) λ ss _.
    Gives-bind _ _ (poll_all-Keeps ss) λ _ _.
      Gives-state _ (λ m h. (tt, set_cpu-IsMachine m _ h (take_interrupt-IsCpu m.cpu h.is_cpu)))

count_step : (c : Cpu) → IsCpu c → IsCpu (record c { steps = add64 c.steps 1 })
count_step c h = record {
  x0 = h.x0;
  regs_fit = h.regs_fit;
  fregs_fit = h.fregs_fit;
  pc_fits = h.pc_fits;
  csrs_fit = h.csrs_fit;
  privilege_fits = h.privilege_fits;
  steps_fit = omega arith;
}

module _ (io : DeviceIo) (is_io : IsIo io) (host : HostFloat) (is_host : IsHost host) where
  fetch-Gives : (pa : ℕ) → Gives IsMachine InRange (fetch io host pa)
  unfolding fetch
  fetch-Gives pa = Gives-bind _ _ (mem_read16-Gives io is_io pa) λ lo _.
      Gives-if (not (bit_and lo 3 == 3)) _ _
        (λ _. Gives-pure {P = IsMachine} (decode_rvc lo) (decode_rvc-InRange lo))
        (λ _.
          Gives-bind _ _ (mem_read32-Gives io is_io pa)
            (λ raw _. Gives-pure {P = IsMachine} (decode raw) (decode-InRange raw)))

  fetch_execute-Keeps : Keeps IsMachine (fetch_execute io host)
  unfolding fetch_execute
  fetch_execute-Keeps = Gives-bind _ _ gets_pc λ pc h.
      Gives-bind _ _ (mmu_translate-Gives io is_io pc mmu_fetch h) λ pa _.
        Gives-if (pa == mmu_fault) _ _ (λ _. Keeps-pure tt)
          λ _.
            Gives-bind _ _ (fetch-Gives pa) (λ inst r. execute-Keeps io is_io host is_host inst r)

  -- If a step returns, from a well-formed machine, then the machine is well-formed again.
  pub cpu_step-Keeps : Keeps IsMachine (cpu_step io host)
  unfolding cpu_step
  cpu_step-Keeps = Gives-bind _ _ (on_cpu-Keeps _ count_step) λ _ _.
      Gives-bind _ _ cpu_check_interrupts-Keeps
        λ trapped _. Gives-if trapped _ _ (λ _. Keeps-pure tt) (λ _. fetch_execute-Keeps)

  -- The machine stays well-formed for any number of steps.
  pub run-Keeps : (rounds : ℕ) → Keeps IsMachine (run io host rounds)
  unfolding run
  run-Keeps zero = Keeps-pure tt
  run-Keeps (suc rounds) =
      let rest = run-Keeps rounds in
      Gives-bind _ _ (Keeps-gets _) λ halted _.
        Gives-if halted _ _ (λ _. Keeps-pure tt) (λ _. Gives-bind _ _ cpu_step-Keeps (λ _ _. rest))
