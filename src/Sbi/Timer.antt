-- ===== src/Sbi/Timer.antt =====
-- src/sbi.c with src/clint.c: a timer that the guest sets fires when its time has come, and not
-- before.
use tinyvm.Base.{◌≡◌, refl, ◌∙◌, leb, has_flag, add64}
use tinyvm.Machine.{Machine}
use tinyvm.Cpu.Csr.{csr_mip, mip_stip, cpu_lower_irq, reg_a0, reg_a6, reg_a7, insn_size}
use tinyvm.Device.Clint.{clint_irq_source, clint_set_timecmp}
use tinyvm.Device.Lines.{clint_irq_source-stip}
use tinyvm.Sbi.{
  sbi_eid_timer, sbi_timer_set_timer, sbi_success, sbi_set_timer, sbi_dispatch, sbi_ecall,
}

-- A call of the timer extension with its one function sets the comparator to a0, reports success in
-- a0, and moves past the ecall; once the timer is polled, STIP is pending exactly if the time has
-- reached the value that a0 had.
pub sbi_ecall-timer :
    (m : Machine)
    → m.cpu.regs reg_a7 ≡ sbi_eid_timer
    → m.cpu.regs reg_a6 ≡ sbi_timer_set_timer
    → ((sbi_ecall m).mtimecmp ≡ m.cpu.regs reg_a0)
      × ((sbi_ecall m).cpu.regs reg_a0 ≡ sbi_success)
      × ((sbi_ecall m).cpu.pc ≡ add64 m.cpu.pc insn_size)
      × (has_flag ((clint_irq_source (sbi_ecall m)).cpu.csrs csr_mip) mip_stip
          ≡ leb (m.cpu.regs reg_a0) m.cpu.steps)
unfolding sbi_ecall sbi_dispatch sbi_set_timer cpu_lower_irq clint_set_timecmp
sbi_ecall-timer m e q = (
  rw (e, q) refl,
  rw (e, q) refl,
  rw (e, q) refl,
  clint_irq_source-stip (sbi_ecall m) ∙ rw (e, q) refl,
)
