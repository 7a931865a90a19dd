-- ===== src/Wf/Trap.antt =====
-- src/cpu.c: traps and trap returns keep the CPU well-formed.
use tinyvm.Base.{
  ℕ, ◌≤◌, Bool, bit_and, ◌==◌, ltb, if◌then◌else◌, clear_flags, set_flags, has_flag, shr, arith,
  if-elim,
}
use tinyvm.Base.Bits.{bit_and-le_right, bit_or-lt}
use tinyvm.Machine.{Cpu}
use tinyvm.Cpu.Csr.{
  csr_read, csr_write, csr_mstatus, mstatus_mpp_mask, mstatus_mpp_shift, priv_u, priv_s, priv_m,
  mstatus_sie, mstatus_mie, mstatus_spie, mstatus_mpie, mstatus_spp, csr_sepc, csr_scause,
  csr_stval, csr_stvec, csr_mepc, csr_mcause, csr_mtval, csr_mtvec,
}
use tinyvm.Cpu.Trap.{
  is_delegated, cpu_trap, trap_to_s, trap_to_m, enter_s_status, enter_m_status, leave_s_status,
  leave_m_status, execute_sret, execute_mret, exc_cause_illegal_instr,
}
use tinyvm.Wf.Cpu.{clear_flags-fits, set_flags-fits, goto-IsCpu, csr_read-fits, csr_write-IsCpu}
use tinyvm.Wf.Defs.{IsCpu, IsU64}

-- A flag is set if a test says so.
set_if-fits : (b : Bool) (a m : ℕ) → IsU64 a → IsU64 m → IsU64 (if b then set_flags a m else a)
set_if-fits b a m h l = if-elim IsU64 b _ a (λ _. set_flags-fits a m h l) (λ _. h)

enter_s_status-fits : (p status : ℕ) → IsU64 status → IsU64 (enter_s_status p status)
unfolding enter_s_status
enter_s_status-fits p status h =
    set_if-fits (p == priv_s) _ mstatus_spp
      (clear_flags-fits _ mstatus_spp (
        clear_flags-fits _ mstatus_sie
          (set_if-fits _ _ mstatus_spie (clear_flags-fits status mstatus_spie h) (omega arith))))
      (omega arith)

enter_m_status-fits : (p status : ℕ) → IsU64 status → IsU64 (enter_m_status p status)
unfolding enter_m_status
enter_m_status-fits p status h =
    bit_or-lt 64 _ _
      (clear_flags-fits _ mstatus_mpp_mask (
        clear_flags-fits _ mstatus_mie
          (set_if-fits _ _ mstatus_mpie (clear_flags-fits status mstatus_mpie h) (omega arith))))
      (omega arith)

leave_s_status-fits : (status : ℕ) → IsU64 status → IsU64 (leave_s_status status)
unfolding leave_s_status
leave_s_status-fits status h =
    set_flags-fits _ mstatus_spie
      (set_if-fits _ _ mstatus_sie
        (clear_flags-fits _ mstatus_sie (clear_flags-fits status mstatus_spp h)) (omega arith))
      (omega arith)

leave_m_status-fits : (status : ℕ) → IsU64 status → IsU64 (leave_m_status status)
unfolding leave_m_status
leave_m_status-fits status h =
    set_flags-fits _ mstatus_mpie
      (set_if-fits _ _ mstatus_mie
        (clear_flags-fits _ mstatus_mie (clear_flags-fits status mstatus_mpp_mask h)) (omega arith))
      (omega arith)

-- Three writes, then a status made from the CPU as it is then.
module _ (status : Cpu → ℕ) (status_fits : (c : Cpu) → IsCpu c → IsU64 (status c)) where
  enter-IsCpu :
      (c : Cpu) (epc cause_csr tval_csr cause tval privilege vec : ℕ)
      → IsCpu c
      → IsU64 cause
      → IsU64 tval
      → privilege ≤ 3
      → let c₁ = csr_write (csr_write (csr_write c epc c.pc) cause_csr cause) tval_csr tval in
        let c₂ = csr_write c₁ csr_mstatus (status c₁) in
        IsCpu (record c₂ { privilege = privilege; pc = clear_flags (csr_read c₂ vec) 3 })
  enter-IsCpu c epc cause_csr tval_csr cause tval privilege vec h lc lt p =
      let h₁ =
        csr_write-IsCpu _ tval_csr tval
          (csr_write-IsCpu _ cause_csr cause (csr_write-IsCpu c epc c.pc h h.pc_fits) lc) lt in
      let h₂ = csr_write-IsCpu _ csr_mstatus _ h₁ (status_fits _ h₁) in
      goto-IsCpu _ privilege _ h₂ p (clear_flags-fits _ 3 (csr_read-fits _ vec h₂))

trap_to_s-IsCpu :
    (c : Cpu) (cause tval : ℕ) → IsCpu c → IsU64 cause → IsU64 tval → IsCpu (trap_to_s c cause tval)
trap_to_s-IsCpu c cause tval h lc lt =
    unfold trap_to_s in
    enter-IsCpu (λ c. enter_s_status c.privilege (csr_read c csr_mstatus))
      (λ c k. enter_s_status-fits c.privilege _ (csr_read-fits c csr_mstatus k)) c csr_sepc
      csr_scause csr_stval cause tval priv_s csr_stvec h lc lt (omega arith)

trap_to_m-IsCpu :
    (c : Cpu) (cause tval : ℕ) → IsCpu c → IsU64 cause → IsU64 tval → IsCpu (trap_to_m c cause tval)
trap_to_m-IsCpu c cause tval h lc lt =
    unfold trap_to_m in
    enter-IsCpu (λ c. enter_m_status c.privilege (csr_read c csr_mstatus))
      (λ c k. enter_m_status-fits c.privilege _ (csr_read-fits c csr_mstatus k)) c csr_mepc
      csr_mcause csr_mtval cause tval priv_m csr_mtvec h lc lt (omega arith)

pub cpu_trap-IsCpu :
    (c : Cpu) (cause tval : ℕ) → IsCpu c → IsU64 cause → IsU64 tval → IsCpu (cpu_trap c cause tval)
cpu_trap-IsCpu c cause tval h lc lt =
    unfold cpu_trap in
    if-elim IsCpu (is_delegated c cause) _ _ (λ _. trap_to_s-IsCpu c cause tval h lc lt)
      (λ _. trap_to_m-IsCpu c cause tval h lc lt)

pub execute_sret-IsCpu : (c : Cpu) → IsCpu c → IsCpu (execute_sret c)
unfolding execute_sret
execute_sret-IsCpu c h =
    if-elim IsCpu (ltb c.privilege priv_s) _ _
      (λ _. cpu_trap-IsCpu c exc_cause_illegal_instr 0 h (omega arith) (omega arith))
      λ _.
        let status = csr_read c csr_mstatus in
        let l = csr_read-fits c csr_mstatus h in
        let p = if has_flag status mstatus_spp then priv_s else priv_u in
        let h₁ =
          goto-IsCpu c p c.pc h
            (if-elim (λ q. q ≤ 3) (has_flag status mstatus_spp) priv_s priv_u (λ _. omega arith)
              (λ _. omega arith))
            h.pc_fits in
        let h₂ = csr_write-IsCpu _ csr_mstatus _ h₁ (leave_s_status-fits status l) in
        goto-IsCpu _ _ _ h₂ h₂.privilege_fits (csr_read-fits _ csr_sepc h₂)

pub execute_mret-IsCpu : (c : Cpu) → IsCpu c → IsCpu (execute_mret c)
unfolding execute_mret
execute_mret-IsCpu c h =
    if-elim IsCpu (ltb c.privilege priv_m) _ _
      (λ _. cpu_trap-IsCpu c exc_cause_illegal_instr 0 h (omega arith) (omega arith))
      λ _.
        let status = csr_read c csr_mstatus in
        let l = csr_read-fits c csr_mstatus h in
        let p = shr (bit_and status mstatus_mpp_mask) mstatus_mpp_shift in
        let p_fits : p ≤ 3 =
          omega (arith, bit_and-le_right 13 status mstatus_mpp_mask (omega arith)) in
        let h₁ = goto-IsCpu c p c.pc h p_fits h.pc_fits in
        let h₂ = csr_write-IsCpu _ csr_mstatus _ h₁ (leave_m_status-fits status l) in
        goto-IsCpu _ _ _ h₂ h₂.privilege_fits (csr_read-fits _ csr_mepc h₂)
