-- ===== src/Cpu/Trap.antt =====
-- src/cpu.c: cpu_trap and the trap returns of execute_trap_return; include/trap.h: the causes.
use tinyvm.Base.{
  ℕ, ◌^◌, ◌&&◌, Bool, bit_and, bit_or, ◌==◌, leb, ltb, if◌then◌else◌, has_flag, clear_flags,
  set_flags, shr, shl64, truthy,
}
use tinyvm.Machine.{Cpu}
use tinyvm.Cpu.Csr.{
  csr_read, csr_write, priv_u, priv_s, priv_m, csr_mstatus, csr_medeleg, csr_mideleg, csr_sepc,
  csr_scause, csr_stval, csr_stvec, csr_mepc, csr_mcause, csr_mtval, csr_mtvec, mstatus_sie,
  mstatus_mie, mstatus_spie, mstatus_mpie, mstatus_spp, mstatus_mpp_mask, mstatus_mpp_shift,
}

abbrev pub exc_cause_illegal_instr : ℕ
exc_cause_illegal_instr = 0x2

abbrev pub exc_cause_breakpoint : ℕ
exc_cause_breakpoint = 0x3

abbrev pub exc_cause_fetch_page_fault : ℕ
exc_cause_fetch_page_fault = 0xc

abbrev pub exc_cause_load_page_fault : ℕ
exc_cause_load_page_fault = 0xd

abbrev pub exc_cause_store_page_fault : ℕ
exc_cause_store_page_fault = 0xf

-- SIE goes to SPIE and is cleared, and the privilege goes to SPP.
unfoldable pub enter_s_status : ℕ → ℕ → ℕ
enter_s_status privilege status =
    let saved = clear_flags status mstatus_spie in
    let saved' = if has_flag saved mstatus_sie then set_flags saved mstatus_spie else saved in
    let off = clear_flags saved' mstatus_sie in
    let low = clear_flags off mstatus_spp in
    if privilege == priv_s then set_flags low mstatus_spp else low

-- MIE goes to MPIE and is cleared, and the privilege goes to MPP.
unfoldable pub enter_m_status : ℕ → ℕ → ℕ
enter_m_status privilege status =
    let saved = clear_flags status mstatus_mpie in
    let saved' = if has_flag saved mstatus_mie then set_flags saved mstatus_mpie else saved in
    let off = clear_flags saved' mstatus_mie in
    bit_or (clear_flags off mstatus_mpp_mask) (shl64 privilege mstatus_mpp_shift)

unfoldable pub trap_to_s : Cpu → ℕ → ℕ → Cpu
trap_to_s c cause tval =
    let c₁ = csr_write (csr_write (csr_write c csr_sepc c.pc) csr_scause cause) csr_stval tval in
    let c₂ = csr_write c₁ csr_mstatus (enter_s_status c₁.privilege (csr_read c₁ csr_mstatus)) in
    record c₂ { privilege = priv_s; pc = clear_flags (csr_read c₂ csr_stvec) 3 }

unfoldable pub trap_to_m : Cpu → ℕ → ℕ → Cpu
trap_to_m c cause tval =
    let c₁ = csr_write (csr_write (csr_write c csr_mepc c.pc) csr_mcause cause) csr_mtval tval in
    let c₂ = csr_write c₁ csr_mstatus (enter_m_status c₁.privilege (csr_read c₁ csr_mstatus)) in
    record c₂ { privilege = priv_m; pc = clear_flags (csr_read c₂ csr_mtvec) 3 }

-- Bit 63 of the cause tells interrupts from exceptions; each kind has its delegation register.
unfoldable pub is_delegated : Cpu → ℕ → Bool
is_delegated c cause =
    let deleg_csr = if truthy (shr cause 63) then csr_mideleg else csr_medeleg in
    let cause_idx = bit_and cause 0x3F in
    leb c.privilege priv_s && has_flag (csr_read c deleg_csr) (2 ^ cause_idx)

unfoldable pub cpu_trap : Cpu → ℕ → ℕ → Cpu
cpu_trap c cause tval =
    if is_delegated c cause then trap_to_s c cause tval else trap_to_m c cause tval

-- SPP is cleared, SIE comes back from SPIE, and SPIE is set.
unfoldable pub leave_s_status : ℕ → ℕ
leave_s_status status =
    let low = clear_flags (clear_flags status mstatus_spp) mstatus_sie in
    let low' = if has_flag low mstatus_spie then set_flags low mstatus_sie else low in
    set_flags low' mstatus_spie

-- MPP is cleared, MIE comes back from MPIE, and MPIE is set.
unfoldable pub leave_m_status : ℕ → ℕ
leave_m_status status =
    let low = clear_flags (clear_flags status mstatus_mpp_mask) mstatus_mie in
    let low' = if has_flag low mstatus_mpie then set_flags low mstatus_mie else low in
    set_flags low' mstatus_mpie

-- case SYSTEM_SRET.
unfoldable pub execute_sret : Cpu → Cpu
execute_sret c =
    if ltb c.privilege priv_s
    then cpu_trap c exc_cause_illegal_instr 0
    else let status = csr_read c csr_mstatus in
      let c₁ = record c { privilege = if has_flag status mstatus_spp then priv_s else priv_u } in
      let c₂ = csr_write c₁ csr_mstatus (leave_s_status status) in
      record c₂ { pc = csr_read c₂ csr_sepc }

-- case 0x302, mret.
unfoldable pub execute_mret : Cpu → Cpu
execute_mret c =
    if ltb c.privilege priv_m
    then cpu_trap c exc_cause_illegal_instr 0
    else let status = csr_read c csr_mstatus in
      let c₁ = record c { privilege = shr (bit_and status mstatus_mpp_mask) mstatus_mpp_shift } in
      let c₂ = csr_write c₁ csr_mstatus (leave_m_status status) in
      record c₂ { pc = csr_read c₂ csr_mepc }
