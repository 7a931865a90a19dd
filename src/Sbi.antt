-- ===== src/Sbi.antt =====
-- src/sbi.c and include/sbi.h: the firmware calls of a kernel in S-mode.
pub mod Timer
pub mod Returns
use tinyvm.Base.{
  ℕ, ◌+◌, ◌-◌, ◌*◌, ◌/◌, ◌%◌, ◌^◌, ◌||◌, Bool, true, ◌==◌, if◌then◌else◌, ◌∷◌, set_at, u8, u64,
  u64_max, add64, bit_and, bit_or, not64, clear_flags, set_flags,
}
use tinyvm.Machine.{Machine, Cpu, on_cpu}
use tinyvm.Cpu.Csr.{
  set_csr, cpu_lower_irq, mip_ssip, mip_stip, mip_seip, csr_medeleg, csr_mideleg, csr_mcounteren,
  csr_mstatus, mstatus_mpp_mask, mstatus_mpie, priv_s, insn_size, reg_a0, reg_a1, reg_a6, reg_a7,
}
use tinyvm.Device.Clint.{clint_set_timecmp}

abbrev pub sbi_eid_set_timer : ℕ
sbi_eid_set_timer = 0x00

abbrev pub sbi_eid_putchar : ℕ
sbi_eid_putchar = 0x01

abbrev pub sbi_eid_base : ℕ
sbi_eid_base = 0x10

abbrev pub sbi_eid_timer : ℕ
sbi_eid_timer = 0x54494D45

abbrev pub sbi_eid_reset : ℕ
sbi_eid_reset = 0x53525354

abbrev pub sbi_timer_set_timer : ℕ
sbi_timer_set_timer = 0

abbrev pub sbi_base_get_spec_version : ℕ
sbi_base_get_spec_version = 0

abbrev pub sbi_base_probe_extension : ℕ
sbi_base_probe_extension = 3

abbrev pub sbi_spec_version : ℕ
sbi_spec_version = 2

abbrev pub sbi_success : ℕ
sbi_success = 0

-- (u64)-2.
abbrev pub sbi_err_not_supported : ℕ
sbi_err_not_supported = u64_max - 1

-- The causes 0 to 8, 12, 13 and 15.
abbrev pub delegated_causes : ℕ
delegated_causes = (2 ^ 9 - 1) + 2 ^ 0xc + 2 ^ 0xd + 2 ^ 0xf

unfoldable pub sbi_init : Cpu → ℕ → Cpu
sbi_init c kernel_entry =
    let c₁ = set_csr c csr_medeleg delegated_causes in
    let c₂ = set_csr c₁ csr_mideleg (mip_ssip + mip_stip + mip_seip) in
    let c₃ = set_csr c₂ csr_mcounteren 7 in
    let status = clear_flags (c₃.csrs csr_mstatus) mstatus_mpp_mask in
    let status' = set_flags (set_flags status (priv_s * 2 ^ 11)) mstatus_mpie in
    record (set_csr c₃ csr_mstatus status') { pc = kernel_entry; privilege = priv_s }

unfoldable pub is_supported_eid : ℕ → Bool
is_supported_eid eid =
    eid == sbi_eid_set_timer
    || (eid == sbi_eid_putchar
        || (eid == sbi_eid_base || (eid == sbi_eid_timer || eid == sbi_eid_reset)))

-- cpu->regs[REG_A0] = error; cpu->regs[REG_A1] = value.
abbrev pub reply : ℕ → ℕ → Cpu → Cpu
reply error value c = record c { regs = set_at (set_at c.regs reg_a0 error) reg_a1 value }

unfoldable pub handle_base : Cpu → Cpu
handle_base c =
    let fid = c.regs reg_a6 in
    if fid == sbi_base_get_spec_version
    then reply sbi_success sbi_spec_version c
    else if fid == sbi_base_probe_extension
    then reply sbi_success (if is_supported_eid (c.regs reg_a0) then 1 else 0) c
    else reply sbi_err_not_supported 0 c

-- The timer is set, and the interrupt that it may have raised is withdrawn.
unfoldable pub sbi_set_timer : Machine → Machine
sbi_set_timer m =
    let m₁ = on_cpu (λ c. cpu_lower_irq c mip_stip) m in
    on_cpu (reply sbi_success 0) (clint_set_timecmp (m₁.cpu.regs reg_a0) m₁)

-- The switch on the extension.
unfoldable pub sbi_dispatch : Machine → Machine
sbi_dispatch m =
    let eid = m.cpu.regs reg_a7 in
    if eid == sbi_eid_set_timer
    then sbi_set_timer m
    else if eid == sbi_eid_timer
    then (if m.cpu.regs reg_a6 == sbi_timer_set_timer
        then sbi_set_timer m
        else on_cpu (reply sbi_err_not_supported 0) m)
    else if eid == sbi_eid_putchar
    then on_cpu (reply sbi_success 0) (record m { output = u8 (m.cpu.regs reg_a0) ∷ m.output })
    else if eid == sbi_eid_base
    then on_cpu handle_base m
    else if eid == sbi_eid_reset
    then on_cpu (λ c. reply sbi_success 0 (record c { halted = true })) m
    else on_cpu (reply sbi_err_not_supported 0) m

unfoldable pub sbi_ecall : Machine → Machine
sbi_ecall m = on_cpu (λ c. record c { pc = add64 c.pc insn_size }) (sbi_dispatch m)
