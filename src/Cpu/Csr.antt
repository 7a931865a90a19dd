-- ===== src/Cpu/Csr.antt =====
-- include/cpu.h and src/cpu.c: register numbers, csr_read, csr_write and the interrupt lines.
use tinyvm.Base.{
  ℕ, ◌+◌, ◌*◌, ◌^◌, ◌&&◌, ◌||◌, not, bit_and, bit_or, ◌==◌, if◌then◌else◌, set_at, clear_flags,
  set_flags, shr,
}
use tinyvm.Machine.{Cpu}

-- Privilege levels. The enum is an int in C, and `mret` can store 2 in it.
abbrev pub priv_u : ℕ
priv_u = 0

abbrev pub priv_s : ℕ
priv_s = 1

abbrev pub priv_m : ℕ
priv_m = 3

abbrev pub insn_size : ℕ
insn_size = 4

abbrev pub reg_sp : ℕ
reg_sp = 2

abbrev pub reg_a0 : ℕ
reg_a0 = 10

abbrev pub reg_a1 : ℕ
reg_a1 = 11

abbrev pub reg_a6 : ℕ
reg_a6 = 16

abbrev pub reg_a7 : ℕ
reg_a7 = 17

abbrev pub csr_mstatus : ℕ
csr_mstatus = 0x300

abbrev pub csr_medeleg : ℕ
csr_medeleg = 0x302

abbrev pub csr_mideleg : ℕ
csr_mideleg = 0x303

abbrev pub csr_mie : ℕ
csr_mie = 0x304

abbrev pub csr_mtvec : ℕ
csr_mtvec = 0x305

abbrev pub csr_mcounteren : ℕ
csr_mcounteren = 0x306

abbrev pub csr_mepc : ℕ
csr_mepc = 0x341

abbrev pub csr_mcause : ℕ
csr_mcause = 0x342

abbrev pub csr_mtval : ℕ
csr_mtval = 0x343

abbrev pub csr_mip : ℕ
csr_mip = 0x344

abbrev pub csr_cycle : ℕ
csr_cycle = 0xC00

abbrev pub csr_time : ℕ
csr_time = 0xC01

abbrev pub csr_instret : ℕ
csr_instret = 0xC02

abbrev pub csr_mcycle : ℕ
csr_mcycle = 0xB00

abbrev pub csr_minstret : ℕ
csr_minstret = 0xB02

abbrev pub csr_sstatus : ℕ
csr_sstatus = 0x100

abbrev pub csr_sie : ℕ
csr_sie = 0x104

abbrev pub csr_stvec : ℕ
csr_stvec = 0x105

abbrev pub csr_sepc : ℕ
csr_sepc = 0x141

abbrev pub csr_scause : ℕ
csr_scause = 0x142

abbrev pub csr_stval : ℕ
csr_stval = 0x143

abbrev pub csr_sip : ℕ
csr_sip = 0x144

abbrev pub csr_satp : ℕ
csr_satp = 0x180

-- mstatus bits.
abbrev pub mstatus_sie : ℕ
mstatus_sie = 2 ^ 1

abbrev pub mstatus_mie : ℕ
mstatus_mie = 2 ^ 3

abbrev pub mstatus_spie : ℕ
mstatus_spie = 2 ^ 5

abbrev pub mstatus_mpie : ℕ
mstatus_mpie = 2 ^ 7

abbrev pub mstatus_spp : ℕ
mstatus_spp = 2 ^ 8

abbrev pub mstatus_mpp_shift : ℕ
mstatus_mpp_shift = 11

abbrev pub mstatus_mpp_mask : ℕ
mstatus_mpp_mask = 3 * 2 ^ 11

-- sstatus shows SIE, SPIE, SPP, FS, SUM and MXR of mstatus.
abbrev pub sstatus_sum : ℕ
sstatus_sum = 2 ^ 18

abbrev pub sstatus_mask : ℕ
sstatus_mask = 2 ^ 1 + 2 ^ 5 + 2 ^ 8 + 3 * 2 ^ 13 + 2 ^ 18 + 2 ^ 19

abbrev pub satp_mode_shift : ℕ
satp_mode_shift = 60

abbrev pub satp_mode_bare : ℕ
satp_mode_bare = 0

abbrev pub satp_mode_sv39 : ℕ
satp_mode_sv39 = 8

abbrev pub satp_mode_mask : ℕ
satp_mode_mask = 0xF * 2 ^ 60

abbrev pub mip_ssip : ℕ
mip_ssip = 2 ^ 1

abbrev pub mip_stip : ℕ
mip_stip = 2 ^ 5

abbrev pub mip_seip : ℕ
mip_seip = 2 ^ 9

-- cpu->csrs[addr] = val.
abbrev pub set_csr : Cpu → ℕ → ℕ → Cpu
set_csr c addr val = record c { csrs = set_at c.csrs addr val }

unfoldable pub csr_read : Cpu → ℕ → ℕ
csr_read c addr =
    if addr == csr_sstatus
    then bit_and (c.csrs csr_mstatus) sstatus_mask
    else if addr == csr_sie
    then bit_and (c.csrs csr_mie) (c.csrs csr_mideleg)
    else if addr == csr_sip
    then bit_and (c.csrs csr_mip) (c.csrs csr_mideleg)
    else if addr == csr_cycle
        || (addr == csr_time
            || (addr == csr_instret || (addr == csr_mcycle || addr == csr_minstret)))
    then c.steps
    else c.csrs addr

-- satp keeps only the modes bare and sv39; any other becomes bare.
unfoldable pub legal_satp : ℕ → ℕ
legal_satp val =
    let mode = shr (bit_and val satp_mode_mask) satp_mode_shift in
    if not (mode == satp_mode_bare) && not (mode == satp_mode_sv39)
    then clear_flags val satp_mode_mask
    else val

unfoldable pub csr_write : Cpu → ℕ → ℕ → Cpu
csr_write c addr val =
    if addr == csr_sstatus
    then set_csr c csr_mstatus
        (bit_or (clear_flags (c.csrs csr_mstatus) sstatus_mask) (bit_and val sstatus_mask))
    else if addr == csr_sie
    then set_csr c csr_mie (
        bit_or (clear_flags (c.csrs csr_mie) (c.csrs csr_mideleg))
          (bit_and val (c.csrs csr_mideleg)))
    else if addr == csr_sip
    then set_csr c csr_mip (bit_or (clear_flags (c.csrs csr_mip) mip_ssip) (bit_and val mip_ssip))
    else if addr == csr_satp
    then set_csr c csr_satp (legal_satp val)
    else set_csr c addr val

-- The lines of the peripherals.
unfoldable pub cpu_raise_irq : Cpu → ℕ → Cpu
cpu_raise_irq c line = set_csr c csr_mip (set_flags (c.csrs csr_mip) line)

unfoldable pub cpu_lower_irq : Cpu → ℕ → Cpu
cpu_lower_irq c line = set_csr c csr_mip (clear_flags (c.csrs csr_mip) line)

-- x0 is hardwired: a write to it is dropped.
unfoldable pub reg_write : Cpu → ℕ → ℕ → Cpu
reg_write c rd val = if not (rd == 0) then record c { regs = set_at c.regs rd val } else c
