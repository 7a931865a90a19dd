-- ===== src/Cpu/TrapReturn.antt =====
-- src/cpu.c: a trap followed by the return from it; what a trap leaves for its handler.
use tinyvm.Base.{
  ℕ, ◌%◌, ◌^◌, ◌≤◌, ◌<◌, ◌≡◌, refl, ◌⊎◌, inl, inr, Bool-cases, true, false, ◌&&◌, ◌==◌, ltb, leb,
  if◌then◌else◌, bit_and, shr, truthy, has_flag, clear_flags, arith,
}
use tinyvm.Base.Bits.{bit, bit_and_mask, has_flag-bit}
use tinyvm.Machine.{Cpu}
use tinyvm.Cpu.Csr.{
  csr_read, csr_write, csr_mstatus, csr_sepc, csr_scause, csr_stval, csr_stvec, csr_mepc,
  csr_mcause, csr_mtval, csr_mtvec,
}
use tinyvm.Cpu.Trap.{
  enter_s_status, leave_s_status, is_delegated, trap_to_s, trap_to_m, cpu_trap, execute_sret,
}
use tinyvm.Cpu.Status.{bit-enter_s_status, bit-leave_s_status}

-- What the handler of a trap finds.
pub record IsTrapToS (c : Cpu) (cause tval : ℕ) (t : Cpu) : Type 0 where
  pub privilege_is : t.privilege ≡ 1
  pub sepc_is : t.csrs csr_sepc ≡ c.pc
  pub scause_is : t.csrs csr_scause ≡ cause
  pub stval_is : t.csrs csr_stval ≡ tval
  pub status_is :
      (i : ℕ)
      → i < 64
      → bit (t.csrs csr_mstatus) i ≡ (
          if i == 1
          then 0
          else if i == 5
          then bit (c.csrs csr_mstatus) 1
          else if i == 8
          then (if c.privilege == 1 then 1 else 0)
          else bit (c.csrs csr_mstatus) i)
  pub pc_is : t.pc ≡ clear_flags (c.csrs csr_stvec) 3
  pub regs_are : t.regs ≡ c.regs

pub record IsTrapToM (c : Cpu) (cause tval : ℕ) (t : Cpu) : Type 0 where
  pub privilege_is : t.privilege ≡ 3
  pub mepc_is : t.csrs csr_mepc ≡ c.pc
  pub mcause_is : t.csrs csr_mcause ≡ cause
  pub mtval_is : t.csrs csr_mtval ≡ tval
  pub sepc_is : t.csrs csr_sepc ≡ c.csrs csr_sepc
  pub pc_is : t.pc ≡ clear_flags (c.csrs csr_mtvec) 3
  pub regs_are : t.regs ≡ c.regs

trap_to_s-IsTrapToS : (c : Cpu) (cause tval : ℕ) → IsTrapToS c cause tval (trap_to_s c cause tval)
unfolding trap_to_s csr_write csr_read
trap_to_s-IsTrapToS c cause tval = record {
  privilege_is = refl;
  sepc_is = refl;
  scause_is = refl;
  stval_is = refl;
  status_is = bit-enter_s_status c.privilege (c.csrs csr_mstatus);
  pc_is = refl;
  regs_are = refl;
}

trap_to_m-IsTrapToM : (c : Cpu) (cause tval : ℕ) → IsTrapToM c cause tval (trap_to_m c cause tval)
unfolding trap_to_m csr_write csr_read
trap_to_m-IsTrapToM c cause tval = record {
  privilege_is = refl;
  mepc_is = refl;
  mcause_is = refl;
  mtval_is = refl;
  sepc_is = refl;
  pc_is = refl;
  regs_are = refl;
}

-- The bit of the cause in its delegation register: medeleg for exceptions, mideleg for interrupts,
-- whose causes have bit 63.
abbrev pub delegation : Cpu → ℕ → ℕ
delegation c cause = bit (c.csrs (if ltb cause (2 ^ 63) then 0x302 else 0x303)) (cause % 64)

pub is_delegated-bit :
    (c : Cpu) (cause : ℕ) → is_delegated c cause ≡ (leb c.privilege 1 && delegation c cause == 1)
unfolding is_delegated csr_read
is_delegated-bit c cause =
    let index : bit_and cause 0x3F ≡ cause % 64 = bit_and_mask 6 cause in
    elim (Bool-cases (ltb cause (2 ^ 63))) [
      | inl e ↦
          let low : truthy (shr cause 63) ≡ false = ground (arith, e) in
          rw (e, low, index, has_flag-bit (cause % 64) (c.csrs 0x302)) refl
      | inr e ↦
          let high : truthy (shr cause 63) ≡ true = ground (arith, e) in
          rw (e, high, index, has_flag-bit (cause % 64) (c.csrs 0x303)) refl
    ]

pub cpu_trap-IsTrapToS :
    (c : Cpu) (cause tval : ℕ)
    → is_delegated c cause ≡ true
    → IsTrapToS c cause tval (cpu_trap c cause tval)
unfolding cpu_trap
cpu_trap-IsTrapToS c cause tval e = rw e (trap_to_s-IsTrapToS c cause tval)

-- Which mode takes the trap, and what it finds there.
abbrev pub IsDelivered : Cpu → ℕ → ℕ → Cpu → Type 0
IsDelivered c cause tval t =
    ((c.privilege ≤ 1) × (delegation c cause ≡ 1) × IsTrapToS c cause tval t)
    ⊎ (((1 < c.privilege) ⊎ (delegation c cause ≡ 0)) × IsTrapToM c cause tval t)

refused_delegation :
    (c : Cpu) (cause : ℕ)
    → is_delegated c cause ≡ false
    → (1 < c.privilege) ⊎ (delegation c cause ≡ 0)
refused_delegation c cause e =
    let tests = is_delegated-bit c cause in
    elim (Bool-cases (leb c.privilege 1)) [
      | inl low ↦ inr (ground (arith, tests, e, low))
      | inr high ↦ inl (ground (arith, high))
    ]

-- A trap taken in S-mode or U-mode whose bit is set in the delegation register, medeleg for an
-- exception and mideleg for an interrupt, enters S-mode at stvec with sepc, scause and stval set,
-- SIE saved in SPIE and cleared, and the mode in SPP; a trap that is taken in M-mode or is not
-- delegated enters M-mode at mtvec with mepc, mcause and mtval set, and leaves sepc alone. Neither
-- changes a general register.
pub cpu_trap-delivers :
    (c : Cpu) (cause tval : ℕ) → IsDelivered c cause tval (cpu_trap c cause tval)
unfolding cpu_trap
cpu_trap-delivers c cause tval = elim (Bool-cases (is_delegated c cause)) [
  | inl e ↦
      let tests = is_delegated-bit c cause in
      inl (ground (arith, tests, e), ground (arith, tests, e), cpu_trap-IsTrapToS c cause tval e)
  | inr e ↦ rw e (inr (refused_delegation c cause e, trap_to_m-IsTrapToM c cause tval))
]

-- What a return gives back: `i` is any bit of mstatus but SPIE and SPP.
pub record IsBackFrom (c t : Cpu) : Type 0 where
  pub pc_back : t.pc ≡ c.pc
  pub privilege_back : t.privilege ≡ c.privilege
  pub regs_back : t.regs ≡ c.regs
  pub status_back :
      (i : ℕ)
      → i < 64
      → (i == 5) ≡ false
      → (i == 8) ≡ false
      → bit (t.csrs csr_mstatus) i ≡ bit (c.csrs csr_mstatus) i

spp-privilege :
    (privilege status : ℕ)
    → privilege ≤ 1
    → (if has_flag (enter_s_status privilege status) (2 ^ 8) then 1 else 0) ≡ privilege
spp-privilege privilege status h =
    rw
      (
        has_flag-bit 8 (enter_s_status privilege status),
        bit-enter_s_status privilege status 8 (omega arith),
      )
      (ground arith)

leave-enter_s_status :
    (privilege status i : ℕ)
    → i < 64
    → (i == 5) ≡ false
    → (i == 8) ≡ false
    → bit (leave_s_status (enter_s_status privilege status)) i ≡ bit status i
leave-enter_s_status privilege status i h e q =
    rw
      (
        bit-leave_s_status (enter_s_status privilege status) i h,
        bit-enter_s_status privilege status i h,
        bit-enter_s_status privilege status 5 (omega arith),
      )
      (ground (arith, e, q))

-- For a trap taken in U-mode or S-mode, sret in the handler goes back to the instruction that
-- trapped, in the mode that it ran in, with the same registers and the same mstatus but for SPIE
-- and SPP: in particular the interrupt enable bit SIE is as before the trap.
pub execute_sret-trap_to_s :
    (c : Cpu) (cause tval : ℕ)
    → c.privilege ≤ 1
    → IsBackFrom c (execute_sret (trap_to_s c cause tval))
unfolding execute_sret trap_to_s csr_write csr_read
execute_sret-trap_to_s c cause tval h = record {
  pc_back = refl;
  privilege_back = spp-privilege c.privilege (c.csrs csr_mstatus) h;
  regs_back = refl;
  status_back = leave-enter_s_status c.privilege (c.csrs csr_mstatus);
}
