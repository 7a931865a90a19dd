-- ===== src/Execute/AtomicStep.antt =====
-- src/cpu.c, case OP_AMO of execute, and src/exec_a.c: a page fault of an atomic instruction, whose
-- case adds the size of the instruction to the pc that the trap has set.
use tinyvm.Base.{
  ℕ, ◌≤◌, ◌≡◌, refl, ap, subst, true, ◌==◌, inl, inr, Bool-cases, if◌then◌else◌, shr, ok, pure,
  gets, modify, ◌>>=◌, add64, clear_flags, arith,
}
use tinyvm.Machine.{Machine, on_cpu}
use tinyvm.Cpu.Csr.{csr_sepc, csr_scause, csr_stval, csr_stvec}
use tinyvm.Cpu.Trap.{cpu_trap, is_delegated}
use tinyvm.Cpu.TrapReturn.{cpu_trap-IsTrapToS, delegation, is_delegated-bit}
use tinyvm.Memory.{DeviceIo}
use tinyvm.Mmu.{
  MmuAccess, mmu_load, mmu_store, mmu_fault, mmu_active, mmu_translate, page_fault, finish_walk,
  Walk, invalid, no_leaf, leaf,
}
use tinyvm.Mmu.Permissions.{walk_root, cause_of, fault_cause-cause_of, IsUseless, pte_check-refused}
use tinyvm.Decode.Instr.{Instruction, op_amo}
use tinyvm.Execute.Float.{HostFloat}
use tinyvm.Execute.Atomic.{execute_lr, execute_sc, execute_amo, execute_a}
use tinyvm.Execute.Dispatch.{dispatch, execute_atomic, advance, execute}

dispatch-op_amo :
    (io : DeviceIo) (host : HostFloat) (inst : Instruction)
    → inst.opcode ≡ op_amo
    → dispatch io host inst ≡ execute_atomic io inst
unfolding dispatch
dispatch-op_amo io host inst e = simp e refl

advanced :
    (io : DeviceIo) (host : HostFloat) (inst : Instruction) (m n : Machine)
    → inst.opcode ≡ op_amo
    → execute_a io inst m ≡ ok (tt, n)
    → execute io host inst m ≡ ok (tt, on_cpu (λ c. record c { pc = add64 c.pc inst.size }) n)
unfolding execute execute_atomic advance ◌>>=◌ pure modify
advanced io host inst m n e q = rw (dispatch-op_amo io host inst e, q) refl

-- The machine after the page fault.
abbrev faulted : MmuAccess → ℕ → Machine → Machine
faulted access va m = on_cpu (λ c. cpu_trap c (cause_of access) va) m

-- A load-reserved loads, and every other atomic instruction stores.
abbrev pub access_of : Instruction → MmuAccess
access_of inst = if shr inst.funct7 2 == 2 then mmu_load else mmu_store

module _ (io : DeviceIo) (m : Machine) where
  finish_walk-IsUseless :
      (va : ℕ) (access : MmuAccess) (end : Walk)
      → IsUseless access m.cpu end
      → finish_walk io va access end m ≡ page_fault va access m
  unfolding finish_walk gets ◌>>=◌
  finish_walk-IsUseless va access invalid u = refl
  finish_walk-IsUseless va access no_leaf u = refl
  finish_walk-IsUseless va access (leaf pte pte_addr level) u =
      rw (pte_check-refused pte m.cpu access u) refl

  mmu_translate-IsUseless :
      (va : ℕ) (access : MmuAccess) (end : Walk)
      → mmu_active m.cpu ≡ true
      → walk_root io va m ≡ ok (end, m)
      → IsUseless access m.cpu end
      → mmu_translate io va access m ≡ ok (mmu_fault, faulted access va m)
  unfolding mmu_translate page_fault gets modify pure ◌>>=◌
  mmu_translate-IsUseless va access end active walked u =
      rw (active, walked, finish_walk-IsUseless va access end u, fault_cause-cause_of access) refl

  module _ (inst : Instruction) (t : Machine) where
    abbrev Translates : MmuAccess → Type 0
    Translates access = mmu_translate io (m.cpu.regs inst.rs1) access m ≡ ok (mmu_fault, t)

    execute_lr-faults : Translates mmu_load → execute_lr io inst m ≡ ok (tt, t)
    unfolding execute_lr gets pure ◌>>=◌
    execute_lr-faults e = rw e refl

    execute_sc-faults : Translates mmu_store → execute_sc io inst m ≡ ok (tt, t)
    unfolding execute_sc gets pure ◌>>=◌
    execute_sc-faults e = rw e refl

    execute_amo-faults : Translates mmu_store → execute_amo io inst m ≡ ok (tt, t)
    unfolding execute_amo gets pure ◌>>=◌
    execute_amo-faults e = rw e refl

    execute_a-faults : Translates (access_of inst) → execute_a io inst m ≡ ok (tt, t)
    unfolding execute_a
    execute_a-faults e = elim (Bool-cases (shr inst.funct7 2 == 0x02)) [
      | inl lr ↦
          rw lr
            (execute_lr-faults (subst (λ b. Translates (if b then mmu_load else mmu_store)) lr e))
      | inr other ↦
          let store = subst (λ b. Translates (if b then mmu_load else mmu_store)) other e in
          elim (Bool-cases (shr inst.funct7 2 == 0x03)) [
            | inl sc ↦ rw (other, sc) (execute_sc-faults store)
            | inr amo ↦ rw (other, amo) (execute_amo-faults store)
          ]
    ]

-- The trap has been taken, and the pc is past the first instruction of its handler.
pub record IsPastHandler (inst : Instruction) (access : MmuAccess) (m t : Machine) : Type 0 where
  pub pc_is : t.cpu.pc ≡ add64 (clear_flags (m.cpu.csrs csr_stvec) 3) inst.size
  pub privilege_is : t.cpu.privilege ≡ 1
  pub sepc_is : t.cpu.csrs csr_sepc ≡ m.cpu.pc
  pub scause_is : t.cpu.csrs csr_scause ≡ cause_of access
  pub stval_is : t.cpu.csrs csr_stval ≡ m.cpu.regs inst.rs1

pub record EndsPastHandler (io : DeviceIo) (host : HostFloat) (inst : Instruction) (m : Machine)
    : Type 0 where
  pub after : Machine
  pub returns : execute io host inst m ≡ ok (tt, after)
  pub is_past : IsPastHandler inst (access_of inst) m after

-- With translation on, and the page faults delegated, an atomic instruction in S-mode or U-mode
-- whose walk ends without a leaf that permits its access takes the page fault, a load's for a
-- load-reserved and a store's otherwise, with sepc at the instruction; and then execute adds the size
-- of the instruction to the trap vector in the pc: the handler is entered past its first
-- instruction.
pub execute-op_amo :
    (io : DeviceIo) (host : HostFloat) (inst : Instruction) (m : Machine) (end : Walk)
    → inst.opcode ≡ op_amo
    → mmu_active m.cpu ≡ true
    → walk_root io (m.cpu.regs inst.rs1) m ≡ ok (end, m)
    → IsUseless (access_of inst) m.cpu end
    → m.cpu.privilege ≤ 1
    → delegation m.cpu (cause_of (access_of inst)) ≡ 1
    → EndsPastHandler io host inst m
execute-op_amo io host inst m end op active walked useless low delegated =
    let access = access_of inst in
    let va = m.cpu.regs inst.rs1 in
    let cause = cause_of access in
    let tests = is_delegated-bit m.cpu cause in
    let to_s : is_delegated m.cpu cause ≡ true = ground (arith, tests, low, delegated) in
    let trap = cpu_trap-IsTrapToS m.cpu cause va to_s in
    record {
      after = on_cpu (λ c. record c { pc = add64 c.pc inst.size }) (faulted access va m);
      returns = advanced io host inst m (faulted access va m) op (
          execute_a-faults io m inst (faulted access va m)
            (mmu_translate-IsUseless io m va access end active walked useless));
      is_past = record {
        pc_is = ap (λ pc. add64 pc inst.size) trap.pc_is;
        privilege_is = trap.privilege_is;
        sepc_is = trap.sepc_is;
        scause_is = trap.scause_is;
        stval_is = trap.stval_is;
      };
    }
