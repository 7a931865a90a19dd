-- ===== src/Wf/Mmu.antt =====
-- src/mmu.c: translation keeps the machine well-formed and gives a u64.
use tinyvm.Base.{
  ℕ, zero, suc, true, false, not, ◌==◌, modify, Option, none, some, arith, Exec, Gives, Keeps,
  Gives-pure, Keeps-pure, Keeps-gets, Keeps-modify, Gives-if, Gives-bind,
}
use tinyvm.Base.Bits.{bit_or-lt, bit_and-lt}
use tinyvm.Machine.{Machine, on_cpu}
use tinyvm.Cpu.Trap.{cpu_trap}
use tinyvm.Memory.{DeviceIo}
use tinyvm.Mmu.{
  MmuAccess, mmu_fetch, mmu_load, mmu_store, mmu_fault, fault_cause, page_fault, mark_used, pte_ppn,
  pte_to_pa, pte_invalid, pte_leaf, Walk, invalid, leaf, no_leaf, walk, finish_walk, mmu_translate,
  vm_read, vm_write, pte_a, pte_d,
}
use tinyvm.Wf.Defs.{IsMachine, IsIo, IsU64}
use tinyvm.Wf.Cpu.{set_flags-fits}
use tinyvm.Wf.Trap.{cpu_trap-IsCpu}
use tinyvm.Wf.Device.{set_cpu-IsMachine}
use tinyvm.Wf.Memory.{mem_read64-Gives, mem_write64-Keeps}

fault_cause-fits : (access : MmuAccess) → IsU64 (fault_cause access)
unfolding fault_cause
fault_cause-fits mmu_fetch = omega arith
fault_cause-fits mmu_load = omega arith
fault_cause-fits mmu_store = omega arith

pub trap-Keeps :
    (cause tval : ℕ)
    → IsU64 cause
    → IsU64 tval
    → Keeps IsMachine (modify (on_cpu (λ c. cpu_trap c cause tval)))
trap-Keeps cause tval lc lt =
    Keeps-modify _ (λ m h. set_cpu-IsMachine m _ h (cpu_trap-IsCpu m.cpu cause tval h.is_cpu lc lt))

page_fault-Gives :
    (va : ℕ) (access : MmuAccess) → IsU64 va → Gives IsMachine IsU64 (page_fault va access)
unfolding page_fault
page_fault-Gives va access l =
    Gives-bind _ _ (trap-Keeps (fault_cause access) va (fault_cause-fits access) l)
      (λ _ _. Gives-pure mmu_fault (omega arith))

mark_used-fits : (access : MmuAccess) (pte : ℕ) → IsU64 pte → IsU64 (mark_used access pte)
unfolding mark_used
mark_used-fits mmu_fetch pte h = set_flags-fits pte pte_a h (omega arith)
mark_used-fits mmu_load pte h = set_flags-fits pte pte_a h (omega arith)
mark_used-fits mmu_store pte h =
    set_flags-fits _ pte_d (set_flags-fits pte pte_a h (omega arith)) (omega arith)

pte_to_pa-fits : (pte va level : ℕ) → IsU64 va → IsU64 (pte_to_pa pte va level)
unfolding pte_to_pa
pte_to_pa-fits pte va level h = bit_or-lt 64 _ _ (omega arith) (bit_and-lt 64 va _ h)

abbrev IsWalk : Walk → Type 0
IsWalk invalid = Unit
IsWalk (leaf pte pte_addr level) = IsU64 pte
IsWalk no_leaf = Unit

-- A value that a load may bring.
abbrev pub Loaded : (ℕ → Type 0) → Option ℕ → Type 0
Loaded Q none = Unit
Loaded Q (some v) = Q v

module _ (io : DeviceIo) (is_io : IsIo io) where
  walk-Gives : (levels ppn va : ℕ) → Gives IsMachine IsWalk (walk io levels ppn va)
  unfolding walk
  walk-Gives zero ppn va = Gives-pure no_leaf tt
  walk-Gives (suc level) ppn va = Gives-bind _ _ (mem_read64-Gives io is_io _) λ pte l.
      Gives-if (pte_invalid pte) _ _ (λ _. Gives-pure invalid tt)
        λ _.
          Gives-if (pte_leaf pte) _ _ (λ _. Gives-pure (leaf pte _ level) l)
            (λ _. walk-Gives level (pte_ppn pte) va)

  finish_walk-Gives :
      (va : ℕ) (access : MmuAccess) (end : Walk)
      → IsU64 va
      → IsWalk end
      → Gives IsMachine IsU64 (finish_walk io va access end)
  unfolding finish_walk
  finish_walk-Gives va access invalid h k = page_fault-Gives va access h
  finish_walk-Gives va access no_leaf h k = page_fault-Gives va access h
  finish_walk-Gives va access (leaf pte pte_addr level) h k =
      Gives-bind _ _ (Keeps-gets _) λ allowed _.
        Gives-if (not allowed) _ _ (λ _. page_fault-Gives va access h)
          λ _.
            Gives-bind _ _ (mem_write64-Keeps io is_io pte_addr _ (mark_used-fits access pte k))
              (λ _ _. Gives-pure _ (pte_to_pa-fits (mark_used access pte) va level h))

  pub mmu_translate-Gives :
      (va : ℕ) (access : MmuAccess) → IsU64 va → Gives IsMachine IsU64 (mmu_translate io va access)
  unfolding mmu_translate
  mmu_translate-Gives va access h = Gives-bind _ _ (Keeps-gets _) λ active _.
      Gives-bind _ _ (Keeps-gets _) λ satp _.
        Gives-if (not active) _ _ (λ _. Gives-pure va h)
          λ _. Gives-bind _ _ (walk-Gives 3 _ va) (λ end k. finish_walk-Gives va access end h k)

  pub vm_read-Gives :
      (Q : ℕ → Type 0) (read : ℕ → Exec Machine ℕ) (va : ℕ)
      → IsU64 va
      → ((pa : ℕ) → Gives IsMachine Q (read pa))
      → Gives IsMachine (Loaded Q) (vm_read io read va)
  unfolding vm_read
  vm_read-Gives Q read va h k = Gives-bind _ _ (mmu_translate-Gives va mmu_load h) λ pa _.
      Gives-if (pa == mmu_fault) _ _ (λ _. Gives-pure none tt)
        (λ _. Gives-bind _ _ (k pa) (λ v l. Gives-pure (some v) l))

  pub vm_write-Keeps :
      (write : ℕ → ℕ → Exec Machine (Unit {0})) (va val : ℕ)
      → IsU64 va
      → ((pa : ℕ) → Keeps IsMachine (write pa val))
      → Keeps IsMachine (vm_write io write va val)
  unfolding vm_write
  vm_write-Keeps write va val h k = Gives-bind _ _ (mmu_translate-Gives va mmu_store h) λ pa _.
      Gives-if (pa == mmu_fault) _ _ (λ _. Keeps-pure false)
        (λ _. Gives-bind _ _ (k pa) (λ _ _. Keeps-pure true))
