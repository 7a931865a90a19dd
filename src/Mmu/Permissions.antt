-- ===== src/Mmu/Permissions.antt =====
-- src/mmu.c: which accesses the translation grants, and what it does to the others.
use tinyvm.Base.{
  ℕ, ◌≡◌, refl, ap, ◌⊎◌, inl, inr, Bool, Bool-cases, true, false, not, bit_and, Outcome, ok, exits,
  fault, spins, continue, pure, gets, modify, if◌then◌else◌, ◌>>=◌, ◌>>◌, arith,
}
use tinyvm.Machine.{Machine, Cpu, on_cpu}
use tinyvm.Cpu.Csr.{csr_satp}
use tinyvm.Cpu.Trap.{cpu_trap}
use tinyvm.Memory.{DeviceIo, mem_write64}
use tinyvm.Mmu.{
  MmuAccess, mmu_fetch, mmu_load, mmu_store, mmu_fault, mmu_active, mmu_translate, pte_check,
  pte_to_pa, mark_used, fault_cause, page_fault, Walk, invalid, leaf, no_leaf, walk, finish_walk,
  pt_levels, satp_ppn_mask,
}
use tinyvm.Mmu.Entry.{
  Permits, pte_check-Permits, Permits-pte_check, IsMarked, mark_used-IsMarked, IsAddress,
  pte_to_pa-IsAddress,
}

-- The cause of the page fault of an access.
abbrev pub cause_of : MmuAccess → ℕ
cause_of mmu_fetch = 12
cause_of mmu_load = 13
cause_of mmu_store = 15

pub fault_cause-cause_of : (access : MmuAccess) → fault_cause access ≡ cause_of access
unfolding fault_cause
fault_cause-cause_of mmu_fetch = refl
fault_cause-cause_of mmu_load = refl
fault_cause-cause_of mmu_store = refl

-- An end of the walk that gives the access nothing: no leaf, or one that does not permit it.
abbrev pub IsUseless : MmuAccess → Cpu → Walk → Type 0
IsUseless access c invalid = Unit
IsUseless access c no_leaf = Unit
IsUseless access c (leaf pte pte_addr level) = ¬ (Permits pte c access)

refused_leaf :
    (pte : ℕ) (c : Cpu) (access : MmuAccess)
    → pte_check pte c access ≡ false
    → ¬ (Permits pte c access)
refused_leaf pte c access e p =
    let passed = Permits-pte_check pte c access p in ground (arith, e, passed)

pub pte_check-refused :
    (pte : ℕ) (c : Cpu) (access : MmuAccess)
    → ¬ (Permits pte c access)
    → pte_check pte c access ≡ false
pte_check-refused pte c access u = elim (Bool-cases (pte_check pte c access)) [
  | inl e ↦ absurd (u (pte_check-Permits pte c access e))
  | inr e ↦ e
]

-- The walk from the root that satp names.
abbrev pub walk_root : DeviceIo → ℕ → Machine → Outcome (Walk × Machine)
walk_root io va m = walk io pt_levels (bit_and (m.cpu.csrs csr_satp) satp_ppn_mask) va m

module _ (io : DeviceIo) (va : ℕ) (access : MmuAccess) (m : Machine) where
  -- The walk ended at a leaf that permits the access, which was stored back with A, and D for a
  -- store, and no other bit changed; the address is that of the byte in the leaf's page.
  pub record Grant (pa : ℕ) (after : Machine) : Type 0 where
    pub pte : ℕ
    pub pte_addr : ℕ
    pub level : ℕ
    pub before : Machine
    pub walked : walk_root io va m ≡ ok (leaf pte pte_addr level, before)
    pub permits : Permits pte before.cpu access
    pub word : ℕ
    pub is_marked : IsMarked access pte word
    pub stored : mem_write64 io pte_addr word before ≡ ok (tt, after)
    pub address : IsAddress pte va level pa

  -- The walk ended without a leaf that permits the access, and the page fault of the access has been taken.
  pub record Refusal (pa : ℕ) (after : Machine) : Type 0 where
    pub end : Walk
    pub before : Machine
    pub walked : walk_root io va m ≡ ok (end, before)
    pub is_useless : IsUseless access before.cpu end
    pub trapped : after ≡ on_cpu (λ c. cpu_trap c (cause_of access) va) before
    pub address : pa ≡ mmu_fault

  abbrev pub Decided : Outcome (ℕ × Machine) → Type 0
  Decided (ok (pa, after)) = Grant pa after ⊎ Refusal pa after
  Decided (exits c) = Unit
  Decided fault = Unit
  Decided spins = Unit

  refused :
      (end : Walk) (before : Machine)
      → walk_root io va m ≡ ok (end, before)
      → IsUseless access before.cpu end
      → Decided (page_fault va access before)
  unfolding page_fault modify pure ◌>>=◌
  refused end before e u = inr (record {
    end = end;
    before = before;
    walked = e;
    is_useless = u;
    trapped = ap (λ cause. on_cpu (λ c. cpu_trap c cause va) before) (fault_cause-cause_of access);
    address = refl;
  })

  granted :
      (pte pte_addr level : ℕ) (before : Machine)
      → walk_root io va m ≡ ok (leaf pte pte_addr level, before)
      → Permits pte before.cpu access
      → (o : Outcome (Unit {0} × Machine))
      → mem_write64 io pte_addr (mark_used access pte) before ≡ o
      → Decided (continue o (λ _. pure (pte_to_pa (mark_used access pte) va level)))
  unfolding pure
  granted pte pte_addr level before e p (ok (_, after)) k = inl (record {
    pte = pte;
    pte_addr = pte_addr;
    level = level;
    before = before;
    walked = e;
    permits = p;
    word = mark_used access pte;
    is_marked = mark_used-IsMarked access pte;
    stored = k;
    address = pte_to_pa-IsAddress access pte va level;
  })
  granted pte pte_addr level before e p (exits c) k = tt
  granted pte pte_addr level before e p fault k = tt
  granted pte pte_addr level before e p spins k = tt

  at_leaf :
      (pte pte_addr level : ℕ) (before : Machine)
      → walk_root io va m ≡ ok (leaf pte pte_addr level, before)
      → (b : Bool) → pte_check pte before.cpu access ≡ b
      → Decided (
          (if not b then page_fault va access else (do
            mem_write64 io pte_addr (mark_used access pte)
            pure (pte_to_pa (mark_used access pte) va level)))
            before)
  unfolding ◌>>=◌
  at_leaf pte pte_addr level before e true k =
      granted pte pte_addr level before e (pte_check-Permits pte before.cpu access k) _ refl
  at_leaf pte pte_addr level before e false k =
      refused (leaf pte pte_addr level) before e (refused_leaf pte before.cpu access k)

  finish_walk-Decided :
      (o : Outcome (Walk × Machine))
      → walk_root io va m ≡ o
      → Decided (continue o (finish_walk io va access))
  unfolding finish_walk gets ◌>>=◌
  finish_walk-Decided (ok (invalid, before)) e = refused invalid before e tt
  finish_walk-Decided (ok (no_leaf, before)) e = refused no_leaf before e tt
  finish_walk-Decided (ok (leaf pte pte_addr level, before)) e =
      at_leaf pte pte_addr level before e _ refl
  finish_walk-Decided (exits c) e = tt
  finish_walk-Decided fault e = tt
  finish_walk-Decided spins e = tt

  -- With translation on, an access that comes back with an address is either granted or refused.
  -- It is granted only by a leaf at the end of the walk that has the R, W or X bit of the access
  -- and that the current privilege may use; that entry is then stored back with A set, and D for a
  -- store, and no other bit changed, and the address is its frame joined with the offset of the
  -- virtual address in a page of its level. It is refused only if the walk ends without a leaf or
  -- at one that does not permit the access: then the page fault of the access has been taken at the
  -- virtual address and the result is MMU_FAULT.
  pub mmu_translate-Decided : mmu_active m.cpu ≡ true → Decided (mmu_translate io va access m)
  unfolding mmu_translate gets ◌>>=◌
  mmu_translate-Decided h = rw (h) (finish_walk-Decided _ refl)
