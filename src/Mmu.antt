-- ===== src/Mmu.antt =====
-- src/mmu.c: Sv39 translation, and the virtual loads and stores that go through it.
pub mod Entry
pub mod Permissions
use tinyvm.Base.{
  ℕ, zero, suc, ◌+◌, ◌-◌, ◌*◌, ◌^◌, ◌&&◌, ◌||◌, Bool, true, false, not, bit_and, bit_or, ◌==◌,
  if◌then◌else◌, Option, none, some, u64, u64_max, shr, shl64, has_flag, set_flags, Exec, pure,
  modify, gets, ◌>>=◌, ◌>>◌,
}
use tinyvm.Machine.{Machine, Cpu, on_cpu}
use tinyvm.Cpu.Csr.{
  csr_satp, csr_mstatus, priv_u, priv_s, priv_m, sstatus_sum, satp_mode_shift, satp_mode_sv39,
}
use tinyvm.Cpu.Trap.{
  cpu_trap, exc_cause_fetch_page_fault, exc_cause_load_page_fault, exc_cause_store_page_fault,
}
use tinyvm.Memory.{
  DeviceIo, mem_read8, mem_read16, mem_read32, mem_read64, mem_write8, mem_write16, mem_write32,
  mem_write64,
}

pub data MmuAccess : Type 0 where
  mmu_fetch mmu_load mmu_store : MmuAccess

abbrev pub mmu_fault : ℕ
mmu_fault = u64_max

abbrev pub page_offset_bits : ℕ
page_offset_bits = 12

abbrev pub pt_index_bits : ℕ
pt_index_bits = 9

abbrev pub pt_levels : ℕ
pt_levels = 3

abbrev pub pte_size : ℕ
pte_size = 8

abbrev pub satp_ppn_mask : ℕ
satp_ppn_mask = 0x00000FFFFFFFFFFF

abbrev pub pte_v : ℕ
pte_v = 2 ^ 0

abbrev pub pte_r : ℕ
pte_r = 2 ^ 1

abbrev pub pte_w : ℕ
pte_w = 2 ^ 2

abbrev pub pte_x : ℕ
pte_x = 2 ^ 3

abbrev pub pte_u : ℕ
pte_u = 2 ^ 4

abbrev pub pte_a : ℕ
pte_a = 2 ^ 6

abbrev pub pte_d : ℕ
pte_d = 2 ^ 7

abbrev pub pte_ppn_shift : ℕ
pte_ppn_shift = 10

unfoldable pub fault_cause : MmuAccess → ℕ
fault_cause mmu_fetch = exc_cause_fetch_page_fault
fault_cause mmu_store = exc_cause_store_page_fault
fault_cause mmu_load = exc_cause_load_page_fault

unfoldable pub vpn_of : ℕ → ℕ → ℕ
vpn_of va level =
    bit_and (shr va (page_offset_bits + level * pt_index_bits)) (2 ^ pt_index_bits - 1)

unfoldable pub pte_addr_of : ℕ → ℕ → ℕ
pte_addr_of ppn vpn = u64 (shl64 ppn page_offset_bits + u64 (vpn * pte_size))

-- The permission bit that an access needs.
unfoldable pub access_flag : MmuAccess → ℕ
access_flag mmu_fetch = pte_x
access_flag mmu_load = pte_r
access_flag mmu_store = pte_w

unfoldable pub pte_check : ℕ → Cpu → MmuAccess → Bool
pte_check pte c access =
    if not (has_flag pte (access_flag access))
    then false
    else if (c.privilege == priv_u) && not (has_flag pte pte_u)
    then false
    else if (c.privilege == priv_s)
        && (has_flag pte pte_u && not (has_flag (c.csrs csr_mstatus) sstatus_sum))
    then false
    else true

unfoldable pub pte_ppn : ℕ → ℕ
pte_ppn pte = bit_and (shr pte pte_ppn_shift) satp_ppn_mask

unfoldable pub pte_to_pa : ℕ → ℕ → ℕ → ℕ
pte_to_pa pte va level =
    bit_or (shl64 (pte_ppn pte) page_offset_bits)
      (bit_and va (2 ^ (page_offset_bits + level * pt_index_bits) - 1))

unfoldable pub mmu_active : Cpu → Bool
mmu_active c =
    not (c.privilege == priv_m) && (shr (c.csrs csr_satp) satp_mode_shift == satp_mode_sv39)

-- !(pte & PTE_V) || (!(pte & PTE_R) && (pte & PTE_W)).
unfoldable pub pte_invalid : ℕ → Bool
pte_invalid pte = not (has_flag pte pte_v) || (not (has_flag pte pte_r) && has_flag pte pte_w)

unfoldable pub pte_leaf : ℕ → Bool
pte_leaf pte = has_flag pte pte_r || has_flag pte pte_x

-- How the loop ends: at an invalid entry, at a leaf (the entry, where it is, its level), or below
-- the last level.
pub data Walk : Type 0 where
  invalid : Walk
  leaf : ℕ → ℕ → ℕ → Walk
  no_leaf : Walk

-- Set A, and D on a store.
unfoldable pub mark_used : MmuAccess → ℕ → ℕ
mark_used mmu_store pte = set_flags (set_flags pte pte_a) pte_d
mark_used mmu_load pte = set_flags pte pte_a
mark_used mmu_fetch pte = set_flags pte pte_a

-- cpu_trap(cpu, fault_cause(access), va); return MMU_FAULT.
unfoldable pub page_fault : ℕ → MmuAccess → Exec Machine ℕ
page_fault va access = do modify (on_cpu (λ c. cpu_trap c (fault_cause access) va)); pure mmu_fault

module _ (io : DeviceIo) where
  -- The loop over the levels: `levels` is level + 1, and `zero` is the end of the loop.
  unfoldable pub walk : ℕ → ℕ → ℕ → Exec Machine Walk
  walk zero ppn va = pure no_leaf
  walk (suc level) ppn va = do
    pte ← mem_read64 io (pte_addr_of ppn (vpn_of va level))
    let rest = walk level (pte_ppn pte) va
    if pte_invalid pte
        then pure invalid
        else if pte_leaf pte
        then pure (leaf pte (pte_addr_of ppn (vpn_of va level)) level)
        else rest

  -- After the loop.
  unfoldable pub finish_walk : ℕ → MmuAccess → Walk → Exec Machine ℕ
  finish_walk va access invalid = page_fault va access
  finish_walk va access no_leaf = page_fault va access
  finish_walk va access (leaf pte pte_addr level) = do
    allowed ← gets (λ m. pte_check pte m.cpu access)
    if not allowed then page_fault va access else do
      mem_write64 io pte_addr (mark_used access pte)
      pure (pte_to_pa (mark_used access pte) va level)

  unfoldable pub mmu_translate : ℕ → MmuAccess → Exec Machine ℕ
  mmu_translate va access = do
    active ← gets (λ m. mmu_active m.cpu)
    satp ← gets (λ m. m.cpu.csrs csr_satp)
    if not active
        then pure va
        else do end ← walk pt_levels (bit_and satp satp_ppn_mask) va; finish_walk va access end

  -- vm_read8 … vm_write64: `none` and `false` are the return value false, after a page fault.
  unfoldable pub vm_read : (ℕ → Exec Machine ℕ) → ℕ → Exec Machine (Option ℕ)
  vm_read mem_read va = do
    pa ← mmu_translate va mmu_load
    if pa == mmu_fault then pure none else do v ← mem_read pa; pure (some v)

  unfoldable pub vm_write : (ℕ → ℕ → Exec Machine (Unit {0})) → ℕ → ℕ → Exec Machine Bool
  vm_write mem_write va val = do
    pa ← mmu_translate va mmu_store
    if pa == mmu_fault then pure false else do mem_write pa val; pure true

  unfoldable pub vm_read8 : ℕ → Exec Machine (Option ℕ)
  vm_read8 va = vm_read (mem_read8 io) va

  unfoldable pub vm_read16 : ℕ → Exec Machine (Option ℕ)
  vm_read16 va = vm_read (mem_read16 io) va

  unfoldable pub vm_read32 : ℕ → Exec Machine (Option ℕ)
  vm_read32 va = vm_read (mem_read32 io) va

  unfoldable pub vm_read64 : ℕ → Exec Machine (Option ℕ)
  vm_read64 va = vm_read (mem_read64 io) va

  unfoldable pub vm_write8 : ℕ → ℕ → Exec Machine Bool
  vm_write8 va val = vm_write (mem_write8 io) va val

  unfoldable pub vm_write16 : ℕ → ℕ → Exec Machine Bool
  vm_write16 va val = vm_write (mem_write16 io) va val

  unfoldable pub vm_write32 : ℕ → ℕ → Exec Machine Bool
  vm_write32 va val = vm_write (mem_write32 io) va val

  unfoldable pub vm_write64 : ℕ → ℕ → Exec Machine Bool
  vm_write64 va val = vm_write (mem_write64 io) va val
