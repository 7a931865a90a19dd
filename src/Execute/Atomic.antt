-- ===== src/Execute/Atomic.antt =====
-- src/exec_a.c: load-reserved, store-conditional and the atomic read-modify-writes.
use tinyvm.Base.{
  ℕ, bit_and, bit_or, bit_xor, ◌==◌, ltb, if◌then◌else◌, u32, u64_max, add64, shr, i64, ltb_ℤ,
  widen, Exec, pure, modify, gets, ◌>>=◌, ◌>>◌,
}
use tinyvm.Machine.{Machine, on_cpu}
use tinyvm.Cpu.Csr.{reg_write}
use tinyvm.Memory.{DeviceIo, mem_read32, mem_read64, mem_write32, mem_write64}
use tinyvm.Mmu.{mmu_translate, mmu_fault, mmu_load, mmu_store}
use tinyvm.Decode.Instr.{Instruction}

abbrev pub f3_amo_w : ℕ
f3_amo_w = 2

-- (u64)-1, which marks that there is no reservation.
abbrev pub no_reservation : ℕ
no_reservation = u64_max

-- The switch on funct5: what is stored, from the old value and the register.
unfoldable pub amo_result : ℕ → ℕ → ℕ → ℕ
amo_result funct5 old src =
    if funct5 == 0x01
    then src
    else if funct5 == 0x00
    then add64 old src
    else if funct5 == 0x04
    then bit_xor old src
    else if funct5 == 0x0C
    then bit_and old src
    else if funct5 == 0x08
    then bit_or old src
    else if funct5 == 0x10
    then (if ltb_ℤ (i64 old) (i64 src) then old else src)
    else if funct5 == 0x14
    then (if ltb_ℤ (i64 src) (i64 old) then old else src)
    else if funct5 == 0x18
    then (if ltb old src then old else src)
    else if funct5 == 0x1C
    then (if ltb src old then old else src)
    else old

module _ (io : DeviceIo) where
  unfoldable pub amo_read : ℕ → ℕ → Exec Machine ℕ
  amo_read addr funct3 =
      if funct3 == f3_amo_w
      then (do v ← mem_read32 io addr; pure (widen 32 v))
      else mem_read64 io addr

  unfoldable pub amo_write : ℕ → ℕ → ℕ → Exec Machine (Unit {0})
  amo_write addr val funct3 =
      if funct3 == f3_amo_w then mem_write32 io addr (u32 val) else mem_write64 io addr val

  unfoldable pub execute_lr : Instruction → Exec Machine (Unit {0})
  execute_lr inst = do
    va ← gets (λ m. m.cpu.regs inst.rs1)
    pa ← mmu_translate io va mmu_load
    if pa == mmu_fault then pure tt else do
      modify (λ m. record m { reservation = va })
      v ← amo_read pa inst.funct3
      modify (on_cpu (λ c. reg_write c inst.rd v))

  unfoldable pub execute_sc : Instruction → Exec Machine (Unit {0})
  execute_sc inst = do
    va ← gets (λ m. m.cpu.regs inst.rs1)
    pa ← mmu_translate io va mmu_store
    reserved ← gets (λ m. va == m.reservation)
    if pa == mmu_fault
        then pure tt
        else if reserved
        then (do
          src ← gets (λ m. m.cpu.regs inst.rs2)
          amo_write pa src inst.funct3
          modify (λ m. record m { reservation = no_reservation })
          modify (on_cpu (λ c. reg_write c inst.rd 0)))
        else modify (on_cpu (λ c. reg_write c inst.rd 1))

  unfoldable pub execute_amo : Instruction → Exec Machine (Unit {0})
  execute_amo inst = do
    va ← gets (λ m. m.cpu.regs inst.rs1)
    pa ← mmu_translate io va mmu_store
    if pa == mmu_fault then pure tt else do
      old ← amo_read pa inst.funct3
      src ← gets (λ m. m.cpu.regs inst.rs2)
      amo_write pa (amo_result (shr inst.funct7 2) old src) inst.funct3
      modify (on_cpu (λ c. reg_write c inst.rd old))

  unfoldable pub execute_a : Instruction → Exec Machine (Unit {0})
  execute_a inst =
      if shr inst.funct7 2 == 0x02
      then execute_lr inst
      else if shr inst.funct7 2 == 0x03
      then execute_sc inst
      else execute_amo inst
