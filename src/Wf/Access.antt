-- ===== src/Wf/Access.antt =====
-- src/cpu.c and src/exec_a.c: loads, stores and atomic instructions keep the machine well-formed.
use tinyvm.Base.{
  ℕ, ◌^◌, ◌<◌, Bool, ◌==◌, ltb, if-elim, Option, none, some, u8, u16, u32, shr, widen, i64, ltb_ℤ,
  arith, Gives, Keeps, Gives-pure, Keeps-pure, Gives-exit, Gives-gets, Keeps-gets, Keeps-modify,
  Gives-if, Gives-bind, Gives-weaken,
}
use tinyvm.Base.Bits.{bit_or-lt, bit_and-lt, bit_xor-lt}
use tinyvm.Machine.{Machine, Cpu}
use tinyvm.Memory.{DeviceIo}
use tinyvm.Mmu.{mmu_fault, mmu_load, mmu_store, vm_write8, vm_write16, vm_write32, vm_write64}
use tinyvm.Decode.Instr.{Instruction}
use tinyvm.Execute.Atomic.{
  amo_result, amo_read, amo_write, execute_lr, execute_sc, execute_amo, execute_a,
}
use tinyvm.Execute.Dispatch.{
  map_value, load_value, execute_load, store_value, execute_store, execute_fload, execute_fstore,
  execute_atomic, next,
}
use tinyvm.Wf.Defs.{IsMachine, IsCpu, IsIo, IsU64, IsU32}
use tinyvm.Wf.Sbi.{on_cpu-Keeps, set_reg-Keeps, gets_reg}
use tinyvm.Wf.Memory.{
  mem_read32-Gives, mem_read64-Gives, mem_write8-Keeps, mem_write16-Keeps, mem_write32-Keeps,
  mem_write64-Keeps,
}
use tinyvm.Wf.Mmu.{mmu_translate-Gives, vm_write-Keeps, Loaded}
use tinyvm.Wf.Execute.{
  unless_fault-Keeps, map_value-Loaded, vm_read8-Gives, vm_read16-Gives, vm_read32-Gives,
  vm_read64-Gives,
}
use tinyvm.Execute.Float.{freg_get_f, freg_get_d, freg_set_f, freg_set_d}
use tinyvm.Wf.Cpu.{set_freg-IsCpu}
use tinyvm.Wf.Alu.{widen-fits}

-- A narrow value is a u64.
widen-Loaded :
    (Q : ℕ → Type 0) (o : Option ℕ) → ((v : ℕ) → Q v → IsU64 v) → Loaded Q o → Loaded IsU64 o
widen-Loaded Q none k h = tt
widen-Loaded Q (some v) k h = k v h

pub freg_set_f-IsCpu : (c : Cpu) (r v : ℕ) → IsCpu c → IsCpu (freg_set_f c r v)
unfolding freg_set_f
freg_set_f-IsCpu c r v h = set_freg-IsCpu c r _ h (omega (arith, h.fregs_fit r))

pub freg_set_d-IsCpu : (c : Cpu) (r v : ℕ) → IsU64 v → IsCpu c → IsCpu (freg_set_d c r v)
unfolding freg_set_d
freg_set_d-IsCpu c r v l h = set_freg-IsCpu c r v h l

set_reservation : (m : Machine) (v : ℕ) → IsMachine m → IsMachine (record m { reservation = v })
set_reservation m v h = record {
  is_cpu = h.is_cpu;
  are_regions = h.are_regions;
  is_virtio = h.is_virtio;
  mtimecmp_fits = h.mtimecmp_fits;
  is_plic = h.is_plic;
  is_uart = h.is_uart;
}

amo_result-fits : (funct5 old src : ℕ) → IsU64 old → IsU64 src → IsU64 (amo_result funct5 old src)
unfolding amo_result
amo_result-fits funct5 old src h k =
    let pick = λ (b : Bool). if-elim IsU64 b old src (λ _. h) (λ _. k) in
    if-elim IsU64 (funct5 == 0x01) _ _ (λ _. k)
      λ _.
        if-elim IsU64 (funct5 == 0x00) _ _ (λ _. omega arith)
          λ _.
            if-elim IsU64 (funct5 == 0x04) _ _ (λ _. bit_xor-lt 64 old src h k)
              λ _.
                if-elim IsU64 (funct5 == 0x0C) _ _ (λ _. bit_and-lt 64 old src h)
                  λ _.
                    if-elim IsU64 (funct5 == 0x08) _ _ (λ _. bit_or-lt 64 old src h k)
                      λ _.
                        if-elim IsU64 (funct5 == 0x10) _ _ (λ _. pick (ltb_ℤ (i64 old) (i64 src)))
                          λ _.
                            if-elim IsU64 (funct5 == 0x14) _ _
                              (λ _. pick (ltb_ℤ (i64 src) (i64 old)))
                              λ _.
                                if-elim IsU64 (funct5 == 0x18) _ _ (λ _. pick (ltb old src))
                                  λ _.
                                    if-elim IsU64 (funct5 == 0x1C) _ _ (λ _. pick (ltb src old))
                                      (λ _. h)

module _ (io : DeviceIo) (is_io : IsIo io) where
  load_value-Gives :
      (funct3 va : ℕ) → IsU64 va → Gives IsMachine (Loaded IsU64) (load_value io funct3 va)
  unfolding load_value
  load_value-Gives funct3 va h =
      let wide = λ (w : ℕ) (Q : ℕ → Type 0) (o : Option ℕ) (l : Loaded Q o).
        Gives-pure {P = IsMachine} {Q = Loaded IsU64} (map_value (widen w) o)
          (map_value-Loaded w Q o l) in
      Gives-if (funct3 == 0) _ _
        (λ _. Gives-bind _ _ (vm_read8-Gives io is_io va h) (λ o l. wide 8 (λ v. v < 2 ^ 8) o l))
        λ _.
          Gives-if (funct3 == 1) _ _
            (λ _.
              Gives-bind _ _ (vm_read16-Gives io is_io va h) (λ o l. wide 16 (λ v. v < 2 ^ 16) o l))
            λ _.
              Gives-if (funct3 == 2) _ _
                (λ _. Gives-bind _ _ (vm_read32-Gives io is_io va h) (λ o l. wide 32 IsU32 o l))
                λ _.
                  Gives-if (funct3 == 3) _ _ (λ _. vm_read64-Gives io is_io va h)
                    λ _.
                      Gives-if (funct3 == 4) _ _
                        (λ _.
                          Gives-weaken (λ o l. widen-Loaded _ o (λ v k. omega arith) l)
                            (vm_read8-Gives io is_io va h))
                        λ _.
                          Gives-if (funct3 == 5) _ _
                            (λ _.
                              Gives-weaken (λ o l. widen-Loaded _ o (λ v k. omega arith) l)
                                (vm_read16-Gives io is_io va h))
                            λ _.
                              Gives-if (funct3 == 6) _ _
                                (λ _.
                                  Gives-weaken (λ o l. widen-Loaded _ o (λ v k. omega arith) l)
                                    (vm_read32-Gives io is_io va h))
                                (λ _. Gives-exit 1)

  pub execute_load-Keeps : (inst : Instruction) → Keeps IsMachine (execute_load io inst)
  unfolding execute_load
  execute_load-Keeps inst = Gives-bind _ _ (gets_reg inst.rs1) λ a _.
      Gives-bind _ _ (load_value-Gives inst.funct3 _ (omega arith))
        λ o l. unless_fault-Keeps IsU64 o _ l (λ v k. set_reg-Keeps inst.rd v k)

  store_value-Keeps :
      (funct3 va v : ℕ) → IsU64 va → IsU64 v → Keeps IsMachine (store_value io funct3 va v)
  unfolding store_value vm_write8 vm_write16 vm_write32 vm_write64
  store_value-Keeps funct3 va v h k =
      Gives-if (funct3 == 0) _ _
        (λ _.
          vm_write-Keeps io is_io _ va (u8 v) h
            (λ pa. mem_write8-Keeps io is_io pa (u8 v) (omega arith)))
        λ _.
          Gives-if (funct3 == 1) _ _
            (λ _.
              vm_write-Keeps io is_io _ va (u16 v) h
                (λ pa. mem_write16-Keeps io is_io pa (u16 v) (omega arith)))
            λ _.
              Gives-if (funct3 == 2) _ _
                (λ _.
                  vm_write-Keeps io is_io _ va (u32 v) h
                    (λ pa. mem_write32-Keeps io is_io pa (u32 v) (omega arith)))
                λ _.
                  Gives-if (funct3 == 3) _ _
                    (λ _.
                      vm_write-Keeps io is_io _ va v h (λ pa. mem_write64-Keeps io is_io pa v k))
                    (λ _. Gives-exit 1)

  pub execute_store-Keeps : (inst : Instruction) → Keeps IsMachine (execute_store io inst)
  unfolding execute_store
  execute_store-Keeps inst = Gives-bind _ _ (gets_reg inst.rs1) λ a _.
      Gives-bind _ _ (gets_reg inst.rs2) λ b k.
        Gives-bind _ _ (store_value-Keeps inst.funct3 _ b (omega arith) k) (λ done _. Keeps-pure _)

  pub execute_fload-Keeps : (inst : Instruction) → Keeps IsMachine (execute_fload io inst)
  unfolding execute_fload
  execute_fload-Keeps inst = Gives-bind _ _ (gets_reg inst.rs1) λ a _.
      Gives-if (inst.funct3 == 2) _ _
        (λ _. Gives-bind _ _ (vm_read32-Gives io is_io _ (omega arith)) λ o l.
          unless_fault-Keeps IsU32 o _ l
            (λ v k. on_cpu-Keeps _ (λ c h. freg_set_f-IsCpu c inst.rd v h)))
        (λ _. Gives-bind _ _ (vm_read64-Gives io is_io _ (omega arith)) λ o l.
          unless_fault-Keeps IsU64 o _ l
            (λ v k. on_cpu-Keeps _ (λ c h. freg_set_d-IsCpu c inst.rd v k h)))

  pub execute_fstore-Keeps : (inst : Instruction) → Keeps IsMachine (execute_fstore io inst)
  unfolding execute_fstore vm_write32 vm_write64 freg_get_f freg_get_d
  execute_fstore-Keeps inst = Gives-bind _ _ (gets_reg inst.rs1) λ a _.
      Gives-bind _ _ (Gives-gets {Q = IsCpu} (λ m. m.cpu) (λ m h. h.is_cpu)) λ c h.
        Gives-bind _ _
          (Gives-if (inst.funct3 == 2) _ _
            (λ _.
              vm_write-Keeps io is_io _ _ _ (omega arith)
                (λ pa. mem_write32-Keeps io is_io pa _ (omega arith)))
            (λ _.
              vm_write-Keeps io is_io _ _ _ (omega arith)
                (λ pa. mem_write64-Keeps io is_io pa _ (h.fregs_fit inst.rs2))))
          (λ done _. Keeps-pure _)

  amo_read-Gives : (pa funct3 : ℕ) → Gives IsMachine IsU64 (amo_read io pa funct3)
  unfolding amo_read
  amo_read-Gives pa funct3 =
      Gives-if (funct3 == 2) _ _
        (λ _. Gives-bind _ _ (mem_read32-Gives io is_io pa) (λ v _. Gives-pure _ (widen-fits 32 v)))
        (λ _. mem_read64-Gives io is_io pa)

  amo_write-Keeps : (pa v funct3 : ℕ) → IsU64 v → Keeps IsMachine (amo_write io pa v funct3)
  unfolding amo_write
  amo_write-Keeps pa v funct3 k =
      Gives-if (funct3 == 2) _ _ (λ _. mem_write32-Keeps io is_io pa (u32 v) (omega arith))
        (λ _. mem_write64-Keeps io is_io pa v k)

  execute_lr-Keeps : (inst : Instruction) → Keeps IsMachine (execute_lr io inst)
  unfolding execute_lr
  execute_lr-Keeps inst = Gives-bind _ _ (gets_reg inst.rs1) λ va h.
      Gives-bind _ _ (mmu_translate-Gives io is_io va mmu_load h) λ pa _.
        Gives-if (pa == mmu_fault) _ _ (λ _. Keeps-pure tt)
          λ _.
            Gives-bind _ _ (Keeps-modify _ (λ m k. set_reservation m va k)) λ _ _.
              Gives-bind _ _ (amo_read-Gives pa inst.funct3) (λ v l. set_reg-Keeps inst.rd v l)

  execute_sc-Keeps : (inst : Instruction) → Keeps IsMachine (execute_sc io inst)
  unfolding execute_sc
  execute_sc-Keeps inst = Gives-bind _ _ (gets_reg inst.rs1) λ va h.
      Gives-bind _ _ (mmu_translate-Gives io is_io va mmu_store h) λ pa _.
        Gives-bind _ _ (Keeps-gets _) λ reserved _.
          Gives-if (pa == mmu_fault) _ _ (λ _. Keeps-pure tt)
            λ _.
              Gives-if reserved _ _
                (λ _. Gives-bind _ _ (gets_reg inst.rs2) λ src k.
                  Gives-bind _ _ (amo_write-Keeps pa src inst.funct3 k) λ _ _.
                    Gives-bind _ _ (Keeps-modify _ (λ m l. set_reservation m _ l))
                      (λ _ _. set_reg-Keeps inst.rd 0 (omega arith)))
                (λ _. set_reg-Keeps inst.rd 1 (omega arith))

  execute_amo-Keeps : (inst : Instruction) → Keeps IsMachine (execute_amo io inst)
  unfolding execute_amo
  execute_amo-Keeps inst = Gives-bind _ _ (gets_reg inst.rs1) λ va h.
      Gives-bind _ _ (mmu_translate-Gives io is_io va mmu_store h) λ pa _.
        Gives-if (pa == mmu_fault) _ _ (λ _. Keeps-pure tt)
          λ _. Gives-bind _ _ (amo_read-Gives pa inst.funct3) λ old l.
            Gives-bind _ _ (gets_reg inst.rs2) λ src k.
              Gives-bind _ _
                (amo_write-Keeps pa _ inst.funct3 (amo_result-fits (shr inst.funct7 2) old src l k))
                (λ _ _. set_reg-Keeps inst.rd old l)

  pub execute_atomic-Keeps : (inst : Instruction) → Keeps IsMachine (execute_atomic io inst)
  unfolding execute_atomic execute_a
  execute_atomic-Keeps inst =
      Gives-bind _ _
        (Gives-if (shr inst.funct7 2 == 0x02) _ _ (λ _. execute_lr-Keeps inst)
          λ _.
            Gives-if (shr inst.funct7 2 == 0x03) _ _ (λ _. execute_sc-Keeps inst)
              (λ _. execute_amo-Keeps inst))
        (λ _ _. Keeps-pure next)
