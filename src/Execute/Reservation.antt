-- ===== src/Execute/Reservation.antt =====
-- src/exec_a.c: a load-reserved, the store-conditional that it allows, and one that comes after that.
use tinyvm.Base.{
  ℕ, ◌≡◌, refl, true, false, Bool-cases, inl, inr, ◌==◌, if◌then◌else◌, List, u32, widen, ok, pure,
  gets, modify, ◌>>=◌, ◌>>◌, arith,
}
use tinyvm.Machine.{Machine, MemRegion, on_cpu}
use tinyvm.Memory.{DeviceIo, mem_read32, mem_read64, mem_write32, mem_write64}
use tinyvm.Memory.Copy.{with_ram, InRam}
use tinyvm.Mmu.{mmu_translate, mmu_active, mmu_fault}
use tinyvm.Decode.Instr.{Instruction}
use tinyvm.Execute.Atomic.{f3_amo_w, no_reservation, amo_read, amo_write, execute_lr, execute_sc}
use tinyvm.Execute.Manual.{put}
use tinyvm.Execute.Running.{reg_write-put}
use tinyvm.Execute.Access.{no_fault}
use tinyvm.Device.Request.{word, put_word}
use tinyvm.Device.Serving.{read_word, write_word}

-- 4 bytes with funct3 010, and 8 otherwise.
abbrev pub amo_width : ℕ → ℕ
amo_width funct3 = if funct3 == f3_amo_w then 4 else 8

abbrev pub amo_value : ℕ → ℕ → ℕ
amo_value funct3 v = if funct3 == f3_amo_w then widen 32 (u32 v) else v

abbrev pub amo_bytes : ℕ → ℕ → ℕ
amo_bytes funct3 v = if funct3 == f3_amo_w then u32 v else v

-- The machine with a value in a register.
abbrev pub with_reg : ℕ → ℕ → Machine → Machine
with_reg rd v m = on_cpu (λ c. record c { regs = put c.regs rd v }) m

module _ (io : DeviceIo) (base size : ℕ) (rs : List MemRegion) (f : ℕ → ℕ) where
  amo_read-value :
      (m : Machine) (addr funct3 : ℕ)
      → InRam base size addr (amo_width funct3)
      → amo_read io addr funct3 (with_ram base size rs m f)
        ≡ ok (amo_value funct3 (word base f addr (amo_width funct3)), with_ram base size rs m f)
  unfolding amo_read mem_read32 mem_read64 pure ◌>>=◌
  amo_read-value m addr funct3 h = elim (Bool-cases (funct3 == f3_amo_w)) [
    | inl e ↦ rw (e, read_word io base size rs m f addr 4 (rw e at h)) refl
    | inr e ↦ rw (e, read_word io base size rs m f addr 8 (rw e at h)) refl
  ]

  amo_write-bytes :
      (m : Machine) (addr funct3 v : ℕ)
      → InRam base size addr (amo_width funct3)
      → amo_write io addr v funct3 (with_ram base size rs m f)
        ≡ ok (
          tt,
          with_ram base size rs m (put_word base f addr (amo_width funct3) (amo_bytes funct3 v)),
        )
  unfolding amo_write mem_write32 mem_write64
  amo_write-bytes m addr funct3 v h = elim (Bool-cases (funct3 == f3_amo_w)) [
    | inl e ↦ rw (e, write_word io base size rs m f addr 4 (u32 v) (rw e at h)) refl
    | inr e ↦ rw (e, write_word io base size rs m f addr 8 v (rw e at h)) refl
  ]

  reaches :
      (addr funct3 : ℕ) → InRam base size addr (amo_width funct3) → (addr == mmu_fault) ≡ false
  reaches addr funct3 h = elim (Bool-cases (funct3 == f3_amo_w)) [
    | inl e ↦ no_fault base size addr 4 (omega arith) (rw e at h)
    | inr e ↦ no_fault base size addr 8 (omega arith) (rw e at h)
  ]

  -- A load-reserved reserves its address.
  execute_lr-reserves :
      (m : Machine) (inst : Instruction) (va : ℕ)
      → mmu_active m.cpu ≡ false
      → m.cpu.regs inst.rs1 ≡ va
      → InRam base size va (amo_width inst.funct3)
      → execute_lr io inst (with_ram base size rs m f)
        ≡ ok (
          tt,
          with_reg inst.rd
              (amo_value inst.funct3 (word base f va (amo_width inst.funct3)))
              (with_ram base size rs (record m { reservation = va }) f),
        )
  unfolding execute_lr mmu_translate gets pure modify ◌>>=◌
  execute_lr-reserves m inst va bare e h =
      rw
        (
          e,
          bare,
          reaches va inst.funct3 h,
          amo_read-value (record m { reservation = va }) va inst.funct3 h,
          reg_write-put m.cpu inst.rd
              (amo_value inst.funct3 (word base f va (amo_width inst.funct3))),
        )
        refl

  -- A store-conditional at the reserved address stores, and ends the reservation.
  execute_sc-stores :
      (m : Machine) (inst : Instruction) (va : ℕ)
      → mmu_active m.cpu ≡ false
      → m.cpu.regs inst.rs1 ≡ va
      → m.reservation ≡ va
      → InRam base size va (amo_width inst.funct3)
      → execute_sc io inst (with_ram base size rs m f)
        ≡ ok (
          tt,
          with_reg inst.rd 0 (
              with_ram base size rs
                (record m { reservation = no_reservation })
                (put_word base f va
                  (amo_width inst.funct3)
                  (amo_bytes inst.funct3 (m.cpu.regs inst.rs2)))),
        )
  unfolding execute_sc mmu_translate gets pure modify ◌>>=◌
  execute_sc-stores m inst va bare e r h =
      let same : (va == m.reservation) ≡ true = ground arith in
      rw
        (
          e,
          bare,
          reaches va inst.funct3 h,
          same,
          amo_write-bytes m va inst.funct3 (m.cpu.regs inst.rs2) h,
          reg_write-put m.cpu inst.rd 0,
        )
        refl

  -- At any other address it stores nothing.
  execute_sc-refuses :
      (m : Machine) (inst : Instruction) (va : ℕ)
      → mmu_active m.cpu ≡ false
      → m.cpu.regs inst.rs1 ≡ va
      → (va == m.reservation) ≡ false
      → (va == mmu_fault) ≡ false
      → execute_sc io inst (with_ram base size rs m f)
        ≡ ok (tt, with_reg inst.rd 1 (with_ram base size rs m f))
  unfolding execute_sc mmu_translate gets pure modify ◌>>=◌
  execute_sc-refuses m inst va bare e r h = rw (e, bare, h, r, reg_write-put m.cpu inst.rd 1) refl

module _ (io : DeviceIo) (base size : ℕ) (rs : List MemRegion) (f : ℕ → ℕ) (m : Machine)
    (lr sc : Instruction) (va : ℕ) where
  -- After the load: the value is in its register, and the address is reserved.
  abbrev pub reserved : Machine
  reserved =
      with_reg lr.rd (amo_value lr.funct3 (word base f va (amo_width lr.funct3)))
        (record m { reservation = va })

  -- After the store: 0 is in its register, the bytes are in the RAM, and nothing is reserved.
  abbrev pub ended : Machine
  ended = with_reg sc.rd 0 (record reserved { reservation = no_reservation })

  abbrev pub sc_bytes : ℕ → ℕ
  sc_bytes =
      put_word base f va (amo_width sc.funct3) (amo_bytes sc.funct3 (reserved.cpu.regs sc.rs2))

  -- A load-reserved, a store-conditional at the same address in the RAM, and one more at any address but
  -- 2 ^ 64 - 1, with addresses that are not translated: the first store succeeds, with 0 in its register, and
  -- the other one stores nothing and has 1.
  pub execute_sc-once :
      (again : Instruction) (w : ℕ)
      → mmu_active m.cpu ≡ false
      → m.cpu.regs lr.rs1 ≡ va
      → InRam base size va (amo_width lr.funct3)
      → reserved.cpu.regs sc.rs1 ≡ va
      → InRam base size va (amo_width sc.funct3)
      → ended.cpu.regs again.rs1 ≡ w
      → (w == no_reservation) ≡ false
      → (do execute_lr io lr; execute_sc io sc; execute_sc io again) (with_ram base size rs m f)
        ≡ ok (tt, with_reg again.rd 1 (with_ram base size rs ended sc_bytes))
  unfolding ◌>>=◌ mmu_active
  execute_sc-once again w bare from_va fits_lr at_va fits_sc from_w other =
      rw
        (
          execute_lr-reserves io base size rs f m lr va bare from_va fits_lr,
          execute_sc-stores io base size rs f reserved sc va bare at_va refl fits_sc,
        )
        (execute_sc-refuses io base size rs sc_bytes ended again w bare from_w other other)
