-- ===== src/Execute/Transfers.antt =====
-- src/cpu.c: cpu_step at the integer loads and stores of the RISC-V manual, in the RAM.
use tinyvm.Base.{
  ℕ, ◌%◌, ◌^◌, ◌≡◌, ◌∙◌, refl, true, false, some, List, u8, u16, u32, widen, add64, ok, pure, gets,
  modify, ◌>>=◌,
}
use tinyvm.Machine.{Machine, MemRegion, Cpu, on_cpu}
use tinyvm.Memory.{DeviceIo}
use tinyvm.Memory.Copy.{with_ram, InRam}
use tinyvm.Mmu.{mmu_active}
use tinyvm.Decode.Instr.{Instruction, op_load, op_store}
use tinyvm.Decode.Base32.{decode}
use tinyvm.Decode.Formats.{Format, i_type, s_type, HasFields, IsFormat, encode}
use tinyvm.Decode.Encode.{decode-encode}
use tinyvm.Decode.Lengths.{encode-IsLong}
use tinyvm.Execute.Float.{HostFloat}
use tinyvm.Execute.Dispatch.{
  dispatch, advance, execute, execute_load, execute_store, load_value, store_value, unless_fault,
  flow_of, map_value,
}
use tinyvm.Execute.Step.{cpu_step}
use tinyvm.Execute.Manual.{computes}
use tinyvm.Execute.Running.{reg_write-put, decode-size}
use tinyvm.Execute.Fetching.{IsReady, Holds, cpu_step-base}
use tinyvm.Execute.Access.{
  vm_read8-word, vm_read16-word, vm_read32-word, vm_read64-word, vm_write8-put, vm_write16-put,
  vm_write32-put, vm_write64-put,
}
use tinyvm.Device.Request.{word, put_word}

-- The widths, and how a load fills the register: with copies of the sign, or with zeros.
pub data Load : Type 0 where
  lb lh lw ld lbu lhu lwu : Load

pub data Store : Type 0 where
  sb sh sw sd : Store

abbrev pub load3_of : Load → ℕ
load3_of lb = 0
load3_of lh = 1
load3_of lw = 2
load3_of ld = 3
load3_of lbu = 4
load3_of lhu = 5
load3_of lwu = 6

abbrev pub store3_of : Store → ℕ
store3_of sb = 0
store3_of sh = 1
store3_of sw = 2
store3_of sd = 3

abbrev pub load_width : Load → ℕ
load_width lb = 1
load_width lh = 2
load_width lw = 4
load_width ld = 8
load_width lbu = 1
load_width lhu = 2
load_width lwu = 4

abbrev pub store_width : Store → ℕ
store_width sb = 1
store_width sh = 2
store_width sw = 4
store_width sd = 8

abbrev pub loaded_value : Load → ℕ → ℕ
loaded_value lb v = widen 8 (u8 v)
loaded_value lh v = widen 16 (u16 v)
loaded_value lw v = widen 32 (u32 v)
loaded_value ld v = v
loaded_value lbu v = u8 v
loaded_value lhu v = u16 v
loaded_value lwu v = u32 v

abbrev pub stored_value : Store → ℕ → ℕ
stored_value sb v = u8 v
stored_value sh v = u16 v
stored_value sw v = u32 v
stored_value sd v = v

module _ (io : DeviceIo) (host : HostFloat) (base size : ℕ) (rs : List MemRegion) (m : Machine)
    (bare : mmu_active m.cpu ≡ false) (f : ℕ → ℕ) where
  -- The machine with its RAM, and what a load or a store leaves.
  abbrev pub here : Machine
  here = with_ram base size rs m f

  abbrev pub address : ℕ → ℕ → ℕ
  address rs1 imm = add64 (m.cpu.regs rs1) (widen 12 imm)

  abbrev pub after_load : ℕ → Load → ℕ → ℕ → ℕ → Machine
  after_load length k rd rs1 imm =
      on_cpu (computes length rd (loaded_value k (word base f (address rs1 imm) (load_width k))))
        here

  abbrev pub after_store : ℕ → Store → ℕ → ℕ → ℕ → Machine
  after_store length k rs1 rs2 imm =
      on_cpu (λ c. record c { pc = add64 c.pc length })
        (with_ram base size rs m
          (put_word base f (address rs1 imm) (store_width k) (stored_value k (m.cpu.regs rs2))))

  load_value-word :
      (k : Load) (va : ℕ)
      → InRam base size va (load_width k)
      → load_value io (load3_of k) va here
        ≡ ok (some (loaded_value k (word base f va (load_width k))), here)
  unfolding load_value map_value pure ◌>>=◌
  load_value-word lb va h = rw (vm_read8-word io base size rs m bare f va h) refl
  load_value-word lh va h = rw (vm_read16-word io base size rs m bare f va h) refl
  load_value-word lw va h = rw (vm_read32-word io base size rs m bare f va h) refl
  load_value-word ld va h = vm_read64-word io base size rs m bare f va h
  load_value-word lbu va h = vm_read8-word io base size rs m bare f va h
  load_value-word lhu va h = vm_read16-word io base size rs m bare f va h
  load_value-word lwu va h = vm_read32-word io base size rs m bare f va h

  store_value-put :
      (k : Store) (va v : ℕ)
      → InRam base size va (store_width k)
      → store_value io (store3_of k) va v here
        ≡ ok (true, with_ram base size rs m (put_word base f va (store_width k) (stored_value k v)))
  unfolding store_value
  store_value-put sb va v h = vm_write8-put io base size rs m bare f va (u8 v) h
  store_value-put sh va v h = vm_write16-put io base size rs m bare f va (u16 v) h
  store_value-put sw va v h = vm_write32-put io base size rs m bare f va (u32 v) h
  store_value-put sd va v h = vm_write64-put io base size rs m bare f va v h

  module _ (inst : Instruction) (length : ℕ) (long : inst.size ≡ length) where
    load_case : inst.opcode ≡ op_load → dispatch io host inst here ≡ execute_load io inst here
    unfolding dispatch
    load_case e = simp e refl

    store_case : inst.opcode ≡ op_store → dispatch io host inst here ≡ execute_store io inst here
    unfolding dispatch
    store_case e = simp e refl

    execute-load :
        (k : Load) (rd rs1 imm : ℕ)
        → HasFields (i_type op_load rd (load3_of k) rs1 imm) inst
        → InRam base size (address rs1 imm) (load_width k)
        → execute io host inst here ≡ ok (tt, after_load length k rd rs1 imm)
    unfolding execute execute_load advance unless_fault gets pure modify ◌>>=◌
    execute-load k rd rs1 imm h there =
        let v = loaded_value k (word base f (address rs1 imm) (load_width k)) in
        let value : load_value io inst.funct3 (add64 (m.cpu.regs inst.rs1) inst.imm) here
            ≡ ok (some v, here) =
          (λ j. load_value io (h.2 j) (add64 (m.cpu.regs (h.3 j)) (h.4 j)) here)
          ∙ load_value-word k (address rs1 imm) there in
        let run : execute io host inst here ≡ ok (tt, on_cpu (computes inst.size inst.rd v) here) =
          rw (load_case h.0, value, reg_write-put m.cpu inst.rd v) refl in
        run ∙ λ j. ok (tt, on_cpu (computes (long j) (h.1 j) v) here)

    execute-store :
        (k : Store) (rs1 rs2 imm : ℕ)
        → HasFields (s_type op_store (store3_of k) rs1 rs2 imm) inst
        → InRam base size (address rs1 imm) (store_width k)
        → execute io host inst here ≡ ok (tt, after_store length k rs1 rs2 imm)
    unfolding execute execute_store advance flow_of gets pure modify ◌>>=◌
    execute-store k rs1 rs2 imm h there =
        let g =
          put_word base f (address rs1 imm) (store_width k) (stored_value k (m.cpu.regs rs2)) in
        let value : store_value io inst.funct3 (add64 (m.cpu.regs inst.rs1) inst.imm)
              (m.cpu.regs inst.rs2) here
            ≡ ok (true, with_ram base size rs m g) =
          (λ j.
            store_value io (h.1 j) (add64 (m.cpu.regs (h.2 j)) (h.4 j)) (m.cpu.regs (h.3 j)) here)
          ∙ store_value-put k (address rs1 imm) (m.cpu.regs rs2) there in
        let run : execute io host inst here
            ≡ ok (
              tt,
              on_cpu (λ c. record c { pc = add64 c.pc inst.size }) (with_ram base size rs m g),
            ) =
          rw (store_case h.0, value) refl in
        run ∙ λ j.
        ok (tt, on_cpu (λ c. record c { pc = add64 c.pc (long j) }) (with_ram base size rs m g))

-- A load or a store with its operands.
pub data Transfer : Type 0 where
  load : Load → ℕ → ℕ → ℕ → Transfer
  store : Store → ℕ → ℕ → ℕ → Transfer

abbrev pub format_of : Transfer → Format
format_of (load k rd rs1 imm) = i_type op_load rd (load3_of k) rs1 imm
format_of (store k rs1 rs2 imm) = s_type op_store (store3_of k) rs1 rs2 imm

-- The bytes that it reads or writes are in the RAM.
abbrev pub Reaches : ℕ → ℕ → Cpu → Transfer → Type 0
Reaches base size c (load k rd rs1 imm) =
    InRam base size (add64 (c.regs rs1) (widen 12 imm)) (load_width k)
Reaches base size c (store k rs1 rs2 imm) =
    InRam base size (add64 (c.regs rs1) (widen 12 imm)) (store_width k)

module _ (io : DeviceIo) (host : HostFloat) (base size : ℕ) (rs : List MemRegion) (m : Machine)
    (f : ℕ → ℕ) where
  -- The machine after it: the register has the value of the bytes, or the bytes have the value of the
  -- register, and the pc moves on.
  abbrev pub after_transfer : Transfer → Machine
  after_transfer (load k rd rs1 imm) =
      on_cpu
        (computes 4 rd
          (loaded_value k (word base f (add64 (m.cpu.regs rs1) (widen 12 imm)) (load_width k))))
        (with_ram base size rs m f)
  after_transfer (store k rs1 rs2 imm) =
      on_cpu (λ c. record c { pc = add64 c.pc 4 })
        (with_ram base size rs m (
          put_word base f (add64 (m.cpu.regs rs1) (widen 12 imm)) (store_width k)
            (stored_value k (m.cpu.regs rs2))))

  execute-transfer :
      mmu_active m.cpu ≡ false
      → (inst : Instruction) → inst.size ≡ 4
      → (t : Transfer) → HasFields (format_of t) inst
      → Reaches base size m.cpu t
      → execute io host inst (with_ram base size rs m f) ≡ ok (tt, after_transfer t)
  execute-transfer bare inst long (load k rd rs1 imm) h there =
      execute-load io host base size rs m bare f inst 4 long k rd rs1 imm h there
  execute-transfer bare inst long (store k rs1 rs2 imm) h there =
      execute-store io host base size rs m bare f inst 4 long k rs1 rs2 imm h there

  -- A step at an integer load or store of the manual, with the instruction and the bytes that it reaches in
  -- the RAM, where no interrupt is taken and addresses are not translated: a load puts the bytes into the
  -- register, with copies of the sign or with zeros as its kind says, and a store puts the low bytes of the
  -- register into the RAM; the pc moves on, and nothing else changes after the step is counted and
  -- the interrupt sources are polled.
  pub cpu_step-transfer :
      (m₀ : Machine)
      → IsReady m₀ (with_ram base size rs m f)
      → (t : Transfer) → IsFormat (format_of t)
      → Holds (with_ram base size rs m f) m.cpu.pc 2 (encode (format_of t) % 2 ^ 16)
      → Holds (with_ram base size rs m f) m.cpu.pc 4 (encode (format_of t))
      → Reaches base size m.cpu t
      → cpu_step io host m₀ ≡ ok (tt, after_transfer t)
  cpu_step-transfer m₀ ready t fits h2 h4 there =
      let raw = encode (format_of t) in
      let long = encode-IsLong (format_of t) fits in
      cpu_step-base io host m₀ (with_ram base size rs m f) ready raw long.0 long.1 h2 h4
      ∙ execute-transfer ready.bare (decode raw) (decode-size raw) t
          (decode-encode (format_of t) fits) there
