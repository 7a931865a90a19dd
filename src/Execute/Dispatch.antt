-- ===== src/Execute/Dispatch.antt =====
-- src/cpu.c: execute, one function for each case of its switch, and execute_trap_return.
use tinyvm.Base.{
  ℕ, ◌+◌, ◌||◌, Bool, true, false, not, bit_and, bit_or, ◌==◌, ltb, if◌then◌else◌, Option, none,
  some, u8, u16, u32, add64, not64, clear_flags, shr, has_flag, widen, Outcome, ok, exits, fault,
  spins, Exec, pure, exit, crash, spin, modify, gets, ◌>>=◌, ◌>>◌,
}
use tinyvm.Machine.{Machine, Cpu, set_cpu, on_cpu}
use tinyvm.Cpu.Csr.{csr_read, csr_write, reg_write, priv_s, insn_size}
use tinyvm.Cpu.Trap.{
  cpu_trap, execute_sret, execute_mret, exc_cause_illegal_instr, exc_cause_breakpoint,
}
use tinyvm.Memory.{DeviceIo}
use tinyvm.Mmu.{
  vm_read8, vm_read16, vm_read32, vm_read64, vm_write8, vm_write16, vm_write32, vm_write64,
}
use tinyvm.Sbi.{sbi_ecall}
use tinyvm.Decode.Instr.{
  Instruction, op_lui, op_auipc, op_jal, op_jalr, op_branch, op_load, op_store, op_i_arith,
  op_r_arith, op_i_arith_w, op_r_arith_w, op_system, op_fence, op_amo, op_flw_fld, op_fsw_fsd,
  op_fmadd, op_fmsub, op_fnmsub, op_fnmadd, op_fp,
}
use tinyvm.Execute.Alu.{branch_taken, i_arith, r_arith, i_arith_w, r_arith_w}
use tinyvm.Execute.Float.{
  HostFloat, freg_get_f, freg_get_d, freg_set_f, freg_set_d, execute_fp_single, execute_fp_double,
  execute_fma,
}
use tinyvm.Execute.Atomic.{execute_a}

abbrev pub system_ecall : ℕ
system_ecall = 0

abbrev pub system_wfi : ℕ
system_wfi = 0x105

abbrev pub system_sret : ℕ
system_sret = 0x102

abbrev pub system_mret : ℕ
system_mret = 0x302

abbrev pub system_funct7_sfence_vma : ℕ
system_funct7_sfence_vma = 9

-- `next` is a break out of the switch, after which the pc moves on; `returned` is a return.
pub data Flow : Type 0 where
  next returned : Flow

-- A computation that can exit or crash, as an action.
unfoldable pub lift : {A : Type 0} → Outcome A → Exec Machine A
lift (ok a) = pure a
lift (exits c) = exit c
lift fault = crash
lift spins = spin

abbrev pub set_reg : ℕ → ℕ → Exec Machine (Unit {0})
set_reg rd v = modify (on_cpu (λ c. reg_write c rd v))

abbrev pub jump_to : ℕ → Exec Machine (Unit {0})
jump_to target = modify (on_cpu (λ c. record c { pc = target }))

-- funct3 == 0 in OP_SYSTEM.
unfoldable pub execute_trap_return : ℕ → Exec Machine (Unit {0})
execute_trap_return imm =
    if imm == system_ecall
    then modify (λ m.
      if m.cpu.privilege == priv_s
      then sbi_ecall m
      else on_cpu (λ c. cpu_trap c (8 + c.privilege) 0) m)
    else if imm == 1
    then modify (on_cpu (λ c. cpu_trap c exc_cause_breakpoint 0))
    else if imm == system_wfi
    then modify (on_cpu (λ c. record c { pc = add64 c.pc insn_size }))
    else if imm == system_sret
    then modify (on_cpu execute_sret)
    else if imm == system_mret
    then modify (on_cpu execute_mret)
    else if shr (u32 imm) 5 == system_funct7_sfence_vma
    then modify (on_cpu (λ c. record c { pc = add64 c.pc insn_size }))
    else exit 1

-- The new value of a CSR, by the low two bits of funct3.
unfoldable pub csr_update : ℕ → ℕ → ℕ → ℕ
csr_update funct3 old src =
    let op = bit_and funct3 3 in
    if op == 1
    then src
    else if op == 2
    then bit_or old src
    else if op == 3
    then bit_and old (not64 src)
    else old

-- The write is skipped for csrrs and csrrc with a zero source; the old value goes to rd.
unfoldable pub csr_access : Instruction → ℕ → Cpu → Cpu
csr_access inst csr_addr c =
    let old = csr_read c csr_addr in
    let src = if has_flag inst.funct3 4 then inst.rs1 else c.regs inst.rs1 in
    let c₁ =
      if (bit_and inst.funct3 3 == 1) || not (src == 0)
      then csr_write c csr_addr (csr_update inst.funct3 old src)
      else c in
    reg_write c₁ inst.rd old

-- Bits 9:8 of the address are the least privilege that may use the register.
unfoldable pub execute_csr : Instruction → Exec Machine Flow
execute_csr inst = do
  let csr_addr = bit_and inst.imm 0xFFF
  let min_priv = bit_and (shr csr_addr 8) 3
  denied ← gets (λ m. ltb m.cpu.privilege min_priv)
  if denied
      then (do modify (on_cpu (λ c. cpu_trap c exc_cause_illegal_instr 0)); pure returned)
      else (do modify (on_cpu (csr_access inst csr_addr)); pure next)

unfoldable pub execute_system : Instruction → Exec Machine Flow
execute_system inst =
    if inst.funct3 == 0 then (do execute_trap_return inst.imm; pure returned) else execute_csr inst

-- Write a computed value to rd.
unfoldable pub execute_alu : Instruction → (ℕ → ℕ → Outcome ℕ) → Exec Machine Flow
execute_alu inst compute = do
  rs1 ← gets (λ m. m.cpu.regs inst.rs1)
  rs2 ← gets (λ m. m.cpu.regs inst.rs2)
  val ← lift (compute rs1 rs2)
  set_reg inst.rd val
  pure next

-- The W instructions sign-extend their 32-bit result.
abbrev pub widened : Outcome ℕ → Outcome ℕ
widened (ok v) = ok (widen 32 v)
widened (exits c) = exits c
widened fault = fault
widened spins = spins

unfoldable pub execute_jump : Instruction → (ℕ → ℕ → ℕ) → Exec Machine Flow
execute_jump inst target = do
  pc ← gets (λ m. m.cpu.pc)
  rs1 ← gets (λ m. m.cpu.regs inst.rs1)
  set_reg inst.rd (add64 pc inst.size)
  jump_to (target pc rs1)
  pure returned

unfoldable pub execute_branch : Instruction → Exec Machine Flow
execute_branch inst = do
  pc ← gets (λ m. m.cpu.pc)
  rs1 ← gets (λ m. m.cpu.regs inst.rs1)
  rs2 ← gets (λ m. m.cpu.regs inst.rs2)
  taken ← lift (branch_taken inst.funct3 rs1 rs2)
  jump_to (if taken then add64 pc inst.imm else add64 pc inst.size)
  pure returned

-- A page fault has been taken already: return. Otherwise use the value and go on.
unfoldable pub unless_fault : Option ℕ → (ℕ → Exec Machine (Unit {0})) → Exec Machine Flow
unless_fault none use_value = pure returned
unless_fault (some v) use_value = do use_value v; pure next

unfoldable pub flow_of : Bool → Flow
flow_of true = next
flow_of false = returned

-- Map the value of a load, if there is one.
unfoldable pub map_value : (ℕ → ℕ) → Option ℕ → Option ℕ
map_value f none = none
map_value f (some v) = some (f v)

module _ (io : DeviceIo) where
  -- The value that a load puts into rd: bytes, halves and words are widened by their sign or by 0.
  unfoldable pub load_value : ℕ → ℕ → Exec Machine (Option ℕ)
  load_value funct3 va =
      if funct3 == 0
      then (do v ← vm_read8 io va; pure (map_value (widen 8) v))
      else if funct3 == 1
      then (do v ← vm_read16 io va; pure (map_value (widen 16) v))
      else if funct3 == 2
      then (do v ← vm_read32 io va; pure (map_value (widen 32) v))
      else if funct3 == 3
      then vm_read64 io va
      else if funct3 == 4
      then vm_read8 io va
      else if funct3 == 5
      then vm_read16 io va
      else if funct3 == 6
      then vm_read32 io va
      else exit 1

  unfoldable pub execute_load : Instruction → Exec Machine Flow
  execute_load inst = do
    rs1 ← gets (λ m. m.cpu.regs inst.rs1)
    v ← load_value inst.funct3 (add64 rs1 inst.imm)
    unless_fault v (set_reg inst.rd)

  unfoldable pub store_value : ℕ → ℕ → ℕ → Exec Machine Bool
  store_value funct3 va rs2 =
      if funct3 == 0
      then vm_write8 io va (u8 rs2)
      else if funct3 == 1
      then vm_write16 io va (u16 rs2)
      else if funct3 == 2
      then vm_write32 io va (u32 rs2)
      else if funct3 == 3
      then vm_write64 io va rs2
      else exit 1

  unfoldable pub execute_store : Instruction → Exec Machine Flow
  execute_store inst = do
    rs1 ← gets (λ m. m.cpu.regs inst.rs1)
    rs2 ← gets (λ m. m.cpu.regs inst.rs2)
    done ← store_value inst.funct3 (add64 rs1 inst.imm) rs2
    pure (flow_of done)

  unfoldable pub execute_fload : Instruction → Exec Machine Flow
  execute_fload inst = do
    rs1 ← gets (λ m. m.cpu.regs inst.rs1)
    if inst.funct3 == 2
        then (do
          v ← vm_read32 io (add64 rs1 inst.imm)
          unless_fault v (λ v. modify (on_cpu (λ c. freg_set_f c inst.rd v))))
        else (do
          v ← vm_read64 io (add64 rs1 inst.imm)
          unless_fault v (λ v. modify (on_cpu (λ c. freg_set_d c inst.rd v))))

  unfoldable pub execute_fstore : Instruction → Exec Machine Flow
  execute_fstore inst = do
    rs1 ← gets (λ m. m.cpu.regs inst.rs1)
    c ← gets (λ m. m.cpu)
    done ←
        (if inst.funct3 == 2
          then vm_write32 io (add64 rs1 inst.imm) (freg_get_f c inst.rs2)
          else vm_write64 io (add64 rs1 inst.imm) (freg_get_d c inst.rs2))
    pure (flow_of done)

  -- The atomic instructions break out of the switch even if they took a page fault.
  unfoldable pub execute_atomic : Instruction → Exec Machine Flow
  execute_atomic inst = do execute_a io inst; pure next

module _ (host : HostFloat) where
  unfoldable pub execute_float : Instruction → Exec Machine Flow
  execute_float inst = do
    c ← gets (λ m. m.cpu)
    c' ← lift (
        if bit_and inst.funct7 3 == 0
        then execute_fp_single host c inst
        else execute_fp_double host c inst)
    modify (λ m. set_cpu m c')
    pure next

module _ (io : DeviceIo) (host : HostFloat) where
  -- The switch on the opcode.
  unfoldable pub dispatch : Instruction → Exec Machine Flow
  dispatch inst =
      let op = inst.opcode in
      if op == op_lui
      then execute_alu inst (λ rs1 rs2. ok inst.imm)
      else if op == op_auipc
      then (do pc ← gets (λ m. m.cpu.pc); execute_alu inst (λ rs1 rs2. ok (add64 pc inst.imm)))
      else if op == op_jal
      then execute_jump inst (λ pc rs1. add64 pc inst.imm)
      else if op == op_jalr
      then execute_jump inst (λ pc rs1. clear_flags (add64 rs1 inst.imm) 1)
      else if op == op_branch
      then execute_branch inst
      else if op == op_load
      then execute_load io inst
      else if op == op_store
      then execute_store io inst
      else if op == op_i_arith
      then execute_alu inst (λ rs1 rs2. i_arith inst.funct3 inst.funct7 rs1 inst.imm)
      else if op == op_r_arith
      then execute_alu inst (λ rs1 rs2. r_arith inst.funct3 inst.funct7 rs1 rs2)
      else if op == op_i_arith_w
      then execute_alu inst (λ rs1 rs2. widened (i_arith_w inst.funct3 inst.funct7 rs1 inst.imm))
      else if op == op_r_arith_w
      then execute_alu inst (λ rs1 rs2. widened (r_arith_w inst.funct3 inst.funct7 rs1 rs2))
      else if op == op_flw_fld
      then execute_fload io inst
      else if op == op_fsw_fsd
      then execute_fstore io inst
      else if op == op_fmadd || (op == op_fmsub || (op == op_fnmsub || op == op_fnmadd))
      then (do modify (on_cpu (λ c. execute_fma host c inst)); pure next)
      else if op == op_fence
      then pure next
      else if op == op_amo
      then execute_atomic io inst
      else if op == op_fp
      then execute_float host inst
      else if op == op_system
      then execute_system inst
      else exit 1

  unfoldable pub advance : Instruction → Flow → Exec Machine (Unit {0})
  advance inst next = modify (on_cpu (λ c. record c { pc = add64 c.pc inst.size }))
  advance inst returned = pure tt

  unfoldable pub execute : Instruction → Exec Machine (Unit {0})
  execute inst = do flow ← dispatch inst; advance inst flow
