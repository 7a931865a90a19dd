-- ===== src/Wf/Execute.antt =====
-- src/cpu.c and src/exec_a.c: the instructions keep the machine well-formed.
use tinyvm.Base.{
  ℕ, ◌^◌, ◌<◌, not, bit_and, ◌==◌, ◌||◌, if◌then◌else◌, if-elim, Option, none, some, u32, add64,
  shr, not64, has_flag, widen, arith, Exec, Outcome, ok, exits, fault, spins, Gives, Keeps,
  Keeps-pure, Gives-exit, Gives-crash, Gives-spin, Keeps-gets, Keeps-modify, Gives-if, Gives-bind,
}
use tinyvm.Base.Bits.{bit_or-lt, bit_and-lt}
use tinyvm.Machine.{Machine, Cpu}
use tinyvm.Cpu.Csr.{csr_read}
use tinyvm.Memory.{DeviceIo}
use tinyvm.Mmu.{vm_read32, vm_read64, vm_read8, vm_read16}
use tinyvm.Decode.Instr.{Instruction}
use tinyvm.Decode.Fields.{InRange}
use tinyvm.Execute.Dispatch.{
  lift, execute_trap_return, csr_update, csr_access, execute_csr, execute_system, execute_alu,
  widened, execute_jump, execute_branch, unless_fault, map_value, next, returned,
}
use tinyvm.Wf.Defs.{IsMachine, IsCpu, IsIo, IsU64, IsU32}
use tinyvm.Wf.Cpu.{reg_write-IsCpu, csr_read-fits, csr_write-IsCpu}
use tinyvm.Wf.Trap.{cpu_trap-IsCpu, execute_sret-IsCpu, execute_mret-IsCpu}
use tinyvm.Wf.Device.{set_cpu-IsMachine}
use tinyvm.Wf.Sbi.{
  on_cpu-Keeps, set_reg-Keeps, jump_to-Keeps, skip-Keeps, gets_reg, gets_pc, lift-Gives,
  sbi_ecall-IsMachine,
}
use tinyvm.Wf.Memory.{mem_read8-Gives, mem_read16-Gives, mem_read32-Gives, mem_read64-Gives}
use tinyvm.Wf.Mmu.{trap-Keeps, vm_read-Gives, Loaded}
use tinyvm.Wf.Alu.{Result, widen-fits}

execute_trap_return-Keeps : (imm : ℕ) → Keeps IsMachine (execute_trap_return imm)
unfolding execute_trap_return
execute_trap_return-Keeps imm =
    Gives-if (imm == 0) _ _
      (λ _. Keeps-modify _ (λ m h.
        if-elim IsMachine (m.cpu.privilege == 1) _ _ (λ _. sbi_ecall-IsMachine m h)
          (λ _. set_cpu-IsMachine m _ h (
            cpu_trap-IsCpu m.cpu _ 0 h.is_cpu (omega (arith, h.is_cpu.privilege_fits))
              (omega arith)))))
      λ _.
        Gives-if (imm == 1) _ _ (λ _. trap-Keeps 3 0 (omega arith) (omega arith))
          λ _.
            Gives-if (imm == 0x105) _ _ (λ _. skip-Keeps 4)
              λ _.
                Gives-if (imm == 0x102) _ _ (λ _. on_cpu-Keeps _ execute_sret-IsCpu)
                  λ _.
                    Gives-if (imm == 0x302) _ _ (λ _. on_cpu-Keeps _ execute_mret-IsCpu)
                      λ _.
                        Gives-if (shr (u32 imm) 5 == 9) _ _ (λ _. skip-Keeps 4) (λ _. Gives-exit 1)

csr_update-fits : (funct3 old src : ℕ) → IsU64 old → IsU64 src → IsU64 (csr_update funct3 old src)
unfolding csr_update
csr_update-fits funct3 old src h k =
    let op = bit_and funct3 3 in
    if-elim IsU64 (op == 1) _ _ (λ _. k)
      λ _.
        if-elim IsU64 (op == 2) _ _ (λ _. bit_or-lt 64 old src h k)
          λ _. if-elim IsU64 (op == 3) _ _ (λ _. bit_and-lt 64 old (not64 src) h) (λ _. h)

csr_access-IsCpu :
    (inst : Instruction) (addr : ℕ) (c : Cpu)
    → InRange inst
    → IsCpu c
    → IsCpu (csr_access inst addr c)
unfolding csr_access
csr_access-IsCpu inst addr c r h =
    let old = csr_read c addr in
    let src = if has_flag inst.funct3 4 then inst.rs1 else c.regs inst.rs1 in
    let k : IsU64 src =
      if-elim IsU64 (has_flag inst.funct3 4) inst.rs1 (c.regs inst.rs1)
        (λ _. omega (arith, r.rs1_fits)) (λ _. h.regs_fit inst.rs1) in
    let l = csr_read-fits c addr h in
    reg_write-IsCpu _ inst.rd old
      (if-elim IsCpu ((bit_and inst.funct3 3 == 1) || not (src == 0)) _ c
        (λ _. csr_write-IsCpu c addr _ h (csr_update-fits inst.funct3 old src l k)) (λ _. h))
      l

execute_csr-Keeps : (inst : Instruction) → InRange inst → Keeps IsMachine (execute_csr inst)
unfolding execute_csr
execute_csr-Keeps inst r = Gives-bind _ _ (Keeps-gets _) λ denied _.
    Gives-if denied _ _
      (λ _.
        Gives-bind _ _ (trap-Keeps 2 0 (omega arith) (omega arith)) (λ _ _. Keeps-pure returned))
      (λ _.
        Gives-bind _ _
          (on_cpu-Keeps _ (λ c h. csr_access-IsCpu inst (bit_and inst.imm 0xFFF) c r h))
          (λ _ _. Keeps-pure next))

pub execute_system-Keeps :
    (inst : Instruction) → InRange inst → Keeps IsMachine (execute_system inst)
unfolding execute_system
execute_system-Keeps inst r =
    Gives-if (inst.funct3 == 0) _ _
      (λ _. Gives-bind _ _ (execute_trap_return-Keeps inst.imm) (λ _ _. Keeps-pure returned))
      (λ _. execute_csr-Keeps inst r)

pub execute_alu-Keeps :
    (inst : Instruction) (f : ℕ → ℕ → Outcome ℕ)
    → ((a b : ℕ) → IsU64 a → IsU64 b → Result IsU64 (f a b))
    → Keeps IsMachine (execute_alu inst f)
unfolding execute_alu
execute_alu-Keeps inst f k = Gives-bind _ _ (gets_reg inst.rs1) λ a h.
    Gives-bind _ _ (gets_reg inst.rs2) λ b l.
      Gives-bind _ _ (lift-Gives (f a b) (k a b h l))
        λ v w. Gives-bind _ _ (set_reg-Keeps inst.rd v w) (λ _ _. Keeps-pure next)

pub widened-fits : (o : Outcome ℕ) → Result IsU64 (widened o)
widened-fits (ok v) = widen-fits 32 v
widened-fits (exits c) = tt
widened-fits fault = tt
widened-fits spins = tt

pub execute_jump-Keeps :
    (inst : Instruction) (target : ℕ → ℕ → ℕ)
    → ((pc rs1 : ℕ) → IsU64 (target pc rs1))
    → Keeps IsMachine (execute_jump inst target)
unfolding execute_jump
execute_jump-Keeps inst target k = Gives-bind _ _ gets_pc λ pc _.
    Gives-bind _ _ (gets_reg inst.rs1) λ a _.
      Gives-bind _ _ (set_reg-Keeps inst.rd _ (omega arith))
        λ _ _. Gives-bind _ _ (jump_to-Keeps (target pc a) (k pc a)) (λ _ _. Keeps-pure returned)

lift-Keeps : {A : Type 0} (o : Outcome A) → Keeps IsMachine (lift o)
unfolding lift
lift-Keeps (ok v) = Keeps-pure v
lift-Keeps (exits c) = Gives-exit c
lift-Keeps fault = Gives-crash
lift-Keeps spins = Gives-spin

pub execute_branch-Keeps : (inst : Instruction) → Keeps IsMachine (execute_branch inst)
unfolding execute_branch
execute_branch-Keeps inst = Gives-bind _ _ gets_pc λ pc _. Gives-bind _ _ (gets_reg inst.rs1) λ a _.
    Gives-bind _ _ (gets_reg inst.rs2) λ b _. Gives-bind _ _ (lift-Keeps _) λ taken _.
      Gives-bind _ _
        (jump_to-Keeps _ (
          if-elim IsU64 taken (add64 pc inst.imm) (add64 pc inst.size) (λ _. omega arith)
            (λ _. omega arith)))
        (λ _ _. Keeps-pure returned)

pub unless_fault-Keeps :
    (Q : ℕ → Type 0) (o : Option ℕ) (use_value : ℕ → Exec Machine (Unit {0}))
    → Loaded Q o
    → ((v : ℕ) → Q v → Keeps IsMachine (use_value v))
    → Keeps IsMachine (unless_fault o use_value)
unfolding unless_fault
unless_fault-Keeps Q none use_value h k = Keeps-pure returned
unless_fault-Keeps Q (some v) use_value h k = Gives-bind _ _ (k v h) (λ _ _. Keeps-pure next)

pub map_value-Loaded :
    (w : ℕ) (Q : ℕ → Type 0) (o : Option ℕ) → Loaded Q o → Loaded IsU64 (map_value (widen w) o)
unfolding map_value
map_value-Loaded w Q none h = tt
map_value-Loaded w Q (some v) h = widen-fits w v

module _ (io : DeviceIo) (is_io : IsIo io) where
  pub vm_read8-Gives :
      (va : ℕ) → IsU64 va → Gives IsMachine (Loaded (λ v. v < 2 ^ 8)) (vm_read8 io va)
  unfolding vm_read8
  vm_read8-Gives va h = vm_read-Gives io is_io _ _ va h (mem_read8-Gives io is_io)

  pub vm_read16-Gives :
      (va : ℕ) → IsU64 va → Gives IsMachine (Loaded (λ v. v < 2 ^ 16)) (vm_read16 io va)
  unfolding vm_read16
  vm_read16-Gives va h = vm_read-Gives io is_io _ _ va h (mem_read16-Gives io is_io)

  pub vm_read32-Gives : (va : ℕ) → IsU64 va → Gives IsMachine (Loaded IsU32) (vm_read32 io va)
  unfolding vm_read32
  vm_read32-Gives va h = vm_read-Gives io is_io _ _ va h (mem_read32-Gives io is_io)

  pub vm_read64-Gives : (va : ℕ) → IsU64 va → Gives IsMachine (Loaded IsU64) (vm_read64 io va)
  unfolding vm_read64
  vm_read64-Gives va h = vm_read-Gives io is_io _ _ va h (mem_read64-Gives io is_io)
