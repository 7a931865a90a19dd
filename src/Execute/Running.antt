-- ===== src/Execute/Running.antt =====
-- src/cpu.c: execute at the integer instructions of the manual (Execute/Manual), and cpu_step at one of
-- them in the RAM.
use tinyvm.Base.{
  ℕ, ◌+◌, ◌*◌, ◌/◌, ◌%◌, ◌^◌, ◌≡◌, ◌∙◌, refl, ap, Bool, if◌then◌else◌, Outcome, ok, pure, gets,
  modify, ◌>>=◌, add64, add32, sub32, sub64, u32, widen, clear_flags, arith,
}
use tinyvm.Machine.{Machine, Cpu, on_cpu}
use tinyvm.Cpu.Csr.{reg_write}
use tinyvm.Memory.{DeviceIo}
use tinyvm.Decode.Instr.{
  Instruction, op_lui, op_auipc, op_jal, op_jalr, op_branch, op_i_arith, op_r_arith, op_i_arith_w,
  op_r_arith_w,
}
use tinyvm.Decode.Base32.{decode}
use tinyvm.Decode.Formats.{HasFields, encode}
use tinyvm.Decode.Encode.{decode-encode}
use tinyvm.Execute.Float.{HostFloat}
use tinyvm.Execute.Alu.{branch_taken, i_arith, r_arith, i_arith_w, r_arith_w}
use tinyvm.Execute.Dispatch.{
  lift, dispatch, advance, execute, execute_alu, execute_jump, execute_branch, widened,
}
use tinyvm.Execute.Manual.{
  Op, reg_op, reg_shift, sub, addw, subw, shift_w, imm_op, imm_shift, addiw, imm_shift_w, lui,
  auipc, jal, jalr, branch, format, IsOp, run_op, put, computes, jumps, result, shifted, shifted_w,
  funct3_of, shift3_of, shift7_of, branch3_of, holds,
}
use tinyvm.Execute.Integer.{
  i_arith-plain, r_arith-plain, r_arith-sub, r_arith-shift, i_arith-shift, i_arith_w-add,
  i_arith_w-shift, r_arith_w-add, r_arith_w-sub, r_arith_w-shift, branch_taken-holds,
  clear_flags-one,
}
use tinyvm.Execute.Fetching.{IsReady, Holds, cpu_step-base}
use tinyvm.Execute.Step.{cpu_step}
use tinyvm.Decode.Lengths.{encode-IsLong}
use tinyvm.Execute.Operands.{format-IsFormat}

pub reg_write-put : (c : Cpu) (rd v : ℕ) → reg_write c rd v ≡ record c { regs = put c.regs rd v }
unfolding reg_write
reg_write-put c rd v = ground arith

module _ (io : DeviceIo) (host : HostFloat) (inst : Instruction) (m : Machine) where
  -- The three shapes of the cases of execute.
  execute-computes :
      (compute : ℕ → ℕ → Outcome ℕ) (v : ℕ)
      → dispatch io host inst m ≡ execute_alu inst compute m
      → compute (m.cpu.regs inst.rs1) (m.cpu.regs inst.rs2) ≡ ok v
      → (size rd : ℕ) → inst.size ≡ size
      → inst.rd ≡ rd
      → execute io host inst m ≡ ok (tt, on_cpu (computes size rd v) m)
  unfolding execute execute_alu advance lift gets pure modify ◌>>=◌
  execute-computes compute v e h size rd s d =
      let run : execute io host inst m ≡ ok (tt, on_cpu (computes inst.size inst.rd v) m) =
        rw (e, h, reg_write-put m.cpu inst.rd v) refl in
      run ∙ λ j. ok (tt, on_cpu (computes (s j) (d j) v) m)

  execute-jumps :
      (target : ℕ → ℕ → ℕ)
      → dispatch io host inst m ≡ execute_jump inst target m
      → (v size rd : ℕ) → target m.cpu.pc (m.cpu.regs inst.rs1) ≡ v
      → inst.size ≡ size
      → inst.rd ≡ rd
      → execute io host inst m ≡ ok (tt, on_cpu (jumps size rd v) m)
  unfolding execute execute_jump advance gets pure modify ◌>>=◌
  execute-jumps target e v size rd t s d =
      let run : execute io host inst m
          ≡ ok (tt, on_cpu (jumps inst.size inst.rd (target m.cpu.pc (m.cpu.regs inst.rs1))) m) =
        rw (e, reg_write-put m.cpu inst.rd (add64 m.cpu.pc inst.size)) refl in
      run ∙ λ j. ok (tt, on_cpu (jumps (s j) (d j) (t j)) m)

  execute-branches :
      (taken : Bool)
      → dispatch io host inst m ≡ execute_branch inst m
      → branch_taken inst.funct3 (m.cpu.regs inst.rs1) (m.cpu.regs inst.rs2) ≡ ok taken
      → execute io host inst m
        ≡ ok (
          tt,
          on_cpu
              (λ c. record c { pc = if taken then add64 c.pc inst.imm else add64 c.pc inst.size })
              m,
        )
  unfolding execute execute_branch advance lift gets pure modify ◌>>=◌
  execute-branches taken e h = rw (e, h) refl

  -- The case of each opcode.
  lui_case :
      inst.opcode ≡ op_lui → dispatch io host inst m ≡ execute_alu inst (λ rs1 rs2. ok inst.imm) m
  unfolding dispatch gets ◌>>=◌
  lui_case e = simp e refl

  auipc_case :
      inst.opcode ≡ op_auipc
      → dispatch io host inst m ≡ execute_alu inst (λ rs1 rs2. ok (add64 m.cpu.pc inst.imm)) m
  unfolding dispatch gets ◌>>=◌
  auipc_case e = simp e refl

  jal_case :
      inst.opcode ≡ op_jal
      → dispatch io host inst m ≡ execute_jump inst (λ pc rs1. add64 pc inst.imm) m
  unfolding dispatch gets ◌>>=◌
  jal_case e = simp e refl

  jalr_case :
      inst.opcode ≡ op_jalr
      → dispatch io host inst m ≡ execute_jump inst (λ pc rs1. clear_flags (add64 rs1 inst.imm) 1) m
  unfolding dispatch gets ◌>>=◌
  jalr_case e = simp e refl

  branch_case : inst.opcode ≡ op_branch → dispatch io host inst m ≡ execute_branch inst m
  unfolding dispatch gets ◌>>=◌
  branch_case e = simp e refl

  i_arith_case :
      inst.opcode ≡ op_i_arith
      → dispatch io host inst m
        ≡ execute_alu inst (λ rs1 rs2. i_arith inst.funct3 inst.funct7 rs1 inst.imm) m
  unfolding dispatch gets ◌>>=◌
  i_arith_case e = simp e refl

  r_arith_case :
      inst.opcode ≡ op_r_arith
      → dispatch io host inst m
        ≡ execute_alu inst (λ rs1 rs2. r_arith inst.funct3 inst.funct7 rs1 rs2) m
  unfolding dispatch gets ◌>>=◌
  r_arith_case e = simp e refl

  i_arith_w_case :
      inst.opcode ≡ op_i_arith_w
      → dispatch io host inst m
        ≡ execute_alu inst (λ rs1 rs2. widened (i_arith_w inst.funct3 inst.funct7 rs1 inst.imm)) m
  unfolding dispatch gets ◌>>=◌
  i_arith_w_case e = simp e refl

  r_arith_w_case :
      inst.opcode ≡ op_r_arith_w
      → dispatch io host inst m
        ≡ execute_alu inst (λ rs1 rs2. widened (r_arith_w inst.funct3 inst.funct7 rs1 rs2)) m
  unfolding dispatch gets ◌>>=◌
  r_arith_w_case e = simp e refl

  -- An instruction with the fields that the manual gives runs as the manual says.
  pub execute-run_op :
      (size : ℕ) (op : Op)
      → IsOp op
      → inst.size ≡ size
      → HasFields (format op) inst
      → execute io host inst m ≡ ok (tt, on_cpu (run_op size op) m)
  execute-run_op size (reg_op o rd rs1 rs2) k s h =
      let to : r_arith inst.funct3 inst.funct7 (m.cpu.regs inst.rs1) (m.cpu.regs inst.rs2)
          ≡ r_arith (funct3_of o) (0) (m.cpu.regs rs1) (m.cpu.regs rs2) =
        λ j. r_arith (h.2 j) (h.5 j) (m.cpu.regs (h.3 j)) (m.cpu.regs (h.4 j)) in
      execute-computes _ (result o (m.cpu.regs rs1) (m.cpu.regs rs2)) (r_arith_case h.0)
        (to ∙ r_arith-plain o (m.cpu.regs rs1) (m.cpu.regs rs2)) size rd s h.1
  execute-run_op size (reg_shift o rd rs1 rs2) k s h =
      let to : r_arith inst.funct3 inst.funct7 (m.cpu.regs inst.rs1) (m.cpu.regs inst.rs2)
          ≡ r_arith (shift3_of o) (shift7_of o) (m.cpu.regs rs1) (m.cpu.regs rs2) =
        λ j. r_arith (h.2 j) (h.5 j) (m.cpu.regs (h.3 j)) (m.cpu.regs (h.4 j)) in
      execute-computes _ (shifted o (m.cpu.regs rs1) ((m.cpu.regs rs2) % 64)) (r_arith_case h.0)
        (to ∙ r_arith-shift o (m.cpu.regs rs1) (m.cpu.regs rs2)) size rd s h.1
  execute-run_op size (sub rd rs1 rs2) k s h =
      let to : r_arith inst.funct3 inst.funct7 (m.cpu.regs inst.rs1) (m.cpu.regs inst.rs2)
          ≡ r_arith (0) (0x20) (m.cpu.regs rs1) (m.cpu.regs rs2) =
        λ j. r_arith (h.2 j) (h.5 j) (m.cpu.regs (h.3 j)) (m.cpu.regs (h.4 j)) in
      execute-computes _ (sub64 (m.cpu.regs rs1) (m.cpu.regs rs2)) (r_arith_case h.0)
        (to ∙ r_arith-sub (m.cpu.regs rs1) (m.cpu.regs rs2)) size rd s h.1
  execute-run_op size (addw rd rs1 rs2) k s h =
      let to : widened
            (r_arith_w inst.funct3 inst.funct7 (m.cpu.regs inst.rs1) (m.cpu.regs inst.rs2))
          ≡ widened (r_arith_w (0) (0) (m.cpu.regs rs1) (m.cpu.regs rs2)) =
        λ j. widened (r_arith_w (h.2 j) (h.5 j) (m.cpu.regs (h.3 j)) (m.cpu.regs (h.4 j))) in
      execute-computes _ (widen 32 (add32 (m.cpu.regs rs1) (m.cpu.regs rs2))) (r_arith_w_case h.0)
        (to ∙ ap widened (r_arith_w-add (m.cpu.regs rs1) (m.cpu.regs rs2))) size rd s h.1
  execute-run_op size (subw rd rs1 rs2) k s h =
      let to : widened
            (r_arith_w inst.funct3 inst.funct7 (m.cpu.regs inst.rs1) (m.cpu.regs inst.rs2))
          ≡ widened (r_arith_w (0) (0x20) (m.cpu.regs rs1) (m.cpu.regs rs2)) =
        λ j. widened (r_arith_w (h.2 j) (h.5 j) (m.cpu.regs (h.3 j)) (m.cpu.regs (h.4 j))) in
      execute-computes _ (widen 32 (sub32 (u32 (m.cpu.regs rs1)) (u32 (m.cpu.regs rs2))))
        (r_arith_w_case h.0) (to ∙ ap widened (r_arith_w-sub (m.cpu.regs rs1) (m.cpu.regs rs2)))
        size rd s h.1
  execute-run_op size (shift_w o rd rs1 rs2) k s h =
      let to : widened
            (r_arith_w inst.funct3 inst.funct7 (m.cpu.regs inst.rs1) (m.cpu.regs inst.rs2))
          ≡ widened (r_arith_w (shift3_of o) (shift7_of o) (m.cpu.regs rs1) (m.cpu.regs rs2)) =
        λ j. widened (r_arith_w (h.2 j) (h.5 j) (m.cpu.regs (h.3 j)) (m.cpu.regs (h.4 j))) in
      execute-computes _ (widen 32 (shifted_w o (u32 (m.cpu.regs rs1)) ((m.cpu.regs rs2) % 32)))
        (r_arith_w_case h.0) (to ∙ ap widened (r_arith_w-shift o (m.cpu.regs rs1) (m.cpu.regs rs2)))
        size rd s h.1
  execute-run_op size (imm_op o rd rs1 imm) k s h =
      let to : i_arith inst.funct3 inst.funct7 (m.cpu.regs inst.rs1) inst.imm
          ≡ i_arith (funct3_of o) (imm / 2 ^ 5) (m.cpu.regs rs1) (widen 12 imm) =
        λ j. i_arith (h.2 j) (h.5 j) (m.cpu.regs (h.3 j)) (h.4 j) in
      execute-computes _ (result o (m.cpu.regs rs1) (widen 12 imm)) (i_arith_case h.0)
        (to ∙ i_arith-plain o (imm / 2 ^ 5) (m.cpu.regs rs1) (widen 12 imm)) size rd s h.1
  execute-run_op size (imm_shift o rd rs1 shamt) k s h =
      let to : i_arith inst.funct3 inst.funct7 (m.cpu.regs inst.rs1) inst.imm
          ≡ i_arith (shift3_of o) ((shamt + 2 ^ 5 * shift7_of o) / 2 ^ 5) (m.cpu.regs rs1)
              (widen 12 (shamt + 2 ^ 5 * shift7_of o)) =
        λ j. i_arith (h.2 j) (h.5 j) (m.cpu.regs (h.3 j)) (h.4 j) in
      execute-computes _ (shifted o (m.cpu.regs rs1) shamt) (i_arith_case h.0)
        (to ∙ i_arith-shift o (m.cpu.regs rs1) shamt k.2) size rd s h.1
  execute-run_op size (addiw rd rs1 imm) k s h =
      let to : widened (i_arith_w inst.funct3 inst.funct7 (m.cpu.regs inst.rs1) inst.imm)
          ≡ widened (i_arith_w (0) (imm / 2 ^ 5) (m.cpu.regs rs1) (widen 12 imm)) =
        λ j. widened (i_arith_w (h.2 j) (h.5 j) (m.cpu.regs (h.3 j)) (h.4 j)) in
      execute-computes _ (widen 32 (add32 (m.cpu.regs rs1) (widen 12 imm))) (i_arith_w_case h.0)
        (to ∙ ap widened (i_arith_w-add (imm / 2 ^ 5) (m.cpu.regs rs1) (widen 12 imm))) size rd s
        h.1
  execute-run_op size (imm_shift_w o rd rs1 shamt) k s h =
      let to : widened (i_arith_w inst.funct3 inst.funct7 (m.cpu.regs inst.rs1) inst.imm)
          ≡ widened (
              i_arith_w (shift3_of o) ((shamt + 2 ^ 5 * shift7_of o) / 2 ^ 5) (m.cpu.regs rs1)
                (widen 12 (shamt + 2 ^ 5 * shift7_of o))) =
        λ j. widened (i_arith_w (h.2 j) (h.5 j) (m.cpu.regs (h.3 j)) (h.4 j)) in
      execute-computes _ (widen 32 (shifted_w o (u32 (m.cpu.regs rs1)) shamt)) (i_arith_w_case h.0)
        (to ∙ ap widened (i_arith_w-shift o (m.cpu.regs rs1) shamt k.2)) size rd s h.1
  execute-run_op size (lui rd v) k s h =
      let to : ok inst.imm ≡ ok (widen 32 (v * 2 ^ 12)) = ap ok h.2 in
      execute-computes _ (widen 32 (v * 2 ^ 12)) (lui_case h.0) to size rd s h.1
  execute-run_op size (auipc rd v) k s h =
      let to : ok (add64 m.cpu.pc inst.imm) ≡ ok (add64 m.cpu.pc (widen 32 (v * 2 ^ 12))) =
        λ j. ok (add64 m.cpu.pc (h.2 j)) in
      execute-computes _ (add64 m.cpu.pc (widen 32 (v * 2 ^ 12))) (auipc_case h.0) to size rd s h.1
  execute-run_op size (jal rd v) k s h =
      execute-jumps _ (jal_case h.0) (add64 m.cpu.pc (widen 21 (2 * v))) size rd
        (λ j. add64 m.cpu.pc (h.2 j)) s h.1
  execute-run_op size (jalr rd rs1 imm) k s h =
      let to : clear_flags (add64 (m.cpu.regs inst.rs1) inst.imm) 1
          ≡ clear_flags (add64 (m.cpu.regs rs1) (widen 12 imm)) 1 =
        λ j. clear_flags (add64 (m.cpu.regs (h.3 j)) (h.4 j)) 1 in
      let even = clear_flags-one (add64 (m.cpu.regs rs1) (widen 12 imm)) (omega arith) in
      execute-jumps _ (jalr_case h.0) (2 * (add64 (m.cpu.regs rs1) (widen 12 imm) / 2)) size rd
        (to ∙ even) s h.1
  execute-run_op size (branch o rs1 rs2 v) k s h =
      let to : branch_taken inst.funct3 (m.cpu.regs inst.rs1) (m.cpu.regs inst.rs2)
          ≡ branch_taken (branch3_of o) (m.cpu.regs rs1) (m.cpu.regs rs2) =
        λ j. branch_taken (h.1 j) (m.cpu.regs (h.2 j)) (m.cpu.regs (h.3 j)) in
      let taken = holds o (m.cpu.regs rs1) (m.cpu.regs rs2) in
      execute-branches taken (branch_case h.0)
        (to ∙ branch_taken-holds o (m.cpu.regs rs1) (m.cpu.regs rs2))
      ∙ λ j. ok (
        tt,
        on_cpu (λ c. record c { pc = if taken then add64 c.pc (h.4 j) else add64 c.pc (s j) }) m,
      )

pub decode-size : (raw : ℕ) → (decode raw).size ≡ 4
unfolding decode
decode-size raw = refl

-- A step at an integer instruction of the manual in the RAM, where no interrupt is taken and addresses
-- are not translated, does to the registers and to the pc what the manual says, and nothing else after
-- the interrupt sources are polled: the operations on 64 and 32 bits with registers and constants, and
-- the jumps and branches.
pub cpu_step-run_op :
    (io : DeviceIo) (host : HostFloat) (m₀ m : Machine)
    → IsReady m₀ m
    → (op : Op) → IsOp op
    → Holds m m.cpu.pc 2 (encode (format op) % 2 ^ 16)
    → Holds m m.cpu.pc 4 (encode (format op))
    → cpu_step io host m₀ ≡ ok (tt, on_cpu (run_op 4 op) m)
cpu_step-run_op io host m₀ m ready op k h2 h4 =
    let is_format = format-IsFormat op k in
    let raw = encode (format op) in
    let long = encode-IsLong (format op) is_format in
    cpu_step-base io host m₀ m ready raw long.0 long.1 h2 h4
    ∙ execute-run_op io host (decode raw) m 4 op k (decode-size raw)
        (decode-encode (format op) is_format)
