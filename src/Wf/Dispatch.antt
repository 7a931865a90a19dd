-- ===== src/Wf/Dispatch.antt =====
-- src/cpu.c: execute keeps the machine well-formed, whatever the instruction is.
use tinyvm.Base.{◌==◌, ◌||◌, arith, Keeps, Keeps-pure, Gives-exit, Gives-if, Gives-bind}
use tinyvm.Memory.{DeviceIo}
use tinyvm.Decode.Instr.{
  Instruction, op_lui, op_auipc, op_jal, op_jalr, op_branch, op_load, op_store, op_i_arith,
  op_r_arith, op_i_arith_w, op_r_arith_w, op_system, op_fence, op_amo, op_flw_fld, op_fsw_fsd,
  op_fmadd, op_fmsub, op_fnmsub, op_fnmadd, op_fp,
}
use tinyvm.Decode.Fields.{InRange}
use tinyvm.Execute.Float.{HostFloat}
use tinyvm.Execute.Dispatch.{Flow, next, returned, dispatch, advance, execute}
use tinyvm.Wf.Defs.{IsMachine, IsIo, IsHost}
use tinyvm.Wf.Cpu.{clear_flags-fits}
use tinyvm.Wf.Sbi.{on_cpu-Keeps, skip-Keeps, gets_pc}
use tinyvm.Wf.Alu.{i_arith-fits, r_arith-fits}
use tinyvm.Wf.Execute.{
  execute_system-Keeps, execute_alu-Keeps, widened-fits, execute_jump-Keeps, execute_branch-Keeps,
}
use tinyvm.Wf.Access.{
  execute_load-Keeps, execute_store-Keeps, execute_fload-Keeps, execute_fstore-Keeps,
  execute_atomic-Keeps,
}
use tinyvm.Wf.Float.{execute_fma-IsCpu, execute_float-Keeps}

module _ (io : DeviceIo) (is_io : IsIo io) (host : HostFloat) (is_host : IsHost host) where
  dispatch-Keeps : (inst : Instruction) → InRange inst → Keeps IsMachine (dispatch io host inst)
  unfolding dispatch
  dispatch-Keeps inst r =
      let op = inst.opcode in
      Gives-if (op == op_lui) _ _ (λ _. execute_alu-Keeps inst _ (λ a b h k. r.imm_fits))
        λ _.
          Gives-if (op == op_auipc) _ _
            (λ _.
              Gives-bind _ _ gets_pc (λ pc _. execute_alu-Keeps inst _ (λ a b h k. omega arith)))
            λ _.
              Gives-if (op == op_jal) _ _ (λ _. execute_jump-Keeps inst _ (λ pc a. omega arith))
                λ _.
                  Gives-if (op == op_jalr) _ _
                    (λ _. execute_jump-Keeps inst _ (λ pc a. clear_flags-fits _ 1 (omega arith)))
                    λ _.
                      Gives-if (op == op_branch) _ _ (λ _. execute_branch-Keeps inst)
                        λ _.
                          Gives-if (op == op_load) _ _ (λ _. execute_load-Keeps io is_io inst)
                            λ _.
                              Gives-if (op == op_store) _ _ (λ _. execute_store-Keeps io is_io inst)
                                λ _.
                                  Gives-if (op == op_i_arith) _ _
                                    (λ _. execute_alu-Keeps inst _ (λ a b h k.
                                      i_arith-fits a inst.imm h r.imm_fits inst.funct3 inst.funct7))
                                    λ _.
                                      Gives-if (op == op_r_arith) _ _
                                        (λ _.
                                          execute_alu-Keeps inst _ (λ a b h k.
                                            r_arith-fits a b h k inst.funct3 inst.funct7))
                                        λ _.
                                          Gives-if (op == op_i_arith_w) _ _
                                            (λ _.
                                              execute_alu-Keeps inst _ (λ a b h k. widened-fits _))
                                            λ _.
                                              Gives-if (op == op_r_arith_w) _ _
                                                (λ _.
                                                  execute_alu-Keeps inst _
                                                    (λ a b h k. widened-fits _))
                                                λ _.
                                                  Gives-if (op == op_flw_fld) _ _
                                                    (λ _. execute_fload-Keeps io is_io inst)
                                                    λ _.
                                                      Gives-if (op == op_fsw_fsd) _ _
                                                        (λ _. execute_fstore-Keeps io is_io inst)
                                                        λ _.
                                                          Gives-if
                                                            (op == op_fmadd
                                                            || (op == op_fmsub
                                                            || (op == op_fnmsub
                                                            || op == op_fnmadd)))
                                                            _ _
                                                            (λ _.
                                                            Gives-bind _ _
                                                            (on_cpu-Keeps _ (λ c h.
                                                            execute_fma-IsCpu host is_host inst c
                                                            h))
                                                            (λ _ _. Keeps-pure next))
                                                            λ _.
                                                            Gives-if (op == op_fence) _ _
                                                            (λ _. Keeps-pure next)
                                                            λ _.
                                                            Gives-if (op == op_amo) _ _
                                                            (λ _.
                                                            execute_atomic-Keeps io is_io inst)
                                                            λ _.
                                                            Gives-if (op == op_fp) _ _
                                                            (λ _.
                                                            execute_float-Keeps host is_host inst)
                                                            λ _.
                                                            Gives-if (op == op_system) _ _
                                                            (λ _. execute_system-Keeps inst r)
                                                            (λ _. Gives-exit 1)

  advance-Keeps : (inst : Instruction) (flow : Flow) → Keeps IsMachine (advance io host inst flow)
  unfolding advance
  advance-Keeps inst next = skip-Keeps inst.size
  advance-Keeps inst returned = Keeps-pure tt

  pub execute-Keeps : (inst : Instruction) → InRange inst → Keeps IsMachine (execute io host inst)
  unfolding execute
  execute-Keeps inst r = Gives-bind _ _ (dispatch-Keeps inst r) (λ flow _. advance-Keeps inst flow)
