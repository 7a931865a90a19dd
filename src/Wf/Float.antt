-- ===== src/Wf/Float.antt =====
-- src/cpu.c: the float instructions keep the machine well-formed.
use tinyvm.Base.{
  ℕ, bit_and, bit_xor, ◌==◌, if-elim, shr, not64, arith, Outcome, ok, exits, fault, spins, Gives,
  Keeps, Gives-pure, Keeps-pure, Gives-exit, Gives-crash, Gives-spin, Gives-gets, Keeps-modify,
  Gives-bind,
}
use tinyvm.Base.Bits.{bit_or-lt, bit_and-lt, bit_and-le_right}
use tinyvm.Machine.{Cpu}
use tinyvm.Cpu.Csr.{reg_write}
use tinyvm.Decode.Instr.{Instruction}
use tinyvm.Execute.Float.{
  FloatFormat, HostFloat, freg_get_d, freg_set_f, freg_set_d, fclass, fsgnj, fsgnj_d, fminmax,
  fcvt_fi, fcvt_if, fcmp, then_set, execute_fp_single, execute_fp_double, fused, execute_fma,
}
use tinyvm.Execute.Dispatch.{lift, execute_float, next}
use tinyvm.Wf.Defs.{IsMachine, IsCpu, IsHost, IsU64}
use tinyvm.Wf.Cpu.{reg_write-IsCpu}
use tinyvm.Wf.Device.{set_cpu-IsMachine}
use tinyvm.Wf.Alu.{Result, widen-fits, flag_of-fits}
use tinyvm.Wf.Access.{freg_set_f-IsCpu, freg_set_d-IsCpu}

-- What holds of the CPU that a float instruction leaves, if it leaves one.
abbrev pub After : Outcome Cpu → Type 0
After (ok c) = IsCpu c
After (exits c) = Unit
After fault = Unit
After spins = Unit

fclass-fits : (f : FloatFormat) (v : ℕ) → IsU64 (fclass f v)
unfolding fclass
fclass-fits f v = ground arith

fsgnj_d-fits : (funct3 a b : ℕ) → IsU64 a → Result IsU64 (fsgnj_d funct3 a b)
unfolding fsgnj_d fsgnj
fsgnj_d-fits funct3 a b h =
    let joined = λ (x : ℕ).
      bit_or-lt 64 (bit_and a (not64 0x8000000000000000)) (bit_and x 0x8000000000000000)
        (bit_and-lt 64 a _ h)
        (omega (arith, bit_and-le_right 64 x 0x8000000000000000 (omega arith))) in
    if-elim (Result IsU64) (funct3 == 0) _ _ (λ _. joined b)
      λ _.
        if-elim (Result IsU64) (funct3 == 1) _ _ (λ _. joined (not64 b))
          λ _. if-elim (Result IsU64) (funct3 == 2) _ _ (λ _. joined (bit_xor a b)) (λ _. tt)

fcvt_fi-fits : (f : FloatFormat) (kind v : ℕ) → Result IsU64 (fcvt_fi f kind v)
unfolding fcvt_fi
fcvt_fi-fits f kind v =
    if-elim (Result IsU64) (kind == 0) _ _ (λ _. widen-fits 32 _)
      λ _.
        if-elim (Result IsU64) (kind == 1) _ _ (λ _. omega arith)
          λ _.
            if-elim (Result IsU64) (kind == 2) _ _ (λ _. omega arith)
              λ _. if-elim (Result IsU64) (kind == 3) _ _ (λ _. omega arith) (λ _. tt)

fcmp-fits : (f : FloatFormat) (funct3 a b : ℕ) → Result IsU64 (fcmp f funct3 a b)
unfolding fcmp
fcmp-fits f funct3 a b =
    if-elim (Result IsU64) (funct3 == 2) _ _ (λ _. flag_of-fits (f.eq a b))
      λ _.
        if-elim (Result IsU64) (funct3 == 1) _ _ (λ _. flag_of-fits (f.lt a b))
          λ _. if-elim (Result IsU64) (funct3 == 0) _ _ (λ _. flag_of-fits (f.le a b)) (λ _. tt)

set_int :
    (c : Cpu) (rd : ℕ) (o : Outcome ℕ)
    → IsCpu c
    → Result IsU64 o
    → After (then_set reg_write c rd o)
set_int c rd (ok v) h l = reg_write-IsCpu c rd v h l
set_int c rd (exits e) h l = tt
set_int c rd fault h l = tt
set_int c rd spins h l = tt

set_single : (c : Cpu) (rd : ℕ) (o : Outcome ℕ) → IsCpu c → After (then_set freg_set_f c rd o)
set_single c rd (ok v) h = freg_set_f-IsCpu c rd v h
set_single c rd (exits e) h = tt
set_single c rd fault h = tt
set_single c rd spins h = tt

set_double :
    (c : Cpu) (rd : ℕ) (o : Outcome ℕ)
    → IsCpu c
    → Result IsU64 o
    → After (then_set freg_set_d c rd o)
set_double c rd (ok v) h l = freg_set_d-IsCpu c rd v l h
set_double c rd (exits e) h l = tt
set_double c rd fault h l = tt
set_double c rd spins h l = tt

module _ (host : HostFloat) (is_host : IsHost host) where
  single-After : (c : Cpu) (inst : Instruction) → IsCpu c → After (execute_fp_single host c inst)
  unfolding execute_fp_single
  single-After c inst h =
      let f5 = shr inst.funct7 2 in
      let put = λ (v : ℕ). freg_set_f-IsCpu c inst.rd v h in
      if-elim After (f5 == 0x00) _ _ (λ _. put _)
        λ _.
          if-elim After (f5 == 0x01) _ _ (λ _. put _)
            λ _.
              if-elim After (f5 == 0x02) _ _ (λ _. put _)
                λ _.
                  if-elim After (f5 == 0x03) _ _ (λ _. put _)
                    λ _.
                      if-elim After (f5 == 0x0B) _ _ (λ _. put _)
                        λ _.
                          if-elim After (f5 == 0x04) _ _ (λ _. set_single c inst.rd _ h)
                            λ _.
                              if-elim After (f5 == 0x05) _ _ (λ _. put _)
                                λ _.
                                  if-elim After (f5 == 0x08) _ _ (λ _. put _)
                                    λ _.
                                      if-elim After (f5 == 0x18) _ _
                                        (λ _.
                                          set_int c inst.rd _ h
                                            (fcvt_fi-fits host.single inst.rs2 _))
                                        λ _.
                                          if-elim After (f5 == 0x1A) _ _
                                            (λ _. set_single c inst.rd _ h)
                                            λ _.
                                              if-elim After (f5 == 0x1C) _ _
                                                (λ _. reg_write-IsCpu c inst.rd _ h (
                                                  if-elim IsU64 (inst.funct3 == 0) _ _
                                                    (λ _. widen-fits 32 _)
                                                    (λ _. fclass-fits host.single _)))
                                                λ _.
                                                  if-elim After (f5 == 0x14) _ _
                                                    (λ _.
                                                      set_int c inst.rd _ h
                                                        (fcmp-fits host.single inst.funct3 _ _))
                                                    λ _.
                                                      if-elim After (f5 == 0x1E) _ _ (λ _. put _)
                                                        (λ _. tt)

  fminmax-fits : (funct3 a b : ℕ) → IsU64 a → IsU64 b → IsU64 (fminmax host.double funct3 a b)
  unfolding fminmax
  fminmax-fits funct3 a b h k =
      let f = host.double in
      if-elim IsU64 (f.is_nan a) _ _ (λ _. k)
        λ _.
          if-elim IsU64 (f.is_nan b) _ _ (λ _. h)
            λ _.
              if-elim IsU64 (funct3 == 0) _ _ (λ _. is_host.fmin_fits a b)
                (λ _. is_host.fmax_fits a b)

  fcvt_if-fits : (kind x : ℕ) → Result IsU64 (fcvt_if host.double kind x)
  unfolding fcvt_if
  fcvt_if-fits kind x =
      if-elim (Result IsU64) (kind == 0) _ _ (λ _. is_host.of_i32_fits _)
        λ _.
          if-elim (Result IsU64) (kind == 1) _ _ (λ _. is_host.of_u32_fits _)
            λ _.
              if-elim (Result IsU64) (kind == 2) _ _ (λ _. is_host.of_i64_fits _)
                λ _. if-elim (Result IsU64) (kind == 3) _ _ (λ _. is_host.of_u64_fits _) (λ _. tt)

  double-After : (c : Cpu) (inst : Instruction) → IsCpu c → After (execute_fp_double host c inst)
  unfolding execute_fp_double freg_get_d
  double-After c inst h =
      let f5 = shr inst.funct7 2 in
      let put = λ (v : ℕ) (l : IsU64 v). freg_set_d-IsCpu c inst.rd v l h in
      let a = h.fregs_fit inst.rs1 in
      let b = h.fregs_fit inst.rs2 in
      if-elim After (f5 == 0x00) _ _ (λ _. put _ (is_host.add_fits _ _))
        λ _.
          if-elim After (f5 == 0x01) _ _ (λ _. put _ (is_host.sub_fits _ _))
            λ _.
              if-elim After (f5 == 0x02) _ _ (λ _. put _ (is_host.mul_fits _ _))
                λ _.
                  if-elim After (f5 == 0x03) _ _ (λ _. put _ (is_host.div_fits _ _))
                    λ _.
                      if-elim After (f5 == 0x0B) _ _ (λ _. put _ (is_host.sqrt_fits _))
                        λ _.
                          if-elim After (f5 == 0x04) _ _
                            (λ _. set_double c inst.rd _ h (fsgnj_d-fits inst.funct3 _ _ a))
                            λ _.
                              if-elim After (f5 == 0x05) _ _
                                (λ _. put _ (fminmax-fits inst.funct3 _ _ a b))
                                λ _.
                                  if-elim After (f5 == 0x08) _ _
                                    (λ _. put _ (is_host.extend_fits _))
                                    λ _.
                                      if-elim After (f5 == 0x18) _ _
                                        (λ _.
                                          set_int c inst.rd _ h
                                            (fcvt_fi-fits host.double inst.rs2 _))
                                        λ _.
                                          if-elim After (f5 == 0x1A) _ _
                                            (λ _.
                                              set_double c inst.rd _ h (fcvt_if-fits inst.rs2 _))
                                            λ _.
                                              if-elim After (f5 == 0x1C) _ _
                                                (λ _. reg_write-IsCpu c inst.rd _ h (
                                                  if-elim IsU64 (inst.funct3 == 0) _ _ (λ _. a)
                                                    (λ _. fclass-fits host.double _)))
                                                λ _.
                                                  if-elim After (f5 == 0x14) _ _
                                                    (λ _.
                                                      set_int c inst.rd _ h
                                                        (fcmp-fits host.double inst.funct3 _ _))
                                                    λ _.
                                                      if-elim After (f5 == 0x1E) _ _
                                                        (λ _. put _ (h.regs_fit inst.rs1)) (λ _. tt)

  fused-fits : (opcode a b c : ℕ) → IsU64 (fused host host.double opcode a b c)
  unfolding fused
  fused-fits opcode a b c =
      if-elim IsU64 (opcode == 0x43) _ _ (λ _. is_host.add_fits _ _)
        λ _.
          if-elim IsU64 (opcode == 0x47) _ _ (λ _. is_host.sub_fits _ _)
            λ _.
              if-elim IsU64 (opcode == 0x4B) _ _ (λ _. is_host.add_fits _ _)
                (λ _. is_host.sub_fits _ _)

  pub execute_fma-IsCpu : (inst : Instruction) (c : Cpu) → IsCpu c → IsCpu (execute_fma host c inst)
  unfolding execute_fma
  execute_fma-IsCpu inst c h =
      if-elim IsCpu (bit_and inst.funct7 3 == 0) _ _ (λ _. freg_set_f-IsCpu c inst.rd _ h)
        (λ _. freg_set_d-IsCpu c inst.rd _ (fused-fits inst.opcode _ _ _) h)

  lift-After : (o : Outcome Cpu) → After o → Gives IsMachine IsCpu (lift o)
  unfolding lift
  lift-After (ok c) h = Gives-pure c h
  lift-After (exits e) h = Gives-exit e
  lift-After fault h = Gives-crash
  lift-After spins h = Gives-spin

  pub execute_float-Keeps : (inst : Instruction) → Keeps IsMachine (execute_float host inst)
  unfolding execute_float
  execute_float-Keeps inst =
      Gives-bind _ _ (Gives-gets {Q = IsCpu} (λ m. m.cpu) (λ m h. h.is_cpu)) λ c h.
        Gives-bind _ _
          (lift-After _ (
            if-elim After (bit_and inst.funct7 3 == 0) (execute_fp_single host c inst)
              (execute_fp_double host c inst) (λ _. single-After c inst h)
              (λ _. double-After c inst h)))
          λ c' k.
            Gives-bind _ _ (Keeps-modify _ (λ m l. set_cpu-IsMachine m c' l k))
              (λ _ _. Keeps-pure next)
