-- ===== src/Wf/Sbi.antt =====
-- src/sbi.c: the firmware calls keep the machine well-formed. The actions on the CPU that the
-- instructions share stand here too.
use tinyvm.Base.{
  ℕ, ◌-◌, true, ◌==◌, if-elim, List, u64_max, add64, arith, Outcome, ok, exits, fault, spins,
  modify, gets, Gives, Keeps, Gives-pure, Gives-exit, Gives-crash, Gives-spin, Gives-gets,
  Keeps-modify,
}
use tinyvm.Machine.{Machine, Cpu, on_cpu}
use tinyvm.Cpu.Csr.{mip_stip, reg_a0}
use tinyvm.Sbi.{reply, handle_base, is_supported_eid, sbi_set_timer, sbi_dispatch, sbi_ecall}
use tinyvm.Device.Clint.{clint_set_timecmp}
use tinyvm.Execute.Dispatch.{lift, set_reg, jump_to}
use tinyvm.Wf.Defs.{IsMachine, IsCpu, IsU64}
use tinyvm.Wf.Cpu.{reg_write-IsCpu, set_reg-IsCpu, goto-IsCpu, cpu_lower_irq-IsCpu}
use tinyvm.Wf.Device.{set_cpu-IsMachine, set_timer-IsMachine}
use tinyvm.Wf.Alu.{Result, flag_of-fits}

-- A change of the CPU that keeps it well-formed.
pub on_cpu-Keeps :
    (f : Cpu → Cpu) → ((c : Cpu) → IsCpu c → IsCpu (f c)) → Keeps IsMachine (modify (on_cpu f))
on_cpu-Keeps f k = Keeps-modify _ (λ m h. set_cpu-IsMachine m _ h (k m.cpu h.is_cpu))

pub set_reg-Keeps : (rd v : ℕ) → IsU64 v → Keeps IsMachine (set_reg rd v)
set_reg-Keeps rd v l = on_cpu-Keeps _ (λ c h. reg_write-IsCpu c rd v h l)

pub jump_to-Keeps : (target : ℕ) → IsU64 target → Keeps IsMachine (jump_to target)
jump_to-Keeps target l =
    on_cpu-Keeps _ (λ c h. goto-IsCpu c c.privilege target h h.privilege_fits l)

pub skip-Keeps : (n : ℕ) → Keeps IsMachine (modify (on_cpu (λ c. record c { pc = add64 c.pc n })))
skip-Keeps n = on_cpu-Keeps _ (λ c h. goto-IsCpu c c.privilege _ h h.privilege_fits (omega arith))

pub gets_reg : (r : ℕ) → Gives IsMachine IsU64 (gets (λ m. m.cpu.regs r))
gets_reg r = Gives-gets _ (λ m h. h.is_cpu.regs_fit r)

pub gets_pc : Gives IsMachine IsU64 (gets (λ m. m.cpu.pc))
gets_pc = Gives-gets _ (λ m h. h.is_cpu.pc_fits)

pub lift-Gives : (o : Outcome ℕ) → Result IsU64 o → Gives IsMachine IsU64 (lift o)
unfolding lift
lift-Gives (ok v) l = Gives-pure v l
lift-Gives (exits c) l = Gives-exit c
lift-Gives fault l = Gives-crash
lift-Gives spins l = Gives-spin

-- A reply to the kernel in a0 and a1.
reply-IsCpu :
    (error value : ℕ) (c : Cpu) → IsU64 error → IsU64 value → IsCpu c → IsCpu (reply error value c)
reply-IsCpu error value c k l h =
    set_reg-IsCpu _ 11 value (omega arith) (set_reg-IsCpu c 10 error (omega arith) h k) l

handle_base-IsCpu : (c : Cpu) → IsCpu c → IsCpu (handle_base c)
unfolding handle_base
handle_base-IsCpu c h =
    if-elim IsCpu (c.regs 16 == 0) _ _ (λ _. reply-IsCpu 0 2 c (omega arith) (omega arith) h)
      λ _.
        if-elim IsCpu (c.regs 16 == 3) _ _
          (λ _. reply-IsCpu 0 _ c (omega arith) (flag_of-fits (is_supported_eid (c.regs reg_a0))) h)
          (λ _. reply-IsCpu (u64_max - 1) 0 c (omega arith) (omega arith) h)

sbi_set_timer-IsMachine : (m : Machine) → IsMachine m → IsMachine (sbi_set_timer m)
unfolding sbi_set_timer clint_set_timecmp
sbi_set_timer-IsMachine m h =
    let k = cpu_lower_irq-IsCpu m.cpu mip_stip h.is_cpu in
    let h₁ = set_timer-IsMachine _ _ (set_cpu-IsMachine m _ h k) (k.regs_fit reg_a0) in
    set_cpu-IsMachine _ _ h₁ (reply-IsCpu 0 0 _ (omega arith) (omega arith) k)

output_reply : (m : Machine) (o : List ℕ) → IsMachine m → IsMachine (record m { output = o })
output_reply m o h = record {
  is_cpu = h.is_cpu;
  are_regions = h.are_regions;
  is_virtio = h.is_virtio;
  mtimecmp_fits = h.mtimecmp_fits;
  is_plic = h.is_plic;
  is_uart = h.is_uart;
}

halt-IsCpu : (c : Cpu) → IsCpu c → IsCpu (record c { halted = true })
halt-IsCpu c h = record {
  x0 = h.x0;
  regs_fit = h.regs_fit;
  fregs_fit = h.fregs_fit;
  pc_fits = h.pc_fits;
  csrs_fit = h.csrs_fit;
  privilege_fits = h.privilege_fits;
  steps_fit = h.steps_fit;
}

pub sbi_ecall-IsMachine : (m : Machine) → IsMachine m → IsMachine (sbi_ecall m)
unfolding sbi_ecall sbi_dispatch
sbi_ecall-IsMachine m h =
    let eid = m.cpu.regs 17 in
    let replied = λ (e : ℕ) (k : IsU64 e).
      set_cpu-IsMachine m _ h (reply-IsCpu e 0 m.cpu k (omega arith) h.is_cpu) in
    let h₁ : IsMachine (sbi_dispatch m) =
      if-elim IsMachine (eid == 0) _ _ (λ _. sbi_set_timer-IsMachine m h)
        λ _.
          if-elim IsMachine (eid == 0x54494D45) _ _
            (λ _.
              if-elim IsMachine (m.cpu.regs 16 == 0) _ _ (λ _. sbi_set_timer-IsMachine m h)
                (λ _. replied (u64_max - 1) (omega arith)))
            λ _.
              if-elim IsMachine (eid == 1) _ _
                (λ _.
                  set_cpu-IsMachine _ _ (output_reply m _ h)
                    (reply-IsCpu 0 0 m.cpu (omega arith) (omega arith) h.is_cpu))
                λ _.
                  if-elim IsMachine (eid == 0x10) _ _
                    (λ _. set_cpu-IsMachine m _ h (handle_base-IsCpu m.cpu h.is_cpu))
                    λ _.
                      if-elim IsMachine (eid == 0x53525354) _ _
                        (λ _. set_cpu-IsMachine m _ h (
                          reply-IsCpu 0 0 _ (omega arith) (omega arith)
                            (halt-IsCpu m.cpu h.is_cpu)))
                        (λ _. replied (u64_max - 1) (omega arith)) in
    set_cpu-IsMachine _ _ h₁ (goto-IsCpu _ _ _ h₁.is_cpu h₁.is_cpu.privilege_fits (omega arith))
