-- ===== src/Sbi/Returns.antt =====
-- src/sbi.c: what every call of the firmware leaves alone, and which one halts the hart.
use tinyvm.Base.{
  Bool, ℕ, ◌≡◌, refl, ap, sym, subst, true, false, if◌then◌else◌, arith, ◌==◌, if-elim, add64,
}
use tinyvm.Machine.{Machine, Cpu, on_cpu}
use tinyvm.Cpu.Csr.{cpu_lower_irq, reg_a0, reg_a1, reg_a6, reg_a7, insn_size}
use tinyvm.Device.Clint.{clint_set_timecmp}
use tinyvm.Sbi.{
  sbi_eid_set_timer, sbi_eid_timer, sbi_eid_putchar, sbi_eid_base, sbi_eid_reset,
  sbi_timer_set_timer, sbi_base_get_spec_version, sbi_base_probe_extension, reply, handle_base,
  sbi_success, sbi_err_not_supported, sbi_set_timer, sbi_dispatch, sbi_ecall,
}

-- What a call leaves as it was: the pc, the privilege, and the registers but a0 and a1. It stops the hart
-- exactly if `stops`.
pub record IsReplied (stops : Bool) (c t : Cpu) : Type 0 where
  pub pc_is : t.pc ≡ c.pc
  pub privilege_is : t.privilege ≡ c.privilege
  pub regs_are : (r : ℕ) → (r == reg_a0) ≡ false → (r == reg_a1) ≡ false → t.regs r ≡ c.regs r
  pub halted_is : t.halted ≡ (if stops then true else c.halted)

reply-IsReplied : (c : Cpu) (error value : ℕ) → IsReplied false c (reply error value c)
reply-IsReplied c error value = record {
  pc_is = refl;
  privilege_is = refl;
  regs_are = λ r e q. rw (q, e) refl;
  halted_is = refl;
}

reset-IsReplied : (c : Cpu) → IsReplied true c (reply sbi_success 0 (record c { halted = true }))
reset-IsReplied c = record {
  pc_is = refl;
  privilege_is = refl;
  regs_are = λ r e q. rw (q, e) refl;
  halted_is = refl;
}

handle_base-IsReplied : (c : Cpu) → IsReplied false c (handle_base c)
unfolding handle_base
handle_base-IsReplied c =
    let fid = c.regs reg_a6 in
    if-elim (IsReplied false c) (fid == sbi_base_get_spec_version) _ _ (λ _. reply-IsReplied c _ _)
      λ _.
        if-elim (IsReplied false c) (fid == sbi_base_probe_extension) _ _
          (λ _. reply-IsReplied c _ _) (λ _. reply-IsReplied c _ _)

-- As IsReplied, of the machines.
record Replies (stops : Bool) (m t : Machine) : Type 0 where
  pub is_replied : IsReplied stops m.cpu t.cpu

sbi_set_timer-Replies : (m : Machine) → Replies false m (sbi_set_timer m)
unfolding sbi_set_timer cpu_lower_irq clint_set_timecmp
sbi_set_timer-Replies m = record {
  is_replied = record {
    pc_is = refl;
    privilege_is = refl;
    regs_are = λ r e q. rw (q, e) refl;
    halted_is = refl;
  };
}

refused-Replies : (m : Machine) (error value : ℕ) → Replies false m (on_cpu (reply error value) m)
refused-Replies m error value = record { is_replied = reply-IsReplied m.cpu error value }

-- The system reset extension, by its number in the specification.
abbrev pub is_reset : Cpu → Bool
is_reset c = c.regs reg_a7 == 0x53525354

sbi_dispatch-Replies : (m : Machine) → Replies (is_reset m.cpu) m (sbi_dispatch m)
unfolding sbi_dispatch
sbi_dispatch-Replies m =
    let eid = m.cpu.regs reg_a7 in
    if-elim (Replies (is_reset m.cpu) m) (eid == sbi_eid_set_timer) _ _
      (λ e. known sbi_eid_set_timer _ refl e (sbi_set_timer-Replies m))
      λ _.
        if-elim (Replies (is_reset m.cpu) m) (eid == sbi_eid_timer) _ _
          (λ e. known sbi_eid_timer _ refl e (
            if-elim (Replies false m) (m.cpu.regs reg_a6 == sbi_timer_set_timer) _ _
              (λ _. sbi_set_timer-Replies m) (λ _. refused-Replies m _ _)))
          λ _.
            if-elim (Replies (is_reset m.cpu) m) (eid == sbi_eid_putchar) _ _
              (λ e.
                known sbi_eid_putchar _ refl e (record { is_replied = reply-IsReplied m.cpu _ _ }))
              λ _.
                if-elim (Replies (is_reset m.cpu) m) (eid == sbi_eid_base) _ _
                  (λ e.
                    known sbi_eid_base _ refl e
                      (record { is_replied = handle_base-IsReplied m.cpu }))
                  λ _.
                    if-elim (Replies (is_reset m.cpu) m) (eid == sbi_eid_reset) _ _
                      (λ e.
                        subst
                          (λ b.
                            Replies b m
                              (on_cpu (λ c. reply sbi_success 0 (record c { halted = true })) m))
                          (sym e) (record { is_replied = reset-IsReplied m.cpu }))
                      (λ e.
                        subst (λ b. Replies b m (on_cpu (reply sbi_err_not_supported 0) m)) (sym e)
                          (refused-Replies m sbi_err_not_supported 0))
  where
    known :
        (k : ℕ) (t : Machine)
        → (k == 0x53525354) ≡ false
        → (m.cpu.regs reg_a7 == k) ≡ true
        → Replies false m t
        → Replies (is_reset m.cpu) m t
    known k t apart e h =
        let other : is_reset m.cpu ≡ false = ground arith in
        subst (λ b. Replies b m t) (sym other) h

-- Whatever extension and function the guest asks for, known or not, the call leaves the hart at the
-- instruction after the ecall, in the same mode, and changes no general register but a0 and a1; it
-- halts the hart if the extension is that of the system reset, and otherwise leaves it running or halted
-- as it was.
pub sbi_ecall-returns :
    (m : Machine)
    → ((sbi_ecall m).cpu.pc ≡ add64 m.cpu.pc insn_size)
      × ((sbi_ecall m).cpu.privilege ≡ m.cpu.privilege)
      × ((sbi_ecall m).cpu.halted ≡ (if is_reset m.cpu then true else m.cpu.halted))
      × ((r : ℕ)
          → (r == reg_a0) ≡ false
          → (r == reg_a1) ≡ false
          → (sbi_ecall m).cpu.regs r ≡ m.cpu.regs r)
unfolding sbi_ecall
sbi_ecall-returns m =
    let h = (sbi_dispatch-Replies m).is_replied in
    (ap (λ pc. add64 pc insn_size) h.pc_is, h.privilege_is, h.halted_is, h.regs_are)
