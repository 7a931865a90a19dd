-- ===== src/Wf/Cpu.antt =====
-- src/cpu.c: register writes keep the CPU well-formed.
use tinyvm.Base.{
  ℕ, ◌≤◌, bit_and, bit_or, ◌==◌, set_at, not64, clear_flags, set_flags, arith, if-elim, not, ◌≢◌,
}
use tinyvm.Base.Bits.{bit_and-lt, bit_or-lt}
use tinyvm.Machine.{Cpu}
use tinyvm.Cpu.Csr.{
  set_csr, csr_read, csr_write, legal_satp, reg_write, cpu_raise_irq, cpu_lower_irq, csr_mip,
  csr_mstatus, csr_mie, csr_mideleg, sstatus_mask, satp_mode_mask, csr_sstatus, csr_sie, csr_sip,
  csr_satp, mip_ssip,
}
use tinyvm.Wf.Defs.{IsCpu, IsU64}

pub clear_flags-fits : (a m : ℕ) → IsU64 a → IsU64 (clear_flags a m)
clear_flags-fits a m h = bit_and-lt 64 a (not64 m) h

pub set_flags-fits : (a m : ℕ) → IsU64 a → IsU64 m → IsU64 (set_flags a m)
set_flags-fits a m h k = bit_or-lt 64 a m h k

-- The three ways in which the source changes a CPU: a CSR, an integer register, and the pc with
-- the privilege.
pub set_csr-IsCpu : (c : Cpu) (addr val : ℕ) → IsCpu c → IsU64 val → IsCpu (set_csr c addr val)
set_csr-IsCpu c addr val h l = record {
  x0 = h.x0;
  regs_fit = h.regs_fit;
  fregs_fit = h.fregs_fit;
  pc_fits = h.pc_fits;
  csrs_fit = λ a. if-elim IsU64 (a == addr) val (c.csrs a) (λ _. l) (λ _. h.csrs_fit a);
  privilege_fits = h.privilege_fits;
  steps_fit = h.steps_fit;
}

pub set_reg-IsCpu :
    (c : Cpu) (rd val : ℕ)
    → rd ≢ 0
    → IsCpu c
    → IsU64 val
    → IsCpu (record c { regs = set_at c.regs rd val })
set_reg-IsCpu c rd val ne h l = record {
  x0 = ground (arith, h.x0);
  regs_fit = λ r. if-elim IsU64 (r == rd) val (c.regs r) (λ _. l) (λ _. h.regs_fit r);
  fregs_fit = h.fregs_fit;
  pc_fits = h.pc_fits;
  csrs_fit = h.csrs_fit;
  privilege_fits = h.privilege_fits;
  steps_fit = h.steps_fit;
}

pub set_freg-IsCpu :
    (c : Cpu) (rd val : ℕ)
    → IsCpu c
    → IsU64 val
    → IsCpu (record c { fregs = set_at c.fregs rd val })
set_freg-IsCpu c rd val h l = record {
  x0 = h.x0;
  regs_fit = h.regs_fit;
  fregs_fit = λ r. if-elim IsU64 (r == rd) val (c.fregs r) (λ _. l) (λ _. h.fregs_fit r);
  pc_fits = h.pc_fits;
  csrs_fit = h.csrs_fit;
  privilege_fits = h.privilege_fits;
  steps_fit = h.steps_fit;
}

pub goto-IsCpu :
    (c : Cpu) (privilege pc : ℕ)
    → IsCpu c
    → privilege ≤ 3
    → IsU64 pc
    → IsCpu (record c { privilege = privilege; pc = pc })
goto-IsCpu c privilege pc h p l = record {
  x0 = h.x0;
  regs_fit = h.regs_fit;
  fregs_fit = h.fregs_fit;
  pc_fits = l;
  csrs_fit = h.csrs_fit;
  privilege_fits = p;
  steps_fit = h.steps_fit;
}

pub reg_write-IsCpu : (c : Cpu) (rd val : ℕ) → IsCpu c → IsU64 val → IsCpu (reg_write c rd val)
unfolding reg_write
reg_write-IsCpu c rd val h l =
    if-elim IsCpu (not (rd == 0)) _ c (λ ne. set_reg-IsCpu c rd val (λ e. ground arith) h l)
      (λ _. h)

pub csr_read-fits : (c : Cpu) (addr : ℕ) → IsCpu c → IsU64 (csr_read c addr)
unfolding csr_read
csr_read-fits c addr h = ground (
  arith,
  h.csrs_fit addr,
  bit_and-lt 64 (c.csrs csr_mstatus) sstatus_mask (h.csrs_fit csr_mstatus),
  bit_and-lt 64 (c.csrs csr_mie) (c.csrs csr_mideleg) (h.csrs_fit csr_mie),
  bit_and-lt 64 (c.csrs csr_mip) (c.csrs csr_mideleg) (h.csrs_fit csr_mip),
)

legal_satp-fits : (val : ℕ) → IsU64 val → IsU64 (legal_satp val)
unfolding legal_satp
legal_satp-fits val l = if-elim IsU64 _ _ val (λ _. clear_flags-fits val satp_mode_mask l) (λ _. l)

-- The old bits outside a mask joined with the new bits inside it.
merge-fits :
    (old val mask : ℕ)
    → IsU64 old
    → IsU64 val
    → IsU64 (bit_or (clear_flags old mask) (bit_and val mask))
merge-fits old val mask h l =
    bit_or-lt 64 (clear_flags old mask) (bit_and val mask) (clear_flags-fits old mask h)
      (bit_and-lt 64 val mask l)

pub csr_write-IsCpu : (c : Cpu) (addr val : ℕ) → IsCpu c → IsU64 val → IsCpu (csr_write c addr val)
unfolding csr_write
csr_write-IsCpu c addr val h l =
    if-elim IsCpu (addr == csr_sstatus) _ _
      (λ _.
        set_csr-IsCpu c csr_mstatus _ h (merge-fits _ val sstatus_mask (h.csrs_fit csr_mstatus) l))
      λ _.
        if-elim IsCpu (addr == csr_sie) _ _
          (λ _. set_csr-IsCpu c csr_mie _ h (merge-fits _ val _ (h.csrs_fit csr_mie) l))
          λ _.
            if-elim IsCpu (addr == csr_sip) _ _
              (λ _. set_csr-IsCpu c csr_mip _ h (merge-fits _ val mip_ssip (h.csrs_fit csr_mip) l))
              λ _.
                if-elim IsCpu (addr == csr_satp) _ _
                  (λ _. set_csr-IsCpu c csr_satp _ h (legal_satp-fits val l))
                  (λ _. set_csr-IsCpu c addr val h l)

pub cpu_raise_irq-IsCpu : (c : Cpu) (line : ℕ) → IsCpu c → IsU64 line → IsCpu (cpu_raise_irq c line)
unfolding cpu_raise_irq
cpu_raise_irq-IsCpu c line h l =
    set_csr-IsCpu c csr_mip _ h (set_flags-fits (c.csrs csr_mip) line (h.csrs_fit csr_mip) l)

pub cpu_lower_irq-IsCpu : (c : Cpu) (line : ℕ) → IsCpu c → IsCpu (cpu_lower_irq c line)
unfolding cpu_lower_irq
cpu_lower_irq-IsCpu c line h =
    set_csr-IsCpu c csr_mip _ h (clear_flags-fits (c.csrs csr_mip) line (h.csrs_fit csr_mip))
