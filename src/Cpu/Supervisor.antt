-- ===== src/Cpu/Supervisor.antt =====
-- src/cpu.c: csr_write and csr_read of sstatus, the view of mstatus that S-mode has.
use tinyvm.Base.{ℕ, ◌<◌, ◌≡◌, bit_and, ◌==◌, if◌then◌else◌, clear_flags, arith}
use tinyvm.Base.Bits.{bit, bit-bit_and, bit-bit_or, bit-clear_flags}
use tinyvm.Machine.{Cpu}
use tinyvm.Cpu.Csr.{csr_write, csr_mstatus, csr_sstatus, sstatus_mask}

-- A write of sstatus changes exactly the bits of mstatus that S-mode may see, to the bits of the
-- value written; every other bit of mstatus stays.
pub csr_write-sstatus :
    (c : Cpu) (val i : ℕ)
    → i < 64
    → bit ((csr_write c csr_sstatus val).csrs csr_mstatus) i
      ≡ (if bit sstatus_mask i == 1 then bit val i else bit (c.csrs csr_mstatus) i)
unfolding csr_write
csr_write-sstatus c val i h =
    let old = c.csrs csr_mstatus in
    ground (
      arith,
      bit-bit_or i (clear_flags old sstatus_mask) (bit_and val sstatus_mask),
      bit-clear_flags sstatus_mask old i (omega arith) h,
      bit-bit_and i val sstatus_mask,
    )
