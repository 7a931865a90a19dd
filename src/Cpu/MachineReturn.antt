-- ===== src/Cpu/MachineReturn.antt =====
-- src/cpu.c: a trap to M-mode followed by mret.
use tinyvm.Base.{
  ℕ, zero, suc, ◌/◌, ◌%◌, ◌^◌, ◌≤◌, ◌<◌, ◌≡◌, refl, false, ◌==◌, if◌then◌else◌, bit_and, has_flag,
  clear_flags, set_flags, shl64, shr, arith,
}
use tinyvm.Base.Bits.{
  bit, bit-zero, bit-two_pow, bit-set_flag, bit-clear_flag, bit-clear_flags, bit-copy_flag,
  bit-bit_or, bit_and-shifted, bit_and_mask,
}
use tinyvm.Machine.{Cpu}
use tinyvm.Cpu.Csr.{csr_read, csr_write, csr_mstatus, mstatus_mpp_mask}
use tinyvm.Cpu.Trap.{enter_m_status, leave_m_status, trap_to_m, execute_mret}

-- The two bits of MPP.
bit-mpp_mask : (i : ℕ) → bit mstatus_mpp_mask i ≡ (if i == 12 then 1 else if i == 11 then 1 else 0)
bit-mpp_mask i = ground (arith, bit-set_flag 12 (2 ^ 11) i, bit-two_pow 11 i)

bit-mpp :
    (privilege i : ℕ)
    → privilege ≤ 3
    → bit (shl64 privilege 11) i
      ≡ (if i == 11 then privilege % 2 else if i == 12 then privilege / 2 else 0)
bit-mpp zero i h = ground (arith, bit-zero i)
bit-mpp (suc zero) i h = ground (arith, bit-two_pow 11 i)
bit-mpp (suc (suc zero)) i h = ground (arith, bit-two_pow 12 i)
bit-mpp (suc (suc (suc zero))) i h = ground (arith, bit-mpp_mask i)
bit-mpp (suc (suc (suc (suc p)))) i h = absurd (omega arith)

-- The status before MPP is written.
abbrev saved : ℕ → ℕ
saved status =
    let a = clear_flags status (2 ^ 7) in
    clear_flags (if has_flag a (2 ^ 3) then set_flags a (2 ^ 7) else a) (2 ^ 3)

bit-saved :
    (status i : ℕ)
    → i < 64
    → bit (saved status) i ≡ (if i == 3 then 0 else if i == 7 then bit status 3 else bit status i)
bit-saved status i h =
    let a = clear_flags status (2 ^ 7) in
    let b = if has_flag a (2 ^ 3) then set_flags a (2 ^ 7) else a in
    rw
      (
        bit-clear_flag 3 b i (omega arith) h,
        bit-copy_flag 3 7 a i,
        bit-clear_flag 7 status i (omega arith) h,
        bit-clear_flag 7 status 3 (omega arith) (omega arith),
      )
      (ground arith)

-- A trap to M-mode clears MIE (bit 3), keeps its old value in MPIE (bit 7) and the privilege in MPP (bits
-- 11 and 12), and leaves the other bits alone.
bit-enter_m_status :
    (privilege status i : ℕ)
    → privilege ≤ 3
    → i < 64
    → bit (enter_m_status privilege status) i ≡ (
        if i == 3
        then 0
        else if i == 7
        then bit status 3
        else if i == 11
        then privilege % 2
        else if i == 12
        then privilege / 2
        else bit status i)
unfolding enter_m_status
bit-enter_m_status privilege status i p h =
    let c = saved status in
    rw
      (
        bit-bit_or i (clear_flags c mstatus_mpp_mask) (shl64 privilege 11),
        bit-mpp privilege i p,
        bit-clear_flags mstatus_mpp_mask c i (omega arith) h,
        bit-mpp_mask i,
        bit-saved status i h,
      )
      (ground arith)

-- mret clears MPP, brings MIE back from MPIE, sets MPIE, and leaves the other bits alone.
bit-leave_m_status :
    (status i : ℕ)
    → i < 64
    → bit (leave_m_status status) i ≡ (
        if i == 3
        then bit status 7
        else if i == 7
        then 1
        else if i == 11
        then 0
        else if i == 12
        then 0
        else bit status i)
unfolding leave_m_status
bit-leave_m_status status i h =
    let a = clear_flags status mstatus_mpp_mask in
    let b = clear_flags a (2 ^ 3) in
    let c = if has_flag b (2 ^ 7) then set_flags b (2 ^ 3) else b in
    ground (
      arith,
      bit-clear_flags mstatus_mpp_mask status i (omega arith) h,
      bit-clear_flags mstatus_mpp_mask status 7 (omega arith) (omega arith),
      bit-mpp_mask i,
      bit-clear_flag 3 a i (omega arith) h,
      bit-clear_flag 3 a 7 (omega arith) (omega arith),
      bit-copy_flag 7 3 b i,
      bit-set_flag 7 c i,
    )

mpp-privilege :
    (privilege status : ℕ)
    → privilege ≤ 3
    → shr (bit_and (enter_m_status privilege status) mstatus_mpp_mask) 11 ≡ privilege
mpp-privilege privilege status p =
    let v = enter_m_status privilege status in
    let low = bit-enter_m_status privilege status 11 p (omega arith) in
    let high = bit-enter_m_status privilege status 12 p (omega arith) in
    omega (arith, bit_and-shifted 11 v 3, bit_and_mask 2 (v / 2 ^ 11), low, high)

-- What mret gives back: `i` is any bit of mstatus but MPIE and MPP.
pub record IsBackInMode (c t : Cpu) : Type 0 where
  pub pc_back : t.pc ≡ c.pc
  pub privilege_back : t.privilege ≡ c.privilege
  pub regs_back : t.regs ≡ c.regs
  pub status_back :
      (i : ℕ)
      → i < 64
      → (i == 7) ≡ false
      → (i == 11) ≡ false
      → (i == 12) ≡ false
      → bit (t.csrs csr_mstatus) i ≡ bit (c.csrs csr_mstatus) i

leave-enter_m_status :
    (privilege status i : ℕ)
    → privilege ≤ 3
    → i < 64
    → (i == 7) ≡ false
    → (i == 11) ≡ false
    → (i == 12) ≡ false
    → bit (leave_m_status (enter_m_status privilege status)) i ≡ bit status i
leave-enter_m_status privilege status i p h e e' e'' =
    rw
      (
        bit-leave_m_status (enter_m_status privilege status) i h,
        bit-enter_m_status privilege status i p h,
        bit-enter_m_status privilege status 7 p (omega arith),
      )
      (ground (arith, e, e', e''))

-- For a trap taken to M-mode in any mode, mret in the handler goes back to the instruction that trapped,
-- in the mode that it ran in, with the same registers and the same mstatus but for MPIE and MPP.
pub execute_mret-trap_to_m :
    (c : Cpu) (cause tval : ℕ)
    → c.privilege ≤ 3
    → IsBackInMode c (execute_mret (trap_to_m c cause tval))
unfolding execute_mret trap_to_m csr_write csr_read
execute_mret-trap_to_m c cause tval p = record {
  pc_back = refl;
  privilege_back = mpp-privilege c.privilege (c.csrs csr_mstatus) p;
  regs_back = refl;
  status_back = λ i. leave-enter_m_status c.privilege (c.csrs csr_mstatus) i p;
}
