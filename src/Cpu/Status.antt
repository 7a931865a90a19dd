-- ===== src/Cpu/Status.antt =====
-- src/cpu.c: what a trap to S-mode, a trap to M-mode and their returns do to each bit of mstatus,
-- and that sret undoes a trap to S-mode.
use tinyvm.Base.{
  ℕ, ◌^◌, ◌≤◌, ◌<◌, ◌≡◌, Bool, true, false, ◌==◌, if◌then◌else◌, has_flag, clear_flags, set_flags,
  arith,
}
use tinyvm.Base.Bits.{bit, bit-clear_flag, bit-copy_flag, bit-set_if, bit-set_flag}
use tinyvm.Cpu.Trap.{enter_s_status, leave_s_status}

entered :
    (from_s : Bool) (x y i : ℕ)
    → x ≤ 1
    → (if from_s
        then (if i == 8
            then 1
            else if i == 8
            then 0
            else if i == 1
            then 0
            else if x == 1
            then (if i == 5 then 1 else if i == 5 then 0 else y)
            else if i == 5
            then 0
            else y)
        else if i == 8
        then 0
        else if i == 1
        then 0
        else if x == 1
        then (if i == 5 then 1 else if i == 5 then 0 else y)
        else if i == 5
        then 0
        else y)
      ≡ (if i == 1
          then 0
          else if i == 5
          then x
          else if i == 8
          then (if from_s then 1 else 0)
          else y)
entered true x y i h = ground arith
entered false x y i h = ground arith

-- A trap to S-mode clears SIE (bit 1), keeps its old value in SPIE (bit 5), records in SPP (bit 8)
-- whether it came from S-mode, and leaves the other bits alone.
pub bit-enter_s_status :
    (privilege status i : ℕ)
    → i < 64
    → bit (enter_s_status privilege status) i ≡ (
        if i == 1
        then 0
        else if i == 5
        then bit status 1
        else if i == 8
        then (if privilege == 1 then 1 else 0)
        else bit status i)
unfolding enter_s_status
bit-enter_s_status privilege status i h =
    let a = clear_flags status (2 ^ 5) in
    let b = if has_flag a (2 ^ 1) then set_flags a (2 ^ 5) else a in
    let c = clear_flags b (2 ^ 1) in
    let d = clear_flags c (2 ^ 8) in
    rw
      (
        bit-set_if (privilege == 1) 8 d i,
        bit-clear_flag 8 c i (omega arith) h,
        bit-clear_flag 1 b i (omega arith) h,
        bit-copy_flag 1 5 a i,
        bit-clear_flag 5 status i (omega arith) h,
        bit-clear_flag 5 status 1 (omega arith) (omega arith),
      )
      (entered (privilege == 1) (bit status 1) (bit status i) i (omega arith))

-- sret clears SPP, brings SIE back from SPIE, sets SPIE, and leaves the other bits alone.
pub bit-leave_s_status :
    (status i : ℕ)
    → i < 64
    → bit (leave_s_status status) i
      ≡ (if i == 1 then bit status 5 else if i == 5 then 1 else if i == 8 then 0 else bit status i)
unfolding leave_s_status
bit-leave_s_status status i h =
    let a = clear_flags status (2 ^ 8) in
    let b = clear_flags a (2 ^ 1) in
    let c = if has_flag b (2 ^ 5) then set_flags b (2 ^ 1) else b in
    ground (
      arith,
      bit-clear_flag 8 status i (omega arith) h,
      bit-clear_flag 8 status 5 (omega arith) (omega arith),
      bit-clear_flag 1 a i (omega arith) h,
      bit-clear_flag 1 a 5 (omega arith) (omega arith),
      bit-copy_flag 5 1 b i,
      bit-set_flag 5 c i,
    )
