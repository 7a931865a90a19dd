-- ===== src/Device/Registers.antt =====
-- src/virtio.c: registers that the guest writes in halves or bit by bit.
use tinyvm.Base.{
  zero, suc, if-elim, ltb→lt, ℕ, ◌-◌, ◌*◌, ◌/◌, ◌%◌, ◌^◌, ◌<◌, ◌≤◌, ◌≡◌, refl, ap, sym, ◌∙◌, true,
  false, bit_and, ◌==◌, ltb, if◌then◌else◌, u32, shl64, not32, Exec, ok, modify, arith,
}
use native.Mathlib.Nat.{one-le-pow, pow-suc, pow-le-pow_right, div-eq_of_lt}
use tinyvm.Base.Bits.{bit-suc, bit, bit-bit_and, bit-bit_or, bit-complement, bit_and_mask, bit-zero}
use tinyvm.Machine.{Machine}
use tinyvm.Device.Virtio.{on_slot}
use tinyvm.Device.Transport.{
  virtio_read, virtio_write, write_slot, set_addr_low, set_addr_high, virtio_mmio_interrupt_ack_off,
  virtio_mmio_interrupt_status_off,
}

bit-mod : (w x i : ℕ) → i < w → bit (x % 2 ^ w) i ≡ bit x i
bit-mod w x i h =
    let one : bit (2 ^ w - 1) i ≡ 1 =
      ap (λ t. bit t i) (omega arith)
      ∙ bit-complement w 0 i (one-le-pow w 2 (omega arith)) h
      ∙ ap (λ b. 1 - b) (bit-zero i) in
    rw (sym (bit_and_mask w x), bit-bit_and i x (2 ^ w - 1), one) (omega arith)

-- The machine after the guest acknowledges interrupts.
abbrev pub acknowledged : ℕ → ℕ → Machine → Machine
acknowledged n val m = on_slot n (write_slot virtio_mmio_interrupt_ack_off val) m

-- A write of the acknowledge register succeeds, and clears in the interrupt status that the guest
-- reads exactly the bits that are set in the value written.
pub virtio_write-acknowledges :
    (notify : ℕ → Exec Machine (Unit {0})) (n val i : ℕ) (m : Machine)
    → i < 32
    → (virtio_write notify n virtio_mmio_interrupt_ack_off val m ≡ ok (tt, acknowledged n val m))
      × (bit (virtio_read n virtio_mmio_interrupt_status_off (acknowledged n val m)) i ≡ (
          if bit val i == 1 then 0 else bit (virtio_read n virtio_mmio_interrupt_status_off m) i))
unfolding virtio_write virtio_read write_slot modify
virtio_write-acknowledges notify n val i m h =
    let here : (n == n) ≡ true = ground arith in
    let old = (m.virtio.slots n).interrupt_status in
    let kept = bit-bit_and i old (not32 (u32 val)) in
    let flipped = bit-complement 32 (u32 val) i (omega arith) h in
    let same = bit-mod 32 val i h in
    let masked : bit (bit_and old (not32 (u32 val))) i ≡ (if bit val i == 1 then 0 else bit old i) =
      ground (arith, kept, flipped, same) in
    (refl, rw (here) masked)

bit-small : (w x i : ℕ) → x < 2 ^ w → w ≤ i → bit x i ≡ 0
bit-small w x i h l =
    let wide = pow-le-pow_right {n = 2} (omega arith) {i = w} {j = i} l in
    let none : x / 2 ^ i ≡ 0 = div-eq_of_lt (omega (arith, h, wide)) in omega (arith, none)

bit-shifted : (k x i : ℕ) → bit (x * 2 ^ k) i ≡ (if ltb i k then 0 else bit x (i - k))
bit-shifted zero x i =
    let same : x * 2 ^ 0 ≡ x = omega arith in
    let all : i - 0 ≡ i = omega arith in
    let past : ltb i 0 ≡ false = ground arith in rw (same, all, past) refl
bit-shifted (suc k) x zero =
    let even : x * 2 ^ suc k ≡ 2 * (x * 2 ^ k) =
      omega (arith, ap (λ (t : ℕ). x * t) (pow-suc 2 k)) in
    let low : ltb 0 (suc k) ≡ true = ground arith in rw (even, low) (omega arith)
bit-shifted (suc k) x (suc i) =
    let half : x * 2 ^ suc k / 2 ≡ x * 2 ^ k = omega (arith, ap (λ (t : ℕ). x * t) (pow-suc 2 k)) in
    let test : ltb (suc i) (suc k) ≡ ltb i k = ground arith in
    let less : suc i - suc k ≡ i - k = omega arith in
    rw (bit-suc (x * 2 ^ suc k) i, half, test, less) (bit-shifted k x i)

-- The masks of the two halves, and a word moved to the high half.
bit-low_mask : (i : ℕ) → bit 0xFFFFFFFF i ≡ (if ltb i 32 then 1 else 0)
bit-low_mask i =
    if-elim (λ b. bit 0xFFFFFFFF i ≡ b) (ltb i 32) 1 0
      (λ low.
        let h : i < 32 = ltb→lt i 32 low in
        bit-complement 32 0 i (omega arith) h ∙ ap (λ b. 1 - b) (bit-zero i))
      (λ high. bit-small 32 0xFFFFFFFF i (omega arith) (ground (arith, high)))

bit-high_mask : (i : ℕ) → i < 64 → bit 0xFFFFFFFF00000000 i ≡ (if ltb i 32 then 0 else 1)
bit-high_mask i h = bit-complement 64 0xFFFFFFFF i (omega arith) h ∙ ground (arith, bit-low_mask i)

bit-shl64 : (x i : ℕ) → i < 64 → bit (shl64 x 32) i ≡ (if ltb i 32 then 0 else bit x (i - 32))
bit-shl64 x i h = bit-mod 64 (x * 2 ^ 32) i h ∙ bit-shifted 32 x i

bit-low_half : (x i : ℕ) → bit (u32 x) i ≡ (if ltb i 32 then bit x i else 0)
bit-low_half x i =
    if-elim (λ b. bit (u32 x) i ≡ b) (ltb i 32) (bit x i) 0
      (λ low. bit-mod 32 x i (ltb→lt i 32 low))
      (λ high. bit-small 32 (u32 x) i (omega arith) (ground (arith, high)))

bit-set_addr_low :
    (addr v i : ℕ)
    → i < 64
    → bit (set_addr_low addr v) i ≡ (if ltb i 32 then bit v i else bit addr i)
unfolding set_addr_low
bit-set_addr_low addr v i h = ground (
  arith,
  bit-bit_or i (bit_and addr 0xFFFFFFFF00000000) (u32 v),
  bit-bit_and i addr 0xFFFFFFFF00000000,
  bit-high_mask i h,
  bit-low_half v i,
)

bit-set_addr_high :
    (addr v i : ℕ)
    → i < 64
    → bit (set_addr_high addr v) i ≡ (if ltb i 32 then bit addr i else bit v (i - 32))
unfolding set_addr_high
bit-set_addr_high addr v i h = ground (
  arith,
  bit-bit_or i (bit_and addr 0xFFFFFFFF) (shl64 v 32),
  bit-bit_and i addr 0xFFFFFFFF,
  bit-low_mask i,
  bit-shl64 v i h,
)

-- A queue's address that the guest writes in two halves, in either order and over any old value, is
-- the low 32 bits of the one below the low 32 bits of the other.
pub set_addr_high-set_addr_low :
    (addr lo hi i : ℕ)
    → i < 64
    → (bit (set_addr_high (set_addr_low addr lo) hi) i
        ≡ (if ltb i 32 then bit lo i else bit hi (i - 32)))
      × (bit (set_addr_low (set_addr_high addr hi) lo) i
          ≡ (if ltb i 32 then bit lo i else bit hi (i - 32)))
set_addr_high-set_addr_low addr lo hi i h = (
  ground (arith, bit-set_addr_high (set_addr_low addr lo) hi i h, bit-set_addr_low addr lo i h),
  ground (arith, bit-set_addr_low (set_addr_high addr hi) lo i h, bit-set_addr_high addr hi i h),
)
