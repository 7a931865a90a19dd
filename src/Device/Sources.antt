-- ===== src/Device/Sources.antt =====
-- src/plic.c: which sources ask for service, bit by bit.
use tinyvm.Base.{ℕ, ◌-◌, ◌%◌, ◌^◌, ◌<◌, ◌≡◌, refl, ap, sym, ◌∙◌, true, min, not32, bit_and, arith}
use tinyvm.Base.Bits.{bit, bit-zero, bit-complement, bit-bit_and, bit_and_mask, has_flag-bit}
use tinyvm.Machine.{Plic}
use tinyvm.Device.Plic.{actionable, can_fire}

-- The source asks for service in the context: it is pending, enabled, not claimed, and
-- its priority is above the threshold.
pub record Fires (p : Plic) (ctx irq : ℕ) : Type 0 where
  pub is_pending : bit p.pending irq ≡ 1
  pub is_enabled : bit (p.enable ctx) irq ≡ 1
  pub is_unclaimed : bit p.claimed irq ≡ 0
  pub is_above : p.threshold ctx < p.priority irq

bit-not32 : (x i : ℕ) → i < 32 → bit (not32 x) i ≡ 1 - bit x i
bit-not32 x i h =
    let ones : bit (2 ^ 32 - 1) i ≡ 1 =
      bit-complement 32 0 i (omega arith) h ∙ ap (λ (t : ℕ). 1 - t) (bit-zero i) in
    let low : bit (x % 2 ^ 32) i ≡ min (bit x i) 1 =
      ap (λ (t : ℕ). bit t i) (sym (bit_and_mask 32 x))
      ∙ bit-bit_and i x (2 ^ 32 - 1)
      ∙ ap (min (bit x i)) ones in
    bit-complement 32 (x % 2 ^ 32) i (omega arith) h ∙ omega (arith, low)

-- The bit of the source in the word that the loops test.
bit-actionable :
    (p : Plic) (ctx irq : ℕ)
    → irq < 32
    → bit (actionable p ctx) irq
      ≡ min (min (bit p.pending irq) (bit (p.enable ctx) irq)) (1 - bit p.claimed irq)
unfolding actionable
bit-actionable p ctx irq h =
    rw
      (
        bit-bit_and irq (bit_and p.pending (p.enable ctx)) (not32 p.claimed),
        bit-bit_and irq p.pending (p.enable ctx),
        bit-not32 p.claimed irq h,
      )
      refl

pub can_fire-Fires :
    (p : Plic) (ctx irq : ℕ) → irq < 32 → can_fire p ctx irq ≡ true → Fires p ctx irq
unfolding can_fire
can_fire-Fires p ctx irq h e =
    let word = bit-actionable p ctx irq h in
    let tested = has_flag-bit irq (actionable p ctx) in
    record {
      is_pending = ground (arith, e, word, tested);
      is_enabled = ground (arith, e, word, tested);
      is_unclaimed = ground (arith, e, word, tested);
      is_above = ground (arith, e);
    }

pub Fires-can_fire :
    (p : Plic) (ctx irq : ℕ) → irq < 32 → Fires p ctx irq → can_fire p ctx irq ≡ true
unfolding can_fire
Fires-can_fire p ctx irq h f =
    let word = bit-actionable p ctx irq h in
    let tested = has_flag-bit irq (actionable p ctx) in
    ground (arith, word, tested, f.is_pending, f.is_enabled, f.is_unclaimed, f.is_above)
