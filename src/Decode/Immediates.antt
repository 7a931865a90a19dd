-- ===== src/Decode/Immediates.antt =====
-- src/cpu.c: the immediates of decode, put together with |, as numbers.
use tinyvm.Base.{
  ℕ, ◌+◌, ◌-◌, ◌*◌, ◌/◌, ◌%◌, ◌^◌, ◌≤◌, ◌<◌, ◌≡◌, refl, ◌∙◌, false, Bool-cases, inl, inr, bit_and,
  bit_or, ltb, shr, shl64, shl32, widen, arith,
}
use tinyvm.Base.Bits.{bit_and_mask, bit_or-add, bit_and-shifted}
use tinyvm.Decode.Base32.{sign_extend, imm_i, imm_s, imm_b, imm_u, imm_j}

below : (v p : ℕ) → ltb v p ≡ false → p ≤ v
below v p h = ground (arith, h)

-- sign_extend of a value of w bits is the 64-bit word of the number that the value stands for in two's
-- complement.
top12 : (v : ℕ) → v < 2 ^ 12 → ltb (shl64 v 52) (2 ^ 63) ≡ ltb v (2 ^ 11)
top12 v h = ground arith

top13 : (v : ℕ) → v < 2 ^ 13 → ltb (shl64 v 51) (2 ^ 63) ≡ ltb v (2 ^ 12)
top13 v h = ground arith

top21 : (v : ℕ) → v < 2 ^ 21 → ltb (shl64 v 43) (2 ^ 63) ≡ ltb v (2 ^ 20)
top21 v h = ground arith

top32 : (v : ℕ) → v < 2 ^ 32 → ltb (shl64 v 32) (2 ^ 63) ≡ ltb v (2 ^ 31)
top32 v h = ground arith

sign_extend-widen12 : (v : ℕ) → v < 2 ^ 12 → sign_extend v 12 ≡ widen 12 v
unfolding sign_extend
sign_extend-widen12 v h = elim (Bool-cases (ltb v (2 ^ 11))) [
  | inl e ↦ rw (top12 v h, e) (omega arith)
  | inr e ↦ rw (top12 v h, e) (omega (arith, below v (2 ^ 11) e))
]

sign_extend-widen13 : (v : ℕ) → v < 2 ^ 13 → sign_extend v 13 ≡ widen 13 v
unfolding sign_extend
sign_extend-widen13 v h = elim (Bool-cases (ltb v (2 ^ 12))) [
  | inl e ↦ rw (top13 v h, e) (omega arith)
  | inr e ↦ rw (top13 v h, e) (omega (arith, below v (2 ^ 12) e))
]

sign_extend-widen21 : (v : ℕ) → v < 2 ^ 21 → sign_extend v 21 ≡ widen 21 v
unfolding sign_extend
sign_extend-widen21 v h = elim (Bool-cases (ltb v (2 ^ 20))) [
  | inl e ↦ rw (top21 v h, e) (omega arith)
  | inr e ↦ rw (top21 v h, e) (omega (arith, below v (2 ^ 20) e))
]

sign_extend-widen32 : (v : ℕ) → v < 2 ^ 32 → sign_extend v 32 ≡ widen 32 v
unfolding sign_extend
sign_extend-widen32 v h = elim (Bool-cases (ltb v (2 ^ 31))) [
  | inl e ↦ rw (top32 v h, e) (omega arith)
  | inr e ↦ rw (top32 v h, e) (omega (arith, below v (2 ^ 31) e))
]

pub mask_of : (x w : ℕ) → bit_and x (2 ^ w - 1) ≡ x % 2 ^ w
mask_of x w = bit_and_mask w x

-- | of a value whose low k bits are 0 and one of k bits.
or-add : (k q x y : ℕ) → x ≡ q * 2 ^ k → y < 2 ^ k → bit_or x y ≡ x + y
or-add k q x y e h = rw e (bit_or-add k q y h)

or-parts_b :
    (s b c d : ℕ)
    → b < 2
    → c < 2 ^ 6
    → d < 2 ^ 4
    → bit_or (bit_or (bit_or (s * 2 ^ 12) (b * 2 ^ 11)) (c * 2 ^ 5)) (d * 2 ^ 1)
      ≡ s * 2 ^ 12 + b * 2 ^ 11 + c * 2 ^ 5 + d * 2
or-parts_b s b c d hb hc hd =
    let x1 = or-add 12 s (s * 2 ^ 12) (b * 2 ^ 11) refl (omega arith) in
    let x2 =
      or-add 11 (2 * s + b) (s * 2 ^ 12 + b * 2 ^ 11) (c * 2 ^ 5) (omega arith) (omega arith) in
    let x3 =
      or-add 5 ((2 * s + b) * 2 ^ 6 + c) (s * 2 ^ 12 + b * 2 ^ 11 + c * 2 ^ 5) (d * 2 ^ 1)
        (omega arith) (omega arith) in
    rw (x1, x2, x3) (omega arith)

or-parts_j :
    (s b c d : ℕ)
    → b < 2 ^ 8
    → c < 2
    → d < 2 ^ 10
    → bit_or (bit_or (bit_or (s * 2 ^ 20) (b * 2 ^ 12)) (c * 2 ^ 11)) (d * 2 ^ 1)
      ≡ s * 2 ^ 20 + b * 2 ^ 12 + c * 2 ^ 11 + d * 2
or-parts_j s b c d hb hc hd =
    let x1 = or-add 20 s (s * 2 ^ 20) (b * 2 ^ 12) refl (omega arith) in
    let x2 =
      or-add 12 (2 ^ 8 * s + b) (s * 2 ^ 20 + b * 2 ^ 12) (c * 2 ^ 11) (omega arith)
        (omega arith) in
    let x3 =
      or-add 11 ((2 ^ 8 * s + b) * 2 + c) (s * 2 ^ 20 + b * 2 ^ 12 + c * 2 ^ 11) (d * 2 ^ 1)
        (omega arith) (omega arith) in
    rw (x1, x2, x3) (omega arith)

-- The immediates of 32 bits whose top is cut at these places.
pub imm_i_lem : (raw imm : ℕ) → imm < 2 ^ 12 → raw / 2 ^ 20 ≡ imm → imm_i raw ≡ widen 12 imm
unfolding imm_i
imm_i_lem raw imm h e = rw e (sign_extend-widen12 imm h)

pub imm_s_lem :
    (raw imm : ℕ)
    → imm < 2 ^ 12
    → raw / 2 ^ 25 ≡ imm / 2 ^ 5
    → raw / 2 ^ 7 % 2 ^ 5 ≡ imm % 2 ^ 5
    → imm_s raw ≡ widen 12 imm
unfolding imm_s
imm_s_lem raw imm h e f =
    let low : bit_and (shr raw 7) 0x1F ≡ imm % 2 ^ 5 = mask_of (shr raw 7) 5 ∙ f in
    let high : shl32 (shr raw 25) 5 ≡ imm / 2 ^ 5 * 2 ^ 5 = omega arith in
    let both = bit_or-add 5 (imm / 2 ^ 5) (imm % 2 ^ 5) (omega arith) in
    let whole : imm / 2 ^ 5 * 2 ^ 5 + imm % 2 ^ 5 ≡ imm = omega arith in
    rw (low, high, both, whole) (sign_extend-widen12 imm h)

pub imm_b_lem :
    (raw v : ℕ)
    → v < 2 ^ 12
    → raw / 2 ^ 31 ≡ v / 2 ^ 11
    → raw / 2 ^ 7 % 2 ≡ v / 2 ^ 10 % 2
    → raw / 2 ^ 25 % 2 ^ 6 ≡ v / 2 ^ 4 % 2 ^ 6
    → raw / 2 ^ 8 % 2 ^ 4 ≡ v % 2 ^ 4
    → imm_b raw ≡ widen 13 (2 * v)
unfolding imm_b
imm_b_lem raw v h e1 e2 e3 e4 =
    let m1 = mask_of (shr raw 7) 1 in
    let m2 = mask_of (shr raw 25) 6 in
    let m3 = mask_of (shr raw 8) 4 in
    let p1 : shl32 (shr raw 31) 12 ≡ v / 2 ^ 11 * 2 ^ 12 = omega arith in
    let p2 : shl32 (bit_and (shr raw 7) 1) 11 ≡ v / 2 ^ 10 % 2 * 2 ^ 11 = omega arith in
    let p3 : shl32 (bit_and (shr raw 25) 0x3F) 5 ≡ v / 2 ^ 4 % 2 ^ 6 * 2 ^ 5 = omega arith in
    let p4 : shl32 (bit_and (shr raw 8) 0xF) 1 ≡ v % 2 ^ 4 * 2 ^ 1 = omega arith in
    let parts =
      or-parts_b (v / 2 ^ 11) (v / 2 ^ 10 % 2) (v / 2 ^ 4 % 2 ^ 6) (v % 2 ^ 4) (omega arith)
        (omega arith) (omega arith) in
    let whole : v / 2 ^ 11 * 2 ^ 12
          + v / 2 ^ 10 % 2 * 2 ^ 11
          + v / 2 ^ 4 % 2 ^ 6 * 2 ^ 5
          + v % 2 ^ 4 * 2
        ≡ 2 * v =
      omega arith in
    rw (p1, p2, p3, p4, parts, whole) (sign_extend-widen13 (2 * v) (omega arith))

pub imm_j_lem :
    (raw v : ℕ)
    → v < 2 ^ 20
    → raw / 2 ^ 31 ≡ v / 2 ^ 19
    → raw / 2 ^ 12 % 2 ^ 8 ≡ v / 2 ^ 11 % 2 ^ 8
    → raw / 2 ^ 20 % 2 ≡ v / 2 ^ 10 % 2
    → raw / 2 ^ 21 % 2 ^ 10 ≡ v % 2 ^ 10
    → imm_j raw ≡ widen 21 (2 * v)
unfolding imm_j
imm_j_lem raw v h e1 e2 e3 e4 =
    let m1 = mask_of (shr raw 12) 8 in
    let m2 = mask_of (shr raw 20) 1 in
    let m3 = mask_of (shr raw 21) 10 in
    let p1 : shl32 (shr raw 31) 20 ≡ v / 2 ^ 19 * 2 ^ 20 = omega arith in
    let p2 : shl32 (bit_and (shr raw 12) 0xFF) 12 ≡ v / 2 ^ 11 % 2 ^ 8 * 2 ^ 12 = omega arith in
    let p3 : shl32 (bit_and (shr raw 20) 1) 11 ≡ v / 2 ^ 10 % 2 * 2 ^ 11 = omega arith in
    let p4 : shl32 (bit_and (shr raw 21) 0x3FF) 1 ≡ v % 2 ^ 10 * 2 ^ 1 = omega arith in
    let parts =
      or-parts_j (v / 2 ^ 19) (v / 2 ^ 11 % 2 ^ 8) (v / 2 ^ 10 % 2) (v % 2 ^ 10) (omega arith)
        (omega arith) (omega arith) in
    let whole : v / 2 ^ 19 * 2 ^ 20
          + v / 2 ^ 11 % 2 ^ 8 * 2 ^ 12
          + v / 2 ^ 10 % 2 * 2 ^ 11
          + v % 2 ^ 10 * 2
        ≡ 2 * v =
      omega arith in
    rw (p1, p2, p3, p4, parts, whole) (sign_extend-widen21 (2 * v) (omega arith))

pub imm_u_lem : (raw v : ℕ) → v < 2 ^ 20 → raw / 2 ^ 12 ≡ v → imm_u raw ≡ widen 32 (v * 2 ^ 12)
unfolding imm_u
imm_u_lem raw v h e =
    let top : bit_and (raw / 2 ^ 12) (2 ^ 20 - 1) ≡ v = mask_of (raw / 2 ^ 12) 20 ∙ omega arith in
    let cut : bit_and raw 0xFFFFF000 ≡ v * 2 ^ 12 =
      omega (arith, bit_and-shifted 12 raw (2 ^ 20 - 1)) in
    rw cut (sign_extend-widen32 (v * 2 ^ 12) (omega arith))
