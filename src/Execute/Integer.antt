-- ===== src/Execute/Integer.antt =====
-- src/cpu.c: the integer computations of execute against those of the manual (Execute/Manual).
use tinyvm.Base.{
  ℕ, ◌+◌, ◌-◌, ◌*◌, ◌/◌, ◌%◌, ◌^◌, ◌≤◌, ◌<◌, ◌≡◌, ◌∙◌, refl, ap, ◌⊎◌, inl, inr, bit_and, ok, u32,
  add32, sub32, sub64, widen, clear_flags, arith,
}
use tinyvm.Base.Bits.{bit_and_mask, bit_and-shifted}
use tinyvm.Execute.Alu.{branch_taken, i_arith, r_arith, i_arith_w, r_arith_w}
use tinyvm.Execute.Manual.{
  Plain, add, slt, sltu, xor, or, and, Shift, sll, srl, sra, Condition, eq, ne, lt, ge, ltu, geu,
  funct3_of, shift3_of, shift7_of, branch3_of, result, shifted, shifted_w, holds,
}

-- What the top seven bits of a shift's constant are.
kind-cases :
    (k shamt : ℕ)
    → shamt < 64
    → ((shamt + 2 ^ 5 * k) / 2 ^ 5 ≡ k) ⊎ ((shamt + 2 ^ 5 * k) / 2 ^ 5 ≡ k + 1)
kind-cases k shamt h = ground arith

pub low_six : (a : ℕ) → bit_and (u32 a) 0x3F ≡ a % 64
low_six a = omega (arith, bit_and_mask 6 (u32 a))

low_five : (a : ℕ) → bit_and (u32 a) 0x1F ≡ a % 32
low_five a = omega (arith, bit_and_mask 5 (u32 a))

small-widen : (v : ℕ) → v < 2 ^ 11 → widen 12 v ≡ v
small-widen v h = ground arith

pub i_arith-plain :
    (o : Plain) (funct7 a imm : ℕ) → i_arith (funct3_of o) funct7 a imm ≡ ok (result o a imm)
unfolding i_arith
i_arith-plain add funct7 a imm = refl
i_arith-plain slt funct7 a imm = refl
i_arith-plain sltu funct7 a imm = refl
i_arith-plain xor funct7 a imm = refl
i_arith-plain or funct7 a imm = refl
i_arith-plain and funct7 a imm = refl

pub r_arith-plain : (o : Plain) (a b : ℕ) → r_arith (funct3_of o) 0 a b ≡ ok (result o a b)
unfolding r_arith
r_arith-plain add a b = refl
r_arith-plain slt a b = refl
r_arith-plain sltu a b = refl
r_arith-plain xor a b = refl
r_arith-plain or a b = refl
r_arith-plain and a b = refl

pub r_arith-sub : (a b : ℕ) → r_arith 0 0x20 a b ≡ ok (sub64 a b)
unfolding r_arith
r_arith-sub a b = refl

pub r_arith-shift :
    (o : Shift) (a b : ℕ) → r_arith (shift3_of o) (shift7_of o) a b ≡ ok (shifted o a (b % 64))
unfolding r_arith
r_arith-shift sll a b = rw (low_six b) refl
r_arith-shift srl a b = rw (low_six b) refl
r_arith-shift sra a b = rw (low_six b) refl

shamt-six :
    (k shamt : ℕ)
    → k ≤ 0x20
    → k % 2 ≡ 0
    → shamt < 64
    → bit_and (u32 (widen 12 (shamt + 2 ^ 5 * k))) 0x3F ≡ shamt
shamt-six k shamt h e l =
    let small = small-widen (shamt + 2 ^ 5 * k) (omega arith) in
    rw small (low_six (shamt + 2 ^ 5 * k) ∙ omega arith)

pub i_arith-shift :
    (o : Shift) (a shamt : ℕ)
    → shamt < 64
    → i_arith
        (shift3_of o)
        ((shamt + 2 ^ 5 * shift7_of o) / 2 ^ 5)
        a
        (widen 12 (shamt + 2 ^ 5 * shift7_of o))
      ≡ ok (shifted o a shamt)
unfolding i_arith
i_arith-shift sll a shamt h = rw (shamt-six 0 shamt (omega arith) refl h) refl
i_arith-shift srl a shamt h = elim (kind-cases 0 shamt h) [
  | inl e ↦ rw (shamt-six 0 shamt (omega arith) refl h, e) refl
  | inr e ↦ rw (shamt-six 0 shamt (omega arith) refl h, e) refl
]
i_arith-shift sra a shamt h = elim (kind-cases 0x20 shamt h) [
  | inl e ↦ rw (shamt-six 0x20 shamt (omega arith) refl h, e) refl
  | inr e ↦ rw (shamt-six 0x20 shamt (omega arith) refl h, e) refl
]

-- The operations on words.
kind_is : (k shamt : ℕ) → shamt < 32 → (shamt + 2 ^ 5 * k) / 2 ^ 5 ≡ k
kind_is k shamt h = omega arith

shamt-five :
    (k shamt : ℕ)
    → k ≤ 0x20
    → shamt < 32
    → bit_and (u32 (widen 12 (shamt + 2 ^ 5 * k))) 0x1F ≡ shamt
shamt-five k shamt h l =
    let small = small-widen (shamt + 2 ^ 5 * k) (omega arith) in
    rw small (low_five (shamt + 2 ^ 5 * k) ∙ omega arith)

add_low : (a b : ℕ) → add32 (u32 a) (u32 b) ≡ add32 a b
add_low a b = omega arith

pub i_arith_w-add : (funct7 a imm : ℕ) → i_arith_w 0 funct7 a imm ≡ ok (add32 a imm)
unfolding i_arith_w
i_arith_w-add funct7 a imm = ap ok (add_low a imm)

pub i_arith_w-shift :
    (o : Shift) (a shamt : ℕ)
    → shamt < 32
    → i_arith_w
        (shift3_of o)
        ((shamt + 2 ^ 5 * shift7_of o) / 2 ^ 5)
        a
        (widen 12 (shamt + 2 ^ 5 * shift7_of o))
      ≡ ok (shifted_w o (u32 a) shamt)
unfolding i_arith_w
i_arith_w-shift sll a shamt h = rw (shamt-five 0 shamt (omega arith) h) refl
i_arith_w-shift srl a shamt h = rw (shamt-five 0 shamt (omega arith) h, kind_is 0 shamt h) refl
i_arith_w-shift sra a shamt h =
    rw (shamt-five 0x20 shamt (omega arith) h, kind_is 0x20 shamt h) refl

pub r_arith_w-add : (a b : ℕ) → r_arith_w 0 0 a b ≡ ok (add32 a b)
unfolding r_arith_w
r_arith_w-add a b = ap ok (add_low a b)

pub r_arith_w-sub : (a b : ℕ) → r_arith_w 0 0x20 a b ≡ ok (sub32 (u32 a) (u32 b))
unfolding r_arith_w
r_arith_w-sub a b = refl

pub r_arith_w-shift :
    (o : Shift) (a b : ℕ)
    → r_arith_w (shift3_of o) (shift7_of o) a b ≡ ok (shifted_w o (u32 a) (b % 32))
unfolding r_arith_w
r_arith_w-shift sll a b = rw (low_five b) refl
r_arith_w-shift srl a b = rw (low_five b) refl
r_arith_w-shift sra a b = rw (low_five b) refl

pub branch_taken-holds :
    (o : Condition) (a b : ℕ) → branch_taken (branch3_of o) a b ≡ ok (holds o a b)
unfolding branch_taken
branch_taken-holds eq a b = refl
branch_taken-holds ne a b = refl
branch_taken-holds lt a b = refl
branch_taken-holds ge a b = refl
branch_taken-holds ltu a b = refl
branch_taken-holds geu a b = refl

-- The target of jalr loses its lowest bit.
pub clear_flags-one : (x : ℕ) → x < 2 ^ 64 → clear_flags x 1 ≡ 2 * (x / 2)
clear_flags-one x h = omega (arith, bit_and-shifted 1 x (2 ^ 63 - 1), bit_and_mask 63 (x / 2))
