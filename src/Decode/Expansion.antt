-- ===== src/Decode/Expansion.antt =====
-- src/exec_c.c: decode_rvc against the table of the manual (Decode/Compressed). A format has at most
-- eleven free bits, so each instruction is run at all its operands.
use tinyvm.Base.{
  ℕ, zero, suc, ◌^◌, ◌<◌, ◌≡◌, refl, Bool, true, false, ◌&&◌, ◌||◌, ◌==◌, and_left, and_right,
  below-elim, ltb, not, bit_and, ltb→lt, arith,
}
use tinyvm.Decode.Instr.{Instruction}
use tinyvm.Decode.Rvc.{
  decode_rvc, decode_q0, decode_q1, decode_q2, decode_misc_alu, decode_arith, decode_arith_w,
  decode_cr, rvc_rd_s, rvc_rs1_s, rvc_rd, rvc_rs2, rvc_b12, rvc_sub, rvc_arith, sext, imm_ci,
  imm_addi16sp, imm_lui, imm_clw, imm_cld, imm_cj, imm_cb, imm_lwsp, imm_ldsp, imm_swsp, imm_sdsp,
  imm_addi4spn,
}
use tinyvm.Decode.Compressed.{
  Rvc, c_addi4spn, c_fld, c_lw, c_ld, c_fsd, c_sw, c_sd, c_addi, c_addiw, c_li, c_lui, c_addi16sp,
  c_srli, c_srai, c_andi, c_sub, c_xor, c_or, c_and, c_subw, c_addw, c_j, c_beqz, c_bnez, c_slli,
  c_fldsp, c_lwsp, c_ldsp, c_jr, c_jalr, c_mv, c_add, c_ebreak, c_fsdsp, c_swsp, c_sdsp, encode_c,
  expand, IsEncodable,
}

-- The fields agree.
abbrev same : Instruction → Instruction → Bool
same a b =
    (a.opcode == b.opcode)
    && (a.rd == b.rd)
    && (a.rs1 == b.rs1)
    && (a.rs2 == b.rs2)
    && (a.funct3 == b.funct3)
    && (a.funct7 == b.funct7)
    && (a.imm == b.imm)
    && (a.size == b.size)

-- 16 bits that do not end in 11.
abbrev is_short : ℕ → Bool
is_short r = ltb r (2 ^ 16) && not (bit_and r 3 == 3)

-- The decoder and the table agree on the instruction.
unfoldable agrees : Rvc → Bool
agrees i = is_short (encode_c i) && same (decode_rvc (encode_c i)) (expand i)

-- The test holds below n.
unfoldable all : ℕ → (ℕ → Bool) → Bool
all zero f = true
all (suc n) f = f n && all n f

all-at : (n : ℕ) (f : ℕ → Bool) → all n f ≡ true → (j : ℕ) → j < n → f j ≡ true
unfolding all
all-at zero f h j l = absurd (omega arith)
all-at (suc n) f h j l =
    below-elim (λ k. f k ≡ true) n (and_left (f n) _ h) (all-at n f (and_right (f n) _ h)) j l

all-at2 :
    (n m : ℕ) (f : ℕ → ℕ → Bool)
    → all n (λ a. all m (f a)) ≡ true
    → (a : ℕ) → a < n
    → (b : ℕ) → b < m
    → f a b ≡ true
all-at2 n m f h a la b lb = all-at m (f a) (all-at n (λ k. all m (f k)) h a la) b lb

-- Equal tests mean equal instructions.
same_sound : (a b : Instruction) → same a b ≡ true → a ≡ b
same_sound a b h = ground arith

agrees_sound : (i : Rvc) → agrees i ≡ true → decode_rvc (encode_c i) ≡ expand i
unfolding agrees
agrees_sound i h = same_sound _ _ (and_right (is_short (encode_c i)) _ h)

agrees-is_short : (i : Rvc) → agrees i ≡ true → is_short (encode_c i) ≡ true
unfolding agrees
agrees-is_short i h = and_left (is_short (encode_c i)) _ h

-- The instructions of a format agree at these operands; a number that means another instruction is
-- passed over.
abbrev three_agree : ℕ → ℕ → ℕ → Bool
three_agree r b v =
    agrees (c_fld r b v)
    && agrees (c_lw r b v)
    && agrees (c_ld r b v)
    && agrees (c_fsd r b v)
    && agrees (c_sw r b v)
    && agrees (c_sd r b v)

abbrev word_agree : ℕ → ℕ → Bool
word_agree r v =
    agrees (c_addi r v)
    && agrees (c_addiw r v)
    && agrees (c_li r v)
    && ((r == 2) || agrees (c_lui r v))
    && agrees (c_slli r v)
    && agrees (c_fldsp r v)
    && agrees (c_lwsp r v)
    && agrees (c_ldsp r v)
    && agrees (c_fsdsp r v)
    && agrees (c_swsp r v)
    && agrees (c_sdsp r v)

abbrev shift_agree : ℕ → ℕ → Bool
shift_agree r v = agrees (c_srli r v) && agrees (c_srai r v) && agrees (c_andi r v)

abbrev arith_agree : ℕ → ℕ → Bool
arith_agree r s =
    agrees (c_sub r s)
    && agrees (c_xor r s)
    && agrees (c_or r s)
    && agrees (c_and r s)
    && agrees (c_subw r s)
    && agrees (c_addw r s)

abbrev branch_agree : ℕ → ℕ → Bool
branch_agree r v = agrees (c_beqz r v) && agrees (c_bnez r v)

abbrev move_agree : ℕ → ℕ → Bool
move_agree r s = (s == 0) || (agrees (c_mv r s) && agrees (c_add r s))

abbrev jump_agree : ℕ → Bool
jump_agree r = agrees (c_jr r) && ((r == 0) || agrees (c_jalr r))

-- The formats, each at all its operands.
formats_lem :
    (all 8 (λ r. all (2 ^ 8) λ v. agrees (c_addi4spn r v)) ≡ true)
    × (all 8 (λ r. all 8 λ b. all (2 ^ 5) (three_agree r b)) ≡ true)
    × (all 32 (λ r. all (2 ^ 6) (word_agree r)) ≡ true)
    × (all (2 ^ 6) (λ v. agrees (c_addi16sp v)) ≡ true)
    × (all 8 (λ r. all (2 ^ 6) (shift_agree r)) ≡ true)
    × (all 8 (λ r. all 8 (arith_agree r)) ≡ true)
    × (all (2 ^ 11) (λ v. agrees (c_j v)) ≡ true)
    × (all 8 (λ r. all (2 ^ 8) (branch_agree r)) ≡ true)
    × (all 32 jump_agree ≡ true)
    × (all 32 (λ r. all 32 (move_agree r)) ≡ true)
    × (agrees c_ebreak ≡ true)
unfolding all agrees decode_rvc decode_q0 decode_q1 decode_q2 decode_misc_alu decode_arith
    decode_arith_w decode_cr rvc_rd_s rvc_rs1_s rvc_rd rvc_rs2 rvc_b12 rvc_sub rvc_arith sext imm_ci
    imm_addi16sp imm_lui imm_clw imm_cld imm_cj imm_cb imm_lwsp imm_ldsp imm_swsp imm_sdsp
    imm_addi4spn encode_c expand
formats_lem = (refl, refl, refl, refl, refl, refl, refl, refl, refl, refl, refl)

three-at : (r b v : ℕ) → (r < 8) × (b < 8) × (v < 2 ^ 5) → three_agree r b v ≡ true
three-at r b v h =
    all-at (2 ^ 5) (three_agree r b)
      (all-at2 8 8 (λ r b. all (2 ^ 5) (three_agree r b)) formats_lem.1 r h.0 b h.1) v h.2

word-at : (r v : ℕ) → r < 32 → v < 2 ^ 6 → word_agree r v ≡ true
word-at r v = λ k l. all-at2 32 (2 ^ 6) word_agree formats_lem.2 r k v l

every_agrees : (i : Rvc) → IsEncodable i → agrees i ≡ true
unfolding IsEncodable
every_agrees (c_addi4spn r v) h =
    all-at2 8 (2 ^ 8) (λ r v. agrees (c_addi4spn r v)) formats_lem.0 r h.0 v h.1
every_agrees (c_fld r b v) h = let e = three-at r b v h in ground arith
every_agrees (c_lw r b v) h = let e = three-at r b v h in ground arith
every_agrees (c_ld r b v) h = let e = three-at r b v h in ground arith
every_agrees (c_fsd r b v) h = let e = three-at r b v h in ground arith
every_agrees (c_sw r b v) h = let e = three-at r b v h in ground arith
every_agrees (c_sd r b v) h = let e = three-at r b v h in ground arith
every_agrees (c_addi r v) h = let e = word-at r v h.0 h.1 in ground arith
every_agrees (c_addiw r v) h = let e = word-at r v h.0 h.1 in ground arith
every_agrees (c_li r v) h = let e = word-at r v h.0 h.1 in ground arith
every_agrees (c_slli r v) h = let e = word-at r v h.0 h.1 in ground arith
every_agrees (c_fldsp r v) h = let e = word-at r v h.0 h.1 in ground arith
every_agrees (c_lwsp r v) h = let e = word-at r v h.0 h.1 in ground arith
every_agrees (c_ldsp r v) h = let e = word-at r v h.0 h.1 in ground arith
every_agrees (c_fsdsp r v) h = let e = word-at r v h.0 h.1 in ground arith
every_agrees (c_swsp r v) h = let e = word-at r v h.0 h.1 in ground arith
every_agrees (c_sdsp r v) h = let e = word-at r v h.0 h.1 in ground arith
every_agrees (c_lui r v) h = let e = word-at r v h.0 h.1 in ground arith
every_agrees (c_addi16sp v) h = all-at (2 ^ 6) (λ v. agrees (c_addi16sp v)) formats_lem.3 v h
every_agrees (c_srli r v) h =
    let e = all-at2 8 (2 ^ 6) shift_agree formats_lem.4 r h.0 v h.1 in ground arith
every_agrees (c_srai r v) h =
    let e = all-at2 8 (2 ^ 6) shift_agree formats_lem.4 r h.0 v h.1 in ground arith
every_agrees (c_andi r v) h =
    let e = all-at2 8 (2 ^ 6) shift_agree formats_lem.4 r h.0 v h.1 in ground arith
every_agrees (c_sub r s) h =
    let e = all-at2 8 8 arith_agree formats_lem.5 r h.0 s h.1 in ground arith
every_agrees (c_xor r s) h =
    let e = all-at2 8 8 arith_agree formats_lem.5 r h.0 s h.1 in ground arith
every_agrees (c_or r s) h =
    let e = all-at2 8 8 arith_agree formats_lem.5 r h.0 s h.1 in ground arith
every_agrees (c_and r s) h =
    let e = all-at2 8 8 arith_agree formats_lem.5 r h.0 s h.1 in ground arith
every_agrees (c_subw r s) h =
    let e = all-at2 8 8 arith_agree formats_lem.5 r h.0 s h.1 in ground arith
every_agrees (c_addw r s) h =
    let e = all-at2 8 8 arith_agree formats_lem.5 r h.0 s h.1 in ground arith
every_agrees (c_j v) h = all-at (2 ^ 11) (λ v. agrees (c_j v)) formats_lem.6 v h
every_agrees (c_beqz r v) h =
    let e = all-at2 8 (2 ^ 8) branch_agree formats_lem.7 r h.0 v h.1 in ground arith
every_agrees (c_bnez r v) h =
    let e = all-at2 8 (2 ^ 8) branch_agree formats_lem.7 r h.0 v h.1 in ground arith
every_agrees (c_jr r) h = let e = all-at 32 jump_agree formats_lem.8 r h in ground arith
every_agrees (c_jalr r) h = let e = all-at 32 jump_agree formats_lem.8 r h.0 in ground arith
every_agrees (c_mv r s) h =
    let e = all-at2 32 32 move_agree formats_lem.9 r h.0 s h.1 in ground arith
every_agrees (c_add r s) h =
    let e = all-at2 32 32 move_agree formats_lem.9 r h.0 s h.1 in ground arith
every_agrees c_ebreak h = formats_lem.10

-- Each compressed instruction of the manual, with operands that its format can hold, is expanded from
-- its 16 bits into the base instruction that the manual gives for it.
pub decode_rvc-encode_c : (i : Rvc) → IsEncodable i → decode_rvc (encode_c i) ≡ expand i
decode_rvc-encode_c i h = agrees_sound i (every_agrees i h)

pub encode_c-fits :
    (i : Rvc) → IsEncodable i → (encode_c i < 2 ^ 16) × ((bit_and (encode_c i) 3 == 3) ≡ false)
encode_c-fits i k =
    let h = agrees-is_short i (every_agrees i k) in
    let lt : encode_c i < 2 ^ 16 = ltb→lt _ _ (and_left (ltb (encode_c i) (2 ^ 16)) _ h) in
    let low = and_right (ltb (encode_c i) (2 ^ 16)) _ h in (lt, not-true _ low)
  where
    not-true : (b : Bool) → not b ≡ true → b ≡ false
    not-true true h = cc
    not-true false h = refl
