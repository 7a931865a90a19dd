-- ===== src/Decode/Encode.antt =====
-- src/cpu.c: decode reads back what the formats of the RISC-V manual put into an instruction.
use tinyvm.Base.{ℕ, ◌+◌, ◌*◌, ◌/◌, ◌%◌, ◌^◌, ◌<◌, ◌≡◌, refl, ◌∙◌, shr, widen, arith}
use tinyvm.Decode.Instr.{op_branch, op_jal}
use tinyvm.Decode.Base32.{decode, decode_imm, imm_i, imm_s, imm_b, imm_u, imm_j}
use tinyvm.Decode.Formats.{
  Format, r_type, i_type, s_type, b_type, u_type, j_type, encode, IsFormat, HasFields, layout,
  IsIOpcode, IsSOpcode, IsUOpcode, IsROpcode,
}
use tinyvm.Decode.Immediates.{mask_of, imm_i_lem, imm_s_lem, imm_b_lem, imm_j_lem, imm_u_lem}

-- The fields that every format has at the same place.
layout-fields :
    (opcode rd funct3 rs1 rs2 funct7 : ℕ)
    → opcode < 2 ^ 7
    → rd < 2 ^ 5
    → funct3 < 2 ^ 3
    → rs1 < 2 ^ 5
    → rs2 < 2 ^ 5
    → funct7 < 2 ^ 7
    → let inst = decode (layout opcode rd funct3 rs1 rs2 funct7) in
      (inst.opcode ≡ opcode)
      × (inst.rd ≡ rd)
      × (inst.funct3 ≡ funct3)
      × (inst.rs1 ≡ rs1)
      × (inst.rs2 ≡ rs2)
      × (inst.funct7 ≡ funct7)
unfolding decode
layout-fields opcode rd funct3 rs1 rs2 funct7 ho hd h3 h1 h2 h7 =
    let raw = layout opcode rd funct3 rs1 rs2 funct7 in
    (
      mask_of raw 7 ∙ omega arith,
      mask_of (shr raw 7) 5 ∙ omega arith,
      mask_of (shr raw 12) 3 ∙ omega arith,
      mask_of (shr raw 15) 5 ∙ omega arith,
      mask_of (shr raw 20) 5 ∙ omega arith,
      mask_of (shr raw 25) 7 ∙ omega arith,
    )

low-fields :
    (opcode rd rest : ℕ)
    → opcode < 2 ^ 7
    → rd < 2 ^ 5
    → let inst = decode (opcode + 2 ^ 7 * (rd + 2 ^ 5 * rest)) in
      (inst.opcode ≡ opcode) × (inst.rd ≡ rd)
unfolding decode
low-fields opcode rd rest ho hd =
    let raw : ℕ = opcode + 2 ^ 7 * (rd + 2 ^ 5 * rest) in
    (mask_of raw 7 ∙ omega arith, mask_of (shr raw 7) 5 ∙ omega arith)

-- Each opcode chooses its immediate.
decode_imm-i : (o raw : ℕ) → IsIOpcode o → decode_imm o raw ≡ imm_i raw
unfolding decode_imm
decode_imm-i o raw h = ground arith

decode_imm-s : (o raw : ℕ) → IsSOpcode o → decode_imm o raw ≡ imm_s raw
unfolding decode_imm
decode_imm-s o raw h = ground arith

decode_imm-u : (o raw : ℕ) → IsUOpcode o → decode_imm o raw ≡ imm_u raw
unfolding decode_imm
decode_imm-u o raw h = ground arith

decode_imm-b : (raw : ℕ) → decode_imm op_branch raw ≡ imm_b raw
unfolding decode_imm
decode_imm-b raw = refl

decode_imm-j : (raw : ℕ) → decode_imm op_jal raw ≡ imm_j raw
unfolding decode_imm
decode_imm-j raw = refl

decode_imm-r : (o raw : ℕ) → IsROpcode o → decode_imm o raw ≡ 0
unfolding decode_imm
decode_imm-r o raw h = ground arith

-- The opcode fits its field.
i-fits : (o : ℕ) → IsIOpcode o → o < 2 ^ 7
i-fits o h = ground arith

r-fits : (o : ℕ) → IsROpcode o → o < 2 ^ 7
r-fits o h = ground arith

s-fits : (o : ℕ) → IsSOpcode o → o < 2 ^ 7
s-fits o h = ground arith

u-fits : (o : ℕ) → IsUOpcode o → o < 2 ^ 7
u-fits o h = ground arith

-- The immediate that decode stores is the one for the opcode.
imm-of : (raw o imm : ℕ) → (decode raw).opcode ≡ o → decode_imm o raw ≡ imm → (decode raw).imm ≡ imm
unfolding decode
imm-of raw o imm e f = rw e f

-- The fields of an instruction of the manual come back from its 32 bits, in every base format: the
-- opcode, the registers and functs of the format, and the immediate with its sign, whose bits the
-- formats B and J scatter.
pub decode-encode : (f : Format) → IsFormat f → HasFields f (decode (encode f))
decode-encode (r_type opcode rd funct3 rs1 rs2 funct7) h =
    let raw = layout opcode rd funct3 rs1 rs2 funct7 in
    let g = layout-fields opcode rd funct3 rs1 rs2 funct7 (r-fits opcode h.0) h.1 h.2 h.3 h.4 h.5 in
    (g.0, g.1, g.2, g.3, g.4, g.5, imm-of raw opcode 0 g.0 (decode_imm-r opcode raw h.0))
decode-encode (i_type opcode rd funct3 rs1 imm) h =
    let raw = layout opcode rd funct3 rs1 (imm % 2 ^ 5) (imm / 2 ^ 5) in
    let fits = i-fits opcode h.0 in
    let g =
      layout-fields opcode rd funct3 rs1 (imm % 2 ^ 5) (imm / 2 ^ 5) fits h.1 h.2 h.3 (omega arith)
        (omega arith) in
    let value = imm_i_lem raw imm h.4 (omega arith) in
    (
      g.0,
      g.1,
      g.2,
      g.3,
      imm-of raw opcode (widen 12 imm) g.0 (decode_imm-i opcode raw h.0 ∙ value),
      g.5,
    )
decode-encode (s_type opcode funct3 rs1 rs2 imm) h =
    let raw = layout opcode (imm % 2 ^ 5) funct3 rs1 rs2 (imm / 2 ^ 5) in
    let fits = s-fits opcode h.0 in
    let g =
      layout-fields opcode (imm % 2 ^ 5) funct3 rs1 rs2 (imm / 2 ^ 5) fits (omega arith) h.1 h.2 h.3
        (omega arith) in
    let value = imm_s_lem raw imm h.4 (omega arith) (omega arith) in
    (g.0, g.2, g.3, g.4, imm-of raw opcode (widen 12 imm) g.0 (decode_imm-s opcode raw h.0 ∙ value))
decode-encode (b_type funct3 rs1 rs2 v) h =
    let low : ℕ = v / 2 ^ 10 % 2 + 2 * (v % 2 ^ 4) in
    let high : ℕ = v / 2 ^ 4 % 2 ^ 6 + 2 ^ 6 * (v / 2 ^ 11) in
    let raw = layout op_branch low funct3 rs1 rs2 high in
    let g =
      layout-fields op_branch low funct3 rs1 rs2 high (omega arith) (omega arith) h.0 h.1 h.2
        (omega arith) in
    let value = imm_b_lem raw v h.3 (omega arith) (omega arith) (omega arith) (omega arith) in
    (g.0, g.2, g.3, g.4, imm-of raw op_branch (widen 13 (2 * v)) g.0 (decode_imm-b raw ∙ value))
decode-encode (u_type opcode rd v) h =
    let raw : ℕ = opcode + 2 ^ 7 * (rd + 2 ^ 5 * v) in
    let fits = u-fits opcode h.0 in
    let g = low-fields opcode rd v fits h.1 in
    let value = imm_u_lem raw v h.2 (omega arith) in
    (g.0, g.1, imm-of raw opcode (widen 32 (v * 2 ^ 12)) g.0 (decode_imm-u opcode raw h.0 ∙ value))
decode-encode (j_type rd v) h =
    let w : ℕ =
      v / 2 ^ 11 % 2 ^ 8 + 2 ^ 8 * (v / 2 ^ 10 % 2 + 2 * (v % 2 ^ 10 + 2 ^ 10 * (v / 2 ^ 19))) in
    let raw : ℕ = op_jal + 2 ^ 7 * (rd + 2 ^ 5 * w) in
    let g = low-fields op_jal rd w (omega arith) h.0 in
    let value = imm_j_lem raw v h.1 (omega arith) (omega arith) (omega arith) (omega arith) in
    (g.0, g.1, imm-of raw op_jal (widen 21 (2 * v)) g.0 (decode_imm-j raw ∙ value))
