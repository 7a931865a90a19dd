-- ===== src/Decode/RvcFields.antt =====
-- src/exec_c.c: every field that decode_rvc makes is in range.
use tinyvm.Base.{ℕ, ◌<◌, bit_and, ◌==◌, ◌&&◌, not, if-elim, shr, truthy, arith}
use tinyvm.Cpu.Csr.{reg_sp}
use tinyvm.Decode.Instr.{blank}
use tinyvm.Decode.Fields.{InRange, field-lt}
use tinyvm.Decode.Rvc.{
  field, rvc_rd_s, rvc_rs1_s, rvc_rd, rvc_rs2, rvc_b12, rvc_sub, rvc_arith, imm_ci, imm_addi16sp,
  imm_lui, imm_cj, imm_cb, i_form, s_form, r_form, illegal, decode_q0, decode_arith, decode_arith_w,
  decode_misc_alu, decode_q1, decode_cr, decode_q2, decode_rvc,
}
use tinyvm.Decode.RvcImm.{
  Imm, sext-lt, both, piece, imm_addi4spn-lt, imm_clw-lt, imm_cld-lt, imm_lwsp-lt, imm_ldsp-lt,
  imm_swsp-lt, imm_sdsp-lt, rvc_rd_s-lt, rvc_rs1_s-lt, rvc_rd-lt, rvc_rs2-lt, imm_ci-lt,
}

form :
    (opcode funct3 funct7 rd rs1 rs2 imm : ℕ)
    → opcode < 256
    → funct3 < 8
    → funct7 < 128
    → rd < 32
    → rs1 < 32
    → rs2 < 32
    → Imm imm
    → InRange (record (blank 2) {
      opcode = opcode;
      funct3 = funct3;
      funct7 = funct7;
      rd = rd;
      rs1 = rs1;
      rs2 = rs2;
      imm = imm;
    })
form opcode funct3 funct7 rd rs1 rs2 imm ho h3 h7 hd h1 h2 hi = record {
  opcode_fits = ho;
  rd_fits = hd;
  rs1_fits = h1;
  rs2_fits = h2;
  funct3_fits = h3;
  funct7_fits = h7;
  imm_fits = hi;
  size_fits = omega arith;
}

i_form-InRange :
    (opcode funct3 rd rs1 imm : ℕ)
    → opcode < 256
    → funct3 < 8
    → rd < 32
    → rs1 < 32
    → Imm imm
    → InRange (i_form opcode funct3 rd rs1 imm)
i_form-InRange opcode funct3 rd rs1 imm ho h3 hd h1 hi =
    form opcode funct3 0 rd rs1 0 imm ho h3 (omega arith) hd h1 (omega arith) hi

s_form-InRange :
    (opcode funct3 rs1 rs2 imm : ℕ)
    → opcode < 256
    → funct3 < 8
    → rs1 < 32
    → rs2 < 32
    → Imm imm
    → InRange (s_form opcode funct3 rs1 rs2 imm)
s_form-InRange opcode funct3 rs1 rs2 imm ho h3 h1 h2 hi =
    form opcode funct3 0 0 rs1 rs2 imm ho h3 (omega arith) (omega arith) h1 h2 hi

r_form-InRange :
    (opcode funct3 funct7 rd rs1 rs2 : ℕ)
    → opcode < 256
    → funct3 < 8
    → funct7 < 128
    → rd < 32
    → rs1 < 32
    → rs2 < 32
    → InRange (r_form opcode funct3 funct7 rd rs1 rs2)
r_form-InRange opcode funct3 funct7 rd rs1 rs2 ho h3 h7 hd h1 h2 =
    form opcode funct3 funct7 rd rs1 rs2 0 ho h3 h7 hd h1 h2 (omega arith)

illegal-InRange : InRange illegal
illegal-InRange =
    i_form-InRange _ _ _ _ _ (omega arith) (omega arith) (omega arith) (omega arith) (omega arith)

blank-InRange : InRange (blank 2)
blank-InRange =
    i_form-InRange _ _ _ _ _ (omega arith) (omega arith) (omega arith) (omega arith) (omega arith)

decode_q0-InRange : (f3 r : ℕ) → InRange (decode_q0 f3 r)
unfolding decode_q0
decode_q0-InRange f3 r =
    let rd = rvc_rd_s-lt r in
    let rs1 = rvc_rs1_s-lt r in
    let load = λ (op f imm : ℕ) (ho : op < 256) (hf : f < 8) (hi : Imm imm).
      i_form-InRange op f (rvc_rd_s r) (rvc_rs1_s r) imm ho hf rd rs1 hi in
    let store = λ (op f imm : ℕ) (ho : op < 256) (hf : f < 8) (hi : Imm imm).
      s_form-InRange op f (rvc_rs1_s r) (rvc_rd_s r) imm ho hf rs1 rd hi in
    if-elim InRange (f3 == 0) _ _
      (λ _.
        i_form-InRange _ _ _ _ _ (omega arith) (omega arith) rd (omega arith) (imm_addi4spn-lt r))
      λ _.
        if-elim InRange (f3 == 1) _ _ (λ _. load _ _ _ (omega arith) (omega arith) (imm_cld-lt r))
          λ _.
            if-elim InRange (f3 == 2) _ _
              (λ _. load _ _ _ (omega arith) (omega arith) (imm_clw-lt r))
              λ _.
                if-elim InRange (f3 == 3) _ _
                  (λ _. load _ _ _ (omega arith) (omega arith) (imm_cld-lt r))
                  λ _.
                    if-elim InRange (f3 == 5) _ _
                      (λ _. store _ _ _ (omega arith) (omega arith) (imm_cld-lt r))
                      λ _.
                        if-elim InRange (f3 == 6) _ _
                          (λ _. store _ _ _ (omega arith) (omega arith) (imm_clw-lt r))
                          λ _.
                            if-elim InRange (f3 == 7) _ _
                              (λ _. store _ _ _ (omega arith) (omega arith) (imm_cld-lt r))
                              (λ _. illegal-InRange)

-- The register operations on rd' and rs2'.
alu_form :
    (op f3 f7 r : ℕ)
    → op < 256
    → f3 < 8
    → f7 < 128
    → InRange (r_form op f3 f7 (rvc_rs1_s r) (rvc_rs1_s r) (rvc_rd_s r))
alu_form op f3 f7 r ho h3 h7 =
    r_form-InRange op f3 f7 _ _ _ ho h3 h7 (rvc_rs1_s-lt r) (rvc_rs1_s-lt r) (rvc_rd_s-lt r)

decode_arith-InRange : (r : ℕ) → InRange (decode_arith r)
unfolding decode_arith
decode_arith-InRange r =
    if-elim InRange (rvc_arith r == 0) _ _
      (λ _. alu_form _ _ _ r (omega arith) (omega arith) (omega arith))
      λ _.
        if-elim InRange (rvc_arith r == 1) _ _
          (λ _. alu_form _ _ _ r (omega arith) (omega arith) (omega arith))
          λ _.
            if-elim InRange (rvc_arith r == 2) _ _
              (λ _. alu_form _ _ _ r (omega arith) (omega arith) (omega arith))
              (λ _. alu_form _ _ _ r (omega arith) (omega arith) (omega arith))

decode_arith_w-InRange : (r : ℕ) → InRange (decode_arith_w r)
unfolding decode_arith_w
decode_arith_w-InRange r =
    if-elim InRange (rvc_arith r == 0) _ _
      (λ _. alu_form _ _ _ r (omega arith) (omega arith) (omega arith))
      λ _.
        if-elim InRange (rvc_arith r == 1) _ _
          (λ _. alu_form _ _ _ r (omega arith) (omega arith) (omega arith))
          (λ _. alu_form _ _ _ r (omega arith) (omega arith) (omega arith))

decode_misc_alu-InRange : (r : ℕ) → InRange (decode_misc_alu r)
unfolding decode_misc_alu
decode_misc_alu-InRange r =
    let rd = rvc_rs1_s-lt r in
    let shamt = bit_and (imm_ci r) 0x3F in
    let fits : Imm shamt = omega (arith, field-lt (imm_ci r) 6 0x3F (omega arith)) in
    if-elim InRange (rvc_sub r == 0) _ _
      (λ _. i_form-InRange _ _ _ _ _ (omega arith) (omega arith) rd rd fits)
      λ _.
        if-elim InRange (rvc_sub r == 1) _ _
          (λ _.
            form _ _ _ _ _ _ _ (omega arith) (omega arith) (omega arith) rd rd (omega arith) fits)
          λ _.
            if-elim InRange (rvc_sub r == 2) _ _
              (λ _. i_form-InRange _ _ _ _ _ (omega arith) (omega arith) rd rd (imm_ci-lt r))
              λ _.
                if-elim InRange (not (truthy (rvc_b12 r))) _ _ (λ _. decode_arith-InRange r)
                  (λ _. decode_arith_w-InRange r)

decode_q1-InRange : (f3 r : ℕ) → InRange (decode_q1 f3 r)
unfolding decode_q1 imm_addi16sp imm_lui imm_cj imm_cb
decode_q1-InRange f3 r =
    let rd = rvc_rd-lt r in
    let addi = λ (op : ℕ) (ho : op < 256).
      i_form-InRange op 0 (rvc_rd r) (rvc_rd r) (imm_ci r) ho (omega arith) rd rd (imm_ci-lt r) in
    if-elim InRange (f3 == 0) _ _ (λ _. addi _ (omega arith))
      λ _.
        if-elim InRange (f3 == 1) _ _ (λ _. addi _ (omega arith))
          λ _.
            if-elim InRange (f3 == 2) _ _
              (λ _.
                i_form-InRange _ _ _ _ _ (omega arith) (omega arith) rd (omega arith) (imm_ci-lt r))
              λ _.
                if-elim InRange (f3 == 3) _ _
                  (λ _.
                    if-elim InRange (rvc_rd r == reg_sp) _ _
                      (λ _.
                        i_form-InRange _ _ _ _ _ (omega arith) (omega arith) (omega arith)
                          (omega arith) (sext-lt _ 10))
                      (λ _.
                        i_form-InRange _ _ _ _ _ (omega arith) (omega arith) rd (omega arith)
                          (sext-lt _ 18)))
                  λ _.
                    if-elim InRange (f3 == 4) _ _ (λ _. decode_misc_alu-InRange r)
                      λ _.
                        if-elim InRange (f3 == 5) _ _
                          (λ _.
                            i_form-InRange _ _ _ _ _ (omega arith) (omega arith) (omega arith)
                              (omega arith) (sext-lt _ 12))
                          λ _.
                            if-elim InRange (f3 == 6) _ _
                              (λ _.
                                s_form-InRange _ _ _ _ _ (omega arith) (omega arith)
                                  (rvc_rs1_s-lt r) (omega arith) (sext-lt _ 9))
                              (λ _.
                                s_form-InRange _ _ _ _ _ (omega arith) (omega arith)
                                  (rvc_rs1_s-lt r) (omega arith) (sext-lt _ 9))

decode_cr-InRange : (r : ℕ) → InRange (decode_cr r)
unfolding decode_cr
decode_cr-InRange r =
    let rs1 = rvc_rd-lt r in
    let rs2 = rvc_rs2-lt r in
    let b12 = truthy (rvc_b12 r) in
    if-elim InRange (not b12 && (rvc_rs2 r == 0)) _ _
      (λ _. i_form-InRange _ _ _ _ _ (omega arith) (omega arith) (omega arith) rs1 (omega arith))
      λ _.
        if-elim InRange (not b12) _ _
          (λ _.
            r_form-InRange _ _ _ _ _ _ (omega arith) (omega arith) (omega arith) rs1 (omega arith)
              rs2)
          λ _.
            if-elim InRange ((rvc_rd r == 0) && (rvc_rs2 r == 0)) _ _
              (λ _.
                i_form-InRange _ _ _ _ _ (omega arith) (omega arith) (omega arith) (omega arith)
                  (omega arith))
              λ _.
                if-elim InRange (rvc_rs2 r == 0) _ _
                  (λ _.
                    i_form-InRange _ _ _ _ _ (omega arith) (omega arith) (omega arith) rs1
                      (omega arith))
                  (λ _.
                    r_form-InRange _ _ _ _ _ _ (omega arith) (omega arith) (omega arith) rs1 rs1
                      rs2)

decode_q2-InRange : (f3 r : ℕ) → InRange (decode_q2 f3 r)
unfolding decode_q2
decode_q2-InRange f3 r =
    let rd = rvc_rd-lt r in
    let load = λ (op f imm : ℕ) (ho : op < 256) (hf : f < 8) (hi : Imm imm).
      i_form-InRange op f (rvc_rd r) reg_sp imm ho hf rd (omega arith) hi in
    let store = λ (op f imm : ℕ) (ho : op < 256) (hf : f < 8) (hi : Imm imm).
      s_form-InRange op f reg_sp (rvc_rs2 r) imm ho hf (omega arith) (rvc_rs2-lt r) hi in
    if-elim InRange (f3 == 0) _ _
      (λ _. i_form-InRange _ _ _ _ _ (omega arith) (omega arith) rd rd (
        both _ _ (piece r 12 1 5 (omega arith) (omega arith))
          (omega (arith, field-lt (shr r 2) 5 0x1F (omega arith)))))
      λ _.
        if-elim InRange (f3 == 1) _ _ (λ _. load _ _ _ (omega arith) (omega arith) (imm_ldsp-lt r))
          λ _.
            if-elim InRange (f3 == 2) _ _
              (λ _. load _ _ _ (omega arith) (omega arith) (imm_lwsp-lt r))
              λ _.
                if-elim InRange (f3 == 3) _ _
                  (λ _. load _ _ _ (omega arith) (omega arith) (imm_ldsp-lt r))
                  λ _.
                    if-elim InRange (f3 == 4) _ _ (λ _. decode_cr-InRange r)
                      λ _.
                        if-elim InRange (f3 == 5) _ _
                          (λ _. store _ _ _ (omega arith) (omega arith) (imm_sdsp-lt r))
                          λ _.
                            if-elim InRange (f3 == 6) _ _
                              (λ _. store _ _ _ (omega arith) (omega arith) (imm_swsp-lt r))
                              (λ _. store _ _ _ (omega arith) (omega arith) (imm_sdsp-lt r))

-- Whatever the 16 bits are, the fields of the expanded instruction are in range.
pub decode_rvc-InRange : (r : ℕ) → InRange (decode_rvc r)
unfolding decode_rvc
decode_rvc-InRange r =
    let op = field r 0 0x3 in
    if-elim InRange (op == 0) _ _ (λ _. decode_q0-InRange _ r)
      λ _.
        if-elim InRange (op == 1) _ _ (λ _. decode_q1-InRange _ r)
          λ _. if-elim InRange (op == 2) _ _ (λ _. decode_q2-InRange _ r) (λ _. blank-InRange)
