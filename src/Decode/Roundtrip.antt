-- ===== src/Decode/Roundtrip.antt =====
-- Decoding undoes encoding, for every instruction that RV32IM can encode.
use stark_v.Base.{ℕ, ◌^◌, ◌<◌, ◌≡◌, refl, arith, low, shr, some}
use stark_v.Decode.{Opcode, DecodedInst, decode, opcode_and_imm, r_type, i_type, load_type}
use stark_v.Decode.{store_type, branch_type, is_shift_imm, imm_i, imm_s, imm_b, imm_j, imm_u}
use stark_v.Decode.Encoding.{
  Format, code_of, high7, second5, first5, middle3, low5, word_of, encode, ImmFits, Encodable,
  SameRegisters,
}
use stark_v.Decode.Fields.{
  word_of_fields, imm_i-word_of, imm_s-word_of, imm_b-word_of, imm_j-word_of, imm_u-word_of,
}

-- The immediate that the decoder reads from a word of each format.
imm_of : Format → ℕ → ℕ
imm_of Format.r w = 0
imm_of Format.i w = imm_i w
imm_of Format.shift w = low (shr w 20) 5
imm_of Format.s w = imm_s w
imm_of Format.b w = imm_b w
imm_of Format.u w = imm_u w
imm_of Format.j w = imm_j w

-- Each opcode's codes select it, whatever the immediate puts beside them.
selects :
    (op : Opcode) (imm w : ℕ)
    → let c = code_of op in
      opcode_and_imm c.opcode_bits (middle3 c.format c.funct3 imm) (high7 c.format c.funct7 imm) w
      ≡ some (op, imm_of c.format w)
unfolding code_of opcode_and_imm r_type i_type load_type store_type branch_type is_shift_imm imm_of
selects Opcode.add imm w = refl
selects _ imm w = refl

code_fits :
    (op : Opcode)
    → let c = code_of op in (c.opcode_bits < 2 ^ 7) × (c.funct3 < 2 ^ 3) × (c.funct7 < 2 ^ 7)
unfolding code_of
code_fits Opcode.add = omega arith
code_fits _ = omega arith

-- The parts that a format takes from its registers, codes and immediate have the widths of their
-- places in the word.
parts_fit :
    (f : Format) (rd rs1 rs2 f3 f7 imm : ℕ)
    → rd < 2 ^ 5
    → rs1 < 2 ^ 5
    → rs2 < 2 ^ 5
    → f3 < 2 ^ 3
    → f7 < 2 ^ 7
    → ImmFits f imm
    → (low5 f rd imm < 2 ^ 5)
      × (middle3 f f3 imm < 2 ^ 3)
      × (first5 f rs1 imm < 2 ^ 5)
      × (second5 f rs2 imm < 2 ^ 5)
      × (high7 f f7 imm < 2 ^ 7)
parts_fit Format.r rd rs1 rs2 f3 f7 imm hd h1 h2 h3 h7 hi = omega arith
parts_fit _ rd rs1 rs2 f3 f7 imm hd h1 h2 h3 h7 hi = omega arith

-- A word's parts, in the order of `word_of`, for a format.
module _ (o : ℕ) (ho : o < 2 ^ 7) (rd rs1 rs2 f3 f7 imm : ℕ) (hd : rd < 2 ^ 5) (h1 : rs1 < 2 ^ 5)
    (h2 : rs2 < 2 ^ 5) (h3 : f3 < 2 ^ 3) (h7 : f7 < 2 ^ 7) where
  abbrev laid_out : Format → ℕ
  laid_out f =
      word_of o (low5 f rd imm) (middle3 f f3 imm) (first5 f rs1 imm) (second5 f rs2 imm)
        (high7 f f7 imm)

  imm_of-laid_out : (f : Format) → ImmFits f imm → imm_of f (laid_out f) ≡ imm
  unfolding imm_of
  imm_of-laid_out f hi =
      let (b5, b3, b1, b2, b7) = parts_fit f rd rs1 rs2 f3 f7 imm hd h1 h2 h3 h7 hi in
      by_format f hi b5 b3 b1 b2 b7
    where
      by_format :
          (f : Format)
          → ImmFits f imm
          → low5 f rd imm < 2 ^ 5
          → middle3 f f3 imm < 2 ^ 3
          → first5 f rs1 imm < 2 ^ 5
          → second5 f rs2 imm < 2 ^ 5
          → high7 f f7 imm < 2 ^ 7
          → imm_of f (laid_out f) ≡ imm
      by_format Format.r hi b5 b3 b1 b2 b7 = omega arith
      by_format Format.i hi b5 b3 b1 b2 b7 =
          imm_i-word_of o _ _ _ _ _ ho b5 b3 b1 b2 b7 imm hi refl refl
      by_format Format.shift hi b5 b3 b1 b2 b7 = (word_of_fields o _ _ _ _ _ ho b5 b3 b1 b2 b7).4
      by_format Format.s hi b5 b3 b1 b2 b7 =
          imm_s-word_of o _ _ _ _ _ ho b5 b3 b1 b2 b7 imm hi refl refl
      by_format Format.b hi b5 b3 b1 b2 b7 =
          imm_b-word_of o _ _ _ _ _ ho b5 b3 b1 b2 b7 imm hi.0 hi.1 refl refl
      by_format Format.u hi b5 b3 b1 b2 b7 =
          imm_u-word_of o _ _ _ _ _ ho b5 b3 b1 b2 b7 imm hi.0 hi.1 refl refl refl refl
      by_format Format.j hi b5 b3 b1 b2 b7 =
          imm_j-word_of o _ _ _ _ _ ho b5 b3 b1 b2 b7 imm hi.0 hi.1 refl refl refl refl

decode_by_fields :
    (w o d f3 s1 s2 f7 : ℕ) (op : Opcode) (imm : ℕ)
    → (low w 7 ≡ o)
      × (low (shr w 7) 5 ≡ d)
      × (low (shr w 12) 3 ≡ f3)
      × (low (shr w 15) 5 ≡ s1)
      × (low (shr w 20) 5 ≡ s2)
      × (low (shr w 25) 7 ≡ f7)
    → opcode_and_imm o f3 f7 w ≡ some (op, imm)
    → decode w ≡ some (record { opcode = op; rd = d; rs1 = s1; rs2 = s2; imm = imm })
unfolding decode
decode_by_fields w o d f3 s1 s2 f7 op imm (e0, e1, e2, e3, e4, e5) h = ground arith

same_registers :
    (f : Format) (op : Opcode) (rd rs1 rs2 imm : ℕ)
    → SameRegisters f
        (record {
          opcode = op;
          rd = low5 f rd imm;
          rs1 = first5 f rs1 imm;
          rs2 = second5 f rs2 imm;
          imm = imm;
        })
        (record { opcode = op; rd = rd; rs1 = rs1; rs2 = rs2; imm = imm })
same_registers Format.r op rd rs1 rs2 imm = (refl, refl, refl)
same_registers Format.i op rd rs1 rs2 imm = (refl, refl)
same_registers Format.shift op rd rs1 rs2 imm = (refl, refl)
same_registers Format.s op rd rs1 rs2 imm = (refl, refl)
same_registers Format.b op rd rs1 rs2 imm = (refl, refl)
same_registers Format.u op rd rs1 rs2 imm = refl
same_registers Format.j op rd rs1 rs2 imm = refl

-- Decoding the word that the ISA manual gives to an instruction succeeds, and gives back its
-- opcode, its immediate and the registers that its format names, for all 45 instructions of
-- RV32IM, all registers below 32 and every immediate that fits the format.
pub decode-encode :
    (d : DecodedInst)
    → Encodable d
    → (e : DecodedInst) × (decode (encode d) ≡ some e)
      × (e.opcode ≡ d.opcode)
      × (e.imm ≡ d.imm)
      × SameRegisters (code_of d.opcode).format e d
unfolding encode
decode-encode d ok =
    let c = code_of d.opcode in
    let (ho, h3, h7) = code_fits d.opcode in
    let (b5, b3, b1, b2, b7) =
      parts_fit c.format d.rd d.rs1 d.rs2 c.funct3 c.funct7 d.imm ok.rd_fits ok.rs1_fits ok.rs2_fits
        h3 h7 ok.imm_fits in
    let w = encode d in
    let read : imm_of c.format w ≡ d.imm =
      imm_of-laid_out c.opcode_bits ho d.rd d.rs1 d.rs2 c.funct3 c.funct7 d.imm ok.rd_fits
        ok.rs1_fits ok.rs2_fits h3 h7 c.format ok.imm_fits in
    (
      record {
        opcode = d.opcode;
        rd = low5 c.format d.rd d.imm;
        rs1 = first5 c.format d.rs1 d.imm;
        rs2 = second5 c.format d.rs2 d.imm;
        imm = d.imm;
      },
      decode_by_fields w _ _ _ _ _ _ d.opcode d.imm
          (word_of_fields c.opcode_bits _ _ _ _ _ ho b5 b3 b1 b2 b7)
          (rw (selects d.opcode d.imm w, read)),
      refl,
      refl,
      same_registers c.format d.opcode d.rd d.rs1 d.rs2 d.imm,
    )
