-- ===== src/Decode/Bounds.antt =====
-- What the decoder guarantees of every instruction that it accepts.
use mathlib.Core.Path.{subst}
use stark_v.Execute.Values.{div-le_self}
use stark_v.Base.{
  ℕ, ◌^◌, ◌<◌, ◌≡◌, arith, Option, none, some, if_both, ltb, low, shr, sra32, ◌==◌, IsU32,
}
use stark_v.Decode.{
  Opcode, DecodedInst, decode, opcode_and_imm, with_imm, imm_i, imm_s, imm_b, imm_j, imm_u, r_type,
  i_type, load_type, store_type, branch_type, is_shift_imm,
}

-- The ranges of the fields of a decoded instruction.
pub record IsInst (d : DecodedInst) : Type 0 where
  pub rd_fits : d.rd < 32
  pub rs1_fits : d.rs1 < 32
  pub rs2_fits : d.rs2 < 32
  pub imm_fits : IsU32 d.imm

-- An immediate, if there is one, is a word.
abbrev ImmIsWord : Option (Opcode × ℕ) → Type 0
ImmIsWord none = Unit
ImmIsWord (some (op, imm)) = IsU32 imm

with_imm-ImmIsWord :
    (o : Option Opcode) (imm : Opcode → ℕ)
    → ((op : Opcode) → IsU32 (imm op))
    → ImmIsWord (with_imm o imm)
with_imm-ImmIsWord none imm h = tt
with_imm-ImmIsWord (some op) imm h = h op

sra32-IsU32 : (x k : ℕ) → IsU32 x → IsU32 (sra32 x k)
sra32-IsU32 x k h =
    if_both IsU32 (ltb x (2 ^ 31)) (omega (arith, div-le_self x (2 ^ k))) (omega arith)

opcode_and_imm-ImmIsWord : (bits f3 f7 w : ℕ) → IsU32 w → ImmIsWord (opcode_and_imm bits f3 f7 w)
unfolding opcode_and_imm imm_i imm_s imm_b imm_j imm_u
opcode_and_imm-ImmIsWord bits f3 f7 w h =
    if_both ImmIsWord (bits == 0b0110011) (with_imm-ImmIsWord (r_type f3 f7) _ (λ o. omega arith)) (
      if_both ImmIsWord (bits == 0b0010011)
        (with_imm-ImmIsWord (i_type f3 f7) _
          (λ o. if_both IsU32 (is_shift_imm o) (omega arith) (sra32-IsU32 w 20 h)))
        (if_both ImmIsWord (bits == 0b0000011)
          (with_imm-ImmIsWord (load_type f3) _ (λ o. sra32-IsU32 w 20 h))
          (if_both ImmIsWord (bits == 0b0100011)
            (with_imm-ImmIsWord (store_type f3) _ (λ o. sra32-IsU32 _ 20 (omega arith)))
            (if_both ImmIsWord (bits == 0b1100011)
              (with_imm-ImmIsWord (branch_type f3) _ (λ o. sra32-IsU32 _ 19 (omega arith)))
              (if_both ImmIsWord (bits == 0b1101111) (sra32-IsU32 _ 11 (omega arith)) (
                if_both ImmIsWord (bits == 0b1100111) (sra32-IsU32 w 20 h) (
                  if_both ImmIsWord (bits == 0b0110111) (omega arith)
                    (if_both ImmIsWord (bits == 0b0010111) (omega arith) tt))))))))

abbrev AllInst : Option DecodedInst → Type 0
AllInst none = Unit
AllInst (some d) = IsInst d

built-AllInst :
    (rd rs1 rs2 : ℕ) (o : Option (Opcode × ℕ))
    → rd < 32
    → rs1 < 32
    → rs2 < 32
    → ImmIsWord o
    → AllInst (elim o [
      | none ↦ none
      | some (op, imm) ↦ some (record { opcode = op; rd = rd; rs1 = rs1; rs2 = rs2; imm = imm })
    ])
built-AllInst rd rs1 rs2 none h1 h2 h3 h = tt
built-AllInst rd rs1 rs2 (some (op, imm)) h1 h2 h3 h = record {
  rd_fits = h1;
  rs1_fits = h2;
  rs2_fits = h3;
  imm_fits = h;
}

-- An instruction that the decoder accepts names registers below 32 and has an immediate of 32
-- bits, whatever word it came from.
pub decode-IsInst : (w : ℕ) (d : DecodedInst) → IsU32 w → decode w ≡ some d → IsInst d
unfolding decode
decode-IsInst w d h e =
    let all : AllInst (decode w) =
      built-AllInst (low (shr w 7) 5) (low (shr w 15) 5) (low (shr w 20) 5) _ (omega arith)
        (omega arith) (omega arith) (opcode_and_imm-ImmIsWord _ _ _ w h) in
    subst AllInst e all
