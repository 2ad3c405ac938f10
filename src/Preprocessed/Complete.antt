-- ===== src/Preprocessed/Complete.antt =====
-- A lookup table of crates/air/src/preprocessed/ has every tuple that it should have, at the index at
-- which the tuple is counted, and no other.
use stark_v.Base.{
  ℕ, ◌+◌, ◌*◌, ◌^◌, ◌<◌, ◌≡◌, ◌≢◌, refl, sym, ap, arith, ◌∙◌, ◌⊎◌, inl, inr, Bool-cases, ◌==◌, ◌&&◌,
  low, shr, bit_and, bit_or, bit_xor,
}
use stark_v.Base.Bits.{bit_or-shifted}
use stark_v.Ops.Utils.{m31_p}
use stark_v.Preprocessed.Columns.{
  for_range, write, filled, loop_sets, loop_keeps, write_same, write_other,
}
use stark_v.Preprocessed.Ranges.{
  index_20, gen_columns_20, index_8_8, gen_columns_8_8, index_8_11, gen_columns_8_11, index_8_8_4,
  gen_columns_8_8_4, index_m31, gen_columns_m31, row_m31,
}
use stark_v.Preprocessed.Bitwise.{BitwiseRow, index, gen_columns, bitwise_row, operation}

pair : {a b a' b' : ℕ} → a ≡ a' → b ≡ b' → Path (ℕ × ℕ) (a, b) (a', b')
pair p q = λ i. (p i, q i)

triple : {a b c a' b' c' : ℕ} → a ≡ a' → b ≡ b' → c ≡ c' → Path (ℕ × ℕ × ℕ) (a, b, c) (a', b', c')
triple p q r = λ i. (p i, q i, r i)

-- A tuple of limbs within their ranges is the row of the range table of its widths at the index at
-- which the table counts it.
pub gen_columns-index :
    (value byte_0 byte_1 limb nibble : ℕ)
    → value < 2 ^ 20
    → byte_0 < 2 ^ 8
    → byte_1 < 2 ^ 8
    → limb < 2 ^ 11
    → nibble < 2 ^ 4
    → (gen_columns_20 (index_20 value) ≡ value)
      × (gen_columns_8_8 (index_8_8 (byte_0, byte_1)) ≡ (byte_0, byte_1))
      × (gen_columns_8_11 (index_8_11 (byte_0, limb)) ≡ (byte_0, limb))
      × (gen_columns_8_8_4 (index_8_8_4 (byte_0, byte_1, nibble)) ≡ (byte_0, byte_1, nibble))
unfolding index_20 gen_columns_20 index_8_8 gen_columns_8_8 index_8_11 gen_columns_8_11 index_8_8_4
    gen_columns_8_8_4
gen_columns-index value byte_0 byte_1 limb nibble hv h0 h1 hl hn = (
  filled (λ i. i) (2 ^ 20) value (λ i. 0) hv,
  filled (λ i. (low i 8, low (shr i 8) 8)) (2 ^ 16) (byte_0 + byte_1 * 2 ^ 8) (λ i. (0, 0))
        (omega arith)
      ∙ pair (omega arith) (omega arith),
  filled (λ i. (low i 8, low (shr i 8) 11)) (2 ^ 19) (byte_0 + limb * 2 ^ 8) (λ i. (0, 0))
        (omega arith)
      ∙ pair (omega arith) (omega arith),
  filled (λ i. (low i 8, low (shr i 8) 8, low (shr i 16) 4)) (2 ^ 20)
        (byte_0 + byte_1 * 2 ^ 8 + nibble * 2 ^ 16) (λ i. (0, 0, 0)) (omega arith)
      ∙ triple (omega arith) (omega arith) (omega arith),
)

-- The limbs of a row with anything between them are below the prime.
row_m31-IsM31 :
    (i low_mid high_mid : ℕ)
    → low_mid < 2 ^ 8
    → high_mid < 2 ^ 8
    → (row_m31 i).0 + low_mid * 2 ^ 8 + high_mid * 2 ^ 16 + (row_m31 i).1 * 2 ^ 24 < m31_p
unfolding row_m31
row_m31-IsM31 i low_mid high_mid hl hh =
    elim (Bool-cases (low i 8 == 255 && low (shr i 8) 7 == 127)) [
      | inl last ↦ rw last (omega arith)
      | inr other ↦ rw other (ground arith)
    ]

row_m31-index :
    (lsl msl : ℕ)
    → lsl < 2 ^ 8
    → msl < 2 ^ 7
    → lsl + msl < 255 + 127
    → row_m31 (lsl + msl * 2 ^ 8) ≡ (lsl, msl)
unfolding row_m31
row_m31-index lsl msl hl hm not_last =
    let low_limb : low (lsl + msl * 2 ^ 8) 8 ≡ lsl = omega arith in
    let high_limb : low (shr (lsl + msl * 2 ^ 8) 8) 7 ≡ msl = omega arith in
    rw (low_limb, high_limb)
      (elim (Bool-cases (lsl == 255 && msl == 127)) [
        | inl last ↦ absurd (ground arith)
        | inr other ↦ rw other refl
      ])

-- Every row of the `range_check_m31` table, as the lowest and the highest limb of a number whose two
-- limbs between are any bytes, makes a number below the prime; and each pair of a byte and a number
-- of 7 bits but (255, 127) is the row at its index.
pub gen_columns_m31-IsM31 :
    (i low_mid high_mid lsl msl : ℕ)
    → i < 2 ^ 15
    → low_mid < 2 ^ 8
    → high_mid < 2 ^ 8
    → lsl < 2 ^ 8
    → msl < 2 ^ 7
    → lsl + msl < 255 + 127
    → let (lowest, highest) = gen_columns_m31 i in
      (lowest + low_mid * 2 ^ 8 + high_mid * 2 ^ 16 + highest * 2 ^ 24 < m31_p)
      × (gen_columns_m31 (index_m31 (lsl, msl)) ≡ (lsl, msl))
unfolding gen_columns_m31 index_m31
gen_columns_m31-IsM31 i low_mid high_mid lsl msl hi hl hh hlsl hmsl not_last =
    let at = λ (j : ℕ) (h : j < 2 ^ 15). filled row_m31 (2 ^ 15) j (λ k. (0, 0)) h in
    let here = lsl + msl * 2 ^ 8 in
    (
      rw (at i hi) (row_m31-IsM31 i low_mid high_mid hl hh),
      at here (omega arith) ∙ row_m31-index lsl msl hlsl hmsl not_last,
    )

-- The cell at which the loops write a row.
abbrev at_cell : ℕ → ℕ → ℕ → ℕ
at_cell op_id lhs rhs = bit_or (bit_or lhs (rhs * 2 ^ 8)) (op_id * 2 ^ 16)

at_cell_lem :
    (op_id lhs rhs : ℕ)
    → lhs < 256
    → rhs < 256
    → at_cell op_id lhs rhs ≡ lhs + rhs * 2 ^ 8 + op_id * 2 ^ 16
at_cell_lem op_id lhs rhs hl hr =
    rw (bit_or-shifted 8 lhs rhs (omega arith))
      (bit_or-shifted 16 (lhs + rhs * 2 ^ 8) op_id (omega arith))

-- The rows of the loops over `lhs` and `rhs`.
abbrev rhs_body : ℕ → ℕ → ℕ → (ℕ → BitwiseRow) → ℕ → BitwiseRow
rhs_body op_id lhs rhs cols = write (at_cell op_id lhs rhs) (bitwise_row op_id lhs rhs) cols

abbrev lhs_body : ℕ → ℕ → (ℕ → BitwiseRow) → ℕ → BitwiseRow
lhs_body op_id lhs cols = for_range 256 (rhs_body op_id lhs) cols

module _ (op_id lhs rhs : ℕ) (hl : lhs < 256) (hr : rhs < 256) where
  abbrev here : ℕ
  here = lhs + rhs * 2 ^ 8 + op_id * 2 ^ 16

  other_cell :
      (o l r : ℕ) (cols : ℕ → BitwiseRow)
      → l < 256
      → r < 256
      → ((o ≢ op_id) ⊎ (l ≢ lhs)) ⊎ (r ≢ rhs)
      → rhs_body o l r cols here ≡ cols here
  other_cell o l r cols small small' n =
      write_other (at_cell o l r) here (bitwise_row o l r) cols (λ e.
        let e' : l + r * 2 ^ 8 + o * 2 ^ 16 ≡ here = sym (at_cell_lem o l r small small') ∙ e in
        elim n [
          | inl (inl ne) ↦ ne (omega arith)
          | inl (inr ne) ↦ ne (omega arith)
          | inr ne ↦ ne (omega arith)
        ])

  this_cell : (cols : ℕ → BitwiseRow) → rhs_body op_id lhs rhs cols here ≡ bitwise_row op_id lhs rhs
  this_cell cols =
      ap (λ z. write z (bitwise_row op_id lhs rhs) cols here) (at_cell_lem op_id lhs rhs hl hr)
      ∙ write_same here (bitwise_row op_id lhs rhs) cols

  lhs_sets : (cols : ℕ → BitwiseRow) → lhs_body op_id lhs cols here ≡ bitwise_row op_id lhs rhs
  lhs_sets cols =
      loop_sets (rhs_body op_id lhs) here 256 rhs (bitwise_row op_id lhs rhs) cols hr
        (λ r small ne v. other_cell op_id lhs r v hl small (inr ne)) this_cell

  lhs_keeps :
      (l : ℕ) (cols : ℕ → BitwiseRow) → l < 256 → l ≢ lhs → lhs_body op_id l cols here ≡ cols here
  lhs_keeps l cols small ne =
      loop_keeps (rhs_body op_id l) here 256 cols
        (λ r r_small v. other_cell op_id l r v small r_small (inl (inr ne)))

  op_keeps :
      (o : ℕ) (cols : ℕ → BitwiseRow) → o ≢ op_id → for_range 256 (lhs_body o) cols here ≡ cols here
  op_keeps o cols ne = loop_keeps (lhs_body o) here 256 cols (λ l small v.
      loop_keeps (rhs_body o l) here 256 v
        (λ r r_small w. other_cell o l r w small r_small (inl (inl ne))))

-- The loops write every row at its index.
filled_bitwise_row :
    (op_id lhs rhs : ℕ)
    → op_id < 4
    → lhs < 256
    → rhs < 256
    → gen_columns (index (bitwise_row op_id lhs rhs)) ≡ bitwise_row op_id lhs rhs
unfolding gen_columns index
filled_bitwise_row op_id lhs rhs ho hl hr =
    loop_sets (λ o. for_range 256 (lhs_body o)) (here op_id lhs rhs hl hr) 4 op_id
      (bitwise_row op_id lhs rhs) _ ho (λ o small ne v. op_keeps op_id lhs rhs hl hr o v ne)
      (λ v.
        loop_sets (lhs_body op_id) (here op_id lhs rhs hl hr) 256 lhs (bitwise_row op_id lhs rhs) v
          hl (λ l small ne w. lhs_keeps op_id lhs rhs hl hr l w small ne)
          (lhs_sets op_id lhs rhs hl hr))

abbrev bitwise_tuple : ℕ → ℕ → ℕ → ℕ → BitwiseRow
bitwise_tuple lhs rhs result id = record {
  limb_0 = lhs;
  limb_1 = rhs;
  result = result;
  bitwise_id = id;
}

-- For any two bytes, the bitwise table has, each at the index at which it is counted, the two bytes
-- with their `&` and the id 0, with their `|` and the id 1, with their `^` and the id 2, and with 0 and
-- the id 3.
pub gen_columns-bitwise :
    (lhs rhs : ℕ)
    → lhs < 256
    → rhs < 256
    → let row = bitwise_tuple lhs rhs in
      (gen_columns (index (row (bit_and lhs rhs) 0)) ≡ row (bit_and lhs rhs) 0)
      × (gen_columns (index (row (bit_or lhs rhs) 1)) ≡ row (bit_or lhs rhs) 1)
      × (gen_columns (index (row (bit_xor lhs rhs) 2)) ≡ row (bit_xor lhs rhs) 2)
      × (gen_columns (index (row 0 3)) ≡ row 0 3)
unfolding bitwise_row operation
gen_columns-bitwise lhs rhs hl hr = (
  filled_bitwise_row 0 lhs rhs (omega arith) hl hr,
  filled_bitwise_row 1 lhs rhs (omega arith) hl hr,
  filled_bitwise_row 2 lhs rhs (omega arith) hl hr,
  filled_bitwise_row 3 lhs rhs (omega arith) hl hr,
)
