-- ===== src/Preprocessed/Bitwise.antt =====
-- The table of crates/air/src/preprocessed/bitwise.rs.
use stark_v.Base.{ℕ, zero, suc, ◌+◌, ◌*◌, ◌^◌, bit_and, bit_or, bit_xor}
use stark_v.Preprocessed.Columns.{for_range, write}

pub record BitwiseRow : Type 0 where
  pub limb_0 : ℕ
  pub limb_1 : ℕ
  pub result : ℕ
  pub bitwise_id : ℕ

abbrev pub log_size : ℕ
log_size = 18

unfoldable pub index : BitwiseRow → ℕ
index row = row.limb_0 + row.limb_1 * 2 ^ 8 + row.bitwise_id * 2 ^ 16

-- The `match op_id`.
unfoldable pub operation : ℕ → ℕ → ℕ → ℕ
operation zero lhs rhs = bit_and lhs rhs
operation (suc zero) lhs rhs = bit_or lhs rhs
operation (suc (suc zero)) lhs rhs = bit_xor lhs rhs
operation _ lhs rhs = 0

unfoldable pub bitwise_row : ℕ → ℕ → ℕ → BitwiseRow
unfolding operation
bitwise_row op_id lhs rhs = record {
  limb_0 = lhs;
  limb_1 = rhs;
  result = operation op_id lhs rhs;
  bitwise_id = op_id;
}

unfoldable pub gen_columns : ℕ → BitwiseRow
unfolding bitwise_row
gen_columns =
    for_range 4
      (λ op_id. for_range 256 (λ lhs. for_range 256 (λ rhs cols.
        write (bit_or (bit_or lhs (rhs * 2 ^ 8)) (op_id * 2 ^ 16)) (bitwise_row op_id lhs rhs)
          cols)))
      (λ i. record { limb_0 = 0; limb_1 = 0; result = 0; bitwise_id = 0 })
