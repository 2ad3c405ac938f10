-- ===== src/Preprocessed/Ranges.antt =====
-- The tables of crates/air/src/preprocessed/range_check_20.rs, range_check_8_8.rs,
-- range_check_8_11.rs, range_check_8_8_4.rs and range_check_m31.rs. `index` is that of one of the
-- 16 lanes, and an element of the field is the `u32` that it holds.
use stark_v.Base.{ℕ, ◌+◌, ◌*◌, ◌^◌, ◌==◌, ◌&&◌, if◌then◌else◌, low, shr}
use stark_v.Preprocessed.Columns.{for_range, write}

abbrev pub log_size_20 : ℕ
log_size_20 = 20

unfoldable pub index_20 : ℕ → ℕ
index_20 value = value

unfoldable pub gen_columns_20 : ℕ → ℕ
gen_columns_20 = for_range (2 ^ log_size_20) (λ i col. write i i col) (λ i. 0)

abbrev pub log_size_8_8 : ℕ
log_size_8_8 = 16

unfoldable pub index_8_8 : ℕ × ℕ → ℕ
index_8_8 (limb_0, limb_1) = limb_0 + limb_1 * 2 ^ 8

unfoldable pub gen_columns_8_8 : ℕ → ℕ × ℕ
gen_columns_8_8 =
    for_range (2 ^ log_size_8_8) (λ i cols. write i (low i 8, low (shr i 8) 8) cols) (λ i. (0, 0))

abbrev pub log_size_8_11 : ℕ
log_size_8_11 = 19

unfoldable pub index_8_11 : ℕ × ℕ → ℕ
index_8_11 (limb_0, limb_1) = limb_0 + limb_1 * 2 ^ 8

unfoldable pub gen_columns_8_11 : ℕ → ℕ × ℕ
gen_columns_8_11 =
    for_range (2 ^ log_size_8_11) (λ i cols. write i (low i 8, low (shr i 8) 11) cols) (λ i. (0, 0))

abbrev pub log_size_8_8_4 : ℕ
log_size_8_8_4 = 20

unfoldable pub index_8_8_4 : ℕ × ℕ × ℕ → ℕ
index_8_8_4 (limb_0, limb_1, limb_2) = limb_0 + limb_1 * 2 ^ 8 + limb_2 * 2 ^ 16

unfoldable pub gen_columns_8_8_4 : ℕ → ℕ × ℕ × ℕ
gen_columns_8_8_4 =
    for_range (2 ^ log_size_8_8_4)
      (λ i cols. write i (low i 8, low (shr i 8) 8, low (shr i 16) 4) cols) (λ i. (0, 0, 0))

abbrev pub log_size_m31 : ℕ
log_size_m31 = 15

unfoldable pub index_m31 : ℕ × ℕ → ℕ
index_m31 (lsl, msl) = lsl + msl * 2 ^ 8

-- The row that the loop writes at `i`; (255, 127) is left out.
unfoldable pub row_m31 : ℕ → ℕ × ℕ
row_m31 i =
    let lsl_val = low i 8 in
    let msl_val = low (shr i 8) 7 in
    if lsl_val == 255 && msl_val == 127 then (0, 0) else (lsl_val, msl_val)

unfoldable pub gen_columns_m31 : ℕ → ℕ × ℕ
unfolding row_m31
gen_columns_m31 = for_range (2 ^ log_size_m31) (λ i cols. write i (row_m31 i) cols) (λ i. (0, 0))
