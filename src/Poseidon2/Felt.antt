-- ===== src/Poseidon2/Felt.antt =====
-- The felt functions of crates/air/src/poseidon2.rs, from which `define_air_fns!` derives the
-- columns, the constraints and the row fill of the table: their values, `+`, `*` and numerals being
-- those of `M31`, and the table's rows.
use stark_v.Base.{
  for_each, ℕ, ◌+◌, ◌%◌, List, [], ◌∷◌, ◌++◌, map, get_or, set, replicate, bit_of, Bool, false,
}
use stark_v.Poseidon2.Field.{M31}
use stark_v.Poseidon2.Constants.{external_round_consts, internal_round_consts, internal_matrix}

-- `0..16`.
abbrev pub lanes : List ℕ
lanes = 0 ∷ 1 ∷ 2 ∷ 3 ∷ 4 ∷ 5 ∷ 6 ∷ 7 ∷ 8 ∷ 9 ∷ 10 ∷ 11 ∷ 12 ∷ 13 ∷ 14 ∷ 15 ∷ []

module _ (f : M31) where
  -- `x ** 5` as `lower_pow` expands it, by squarings.
  unfoldable pub power5 : ℕ → ℕ
  power5 x = let x2 = f.mul x x in let x4 = f.mul x2 x2 in f.mul x x4

  unfoldable pub m4 : ℕ → ℕ → ℕ → ℕ → ℕ × ℕ × ℕ × ℕ
  m4 x0 x1 x2 x3 =
      let t0 = f.add x0 x1 in
      let t1 = f.add x2 x3 in
      let t2 = f.add (f.mul (f.reduce 2) x1) t1 in
      let t3 = f.add (f.mul (f.reduce 2) x3) t0 in
      let t4 = f.add (f.mul (f.reduce 4) t1) t3 in
      let t5 = f.add (f.mul (f.reduce 4) t0) t2 in
      let t6 = f.add t3 t5 in let t7 = f.add t2 t4 in (t6, t5, t7, t4)

  -- The two maps at the end of `external_matrix`, on `mixed`.
  unfoldable pub mix_columns : List ℕ → List ℕ
  mix_columns mixed =
      let y = λ (i : ℕ). get_or mixed i 0 in
      let sums =
        map (λ j. f.add (f.add (f.add (y j) (y (j + 4))) (y (j + 8))) (y (j + 12)))
          (0 ∷ 1 ∷ 2 ∷ 3 ∷ []) in
      map (λ k. f.add (y k) (get_or sums (k % 4) 0)) lanes

  unfoldable pub external_matrix : List ℕ → List ℕ
  unfolding mix_columns
  external_matrix state =
      let x = λ (i : ℕ). get_or state i 0 in
      let (b0, b1, b2, b3) = m4 (x 0) (x 1) (x 2) (x 3) in
      let (b4, b5, b6, b7) = m4 (x 4) (x 5) (x 6) (x 7) in
      let (b8, b9, b10, b11) = m4 (x 8) (x 9) (x 10) (x 11) in
      let (b12, b13, b14, b15) = m4 (x 12) (x 13) (x 14) (x 15) in
      mix_columns
        (b0 ∷ b1 ∷ b2 ∷ b3 ∷ b4 ∷ b5 ∷ b6 ∷ b7 ∷ b8 ∷ b9 ∷ b10 ∷ b11 ∷ b12 ∷ b13 ∷ b14 ∷ b15 ∷ [])

  unfoldable pub felt_full_round : List ℕ → List ℕ → List ℕ
  unfolding external_matrix power5
  felt_full_round round_consts state =
      external_matrix
        (map (λ j. power5 (f.add (get_or state j 0) (f.reduce (get_or round_consts j 0)))) lanes)

  unfoldable pub felt_partial_round : ℕ → List ℕ → List ℕ
  unfolding power5
  felt_partial_round round_const state =
      let state = set state 0 (power5 (f.add (get_or state 0 0) (f.reduce round_const))) in
      let total = for_each (map (λ j. get_or state j 0) lanes) (λ x sum. f.add sum x) 0 in
      map (λ j. f.add (f.mul (get_or state j 0) (f.reduce (get_or internal_matrix j 0))) total)
        lanes

  unfoldable pub poseidon2 : List ℕ → List ℕ
  unfolding felt_full_round felt_partial_round external_matrix
  poseidon2 state =
      let consts = λ (r : ℕ). get_or external_round_consts r [] in
      let state = external_matrix state in
      let state = for_each (0 ∷ 1 ∷ 2 ∷ 3 ∷ []) (λ r. felt_full_round (consts r)) state in
      let state = for_each internal_round_consts felt_partial_round state in
      for_each (4 ∷ 5 ∷ 6 ∷ 7 ∷ []) (λ r. felt_full_round (consts r)) state

-- What is committed of a permutation, less the columns of its intermediate values.
pub record Poseidon2Row : Type 0 where
  pub input : List ℕ
  pub output : List ℕ
  pub wide : ℕ
  pub io : ℕ

module _ (f : M31) where
  unfoldable pub poseidon2_traced_state :
      List Poseidon2Row → List ℕ → Bool → Bool → List ℕ × List Poseidon2Row
  unfolding poseidon2
  poseidon2_traced_state table initial_state wide io =
      let input = map f.reduce initial_state in
      let output = poseidon2 f input in
      let row : Poseidon2Row = record {
        input = input;
        output = output;
        wide = bit_of wide;
        io = bit_of io;
      } in
      (output, table ++ row ∷ [])

  unfoldable pub poseidon2_traced : List Poseidon2Row → ℕ → ℕ → List ℕ × List Poseidon2Row
  unfolding poseidon2_traced_state
  poseidon2_traced table left right =
      let state = set (set (replicate 16 0) 0 (f.reduce left)) 1 (f.reduce right) in
      poseidon2_traced_state table state false false
