-- ===== src/Poseidon2/Permutation.antt =====
-- The plain permutation of crates/air/src/poseidon2.rs, without a trace. A state is a list of 16
-- words.
use stark_v.Base.{for_each, ℕ, zero, suc, ◌+◌, ◌*◌, List, [], ◌∷◌, map, get_or, set}
use stark_v.Poseidon2.Field.{M31}
use stark_v.Poseidon2.Constants.{external_round_consts, internal_round_consts, internal_matrix}

-- `xs.iter_mut().zip(ys)`, a write to each of the first list's elements that has a partner.
abbrev pub zip_with : (ℕ → ℕ → ℕ) → List ℕ → List ℕ → List ℕ
zip_with f [] ys = []
zip_with f (x ∷ xs) [] = x ∷ xs
zip_with f (x ∷ xs) (y ∷ ys) = f x y ∷ zip_with f xs ys

abbrev pub take : ℕ → List (List ℕ) → List (List ℕ)
take zero xs = []
take (suc n) [] = []
take (suc n) (x ∷ xs) = x ∷ take n xs

abbrev pub skip : ℕ → List (List ℕ) → List (List ℕ)
skip zero xs = xs
skip (suc n) [] = []
skip (suc n) (x ∷ xs) = skip n xs

module _ (f : M31) where
  unfoldable pub add_m31 : ℕ → ℕ → ℕ
  add_m31 a b = f.add (f.reduce a) (f.reduce b)

  unfoldable pub mul_m31 : ℕ → ℕ → ℕ
  mul_m31 a b = f.mul (f.reduce a) (f.reduce b)

  unfoldable pub square_m31 : ℕ → ℕ
  square_m31 x = f.mul (f.reduce x) (f.reduce x)

  unfoldable pub apply_m4 : ℕ → ℕ → ℕ → ℕ → ℕ × ℕ × ℕ × ℕ
  apply_m4 x0 x1 x2 x3 =
      let t0 = add_m31 x0 x1 in
      let t02 = add_m31 t0 t0 in
      let t1 = add_m31 x2 x3 in
      let t12 = add_m31 t1 t1 in
      let t2 = add_m31 (add_m31 x1 x1) t1 in
      let t3 = add_m31 (add_m31 x3 x3) t0 in
      let t4 = add_m31 (add_m31 t12 t12) t3 in
      let t5 = add_m31 (add_m31 t02 t02) t2 in
      let t6 = add_m31 t3 t5 in let t7 = add_m31 t2 t4 in (t6, t5, t7, t4)

  -- The body of the first loop, for the block that begins at `base`.
  unfoldable pub mix_block : ℕ → List ℕ → List ℕ
  mix_block i state =
      let base = 4 * i in
      let (y0, y1, y2, y3) =
        apply_m4 (get_or state base 0) (get_or state (base + 1) 0) (get_or state (base + 2) 0)
          (get_or state (base + 3) 0) in
      set (set (set (set state base y0) (base + 1) y1) (base + 2) y2) (base + 3) y3

  unfoldable pub add_column_sum : ℕ → List ℕ → List ℕ
  add_column_sum j state =
      let sum = add_m31 0 (get_or state j 0) in
      let sum = add_m31 sum (get_or state (j + 4) 0) in
      let sum = add_m31 sum (get_or state (j + 8) 0) in
      let sum = add_m31 sum (get_or state (j + 12) 0) in
      for_each (0 ∷ 1 ∷ 2 ∷ 3 ∷ [])
        (λ i s. set s (4 * i + j) (add_m31 (get_or s (4 * i + j) 0) sum)) state

  unfoldable pub apply_external_round_matrix : List ℕ → List ℕ
  unfolding mix_block add_column_sum
  apply_external_round_matrix state =
      for_each (0 ∷ 1 ∷ 2 ∷ 3 ∷ []) add_column_sum (for_each (0 ∷ 1 ∷ 2 ∷ 3 ∷ []) mix_block state)

  unfoldable pub apply_internal_round_matrix : List ℕ → List ℕ
  apply_internal_round_matrix state =
      let sum = for_each state (λ val sum. add_m31 sum val) 0 in
      zip_with (λ state_i matrix_i. add_m31 (mul_m31 state_i matrix_i) sum) state internal_matrix

  unfoldable pub full_round : List ℕ → List ℕ → List ℕ
  full_round round_consts state =
      let initial_state = zip_with add_m31 state round_consts in
      let state = map (λ x. square_m31 (square_m31 x)) initial_state in
      apply_external_round_matrix (zip_with mul_m31 state initial_state)

  unfoldable pub partial_round : ℕ → List ℕ → List ℕ
  partial_round round_const state =
      let initial_state = add_m31 (get_or state 0 0) round_const in
      let x = mul_m31 (square_m31 (square_m31 initial_state)) initial_state in
      apply_internal_round_matrix (set state 0 x)

  unfoldable pub poseidon2_permutation : List ℕ → List ℕ
  unfolding full_round partial_round
  poseidon2_permutation state =
      let state = apply_external_round_matrix state in
      let state = for_each (take 4 external_round_consts) full_round state in
      let state = for_each internal_round_consts partial_round state in
      for_each (skip 4 external_round_consts) full_round state
