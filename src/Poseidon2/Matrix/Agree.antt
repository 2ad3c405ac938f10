-- ===== src/Poseidon2/Matrix/Agree.antt =====
-- The plain permutation and the felt function are both the permutation of the matrices.
use stark_v.Base.{
  for_each, ℕ, ◌+◌, ◌%◌, ◌^◌, ◌≡◌, refl, sym, ap, arith, ◌∙◌, IsU32, List, [], ◌∷◌, All, length,
  get_or, map, true, Bool, ◌&&◌, ◌==◌,
}
use stark_v.Ops.Utils.{m31_p}
use stark_v.Poseidon2.Field.{M31}
use stark_v.Poseidon2.Constants.{external_round_consts, internal_round_consts}
use stark_v.Poseidon2.Permutation.{
  take, skip, full_round, partial_round, poseidon2_permutation, zip_with,
}
use stark_v.Poseidon2.Felt.{
  power5, felt_full_round, felt_partial_round, lanes, poseidon2, external_matrix,
}
use stark_v.Poseidon2.Arith.{IsM31, mod_lt, power5_mod, all_below, all_below-All}
use stark_v.Poseidon2.Matrix.{times_external, add_consts, sbox, full, partial, matrix_permutation}
use stark_v.Poseidon2.Matrix.Rounds.{
  IsState, by_lanes, full_round_lem, external_any, felt_external_any, full-IsState,
  times_external-IsState, boxed-IsState,
}
use stark_v.Poseidon2.Matrix.Partial.{
  partial_round_lem, felt_partial_lem, reduced_add, partial-IsState,
}
use stark_v.Poseidon2.Matrix.Columns.{cons}

-- Two loops whose bodies agree on states.
agree :
    {A B : Type 0} (key : B → A) (Q : A → Type 0) (body : B → List ℕ → List ℕ)
    (spec : A → List ℕ → List ℕ)
    → ((x : B) (s : List ℕ) → Q (key x) → IsState s → body x s ≡ spec (key x) s)
    → ((x : A) (s : List ℕ) → IsState s → IsState (spec x s))
    → (xs : List B) (s : List ℕ) → All (λ x. Q (key x)) xs
    → IsState s
    → (for_each xs body s ≡ for_each (map key xs) spec s) × IsState (for_each (map key xs) spec s)
agree key Q body spec same keeps [] s h is = (refl, is)
agree key Q body spec same keeps (x ∷ xs) s h is =
    let next = keeps (key x) s is in
    let (e, last) = agree key Q body spec same keeps xs (spec (key x) s) h.1 next in
    (ap (λ t. for_each xs body t) (same x s h.0 is) ∙ e, last)

-- A row of constants.
abbrev IsRow : List ℕ → Type 0
IsRow row = (length row ≡ 16) × All IsU32 row

abbrev are_rows : List (List ℕ) → Bool
are_rows [] = true
are_rows (row ∷ rows) = (length row == 16) && (all_below (2 ^ 32) row && are_rows rows)

are_rows-All : (rows : List (List ℕ)) → are_rows rows ≡ true → All IsRow rows
are_rows-All [] h = tt
are_rows-All (row ∷ rows) h =
    ((ground arith, all_below-All (2 ^ 32) row (ground arith)), are_rows-All rows (ground arith))

first_rows : All IsRow (take 4 external_round_consts)
first_rows = are_rows-All (take 4 external_round_consts) refl

last_rows : All IsRow (skip 4 external_round_consts)
last_rows = are_rows-All (skip 4 external_round_consts) refl

inner_consts : All IsU32 internal_round_consts
inner_consts = all_below-All (2 ^ 32) internal_round_consts refl

module _ (f : M31) where
  felt_boxes :
      (s c : List ℕ)
      → All IsM31 s
      → All IsU32 c
      → length s ≡ length c
      → zip_with (λ x k. power5 f (f.add x (f.reduce k))) s c ≡ map sbox (add_consts s c)
  felt_boxes [] c h k e = refl
  felt_boxes (x ∷ s) [] h k e = absurd (omega (arith, e))
  felt_boxes (x ∷ s) (c ∷ cs) h k e =
      cons
        (ap (λ z. power5 f z) (reduced_add f x c h.0 k.0)
          ∙ power5_mod f ((x + c) % m31_p) (mod_lt (x + c)))
        (felt_boxes s cs h.1 k.1 (omega (arith, e)))

  felt_round_lanes :
      (s c : List ℕ)
      → length s ≡ 16
      → length c ≡ 16
      → map (λ j. power5 f (f.add (get_or s j 0) (f.reduce (get_or c j 0)))) lanes
        ≡ zip_with (λ x k. power5 f (f.add x (f.reduce k))) s c
  felt_round_lanes s c h k =
      by_lanes
        (λ s.
          map (λ j. power5 f (f.add (get_or s j 0) (f.reduce (get_or c j 0)))) lanes
          ≡ zip_with (λ x k. power5 f (f.add x (f.reduce k))) s c)
        (λ x0 x1 x2 x3 x4 x5 x6 x7 x8 x9 x10 x11 x12 x13 x14 x15.
          by_lanes
            (λ c.
              map
                (λ j. power5 f (
                  f.add
                    (get_or
                      (x0 ∷ x1 ∷ x2 ∷ x3 ∷ x4 ∷ x5 ∷ x6 ∷ x7 ∷ x8 ∷ x9 ∷ x10 ∷ x11 ∷ x12 ∷ x13 ∷ x14
                        ∷ x15 ∷ [])
                      j 0)
                    (f.reduce (get_or c j 0))))
                lanes
              ≡ zip_with (λ x k. power5 f (f.add x (f.reduce k)))
                  (x0 ∷ x1 ∷ x2 ∷ x3 ∷ x4 ∷ x5 ∷ x6 ∷ x7 ∷ x8 ∷ x9 ∷ x10 ∷ x11 ∷ x12 ∷ x13 ∷ x14
                    ∷ x15 ∷ [])
                  c)
            (λ y0 y1 y2 y3 y4 y5 y6 y7 y8 y9 y10 y11 y12 y13 y14 y15. refl) c k)
        s h

  felt_full_lem : (c s : List ℕ) → IsRow c → IsState s → felt_full_round f c s ≡ full c s
  unfolding felt_full_round full
  felt_full_lem c s k h =
      let boxed = boxed-IsState s c h in
      ap (λ t. external_matrix f t)
        (felt_round_lanes s c h.0 k.0 ∙ felt_boxes s c h.1 k.1 (h.0 ∙ sym k.0))
      ∙ felt_external_any f (map sbox (add_consts s c)) boxed.0 boxed.1

  -- The plain permutation of any 16 words is the permutation of the matrices.
  pub permutation-matrix :
      (s : List ℕ)
      → length s ≡ 16
      → All IsU32 s
      → (poseidon2_permutation f s ≡ matrix_permutation s) × IsState (matrix_permutation s)
  unfolding poseidon2_permutation matrix_permutation
  permutation-matrix s h k =
      let first =
        agree (λ c. c) IsRow (full_round f) full (λ c t q. full_round_lem f c t q.1)
          (λ c t is. full-IsState c t) (take 4 external_round_consts) (times_external s) first_rows
          (times_external-IsState s) in
      let inner =
        agree (λ c. c) IsU32 (partial_round f) partial (partial_round_lem f) partial-IsState
          internal_round_consts _ inner_consts first.1 in
      let last =
        agree (λ c. c) IsRow (full_round f) full (λ c t q. full_round_lem f c t q.1)
          (λ c t is. full-IsState c t) (skip 4 external_round_consts) _ last_rows inner.1 in
      (
        ap
              (λ t. for_each (skip 4 external_round_consts) (full_round f) (
                for_each internal_round_consts (partial_round f)
                  (for_each (take 4 external_round_consts) (full_round f) t)))
              (external_any f s h k)
            ∙ ap
                (λ t.
                  for_each (skip 4 external_round_consts) (full_round f)
                    (for_each internal_round_consts (partial_round f) t))
                first.0
            ∙ ap (λ t. for_each (skip 4 external_round_consts) (full_round f) t) inner.0
            ∙ last.0,
        last.1,
      )

  -- So is the felt function, on 16 elements of the field.
  pub felt-matrix : (s : List ℕ) → IsState s → poseidon2 f s ≡ matrix_permutation s
  unfolding poseidon2 matrix_permutation
  felt-matrix s h =
      let row = λ (r : ℕ). get_or external_round_consts r [] in
      let first =
        agree row IsRow (λ r. felt_full_round f (row r)) full (λ r t q. felt_full_lem (row r) t q)
          (λ c t is. full-IsState c t) (0 ∷ 1 ∷ 2 ∷ 3 ∷ []) (times_external s) first_rows
          (times_external-IsState s) in
      let inner =
        agree (λ c. c) IsU32 (felt_partial_round f) partial (felt_partial_lem f) partial-IsState
          internal_round_consts _ inner_consts first.1 in
      let last =
        agree row IsRow (λ r. felt_full_round f (row r)) full (λ r t q. felt_full_lem (row r) t q)
          (λ c t is. full-IsState c t) (4 ∷ 5 ∷ 6 ∷ 7 ∷ []) _ last_rows inner.1 in
      ap
        (λ t.
          for_each (4 ∷ 5 ∷ 6 ∷ 7 ∷ []) (λ r. felt_full_round f (row r))
            (for_each internal_round_consts (felt_partial_round f)
              (for_each (0 ∷ 1 ∷ 2 ∷ 3 ∷ []) (λ r. felt_full_round f (row r)) t)))
        (felt_external_any f s h.0 h.1)
      ∙ ap
          (λ t.
            for_each (4 ∷ 5 ∷ 6 ∷ 7 ∷ []) (λ r. felt_full_round f (row r))
              (for_each internal_round_consts (felt_partial_round f) t))
          first.0
      ∙ ap (λ t. for_each (4 ∷ 5 ∷ 6 ∷ 7 ∷ []) (λ r. felt_full_round f (row r)) t) inner.0
      ∙ last.0
