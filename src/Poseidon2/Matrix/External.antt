-- ===== src/Poseidon2/Matrix/External.antt =====
-- The addition chains of the external matrix compute the product with it.
use stark_v.Base.{
  for_each, All-get_or, ℕ, ◌+◌, ◌%◌, ◌<◌, ◌≡◌, refl, ap, arith, ◌∙◌, IsU32, List, [], ◌∷◌, All,
}
use stark_v.Ops.Utils.{m31_p}
use stark_v.Poseidon2.Field.{M31}
use stark_v.Poseidon2.Permutation.{mix_block, add_column_sum, apply_external_round_matrix}
use stark_v.Poseidon2.Felt.{external_matrix}
use stark_v.Poseidon2.Arith.{IsM31, mod_lt}
use stark_v.Poseidon2.Matrix.{times_external}
use stark_v.Poseidon2.Matrix.Columns.{cons, summed16, column_sums, felt_column_sums}
use stark_v.Poseidon2.Matrix.Block.{row0, row1, row2, row3, apply_m4-block, m4-block}

reduced :
    (y a b c d : ℕ)
    → (y % m31_p + (a % m31_p + b % m31_p + c % m31_p + d % m31_p)) % m31_p
      ≡ (y + (a + b + c + d)) % m31_p
reduced y a b c d = omega arith

module _ (f : M31) (x0 x1 x2 x3 x4 x5 x6 x7 x8 x9 x10 x11 x12 x13 x14 x15 : ℕ) where
  abbrev state16 : List ℕ
  state16 = x0 ∷ x1 ∷ x2 ∷ x3 ∷ x4 ∷ x5 ∷ x6 ∷ x7 ∷ x8 ∷ x9 ∷ x10 ∷ x11 ∷ x12 ∷ x13 ∷ x14 ∷ x15 ∷ []

  abbrev mixed16 : List ℕ
  mixed16 =
      row0 x0 x1 x2 x3 % m31_p
      ∷ row1 x0 x1 x2 x3 % m31_p
      ∷ row2 x0 x1 x2 x3 % m31_p
      ∷ row3 x0 x1 x2 x3 % m31_p
      ∷ row0 x4 x5 x6 x7 % m31_p
      ∷ row1 x4 x5 x6 x7 % m31_p
      ∷ row2 x4 x5 x6 x7 % m31_p
      ∷ row3 x4 x5 x6 x7 % m31_p
      ∷ row0 x8 x9 x10 x11 % m31_p
      ∷ row1 x8 x9 x10 x11 % m31_p
      ∷ row2 x8 x9 x10 x11 % m31_p
      ∷ row3 x8 x9 x10 x11 % m31_p
      ∷ row0 x12 x13 x14 x15 % m31_p
      ∷ row1 x12 x13 x14 x15 % m31_p
      ∷ row2 x12 x13 x14 x15 % m31_p
      ∷ row3 x12 x13 x14 x15 % m31_p
      ∷ []

  mix_blocks : All IsU32 state16 → for_each (0 ∷ 1 ∷ 2 ∷ 3 ∷ []) (mix_block f) state16 ≡ mixed16
  unfolding mix_block
  mix_blocks h =
      let u32 = λ (i : ℕ) (p : i < 16). All-get_or IsU32 state16 i 0 h p in
      rw
        (
          apply_m4-block f x0 x1 x2 x3 (u32 0 (omega arith)) (u32 1 (omega arith))
              (u32 2 (omega arith)) (u32 3 (omega arith)),
          apply_m4-block f x4 x5 x6 x7 (u32 4 (omega arith)) (u32 5 (omega arith))
              (u32 6 (omega arith)) (u32 7 (omega arith)),
          apply_m4-block f x8 x9 x10 x11 (u32 8 (omega arith)) (u32 9 (omega arith))
              (u32 10 (omega arith)) (u32 11 (omega arith)),
          apply_m4-block f x12 x13 x14 x15 (u32 12 (omega arith)) (u32 13 (omega arith))
              (u32 14 (omega arith)) (u32 15 (omega arith)),
        )
        refl

  mixed16-IsM31 : All IsM31 mixed16
  mixed16-IsM31 = (
    mod_lt (row0 x0 x1 x2 x3),
    (
      mod_lt (row1 x0 x1 x2 x3),
      (
        mod_lt (row2 x0 x1 x2 x3),
        (
          mod_lt (row3 x0 x1 x2 x3),
          (
            mod_lt (row0 x4 x5 x6 x7),
            (
              mod_lt (row1 x4 x5 x6 x7),
              (
                mod_lt (row2 x4 x5 x6 x7),
                (
                  mod_lt (row3 x4 x5 x6 x7),
                  (
                    mod_lt (row0 x8 x9 x10 x11),
                    (
                      mod_lt (row1 x8 x9 x10 x11),
                      (
                        mod_lt (row2 x8 x9 x10 x11),
                        (
                          mod_lt (row3 x8 x9 x10 x11),
                          (
                            mod_lt (row0 x12 x13 x14 x15),
                            (
                              mod_lt (row1 x12 x13 x14 x15),
                              (mod_lt (row2 x12 x13 x14 x15), (mod_lt (row3 x12 x13 x14 x15), tt)),
                            ),
                          ),
                        ),
                      ),
                    ),
                  ),
                ),
              ),
            ),
          ),
        ),
      ),
    ),
  )

  summed :
      summed16 f
        (row0 x0 x1 x2 x3 % m31_p)
        (row1 x0 x1 x2 x3 % m31_p)
        (row2 x0 x1 x2 x3 % m31_p)
        (row3 x0 x1 x2 x3 % m31_p)
        (row0 x4 x5 x6 x7 % m31_p)
        (row1 x4 x5 x6 x7 % m31_p)
        (row2 x4 x5 x6 x7 % m31_p)
        (row3 x4 x5 x6 x7 % m31_p)
        (row0 x8 x9 x10 x11 % m31_p)
        (row1 x8 x9 x10 x11 % m31_p)
        (row2 x8 x9 x10 x11 % m31_p)
        (row3 x8 x9 x10 x11 % m31_p)
        (row0 x12 x13 x14 x15 % m31_p)
        (row1 x12 x13 x14 x15 % m31_p)
        (row2 x12 x13 x14 x15 % m31_p)
        (row3 x12 x13 x14 x15 % m31_p)
      ≡ times_external state16
  unfolding times_external
  summed =
      cons
        (reduced (row0 x0 x1 x2 x3) (row0 x0 x1 x2 x3) (row0 x4 x5 x6 x7) (row0 x8 x9 x10 x11)
            (row0 x12 x13 x14 x15)
          ∙ ap (λ z. z % m31_p) (omega arith))
        (cons
          (reduced (row1 x0 x1 x2 x3) (row1 x0 x1 x2 x3) (row1 x4 x5 x6 x7) (row1 x8 x9 x10 x11)
              (row1 x12 x13 x14 x15)
            ∙ ap (λ z. z % m31_p) (omega arith))
          (cons
            (reduced (row2 x0 x1 x2 x3) (row2 x0 x1 x2 x3) (row2 x4 x5 x6 x7) (row2 x8 x9 x10 x11)
                (row2 x12 x13 x14 x15)
              ∙ ap (λ z. z % m31_p) (omega arith))
            (cons
              (reduced (row3 x0 x1 x2 x3) (row3 x0 x1 x2 x3) (row3 x4 x5 x6 x7) (row3 x8 x9 x10 x11)
                  (row3 x12 x13 x14 x15)
                ∙ ap (λ z. z % m31_p) (omega arith))
              (cons
                (reduced (row0 x4 x5 x6 x7) (row0 x0 x1 x2 x3) (row0 x4 x5 x6 x7)
                    (row0 x8 x9 x10 x11) (row0 x12 x13 x14 x15)
                  ∙ ap (λ z. z % m31_p) (omega arith))
                (cons
                  (reduced (row1 x4 x5 x6 x7) (row1 x0 x1 x2 x3) (row1 x4 x5 x6 x7)
                      (row1 x8 x9 x10 x11) (row1 x12 x13 x14 x15)
                    ∙ ap (λ z. z % m31_p) (omega arith))
                  (cons
                    (reduced (row2 x4 x5 x6 x7) (row2 x0 x1 x2 x3) (row2 x4 x5 x6 x7)
                        (row2 x8 x9 x10 x11) (row2 x12 x13 x14 x15)
                      ∙ ap (λ z. z % m31_p) (omega arith))
                    (cons
                      (reduced (row3 x4 x5 x6 x7) (row3 x0 x1 x2 x3) (row3 x4 x5 x6 x7)
                          (row3 x8 x9 x10 x11) (row3 x12 x13 x14 x15)
                        ∙ ap (λ z. z % m31_p) (omega arith))
                      (cons
                        (reduced (row0 x8 x9 x10 x11) (row0 x0 x1 x2 x3) (row0 x4 x5 x6 x7)
                            (row0 x8 x9 x10 x11) (row0 x12 x13 x14 x15)
                          ∙ ap (λ z. z % m31_p) (omega arith))
                        (cons
                          (reduced (row1 x8 x9 x10 x11) (row1 x0 x1 x2 x3) (row1 x4 x5 x6 x7)
                              (row1 x8 x9 x10 x11) (row1 x12 x13 x14 x15)
                            ∙ ap (λ z. z % m31_p) (omega arith))
                          (cons
                            (reduced (row2 x8 x9 x10 x11) (row2 x0 x1 x2 x3) (row2 x4 x5 x6 x7)
                                (row2 x8 x9 x10 x11) (row2 x12 x13 x14 x15)
                              ∙ ap (λ z. z % m31_p) (omega arith))
                            (cons
                              (reduced (row3 x8 x9 x10 x11) (row3 x0 x1 x2 x3) (row3 x4 x5 x6 x7)
                                  (row3 x8 x9 x10 x11) (row3 x12 x13 x14 x15)
                                ∙ ap (λ z. z % m31_p) (omega arith))
                              (cons
                                (reduced (row0 x12 x13 x14 x15) (row0 x0 x1 x2 x3)
                                    (row0 x4 x5 x6 x7) (row0 x8 x9 x10 x11) (row0 x12 x13 x14 x15)
                                  ∙ ap (λ z. z % m31_p) (omega arith))
                                (cons
                                  (reduced (row1 x12 x13 x14 x15) (row1 x0 x1 x2 x3)
                                      (row1 x4 x5 x6 x7) (row1 x8 x9 x10 x11) (row1 x12 x13 x14 x15)
                                    ∙ ap (λ z. z % m31_p) (omega arith))
                                  (cons
                                    (reduced (row2 x12 x13 x14 x15) (row2 x0 x1 x2 x3)
                                        (row2 x4 x5 x6 x7) (row2 x8 x9 x10 x11)
                                        (row2 x12 x13 x14 x15)
                                      ∙ ap (λ z. z % m31_p) (omega arith))
                                    (cons
                                      (reduced (row3 x12 x13 x14 x15) (row3 x0 x1 x2 x3)
                                          (row3 x4 x5 x6 x7) (row3 x8 x9 x10 x11)
                                          (row3 x12 x13 x14 x15)
                                        ∙ ap (λ z. z % m31_p) (omega arith))
                                      (refl))))))))))))))))

  pub external_lem :
      All IsU32 state16 → apply_external_round_matrix f state16 ≡ times_external state16
  unfolding apply_external_round_matrix
  external_lem h =
      ap (λ s. for_each (0 ∷ 1 ∷ 2 ∷ 3 ∷ []) (add_column_sum f) s) (mix_blocks h)
      ∙ (column_sums f (row0 x0 x1 x2 x3 % m31_p) (row1 x0 x1 x2 x3 % m31_p)
            (row2 x0 x1 x2 x3 % m31_p) (row3 x0 x1 x2 x3 % m31_p) (row0 x4 x5 x6 x7 % m31_p)
            (row1 x4 x5 x6 x7 % m31_p) (row2 x4 x5 x6 x7 % m31_p) (row3 x4 x5 x6 x7 % m31_p)
            (row0 x8 x9 x10 x11 % m31_p) (row1 x8 x9 x10 x11 % m31_p) (row2 x8 x9 x10 x11 % m31_p)
            (row3 x8 x9 x10 x11 % m31_p) (row0 x12 x13 x14 x15 % m31_p)
            (row1 x12 x13 x14 x15 % m31_p) (row2 x12 x13 x14 x15 % m31_p)
            (row3 x12 x13 x14 x15 % m31_p) mixed16-IsM31
          ∙ summed)

  pub felt_external_lem : All IsM31 state16 → external_matrix f state16 ≡ times_external state16
  unfolding external_matrix
  felt_external_lem h =
      let lt = λ (i : ℕ) (p : i < 16). All-get_or IsM31 state16 i 0 h p in
      rw
        (
          m4-block f x0 x1 x2 x3 (lt 0 (omega arith)) (lt 1 (omega arith)) (lt 2 (omega arith))
              (lt 3 (omega arith)),
          m4-block f x4 x5 x6 x7 (lt 4 (omega arith)) (lt 5 (omega arith)) (lt 6 (omega arith))
              (lt 7 (omega arith)),
          m4-block f x8 x9 x10 x11 (lt 8 (omega arith)) (lt 9 (omega arith)) (lt 10 (omega arith))
              (lt 11 (omega arith)),
          m4-block f x12 x13 x14 x15 (lt 12 (omega arith)) (lt 13 (omega arith))
              (lt 14 (omega arith)) (lt 15 (omega arith)),
        )
        (felt_column_sums f (row0 x0 x1 x2 x3 % m31_p) (row1 x0 x1 x2 x3 % m31_p)
            (row2 x0 x1 x2 x3 % m31_p) (row3 x0 x1 x2 x3 % m31_p) (row0 x4 x5 x6 x7 % m31_p)
            (row1 x4 x5 x6 x7 % m31_p) (row2 x4 x5 x6 x7 % m31_p) (row3 x4 x5 x6 x7 % m31_p)
            (row0 x8 x9 x10 x11 % m31_p) (row1 x8 x9 x10 x11 % m31_p) (row2 x8 x9 x10 x11 % m31_p)
            (row3 x8 x9 x10 x11 % m31_p) (row0 x12 x13 x14 x15 % m31_p)
            (row1 x12 x13 x14 x15 % m31_p) (row2 x12 x13 x14 x15 % m31_p)
            (row3 x12 x13 x14 x15 % m31_p) mixed16-IsM31
          ∙ summed)
