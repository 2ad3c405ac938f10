-- ===== src/Poseidon2/Matrix/Columns.antt =====
-- The sums over the blocks, in both forms of the external matrix.
use stark_v.Base.{for_each, ℕ, ◌+◌, ◌%◌, ◌<◌, ◌≡◌, refl, arith, ◌∙◌, List, [], ◌∷◌, All, All-get_or}
use stark_v.Ops.Utils.{m31_p}
use stark_v.Poseidon2.Field.{M31}
use stark_v.Poseidon2.Permutation.{add_m31, add_column_sum}
use stark_v.Poseidon2.Felt.{mix_columns}
use stark_v.Poseidon2.Arith.{IsM31, mod_lt, add_m31_mod}

pub cons : {x y : ℕ} {xs ys : List ℕ} → x ≡ y → xs ≡ ys → Path (List ℕ) (x ∷ xs) (y ∷ ys)
cons p q = λ i. p i ∷ q i

module _ (f : M31) where
  add_lem : (a b : ℕ) → IsM31 a → IsM31 b → add_m31 f a b ≡ (a + b) % m31_p
  add_lem a b h k = add_m31_mod f a b (omega arith) (omega arith)

  sum_lem :
      (a b c d : ℕ)
      → IsM31 a
      → IsM31 b
      → IsM31 c
      → IsM31 d
      → add_m31 f (add_m31 f (add_m31 f (add_m31 f 0 a) b) c) d ≡ (a + b + c + d) % m31_p
  sum_lem a b c d ha hb hc hd =
      let la = mod_lt (0 + a) in
      let lb = mod_lt ((0 + a) % m31_p + b) in
      let lc = mod_lt (((0 + a) % m31_p + b) % m31_p + c) in
      rw
        (
          add_lem 0 a (omega arith) ha,
          add_lem ((0 + a) % m31_p) b la hb,
          add_lem (((0 + a) % m31_p + b) % m31_p) c lb hc,
          add_lem ((((0 + a) % m31_p + b) % m31_p + c) % m31_p) d lc hd,
        )
        (omega arith)

  lane :
      (y a b c d : ℕ)
      → IsM31 y
      → IsM31 a
      → IsM31 b
      → IsM31 c
      → IsM31 d
      → add_m31 f y (add_m31 f (add_m31 f (add_m31 f (add_m31 f 0 a) b) c) d)
        ≡ (y + (a + b + c + d)) % m31_p
  lane y a b c d hy ha hb hc hd =
      rw (sum_lem a b c d ha hb hc hd)
        (add_lem y ((a + b + c + d) % m31_p) hy (mod_lt (a + b + c + d)) ∙ omega arith)

  felt_sum :
      (a b c d : ℕ)
      → IsM31 a
      → IsM31 b
      → IsM31 c
      → IsM31 d
      → f.add (f.add (f.add a b) c) d ≡ (a + b + c + d) % m31_p
  felt_sum a b c d ha hb hc hd =
      rw
        (
          f.add_mod a b ha hb,
          f.add_mod ((a + b) % m31_p) c (mod_lt (a + b)) hc,
          f.add_mod (((a + b) % m31_p + c) % m31_p) d (mod_lt ((a + b) % m31_p + c)) hd,
        )
        (omega arith)

  felt_lane :
      (y a b c d : ℕ)
      → IsM31 y
      → IsM31 a
      → IsM31 b
      → IsM31 c
      → IsM31 d
      → f.add y (f.add (f.add (f.add a b) c) d) ≡ (y + (a + b + c + d)) % m31_p
  felt_lane y a b c d hy ha hb hc hd =
      rw (felt_sum a b c d ha hb hc hd)
        (f.add_mod y ((a + b + c + d) % m31_p) hy (mod_lt (a + b + c + d)) ∙ omega arith)

module _ (f : M31) (y0 y1 y2 y3 y4 y5 y6 y7 y8 y9 y10 y11 y12 y13 y14 y15 : ℕ) where
  abbrev block16 : List ℕ
  block16 = y0 ∷ y1 ∷ y2 ∷ y3 ∷ y4 ∷ y5 ∷ y6 ∷ y7 ∷ y8 ∷ y9 ∷ y10 ∷ y11 ∷ y12 ∷ y13 ∷ y14 ∷ y15 ∷ []

  abbrev pub summed16 : List ℕ
  summed16 =
      (y0 + (y0 + y4 + y8 + y12)) % m31_p
      ∷ (y1 + (y1 + y5 + y9 + y13)) % m31_p
      ∷ (y2 + (y2 + y6 + y10 + y14)) % m31_p
      ∷ (y3 + (y3 + y7 + y11 + y15)) % m31_p
      ∷ (y4 + (y0 + y4 + y8 + y12)) % m31_p
      ∷ (y5 + (y1 + y5 + y9 + y13)) % m31_p
      ∷ (y6 + (y2 + y6 + y10 + y14)) % m31_p
      ∷ (y7 + (y3 + y7 + y11 + y15)) % m31_p
      ∷ (y8 + (y0 + y4 + y8 + y12)) % m31_p
      ∷ (y9 + (y1 + y5 + y9 + y13)) % m31_p
      ∷ (y10 + (y2 + y6 + y10 + y14)) % m31_p
      ∷ (y11 + (y3 + y7 + y11 + y15)) % m31_p
      ∷ (y12 + (y0 + y4 + y8 + y12)) % m31_p
      ∷ (y13 + (y1 + y5 + y9 + y13)) % m31_p
      ∷ (y14 + (y2 + y6 + y10 + y14)) % m31_p
      ∷ (y15 + (y3 + y7 + y11 + y15)) % m31_p
      ∷ []

  pub column_sums :
      All IsM31 block16 → for_each (0 ∷ 1 ∷ 2 ∷ 3 ∷ []) (add_column_sum f) block16 ≡ summed16
  unfolding add_column_sum
  column_sums h =
      let lt = λ (i : ℕ) (p : i < 16). All-get_or IsM31 block16 i 0 h p in
      cons
        (lane f y0 y0 y4 y8 y12 (lt 0 (omega arith)) (lt 0 (omega arith)) (lt 4 (omega arith))
          (lt 8 (omega arith)) (lt 12 (omega arith)))
        (cons
          (lane f y1 y1 y5 y9 y13 (lt 1 (omega arith)) (lt 1 (omega arith)) (lt 5 (omega arith))
            (lt 9 (omega arith)) (lt 13 (omega arith)))
          (cons
            (lane f y2 y2 y6 y10 y14 (lt 2 (omega arith)) (lt 2 (omega arith)) (lt 6 (omega arith))
              (lt 10 (omega arith)) (lt 14 (omega arith)))
            (cons
              (lane f y3 y3 y7 y11 y15 (lt 3 (omega arith)) (lt 3 (omega arith))
                (lt 7 (omega arith)) (lt 11 (omega arith)) (lt 15 (omega arith)))
              (cons
                (lane f y4 y0 y4 y8 y12 (lt 4 (omega arith)) (lt 0 (omega arith))
                  (lt 4 (omega arith)) (lt 8 (omega arith)) (lt 12 (omega arith)))
                (cons
                  (lane f y5 y1 y5 y9 y13 (lt 5 (omega arith)) (lt 1 (omega arith))
                    (lt 5 (omega arith)) (lt 9 (omega arith)) (lt 13 (omega arith)))
                  (cons
                    (lane f y6 y2 y6 y10 y14 (lt 6 (omega arith)) (lt 2 (omega arith))
                      (lt 6 (omega arith)) (lt 10 (omega arith)) (lt 14 (omega arith)))
                    (cons
                      (lane f y7 y3 y7 y11 y15 (lt 7 (omega arith)) (lt 3 (omega arith))
                        (lt 7 (omega arith)) (lt 11 (omega arith)) (lt 15 (omega arith)))
                      (cons
                        (lane f y8 y0 y4 y8 y12 (lt 8 (omega arith)) (lt 0 (omega arith))
                          (lt 4 (omega arith)) (lt 8 (omega arith)) (lt 12 (omega arith)))
                        (cons
                          (lane f y9 y1 y5 y9 y13 (lt 9 (omega arith)) (lt 1 (omega arith))
                            (lt 5 (omega arith)) (lt 9 (omega arith)) (lt 13 (omega arith)))
                          (cons
                            (lane f y10 y2 y6 y10 y14 (lt 10 (omega arith)) (lt 2 (omega arith))
                              (lt 6 (omega arith)) (lt 10 (omega arith)) (lt 14 (omega arith)))
                            (cons
                              (lane f y11 y3 y7 y11 y15 (lt 11 (omega arith)) (lt 3 (omega arith))
                                (lt 7 (omega arith)) (lt 11 (omega arith)) (lt 15 (omega arith)))
                              (cons
                                (lane f y12 y0 y4 y8 y12 (lt 12 (omega arith)) (lt 0 (omega arith))
                                  (lt 4 (omega arith)) (lt 8 (omega arith)) (lt 12 (omega arith)))
                                (cons
                                  (lane f y13 y1 y5 y9 y13 (lt 13 (omega arith))
                                    (lt 1 (omega arith)) (lt 5 (omega arith)) (lt 9 (omega arith))
                                    (lt 13 (omega arith)))
                                  (cons
                                    (lane f y14 y2 y6 y10 y14 (lt 14 (omega arith))
                                      (lt 2 (omega arith)) (lt 6 (omega arith))
                                      (lt 10 (omega arith)) (lt 14 (omega arith)))
                                    (cons
                                      (lane f y15 y3 y7 y11 y15 (lt 15 (omega arith))
                                        (lt 3 (omega arith)) (lt 7 (omega arith))
                                        (lt 11 (omega arith)) (lt 15 (omega arith)))
                                      (refl))))))))))))))))

  pub felt_column_sums : All IsM31 block16 → mix_columns f block16 ≡ summed16
  unfolding mix_columns
  felt_column_sums h =
      let lt = λ (i : ℕ) (p : i < 16). All-get_or IsM31 block16 i 0 h p in
      cons
        (felt_lane f y0 y0 y4 y8 y12 (lt 0 (omega arith)) (lt 0 (omega arith)) (lt 4 (omega arith))
          (lt 8 (omega arith)) (lt 12 (omega arith)))
        (cons
          (felt_lane f y1 y1 y5 y9 y13 (lt 1 (omega arith)) (lt 1 (omega arith))
            (lt 5 (omega arith)) (lt 9 (omega arith)) (lt 13 (omega arith)))
          (cons
            (felt_lane f y2 y2 y6 y10 y14 (lt 2 (omega arith)) (lt 2 (omega arith))
              (lt 6 (omega arith)) (lt 10 (omega arith)) (lt 14 (omega arith)))
            (cons
              (felt_lane f y3 y3 y7 y11 y15 (lt 3 (omega arith)) (lt 3 (omega arith))
                (lt 7 (omega arith)) (lt 11 (omega arith)) (lt 15 (omega arith)))
              (cons
                (felt_lane f y4 y0 y4 y8 y12 (lt 4 (omega arith)) (lt 0 (omega arith))
                  (lt 4 (omega arith)) (lt 8 (omega arith)) (lt 12 (omega arith)))
                (cons
                  (felt_lane f y5 y1 y5 y9 y13 (lt 5 (omega arith)) (lt 1 (omega arith))
                    (lt 5 (omega arith)) (lt 9 (omega arith)) (lt 13 (omega arith)))
                  (cons
                    (felt_lane f y6 y2 y6 y10 y14 (lt 6 (omega arith)) (lt 2 (omega arith))
                      (lt 6 (omega arith)) (lt 10 (omega arith)) (lt 14 (omega arith)))
                    (cons
                      (felt_lane f y7 y3 y7 y11 y15 (lt 7 (omega arith)) (lt 3 (omega arith))
                        (lt 7 (omega arith)) (lt 11 (omega arith)) (lt 15 (omega arith)))
                      (cons
                        (felt_lane f y8 y0 y4 y8 y12 (lt 8 (omega arith)) (lt 0 (omega arith))
                          (lt 4 (omega arith)) (lt 8 (omega arith)) (lt 12 (omega arith)))
                        (cons
                          (felt_lane f y9 y1 y5 y9 y13 (lt 9 (omega arith)) (lt 1 (omega arith))
                            (lt 5 (omega arith)) (lt 9 (omega arith)) (lt 13 (omega arith)))
                          (cons
                            (felt_lane f y10 y2 y6 y10 y14 (lt 10 (omega arith))
                              (lt 2 (omega arith)) (lt 6 (omega arith)) (lt 10 (omega arith))
                              (lt 14 (omega arith)))
                            (cons
                              (felt_lane f y11 y3 y7 y11 y15 (lt 11 (omega arith))
                                (lt 3 (omega arith)) (lt 7 (omega arith)) (lt 11 (omega arith))
                                (lt 15 (omega arith)))
                              (cons
                                (felt_lane f y12 y0 y4 y8 y12 (lt 12 (omega arith))
                                  (lt 0 (omega arith)) (lt 4 (omega arith)) (lt 8 (omega arith))
                                  (lt 12 (omega arith)))
                                (cons
                                  (felt_lane f y13 y1 y5 y9 y13 (lt 13 (omega arith))
                                    (lt 1 (omega arith)) (lt 5 (omega arith)) (lt 9 (omega arith))
                                    (lt 13 (omega arith)))
                                  (cons
                                    (felt_lane f y14 y2 y6 y10 y14 (lt 14 (omega arith))
                                      (lt 2 (omega arith)) (lt 6 (omega arith))
                                      (lt 10 (omega arith)) (lt 14 (omega arith)))
                                    (cons
                                      (felt_lane f y15 y3 y7 y11 y15 (lt 15 (omega arith))
                                        (lt 3 (omega arith)) (lt 7 (omega arith))
                                        (lt 11 (omega arith)) (lt 15 (omega arith)))
                                      (refl))))))))))))))))
