-- ===== src/Aggregation/Accepts.antt =====
-- Which sequences of segment proofs are accepted.
use stark_v.Base.{ℕ, suc, ◌≡◌, refl, ap, ◌⊎◌, inl, inr, arith}
use stark_v.Base.{Option, some, List, [], ◌∷◌, map, Result, length, ◌==◌}
use stark_v.Base.{Bool, true, false, Bool-cases}
use stark_v.Aggregation.{
  PublicData, Boundary, Mismatch, VerificationError, Proof, SegmentNode, regs_eq, root_eq,
  of_segment, check_pair, check_windows, check_chain, verify_each, fold_verified, verify_segments,
  aggregate_segments, aggregate_with_recursion, shifted, unlocated,
}
use stark_v.Aggregation.Tree.{fits, linked, span, fold_levels-Folds}

module _ {E : Type 0} where
  -- A check that succeeds if the test holds, and fails otherwise.
  abbrev Checks : Bool → Result (VerificationError E) Unit → Type 0
  Checks t r =
      ((t ≡ true) × (r ≡ Result.ok tt))
      ⊎ ((t ≡ false) × ((e : VerificationError E) × (r ≡ Result.err e)))

  check_pair-Checks :
      (index : ℕ) (prev next : PublicData)
      → Checks (fits (of_segment prev) (of_segment next)) (check_pair index prev next)
  unfolding check_pair fits of_segment
  check_pair-Checks index a b = elim (Bool-cases (a.final_pc == b.initial_pc)) [
    | inr e ↦ rw e (inr (refl, (_, refl)))
    | inl e ↦ elim (Bool-cases (regs_eq a.final_regs b.initial_regs)) [
      | inr f ↦ rw (e, f) (inr (refl, (_, refl)))
      | inl f ↦ elim (Bool-cases (root_eq a.final_rw_root b.initial_rw_root)) [
        | inr g ↦ rw (e, f, g) (inr (refl, (_, refl)))
        | inl g ↦ elim (Bool-cases (root_eq a.program_root b.program_root)) [
          | inr h ↦ rw (e, f, g, h) (inr (refl, (_, refl)))
          | inl h ↦ rw (e, f, g, h) (inl (refl, refl))
        ]
      ]
    ]
  ]

  check_windows-Checks :
      (index : ℕ) (first : PublicData) (rest : List PublicData)
      → Checks (linked (of_segment first) (map of_segment rest)) (check_windows index first rest)
  unfolding check_windows linked
  check_windows-Checks index first [] = inl (refl, refl)
  check_windows-Checks index first (next ∷ rest) = elim (check_pair-Checks index first next) [
    | inr (gap, (e, fails)) ↦ inr (rw gap refl, (e, rw fails refl))
    | inl (fit, checked) ↦ elim (check_windows-Checks (suc index) next rest) [
      | inr (gap, (e, fails)) ↦ inr (rw (fit, gap) refl, (e, rw (checked, fails) refl))
      | inl (fits_all, all) ↦ inl (rw (fit, fits_all) refl, rw (checked, all) refl)
    ]
  ]

  -- Both ways to verify a sequence accept it, and the tree returns its outer boundary, or both
  -- refuse it.
  abbrev pub Agree :
      Boundary
      → List Boundary
      → Result (VerificationError E) Unit
      → Option (Result (VerificationError E) Boundary)
      → Type 0
  Agree first rest checked aggregate =
      ((checked ≡ Result.ok tt) × (aggregate ≡ some (Result.ok (span first rest))))
      ⊎ ((e : VerificationError E) × (error : VerificationError E) × (checked ≡ Result.err e)
          × (aggregate ≡ some (Result.err error)))

  -- The tree over verified leaves, and what can be wrong with them.
  abbrev pub Verified :
      Boundary
      → List Boundary
      → Result (VerificationError E) Unit
      → Option (Result (VerificationError E) Boundary)
      → Type 0
  Verified first rest verified r =
      ((verified ≡ Result.ok tt)
        × (linked first rest ≡ true)
        × (r ≡ some (Result.ok (span first rest))))
      ⊎ ((e : VerificationError E) × (r ≡ some (Result.err e))
          × ((verified ≡ Result.err e) ⊎ (linked first rest ≡ false)))

  fold_verified-Verified :
      (mismatch : ℕ → ℕ → Mismatch → VerificationError E) (first : Boundary) (rest : List Boundary)
      (verified : Result (VerificationError E) Unit)
      → Verified first rest verified (fold_verified mismatch (first ∷ rest) verified)
  unfolding fold_verified
  fold_verified-Verified mismatch first rest (Result.err e) = inr (e, refl, inl refl)
  fold_verified-Verified mismatch first rest (Result.ok tt) =
      elim (fold_levels-Folds mismatch (suc (length rest)) 0 first rest (omega arith)) [
        | inl (fit, done) ↦ inl (refl, fit, done)
        | inr (gap, (e, fails)) ↦ inr (e, fails, inr gap)
      ]

map-map {ℓ} :
    {A B C : Type ℓ} (f : B → C) (g : A → B) (xs : List A)
    → map f (map g xs) ≡ map (λ x. f (g x)) xs
map-map f g [] = refl
map-map f g (x ∷ xs) = ap (λ ys. f (g x) ∷ ys) (map-map f g xs)

module _ {E S : Type 0} (verify_rv32im : Proof S → Result (VerificationError E) Unit) where
  -- Whatever the verifier of one proof: on a sequence of proofs that is not empty, either the pairwise
  -- checks of all consecutive segments and every proof succeed, and the binary tree returns the entry
  -- of the first segment, the exit of the last one and the program root of the first, or the pairwise
  -- verification and the tree both fail. The tree never runs out of fuel.
  pub aggregate_segments-Agree :
      (first : Proof S) (rest : List (Proof S))
      → Agree
          (of_segment first.public_data)
          (map (λ proof. of_segment proof.public_data) rest)
          (verify_segments verify_rv32im (first ∷ rest))
          (aggregate_segments verify_rv32im (first ∷ rest))
  unfolding verify_segments aggregate_segments check_chain
  aggregate_segments-Agree first rest =
      let data_of : Proof S → PublicData = λ proof. proof.public_data in
      let windows = check_windows-Checks {E = E} 0 first.public_data (map data_of rest) in
      let windows = rw (map-map of_segment data_of rest) at windows in
      elim (fold_verified-Verified shifted (of_segment first.public_data)
        (map (λ proof. of_segment proof.public_data) rest)
        (verify_each verify_rv32im (first ∷ rest))) [
          | inl (verified, fit, done) ↦ elim windows [
            | inl (_, checked) ↦ inl (rw (checked, verified) refl, done)
            | inr (gap, (e, fails)) ↦ ground arith
          ]
          | inr (error, refused, why) ↦ elim windows [
            | inr (gap, (e, fails)) ↦ inr (e, error, rw fails refl, refused)
            | inl (fit, checked) ↦ elim why [
              | inl unverified ↦ inr (error, error, rw (checked, unverified) refl, refused)
              | inr gap ↦ ground arith
            ]
          ]
        ]

module _ {E S R : Type 0}
    (verify_segment_composition : SegmentNode R → Proof S → Result (VerificationError E) Unit) where
  -- Whatever the verifier of one leaf: on a sequence of leaves that is not empty, the tree returns the
  -- entry of the first stated boundary and the exit of the last one if every leaf verifies and each
  -- stated boundary fits the one before it; else it fails, with the error of the first leaf that does
  -- not verify or since two stated boundaries do not fit.
  pub aggregate_with_recursion-Verified :
      (first : Proof S × SegmentNode R) (rest : List (Proof S × SegmentNode R))
      → Verified
          ((first.1).boundary)
          (map (λ segment. (segment.1).boundary) rest)
          (verify_each (λ segment. verify_segment_composition segment.1 segment.0) (first ∷ rest))
          (aggregate_with_recursion verify_segment_composition (first ∷ rest))
  unfolding aggregate_with_recursion
  aggregate_with_recursion-Verified first rest =
      fold_verified-Verified unlocated ((first.1).boundary)
        (map (λ segment. (segment.1).boundary) rest)
        (verify_each (λ segment. verify_segment_composition segment.1 segment.0) (first ∷ rest))
