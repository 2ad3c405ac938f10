-- ===== src/Aggregation/Verify.antt =====
-- The chain of segment proofs and the binary tree over them, crates/prover/src/recursion and
-- crates/recursion/src/aggregate.rs.
use stark_v.Base.{ℕ, zero, suc, ◌+◌, ◌*◌, ◌^◌, ◌==◌, if◌then◌else◌, not, Option, none, some}
use stark_v.Base.{List, [], ◌∷◌, map, Result, and_then, length}
use stark_v.Aggregation.Public.{PublicData, Boundary, Mismatch, regs_eq, root_eq, of_segment, chain}

-- `E` has the errors of stwo's verifier.
pub data VerificationError (E : Type 0) : Type 0 where
  invalid_logup_sum : VerificationError E
  interaction_proof_of_work : VerificationError E
  segment_chain_mismatch : (prev next : ℕ) → Mismatch → VerificationError E
  stwo : E → VerificationError E

-- A proof: its public data, and `S` for the rest.
pub record Proof (S : Type 0) : Type 0 where
  pub public_data : PublicData
  pub rest : S

-- A segment leaf with its recursion proof, of the type `R`.
pub record SegmentNode (R : Type 0) : Type 0 where
  pub boundary : Boundary
  pub recursion_proof : R

module _ {E : Type 0} where
  -- The checks between two segments.
  unfoldable pub check_pair : ℕ → PublicData → PublicData → Result (VerificationError E) Unit
  check_pair index prev next =
      let mismatch : Mismatch → Result (VerificationError E) Unit =
        λ what. Result.err (VerificationError.segment_chain_mismatch index (suc index) what) in
      if not (prev.final_pc == next.initial_pc)
      then mismatch Mismatch.pc
      else if not (regs_eq prev.final_regs next.initial_regs)
      then mismatch Mismatch.regs
      else if not (root_eq prev.final_rw_root next.initial_rw_root)
      then mismatch Mismatch.rw_root
      else if not (root_eq prev.program_root next.program_root)
      then mismatch Mismatch.program_root
      else Result.ok tt

  -- The checks from the segment at `index` on, `prev` being that segment.
  unfoldable pub check_windows :
      ℕ → PublicData → List PublicData → Result (VerificationError E) Unit
  check_windows index prev [] = Result.ok tt
  check_windows index prev (next ∷ rest) =
      and_then (check_pair index prev next) (λ _. check_windows (suc index) next rest)

  unfoldable pub check_chain : List PublicData → Result (VerificationError E) Unit
  check_chain [] = Result.ok tt
  check_chain (first ∷ rest) = check_windows 0 first rest

  -- Two nodes of a level; `mismatch` makes the error, which says where they stand.
  unfoldable pub chain_pair :
      (Mismatch → VerificationError E) → Boundary → Boundary → Result (VerificationError E) Boundary
  chain_pair mismatch left right = elim (chain left right) [
    | Result.ok node ↦ Result.ok node
    | Result.err what ↦ Result.err (mismatch what)
  ]

  -- The next level: the nodes in pairs, and an odd one as it is.
  unfoldable pub pair_up :
      (ℕ → Mismatch → VerificationError E)
      → ℕ
      → List Boundary
      → Result (VerificationError E) (List Boundary)
  pair_up mismatch index [] = Result.ok []
  pair_up mismatch index (odd ∷ []) = Result.ok (odd ∷ [])
  pair_up mismatch index (left ∷ right ∷ rest) =
      and_then (chain_pair (mismatch index) left right)
        (λ node. and_then (pair_up mismatch (suc index) rest) (λ next. Result.ok (node ∷ next)))

  -- The loop over the levels, with fuel: `none` when it runs out, and for an empty level, on
  -- which `expect` panics. `mismatch` takes the depth of the level and the index of the pair.
  unfoldable pub fold_levels :
      (ℕ → ℕ → Mismatch → VerificationError E)
      → ℕ
      → ℕ
      → List Boundary
      → Option (Result (VerificationError E) Boundary)
  fold_levels mismatch zero depth level = none
  fold_levels mismatch (suc fuel) depth [] = none
  fold_levels mismatch (suc fuel) depth (root ∷ []) = some (Result.ok root)
  fold_levels mismatch (suc fuel) depth (left ∷ right ∷ rest) =
      elim (pair_up (mismatch depth) 0 (left ∷ right ∷ rest)) [
        | Result.err e ↦ some (Result.err e)
        | Result.ok next ↦ fold_levels mismatch fuel (suc depth) next
      ]

  -- The segments that a mismatch in the tree of `aggregate_segments` names.
  unfoldable pub shifted : ℕ → ℕ → Mismatch → VerificationError E
  shifted depth index what =
      VerificationError.segment_chain_mismatch (index * 2 * 2 ^ depth) ((index * 2 + 1) * 2 ^ depth)
        what

  -- And those of `aggregate_with_recursion`.
  unfoldable pub unlocated : ℕ → ℕ → Mismatch → VerificationError E
  unlocated depth index what = VerificationError.segment_chain_mismatch 0 1 what

  -- The verification of each proof in turn, up to the first error.
  unfoldable pub verify_each :
      {P : Type 0}
      → (P → Result (VerificationError E) Unit)
      → List P
      → Result (VerificationError E) Unit
  verify_each verify [] = Result.ok tt
  verify_each verify (proof ∷ proofs) = and_then (verify proof) (λ _. verify_each verify proofs)

  unfoldable pub fold_verified :
      (ℕ → ℕ → Mismatch → VerificationError E)
      → List Boundary
      → Result (VerificationError E) Unit
      → Option (Result (VerificationError E) Boundary)
  fold_verified mismatch level (Result.err e) = some (Result.err e)
  fold_verified mismatch level (Result.ok _) = fold_levels mismatch (length level) 0 level

module _ {E S : Type 0} (verify_rv32im : Proof S → Result (VerificationError E) Unit) where
  unfoldable pub verify_segments : List (Proof S) → Result (VerificationError E) Unit
  verify_segments proofs =
      and_then (check_chain (map (λ proof. proof.public_data) proofs))
        (λ _. verify_each verify_rv32im proofs)

  -- `none` is the panic on no proofs.
  unfoldable pub aggregate_segments :
      List (Proof S) → Option (Result (VerificationError E) Boundary)
  aggregate_segments proofs =
      fold_verified shifted (map (λ proof. of_segment proof.public_data) proofs)
        (verify_each verify_rv32im proofs)

module _ {E S R : Type 0}
    (verify_segment_composition : SegmentNode R → Proof S → Result (VerificationError E) Unit) where
  -- The boundary of a leaf is the one that its node states.
  unfoldable pub aggregate_with_recursion :
      List (Proof S × SegmentNode R) → Option (Result (VerificationError E) Boundary)
  aggregate_with_recursion segments =
      fold_verified unlocated (map (λ segment. (segment.1).boundary) segments)
        (verify_each (λ segment. verify_segment_composition segment.1 segment.0) segments)
