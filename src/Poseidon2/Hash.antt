-- ===== src/Poseidon2/Hash.antt =====
-- What the traced permutation and the hash of a pair return.
use stark_v.Base.{
  All-get_or, ℕ, zero, suc, ◌%◌, ◌^◌, ◌<◌, ◌≡◌, refl, sym, ap, arith, ◌∙◌, IsU32, List, [], ◌∷◌,
  All, length, get_or, set, replicate, map, Bool, true, false, ◌&&◌, ◌==◌,
}
use stark_v.Ops.Utils.{m31_p}
use stark_v.Ops.Utils.Power.{mul_mod}
use stark_v.Poseidon2.Field.{M31}
use stark_v.Poseidon2.Constants.{default_hashes}
use stark_v.Poseidon2.Permutation.{poseidon2_permutation}
use stark_v.Poseidon2.Felt.{Poseidon2Row, poseidon2_traced_state, poseidon2_traced}
use stark_v.Poseidon2.Arith.{IsM31, mod_lt, all_below-All}
use stark_v.Poseidon2.Matrix.{dot, times_external, matrix_permutation, external_rows}
use stark_v.Poseidon2.Matrix.Rounds.{IsState}
use stark_v.Poseidon2.Matrix.Columns.{cons}
use stark_v.Poseidon2.Matrix.Partial.{head-IsM31}
use stark_v.Poseidon2.Matrix.Agree.{permutation-matrix, felt-matrix}

abbrev reduced : List ℕ → List ℕ
reduced xs = map (λ x. x % m31_p) xs

dot-reduced : (row xs : List ℕ) → dot row (reduced xs) % m31_p ≡ dot row xs % m31_p
dot-reduced [] xs = refl
dot-reduced (r ∷ row) [] = refl
dot-reduced (r ∷ row) (x ∷ xs) =
    let head = mul_mod m31_p r x in let tail = dot-reduced row xs in omega arith

times-reduced :
    (rows : List (List ℕ)) (xs : List ℕ)
    → map (λ row. dot row (reduced xs) % m31_p) rows ≡ map (λ row. dot row xs % m31_p) rows
times-reduced [] xs = refl
times-reduced (row ∷ rows) xs = cons (dot-reduced row xs) (times-reduced rows xs)

matrix-reduced : (xs : List ℕ) → matrix_permutation (reduced xs) ≡ matrix_permutation xs
unfolding matrix_permutation times_external
matrix-reduced xs = rw (times-reduced external_rows xs) refl

length-reduced : (xs : List ℕ) → length (reduced xs) ≡ length xs
length-reduced [] = refl
length-reduced (x ∷ xs) = ap suc (length-reduced xs)

reduced-IsM31 : (xs : List ℕ) → All IsM31 (reduced xs)
reduced-IsM31 [] = tt
reduced-IsM31 (x ∷ xs) = (mod_lt x, reduced-IsM31 xs)

module _ (f : M31) where
  reduce-reduced : (xs : List ℕ) → All IsU32 xs → map f.reduce xs ≡ reduced xs
  reduce-reduced [] h = refl
  reduce-reduced (x ∷ xs) h = cons (f.reduce_mod x h.0) (reduce-reduced xs h.1)

  traced-matrix :
      (table : List Poseidon2Row) (s : List ℕ) (wide io : Bool)
      → length s ≡ 16
      → All IsU32 s
      → (poseidon2_traced_state f table s wide io).0 ≡ matrix_permutation s
  unfolding poseidon2_traced_state
  traced-matrix table s wide io h k =
      rw (reduce-reduced s k)
        (felt-matrix f (reduced s) (length-reduced s ∙ h, reduced-IsM31 s) ∙ matrix-reduced s)

  -- Tracing the permutation of any 16 words of 32 bits returns what the plain permutation returns:
  -- 16 elements below the prime, the product of the rounds' matrices and s-boxes.
  pub traced-permutation :
      (table : List Poseidon2Row) (s : List ℕ) (wide io : Bool)
      → length s ≡ 16
      → All IsU32 s
      → ((poseidon2_traced_state f table s wide io).0 ≡ poseidon2_permutation f s)
        × (poseidon2_permutation f s ≡ matrix_permutation s)
        × (length (poseidon2_permutation f s) ≡ 16)
        × All (λ x. x < m31_p) (poseidon2_permutation f s)
  traced-permutation table s wide io h k =
      let (e, is) = permutation-matrix f s h k in
      let is' : IsState (poseidon2_permutation f s) = rw e is in
      (traced-matrix table s wide io h k ∙ sym e, e, is'.0, is'.1)

abbrev pub matrix_hash : ℕ → ℕ → ℕ
matrix_hash left right = get_or (matrix_permutation (set (set (replicate 16 0) 0 left) 1 right)) 0 0

-- Each hash is that of two copies of the next.
abbrev is_chain : List ℕ → Bool
is_chain [] = true
is_chain (x ∷ []) = x == 0
is_chain (x ∷ y ∷ xs) = (matrix_hash y y == x) && is_chain (y ∷ xs)

defaults_chain : is_chain default_hashes ≡ true
unfolding matrix_permutation stark_v.Poseidon2.Matrix.times_external
    stark_v.Poseidon2.Matrix.times_internal stark_v.Poseidon2.Matrix.full
    stark_v.Poseidon2.Matrix.partial
defaults_chain = refl

chain-step :
    (xs : List ℕ) (i : ℕ)
    → is_chain xs ≡ true
    → suc i < length xs
    → matrix_hash (get_or xs (suc i) 0) (get_or xs (suc i) 0) ≡ get_or xs i 0
chain-step [] i h k = absurd (omega (arith, k))
chain-step (x ∷ []) i h k = absurd (omega (arith, k))
chain-step (x ∷ y ∷ xs) zero h k = ground arith
chain-step (x ∷ y ∷ xs) (suc i) h k = chain-step (y ∷ xs) i (ground arith) (omega (arith, k))

-- The default hash of a depth is the hash of two copies of that of the depth below.
pub default_hashes-step :
    (i : ℕ)
    → i < 30
    → matrix_hash (get_or default_hashes (suc i) 0) (get_or default_hashes (suc i) 0)
      ≡ get_or default_hashes i 0
default_hashes-step i h = chain-step default_hashes i defaults_chain (omega (arith, h))

module _ (f : M31) where
  -- The first element that tracing a pair returns.
  pub traced-hash :
      (table : List Poseidon2Row) (left right : ℕ)
      → IsU32 left
      → IsU32 right
      → (get_or (poseidon2_traced f table left right).0 0 0 ≡ matrix_hash left right)
        × IsM31 (matrix_hash left right)
  unfolding poseidon2_traced
  traced-hash table left right h k =
      let lt = mod_lt left in
      let lt' = mod_lt right in
      let zeros : All IsU32 (replicate 14 0) = all_below-All (2 ^ 32) (replicate 14 0) refl in
      let state = left ∷ right ∷ replicate 14 0 in
      let e =
        traced-matrix f table (left % m31_p ∷ right % m31_p ∷ replicate 14 0) false false refl
          (omega arith, (omega arith, zeros)) in
      let is = permutation-matrix f state refl (h, (k, zeros)) in
      (
        rw (f.reduce_mod left h, f.reduce_mod right k)
            (ap (λ xs. get_or xs 0 0) (e ∙ matrix-reduced state)),
        head-IsM31 (matrix_permutation state) is.1.1,
      )

-- The default hash of each depth is what hashing two copies of that of the next depth returns, for the
-- depths below 30.
pub traced-default_hashes :
    (f : M31) (table : List Poseidon2Row) (depth : ℕ)
    → depth < 30
    → let below = get_or default_hashes (suc depth) 0 in
      get_or (poseidon2_traced f table below below).0 0 0 ≡ get_or default_hashes depth 0
traced-default_hashes f table depth h =
    let below = get_or default_hashes (suc depth) 0 in
    let small : IsU32 below =
      All-get_or IsU32 default_hashes (suc depth) 0 (all_below-All (2 ^ 32) default_hashes refl)
        (omega (arith, h)) in
    (traced-hash f table below below small small).0 ∙ default_hashes-step depth h
