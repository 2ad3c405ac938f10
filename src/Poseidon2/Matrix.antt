-- ===== src/Poseidon2/Matrix.antt =====
-- Poseidon2 as its matrices, independent of the addition chains of crates/air/src/poseidon2.rs: a
-- full round adds the constants, raises to the fifth power and multiplies by circ(2 M, M, M, M), a
-- partial round does so with the first element only and multiplies by J + diag(D).
pub mod Block
pub mod Columns
pub mod External
pub mod Rounds
pub mod Partial
pub mod Agree
use stark_v.Base.{for_each, ℕ, zero, suc, ◌+◌, ◌*◌, ◌%◌, ◌^◌, List, [], ◌∷◌, ◌++◌, map, get_or, set}
use stark_v.Ops.Utils.{m31_p}
use stark_v.Poseidon2.Constants.{external_round_consts, internal_round_consts, internal_matrix}
use stark_v.Poseidon2.Permutation.{zip_with, take, skip}

abbrev pub dot : List ℕ → List ℕ → ℕ
dot [] ys = 0
dot (x ∷ xs) [] = 0
dot (x ∷ xs) (y ∷ ys) = x * y + dot xs ys

-- The block M.
abbrev pub mds_rows : List (List ℕ)
mds_rows =
    (5 ∷ 7 ∷ 1 ∷ 3 ∷ []) ∷ (4 ∷ 6 ∷ 1 ∷ 1 ∷ []) ∷ (1 ∷ 3 ∷ 5 ∷ 7 ∷ []) ∷ (1 ∷ 1 ∷ 4 ∷ 6 ∷ []) ∷ []

abbrev pub scale : ℕ → List ℕ → List ℕ
scale c row = map (λ x. c * x) row

-- The rows of the four blocks: the block on the diagonal is doubled.
abbrev pub external_rows : List (List ℕ)
external_rows =
    map (λ r. scale 2 r ++ r ++ r ++ r) mds_rows
    ++ map (λ r. r ++ scale 2 r ++ r ++ r) mds_rows
    ++ map (λ r. r ++ r ++ scale 2 r ++ r) mds_rows
    ++ map (λ r. r ++ r ++ r ++ scale 2 r) mds_rows

unfoldable pub times_external : List ℕ → List ℕ
times_external xs = map (λ row. dot row xs % m31_p) external_rows

abbrev pub sum : List ℕ → ℕ
sum [] = 0
sum (x ∷ xs) = x + sum xs

unfoldable pub times_internal : List ℕ → List ℕ
times_internal xs = zip_with (λ x d. (d * x + sum xs) % m31_p) xs internal_matrix

abbrev pub add_consts : List ℕ → List ℕ → List ℕ
add_consts xs consts = zip_with (λ x c. (x + c) % m31_p) xs consts

abbrev pub sbox : ℕ → ℕ
sbox x = x ^ 5 % m31_p

unfoldable pub full : List ℕ → List ℕ → List ℕ
full consts xs = times_external (map sbox (add_consts xs consts))

unfoldable pub partial : ℕ → List ℕ → List ℕ
partial c xs = times_internal (set xs 0 (sbox ((get_or xs 0 0 + c) % m31_p)))

unfoldable pub matrix_permutation : List ℕ → List ℕ
matrix_permutation xs = for_each (skip 4 external_round_consts) full (
    for_each internal_round_consts partial
      (for_each (take 4 external_round_consts) full (times_external xs)))
