-- ===== src/Poseidon2/Matrix/Rounds.antt =====
-- Both forms of the rounds of crates/air/src/poseidon2.rs agree with the rounds as matrices.
use stark_v.Base.{
  ℕ, suc, ◌+◌, ◌*◌, ◌%◌, ◌^◌, ◌≡◌, refl, ap, arith, ◌∙◌, IsU32, List, [], ◌∷◌, All, length, map,
}
use stark_v.Ops.Utils.{m31_p}
use stark_v.Poseidon2.Field.{M31}
use stark_v.Poseidon2.Constants.{internal_matrix}
use stark_v.Poseidon2.Permutation.{
  add_m31, mul_m31, square_m31, zip_with, apply_external_round_matrix, full_round,
}
use stark_v.Poseidon2.Felt.{external_matrix}
use stark_v.Poseidon2.Arith.{IsM31, mod_lt, add_m31_mod, sbox_m31}
use stark_v.Poseidon2.Matrix.{
  times_external, times_internal, add_consts, sbox, full, sum, dot, external_rows,
}
use stark_v.Poseidon2.Matrix.External.{external_lem, felt_external_lem}
use stark_v.Poseidon2.Matrix.Columns.{cons}

-- What holds of every state between two rounds.
abbrev pub IsState : List ℕ → Type 0
IsState s = (length s ≡ 16) × All IsM31 s

-- A list of 16 elements, written out.
pub by_lanes {κ} :
    (P : List ℕ → Type κ)
    → ((x0 x1 x2 x3 x4 x5 x6 x7 x8 x9 x10 x11 x12 x13 x14 x15 : ℕ)
        → P (
            x0 ∷ x1 ∷ x2 ∷ x3 ∷ x4 ∷ x5 ∷ x6 ∷ x7 ∷ x8 ∷ x9 ∷ x10 ∷ x11 ∷ x12 ∷ x13 ∷ x14 ∷ x15
            ∷ []))
    → (s : List ℕ) → length s ≡ 16
    → P s
by_lanes P p
      (x0 ∷ x1 ∷ x2 ∷ x3 ∷ x4 ∷ x5 ∷ x6 ∷ x7 ∷ x8 ∷ x9 ∷ x10 ∷ x11 ∷ x12 ∷ x13 ∷ x14 ∷ x15 ∷ []) h =
    p x0 x1 x2 x3 x4 x5 x6 x7 x8 x9 x10 x11 x12 x13 x14 x15
by_lanes P p _ h = absurd (omega (arith, h))

All-imp : (xs : List ℕ) → All IsM31 xs → All IsU32 xs
All-imp [] h = tt
All-imp (x ∷ xs) h = let small = h.0 in (omega arith, All-imp xs h.1)

All-mod : {A : Type 0} (g : A → ℕ) (xs : List A) → All IsM31 (map (λ x. g x % m31_p) xs)
All-mod g [] = tt
All-mod g (x ∷ xs) = (mod_lt (g x), All-mod g xs)

All-zip :
    (g : ℕ → ℕ → ℕ) (xs ys : List ℕ)
    → All IsM31 xs
    → All IsM31 (zip_with (λ x y. g x y % m31_p) xs ys)
All-zip g [] ys h = tt
All-zip g (x ∷ xs) [] h = h
All-zip g (x ∷ xs) (y ∷ ys) h = (mod_lt (g x y), All-zip g xs ys h.1)

length-zip : (g : ℕ → ℕ → ℕ) (xs ys : List ℕ) → length (zip_with g xs ys) ≡ length xs
length-zip g [] ys = refl
length-zip g (x ∷ xs) [] = refl
length-zip g (x ∷ xs) (y ∷ ys) = ap suc (length-zip g xs ys)

length-map : (g : ℕ → ℕ) (xs : List ℕ) → length (map g xs) ≡ length xs
length-map g [] = refl
length-map g (x ∷ xs) = ap suc (length-map g xs)

pub times_external-IsState : (s : List ℕ) → IsState (times_external s)
unfolding times_external
times_external-IsState s = (refl, All-mod (λ row. dot row s) external_rows)

pub times_internal-IsState : (s : List ℕ) → IsState s → IsState (times_internal s)
unfolding times_internal
times_internal-IsState s h =
    (length-zip _ s internal_matrix ∙ h.0, All-zip (λ x d. d * x + sum s) s internal_matrix h.1)

pub add_consts-IsState : (s c : List ℕ) → IsState s → IsState (add_consts s c)
add_consts-IsState s c h = (length-zip _ s c ∙ h.0, All-zip (λ x k. x + k) s c h.1)

module _ (f : M31) where
  pub external_any :
      (s : List ℕ)
      → length s ≡ 16
      → All IsU32 s
      → apply_external_round_matrix f s ≡ times_external s
  external_any =
      by_lanes (λ s. All IsU32 s → apply_external_round_matrix f s ≡ times_external s)
        (external_lem f)

  pub felt_external_any :
      (s : List ℕ) → length s ≡ 16 → All IsM31 s → external_matrix f s ≡ times_external s
  felt_external_any =
      by_lanes (λ s. All IsM31 s → external_matrix f s ≡ times_external s) (felt_external_lem f)

  add_consts_lem :
      (s c : List ℕ) → All IsM31 s → All IsU32 c → zip_with (add_m31 f) s c ≡ add_consts s c
  add_consts_lem [] c h k = refl
  add_consts_lem (x ∷ xs) [] h k = refl
  add_consts_lem (x ∷ xs) (c ∷ cs) h k =
      let small = h.0 in cons (add_m31_mod f x c (omega arith) k.0) (add_consts_lem xs cs h.1 k.1)

  sboxes :
      (s : List ℕ)
      → All IsM31 s
      → zip_with (mul_m31 f) (map (λ x. square_m31 f (square_m31 f x)) s) s ≡ map sbox s
  sboxes [] h = refl
  sboxes (x ∷ xs) h = cons (sbox_m31 f x h.0) (sboxes xs h.1)

  pub full_round_lem : (c s : List ℕ) → All IsU32 c → IsState s → full_round f c s ≡ full c s
  unfolding full_round full
  full_round_lem c s k h =
      let added = add_consts-IsState s c h in
      let boxed = map sbox (add_consts s c) in
      ap
        (λ s'.
          apply_external_round_matrix f
            (zip_with (mul_m31 f) (map (λ x. square_m31 f (square_m31 f x)) s') s'))
        (add_consts_lem s c h.1 k)
      ∙ ap (λ s'. apply_external_round_matrix f s') (sboxes (add_consts s c) added.1)
      ∙ external_any boxed (length-map sbox (add_consts s c) ∙ added.0)
          (All-imp boxed (All-mod (λ x. x ^ 5) (add_consts s c)))

pub boxed-IsState : (s c : List ℕ) → IsState s → IsState (map sbox (add_consts s c))
boxed-IsState s c h = (
  length-map sbox (add_consts s c) ∙ (add_consts-IsState s c h).0,
  All-mod (λ x. x ^ 5) (add_consts s c),
)

pub full-IsState : (c s : List ℕ) → IsState (full c s)
unfolding full
full-IsState c s = times_external-IsState (map sbox (add_consts s c))
