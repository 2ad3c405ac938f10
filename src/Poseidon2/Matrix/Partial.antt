-- ===== src/Poseidon2/Matrix/Partial.antt =====
-- The internal matrix and the partial rounds, in both forms.
use native.Mathlib.Nat.{mod-eq_of_lt, mul_comm}
use stark_v.Base.{
  for_each, ℕ, ◌+◌, ◌*◌, ◌%◌, ◌^◌, ◌≡◌, refl, sym, ap, arith, ◌∙◌, IsU32, List, [], ◌∷◌, All,
  length, get_or, set, map, length-set,
}
use stark_v.Ops.Utils.{m31_p}
use stark_v.Poseidon2.Field.{M31}
use stark_v.Poseidon2.Constants.{internal_matrix}
use stark_v.Poseidon2.Permutation.{
  add_m31, mul_m31, square_m31, zip_with, apply_internal_round_matrix, partial_round,
}
use stark_v.Poseidon2.Felt.{power5, felt_partial_round, lanes}
use stark_v.Poseidon2.Arith.{
  IsM31, mod_lt, mul_mod_both, add_m31_mod, mul_m31_mod, sbox_m31, power5_mod, all_below-All,
}
use stark_v.Poseidon2.Matrix.{times_internal, sbox, partial, sum}
use stark_v.Poseidon2.Matrix.Columns.{cons}
use stark_v.Poseidon2.Matrix.Rounds.{IsState, by_lanes, times_internal-IsState}

sbox-IsM31 : (x : ℕ) → IsM31 (sbox x)
sbox-IsM31 x = mod_lt (x ^ 5)

All-set : (s : List ℕ) (x : ℕ) → All IsM31 s → IsM31 x → All IsM31 (set s 0 x)
All-set [] x h k = tt
All-set (y ∷ s) x h k = (k, h.1)

pub head-IsM31 : (s : List ℕ) → All IsM31 s → IsM31 (get_or s 0 0)
head-IsM31 [] h = omega arith
head-IsM31 (x ∷ s) h = h.0

set-IsState : (s : List ℕ) (x : ℕ) → IsState s → IsM31 x → IsState (set s 0 x)
set-IsState s x h k = (length-set s 0 x ∙ h.0, All-set s x h.1 k)

-- An addition and a multiplication by a constant that are those of the field.
module _ (add mul : ℕ → ℕ → ℕ) (add_mod : (a b : ℕ) → IsM31 a → IsM31 b → add a b ≡ (a + b) % m31_p)
    (mul_mod : (x d : ℕ) → IsM31 x → IsU32 d → mul x d ≡ x * d % m31_p) where
  sum_lem :
      (s : List ℕ) (acc : ℕ)
      → All IsM31 s
      → IsM31 acc
      → for_each s (λ val total. add total val) acc ≡ (acc + sum s) % m31_p
  sum_lem [] acc h k = omega (arith, k)
  sum_lem (x ∷ s) acc h k =
      let next = add_mod acc x k h.0 in
      let small = mod_lt (acc + x) in sum_lem s (add acc x) h.1 (omega arith) ∙ omega arith

  diagonal :
      (s ds : List ℕ) (got total : ℕ)
      → All IsM31 s
      → All IsU32 ds
      → got ≡ total % m31_p
      → zip_with (λ x d. add (mul x d) got) s ds ≡ zip_with (λ x d. (d * x + total) % m31_p) s ds
  diagonal [] ds got total h k e = refl
  diagonal (x ∷ s) [] got total h k e = refl
  diagonal (x ∷ s) (d ∷ ds) got total h k e =
      let lt = mod_lt total in
      let lt' = mod_lt (x * d) in
      let product = mul_mod x d h.0 k.0 in
      cons (add_mod (mul x d) got (omega arith) (omega arith) ∙ omega (arith, mul_comm x d))
        (diagonal s ds got total h.1 k.1 e)

  internal_lem :
      (s : List ℕ)
      → All IsM31 s
      → zip_with
          (λ x d. add (mul x d) (for_each s (λ val total. add total val) 0))
          s
          internal_matrix
        ≡ times_internal s
  unfolding times_internal
  internal_lem s h =
      diagonal s internal_matrix _ (sum s) h (all_below-All (2 ^ 32) internal_matrix refl)
        (sum_lem s 0 h (omega arith) ∙ omega arith)

module _ (f : M31) where
  pub partial_round_lem :
      (c : ℕ) (s : List ℕ) → IsU32 c → IsState s → partial_round f c s ≡ partial c s
  unfolding partial_round partial apply_internal_round_matrix
  partial_round_lem c s k h =
      let small = head-IsM31 s h.1 in
      let lt = mod_lt (get_or s 0 0 + c) in
      let boxed =
        ap (λ x. mul_m31 f (square_m31 f (square_m31 f x)) x)
          (add_m31_mod f (get_or s 0 0) c (omega arith) k)
        ∙ sbox_m31 f ((get_or s 0 0 + c) % m31_p) lt in
      let next = set s 0 (sbox ((get_or s 0 0 + c) % m31_p)) in
      ap (λ x. apply_internal_round_matrix f (set s 0 x)) boxed
      ∙ internal_lem (add_m31 f) (mul_m31 f)
          (λ a b ha hb. add_m31_mod f a b (omega (arith, ha)) (omega (arith, hb)))
          (λ a b ha hb. mul_m31_mod f a b (omega (arith, ha)) hb) next
          (All-set s _ h.1 (sbox-IsM31 ((get_or s 0 0 + c) % m31_p)))

  -- The two maps at the end of a partial felt round read each lane once.
  felt_lanes :
      (s : List ℕ)
      → length s ≡ 16
      → map
          (λ j.
            f.add
              (f.mul (get_or s j 0) (f.reduce (get_or internal_matrix j 0)))
              (for_each (map (λ j. get_or s j 0) lanes) (λ x total. f.add total x) 0))
          lanes
        ≡ zip_with
            (λ x d. f.add (f.mul x (f.reduce d)) (for_each s (λ val total. f.add total val) 0))
            s
            internal_matrix
  felt_lanes = by_lanes _ (λ x0 x1 x2 x3 x4 x5 x6 x7 x8 x9 x10 x11 x12 x13 x14 x15. refl)

  pub reduced_mul : (x d : ℕ) → IsM31 x → IsU32 d → f.mul x (f.reduce d) ≡ x * d % m31_p
  reduced_mul x d h k = rw (f.reduce_mod d k) (
      f.mul_mod x (d % m31_p) h (mod_lt d)
      ∙ ap (λ z. z * (d % m31_p) % m31_p) (sym (mod-eq_of_lt h))
      ∙ mul_mod_both x d)

  pub reduced_add : (x c : ℕ) → IsM31 x → IsU32 c → f.add x (f.reduce c) ≡ (x + c) % m31_p
  reduced_add x c h k = rw (f.reduce_mod c k) (f.add_mod x (c % m31_p) h (mod_lt c) ∙ omega arith)

  pub felt_partial_lem :
      (c : ℕ) (s : List ℕ) → IsU32 c → IsState s → felt_partial_round f c s ≡ partial c s
  unfolding felt_partial_round partial
  felt_partial_lem c s k h =
      let small = head-IsM31 s h.1 in
      let boxed =
        ap (λ x. power5 f x) (reduced_add (get_or s 0 0) c small k)
        ∙ power5_mod f ((get_or s 0 0 + c) % m31_p) (mod_lt (get_or s 0 0 + c)) in
      let box-IsM31 = sbox-IsM31 ((get_or s 0 0 + c) % m31_p) in
      let next = set s 0 (sbox ((get_or s 0 0 + c) % m31_p)) in
      let is = set-IsState s (sbox ((get_or s 0 0 + c) % m31_p)) h box-IsM31 in
      rw boxed (
        felt_lanes next is.0
        ∙ internal_lem f.add (λ x d. f.mul x (f.reduce d)) f.add_mod reduced_mul next is.1)

pub partial-IsState : (c : ℕ) (s : List ℕ) → IsState s → IsState (partial c s)
unfolding partial
partial-IsState c s h =
    times_internal-IsState (set s 0 (sbox ((get_or s 0 0 + c) % m31_p))) (
      set-IsState s (sbox ((get_or s 0 0 + c) % m31_p)) h (sbox-IsM31 ((get_or s 0 0 + c) % m31_p)))
