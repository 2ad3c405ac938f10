-- ===== src/Ops/Utils/Compare.antt =====
-- The comparison witness: the difference that it proves positive is a byte other than 0.
use stark_v.Base.{
  ℕ, ◌+◌, ◌*◌, ◌%◌, ◌^◌, ◌<◌, ◌≡◌, ◌≢◌, refl, arith, Bool, true, false, ltb, lt_i32, byte_of, ◌==◌,
  Bool-cases, inl, inr, IsU32, if◌then◌else◌,
}
use stark_v.Ops.Utils.{
  Diff, byte_to_signed_felt, felt_diff, diff_at, first_diff, msl_felt, compute_lt_reg_witness,
  compute_lt_imm_witness,
}

-- A byte other than 0.
abbrev pub IsDigit : ℕ → Type 0
IsDigit x = (0 < x) × (x < 2 ^ 8)

-- `cmp` says which of two different numbers is less.
record Orders (cmp : Bool) (x y : ℕ) : Type 0 where
  up : cmp ≡ true → x < y
  down : cmp ≡ false → y < x

-- The order of two numbers gives that of two others.
carries :
    {cmp : Bool} {v w x y : ℕ} → Orders cmp v w → (v < w → x < y) → (w < v → y < x) → Orders cmp x y
carries o f g = record { up = λ t. f (o.up t); down = λ t. g (o.down t) }

limb-IsDigit :
    (cmp : Bool) (x y : ℕ) → x < 2 ^ 8 → y < 2 ^ 8 → Orders cmp x y → IsDigit (felt_diff cmp x y)
unfolding felt_diff
limb-IsDigit true x y hx hy o = let h = o.up refl in (omega arith, omega arith)
limb-IsDigit false x y hx hy o = let h = o.down refl in (omega arith, omega arith)

-- The top limbs, as signed bytes in the field.
signed_limb-IsDigit :
    (cmp : Bool) (x y : ℕ)
    → x < 2 ^ 8
    → y < 2 ^ 8
    → Orders cmp ((x + 2 ^ 7) % 2 ^ 8) ((y + 2 ^ 7) % 2 ^ 8)
    → IsDigit (felt_diff cmp (byte_to_signed_felt x) (byte_to_signed_felt y))
unfolding felt_diff byte_to_signed_felt
signed_limb-IsDigit true x y hx hy o = let h = o.up refl in ground arith
signed_limb-IsDigit false x y hx hy o = let h = o.down refl in ground arith

diff_at-IsDigit :
    (i : ℕ) (cmp : Bool) (x y : ℕ) (rest : Diff)
    → (x ≡ y → IsDigit rest.diff_val)
    → (x ≢ y → IsDigit (felt_diff cmp x y))
    → IsDigit (diff_at i cmp x y rest).diff_val
unfolding diff_at
diff_at-IsDigit i cmp x y rest same other = elim (Bool-cases (x == y)) [
  | inl e ↦ rw e (same (ground arith))
  | inr e ↦ rw e (other (λ p. ground arith))
]

-- `a` and `b` are ordered as their lower three bytes below the keys `p` and `q` are, for which the
-- top limbs `x` and `y` stand in the field.
module _ (cmp : Bool) (a b p q x y : ℕ)
    (ordered : Orders cmp (a % 2 ^ 24 + p * 2 ^ 24) (b % 2 ^ 24 + q * 2 ^ 24))
    (same_key : x ≡ y → p ≡ q) (same_limb : p ≡ q → x ≡ y)
    (top : Orders cmp p q → IsDigit (felt_diff cmp x y)) where
  first_diff-IsDigit : IsDigit (first_diff cmp a x b y).diff_val
  unfolding first_diff
  first_diff-IsDigit =
      diff_at-IsDigit 3 cmp x y _
        (λ e3.
          let k = same_key e3 in
          diff_at-IsDigit 2 cmp (byte_of a 2) (byte_of b 2) _
            (λ e2.
              diff_at-IsDigit 1 cmp (byte_of a 1) (byte_of b 1) _
                (λ e1.
                  diff_at-IsDigit 0 cmp (byte_of a 0) (byte_of b 0) _
                    (λ e0. elim (Bool-cases cmp) [
                      | inl t ↦ let h = ordered.up t in omega arith
                      | inr f ↦ let h = ordered.down f in omega arith
                    ])
                    (λ n0.
                      limb-IsDigit cmp _ _ (omega arith) (omega arith)
                        (carries ordered (λ h. omega arith) (λ h. omega arith))))
                (λ n1.
                  limb-IsDigit cmp _ _ (omega arith) (omega arith)
                    (carries ordered (λ h. omega arith) (λ h. omega arith))))
            (λ n2.
              limb-IsDigit cmp _ _ (omega arith) (omega arith)
                (carries ordered (λ h. omega arith) (λ h. omega arith))))
        (λ n3.
          let n : p ≢ q = λ e. n3 (same_limb e) in
          top (carries ordered (λ h. ground arith) (λ h. ground arith)))

-- The search for the first limb that differs, with the top limbs as numbers or as signed bytes.
searched-IsDigit :
    (a b : ℕ) (is_signed : Bool)
    → IsU32 a
    → IsU32 b
    → a ≢ b
    → IsDigit
        (first_diff
          (if is_signed then lt_i32 a b else ltb a b)
          a
          (msl_felt is_signed a)
          b
          (msl_felt is_signed b)).diff_val
unfolding msl_felt byte_to_signed_felt
searched-IsDigit a b false ha hb n =
    let x = byte_of a 3 in
    let y = byte_of b 3 in
    first_diff-IsDigit (ltb a b) a b x y x y
      (record { up = λ t. ground arith; down = λ f. ground arith }) (λ e. e) (λ e. e)
      (limb-IsDigit (ltb a b) x y (omega arith) (omega arith))
searched-IsDigit a b true ha hb n =
    let x = byte_of a 3 in
    let y = byte_of b 3 in
    first_diff-IsDigit (lt_i32 a b) a b ((x + 2 ^ 7) % 2 ^ 8) ((y + 2 ^ 7) % 2 ^ 8)
      (byte_to_signed_felt x) (byte_to_signed_felt y)
      (record { up = λ t. ground arith; down = λ f. ground arith }) (λ e. ground arith)
      (λ e. ground arith) (signed_limb-IsDigit (lt_i32 a b) x y (omega arith) (omega arith))

-- For two different words, compared as signed or as unsigned numbers, the `diff_val` of
-- `compute_lt_reg_witness` and of `compute_lt_imm_witness` is a byte other than 0.
pub compute_lt_witness-IsDigit :
    (a b : ℕ) (is_signed : Bool)
    → IsU32 a
    → IsU32 b
    → a ≢ b
    → IsDigit (compute_lt_reg_witness a b is_signed).diff_val
      × IsDigit (compute_lt_imm_witness a b is_signed).diff_val
unfolding compute_lt_reg_witness compute_lt_imm_witness
compute_lt_witness-IsDigit a b is_signed ha hb n =
    (searched-IsDigit a b is_signed ha hb n, searched-IsDigit a b is_signed ha hb n)
