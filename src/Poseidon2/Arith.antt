-- ===== src/Poseidon2/Arith.antt =====
-- The arithmetic of crates/air/src/poseidon2.rs is that of the numbers modulo the prime.
use native.Mathlib.Nat.{mod-lt, mul_assoc, mul_comm, pow-succ', pow-zero, mul-one}
use stark_v.Base.{
  ℕ, ◌+◌, ◌*◌, ◌%◌, ◌^◌, ◌<◌, ◌≡◌, sym, ap, arith, ◌∙◌, Bool, true, ◌&&◌, IsU32, List, [], ◌∷◌, All,
  ltb,
}
use stark_v.Ops.Utils.{m31_p}
use stark_v.Ops.Utils.Power.{mul_mod}
use stark_v.Poseidon2.Field.{M31}
use stark_v.Poseidon2.Permutation.{add_m31, mul_m31, square_m31}
use stark_v.Poseidon2.Felt.{power5}

abbrev pub IsM31 : ℕ → Type 0
IsM31 x = x < m31_p

pub mod_lt : (x : ℕ) → x % m31_p < m31_p
mod_lt x = mod-lt x (omega arith)

-- Both factors can be reduced first.
pub mul_mod_both : (a b : ℕ) → (a % m31_p) * (b % m31_p) % m31_p ≡ a * b % m31_p
mul_mod_both a b =
    let r = b % m31_p in
    mul_mod m31_p (a % m31_p) b
    ∙ ap (λ z. z % m31_p) (mul_comm (a % m31_p) b)
    ∙ mul_mod m31_p b a
    ∙ ap (λ z. z % m31_p) (mul_comm b a)

pub fifth : (x : ℕ) → x * (x * x * (x * x)) ≡ x ^ 5
fifth x = sym (
    pow-succ' x 4
    ∙ ap (λ z. x * z)
        (pow-succ' x 3
          ∙ ap (λ z. x * z)
              (pow-succ' x 2
                ∙ ap (λ z. x * z)
                    (pow-succ' x 1
                      ∙ ap (λ z. x * z) (pow-succ' x 0 ∙ ap (λ z. x * z) (pow-zero x) ∙ mul-one x)))
          ∙ sym (mul_assoc x x (x * x))))

module _ (f : M31) where
  pub add_m31_mod : (a b : ℕ) → IsU32 a → IsU32 b → add_m31 f a b ≡ (a + b) % m31_p
  unfolding add_m31
  add_m31_mod a b h k =
      rw (f.reduce_mod a h, f.reduce_mod b k, add_m31)
        (f.add_mod (a % m31_p) (b % m31_p) (mod_lt a) (mod_lt b) ∙ omega arith)

  pub mul_m31_mod : (a b : ℕ) → IsU32 a → IsU32 b → mul_m31 f a b ≡ a * b % m31_p
  unfolding mul_m31
  mul_m31_mod a b h k =
      rw (f.reduce_mod a h, f.reduce_mod b k, mul_m31)
        (f.mul_mod (a % m31_p) (b % m31_p) (mod_lt a) (mod_lt b) ∙ mul_mod_both a b)

  square_m31_mod : (a : ℕ) → IsU32 a → square_m31 f a ≡ a * a % m31_p
  unfolding square_m31
  square_m31_mod a h =
      rw (f.reduce_mod a h, square_m31)
        (f.mul_mod (a % m31_p) (a % m31_p) (mod_lt a) (mod_lt a) ∙ mul_mod_both a a)

  fourth_m31 : (x : ℕ) → IsM31 x → square_m31 f (square_m31 f x) ≡ x * x * (x * x) % m31_p
  fourth_m31 x h =
      let lt = mod_lt (x * x) in
      rw (square_m31_mod x (omega arith))
        (square_m31_mod (x * x % m31_p) (omega arith) ∙ mul_mod_both (x * x) (x * x))

  -- The s-box of the plain permutation.
  pub sbox_m31 : (x : ℕ) → IsM31 x → mul_m31 f (square_m31 f (square_m31 f x)) x ≡ x ^ 5 % m31_p
  sbox_m31 x h =
      let lt = mod_lt (x * x * (x * x)) in
      rw (fourth_m31 x h) (
        mul_m31_mod (x * x * (x * x) % m31_p) x (omega arith) (omega arith)
        ∙ ap (λ z. z % m31_p) (mul_comm (x * x * (x * x) % m31_p) x)
        ∙ mul_mod m31_p x (x * x * (x * x))
        ∙ ap (λ z. z % m31_p) (fifth x))

  -- The s-box of the felt function.
  pub power5_mod : (x : ℕ) → IsM31 x → power5 f x ≡ x ^ 5 % m31_p
  unfolding power5
  power5_mod x h =
      let square = f.mul_mod x x h h in
      let lt = mod_lt (x * x) in
      rw (square, power5)
        (rw (f.mul_mod (x * x % m31_p) (x * x % m31_p) lt lt ∙ mul_mod_both (x * x) (x * x)) (
          f.mul_mod x (x * x * (x * x) % m31_p) h (mod_lt (x * x * (x * x)))
          ∙ mul_mod m31_p x (x * x * (x * x))
          ∙ ap (λ z. z % m31_p) (fifth x)))

abbrev pub all_below : ℕ → List ℕ → Bool
all_below n [] = true
all_below n (x ∷ xs) = ltb x n && all_below n xs

pub all_below-All : (n : ℕ) (xs : List ℕ) → all_below n xs ≡ true → All (λ x. x < n) xs
all_below-All n [] h = tt
all_below-All n (x ∷ xs) h = (ground (arith), all_below-All n xs (ground (arith)))
