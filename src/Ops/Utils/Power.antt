-- ===== src/Ops/Utils/Power.antt =====
-- `mod_pow` is the power, modulo the modulus.
use native.Mathlib.Nat.{
  mul-le-mul_right, pow-zero, pow-succ', mod-add-div', add-mul-mod_self_right, mod-lt, mul_assoc,
  mul_comm, mul-add, one-mul, mul-one, mod-eq_of_lt,
}
use stark_v.Base.{
  ℕ, zero, suc, ◌+◌, ◌-◌, ◌*◌, ◌/◌, ◌%◌, ◌^◌, ◌≤◌, ◌<◌, ◌≡◌, sym, ap, arith, ◌∙◌, ◌==◌, Bool-cases,
  inl, inr, low,
}
use stark_v.Ops.Utils.{mod_pow_loop, mod_pow, wrapping_mul_64}

pow_square : (b h : ℕ) → (b * b) ^ h ≡ b ^ (h * 2)
pow_square b zero = pow-zero (b * b) ∙ sym (pow-zero b)
pow_square b (suc h) =
    let twice : suc h * 2 ≡ suc (suc (h * 2)) = omega arith in
    pow-succ' (b * b) h
    ∙ ap (λ z. b * b * z) (pow_square b h)
    ∙ mul_assoc b b (b ^ (h * 2))
    ∙ ap (λ z. b * z) (sym (pow-succ' b (h * 2)))
    ∙ sym (pow-succ' b (suc (h * 2)))
    ∙ ap (λ z. b ^ z) (sym twice)

module _ (m : ℕ) where
  -- A factor can be reduced first.
  pub mul_mod : (x y : ℕ) → x * (y % m) % m ≡ x * y % m
  mul_mod x y =
      let whole : x * (y % m) + x * (y / m) * m ≡ x * y =
        ap (λ z. x * (y % m) + z) (mul_assoc x (y / m) m)
        ∙ sym (mul-add x (y % m) (y / m * m))
        ∙ ap (λ z. x * z) (mod-add-div' y m) in
      sym (add-mul-mod_self_right (x * (y % m)) (x * (y / m)) m) ∙ ap (λ z. z % m) whole

  mul_mod_pow : (x y k : ℕ) → x * (y % m) ^ k % m ≡ x * y ^ k % m
  mul_mod_pow x y zero = ap (λ z. x * z % m) (pow-zero (y % m) ∙ sym (pow-zero y))
  mul_mod_pow x y (suc k) =
      let r = y % m in
      ap (λ z. x * z % m) (pow-succ' r k)
      ∙ ap (λ z. z % m) (sym (mul_assoc x r (r ^ k)))
      ∙ mul_mod_pow (x * r) y k
      ∙ ap (λ z. z % m)
          (mul_assoc x r (y ^ k)
            ∙ ap (λ z. x * z) (mul_comm r (y ^ k))
            ∙ sym (mul_assoc x (y ^ k) r))
      ∙ mul_mod (x * y ^ k) y
      ∙ ap (λ z. z % m) (mul_assoc x (y ^ k) y ∙ ap (λ z. x * z) (mul_comm (y ^ k) y))
      ∙ ap (λ z. x * z % m) (sym (pow-succ' y k))

  -- One digit of the exponent: the square to half of it.
  half :
      (result base exp : ℕ)
      → result * (base * base % m) ^ (exp / 2) % m ≡ result * base ^ (exp / 2 * 2) % m
  half result base exp =
      mul_mod_pow result (base * base) (exp / 2)
      ∙ ap (λ z. result * z % m) (pow_square base (exp / 2))

  odd :
      (result base exp : ℕ)
      → exp % 2 ≡ 1
      → result * base % m * base ^ (exp / 2 * 2) % m ≡ result * base ^ exp % m
  odd result base exp o =
      let e : suc (exp / 2 * 2) ≡ exp = omega arith in
      let p = base ^ (exp / 2 * 2) in
      ap (λ z. z % m) (mul_comm (result * base % m) p)
      ∙ mul_mod p (result * base)
      ∙ ap (λ z. z % m) (mul_comm p (result * base) ∙ mul_assoc result base p)
      ∙ ap (λ z. result * z % m) (sym (pow-succ' base (exp / 2 * 2)) ∙ ap (λ z. base ^ z) e)

  no_digits : (result base exp : ℕ) → result < m → exp ≡ 0 → result ≡ result * base ^ exp % m
  no_digits result base exp small e = sym (
      ap (λ z. result * base ^ z % m) e
      ∙ ap (λ z. result * z % m) (pow-zero base)
      ∙ ap (λ z. z % m) (mul-one result)
      ∙ mod-eq_of_lt small)

  even :
      (result base exp : ℕ)
      → exp % 2 ≡ 0
      → result * base ^ (exp / 2 * 2) % m ≡ result * base ^ exp % m
  even result base exp e =
      let whole : exp / 2 * 2 ≡ exp = omega arith in ap (λ z. result * base ^ z % m) whole

  -- Products of reduced factors fit 64 bits.
  no_wrap : (x y : ℕ) → m ≤ 2 ^ 32 → x < m → y < m → wrapping_mul_64 x y ≡ x * y
  no_wrap x y small hx hy =
      let most = 2 ^ 32 - 1 in
      let first : x * y ≤ most * y = mul-le-mul_right y (omega arith) in
      let second : y ≤ most = omega arith in mod-eq_of_lt (omega (arith, first, second))

  loop-power :
      (rounds result base exp : ℕ)
      → 0 < m
      → m ≤ 2 ^ 32
      → result < m
      → base < m
      → exp < 2 ^ rounds
      → mod_pow_loop rounds result base exp m ≡ result * base ^ exp % m
  unfolding mod_pow_loop
  loop-power zero result base exp p low_m small reduced fits =
      no_digits result base exp small (omega arith)
  loop-power (suc rounds) result base exp p low_m small reduced fits =
      let next_base = mod-lt (base * base) p in
      let square = no_wrap base base low_m reduced reduced in
      let product = no_wrap result base low_m small reduced in
      let rest_fits : exp / 2 < 2 ^ rounds = omega (arith, pow-succ' 2 rounds) in
      elim (Bool-cases (exp == 0)) [
        | inl z ↦ rw z (no_digits result base exp small (ground arith))
        | inr nz ↦ elim (Bool-cases (low exp 1 == 1)) [
          | inl one ↦
              rw (nz, one, square, product)
                (loop-power rounds (result * base % m) (base * base % m) (exp / 2) p low_m
                    (mod-lt _ p) next_base rest_fits
                  ∙ half (result * base % m) base exp
                  ∙ odd result base exp (ground arith))
          | inr other ↦
              rw (nz, other, square)
                (loop-power rounds result (base * base % m) (exp / 2) p low_m small next_base
                    rest_fits
                  ∙ half result base exp
                  ∙ even result base exp (ground arith))
        ]
      ]

-- `mod_pow` is the power modulo the modulus, for a modulus above 1 and up to 2 ^ 32, with which no
-- product of two `u64` wraps round, every base and every exponent of 64 bits.
pub mod_pow_lem :
    (base exp modulus : ℕ)
    → 1 < modulus
    → modulus ≤ 2 ^ 32
    → exp < 2 ^ 64
    → mod_pow base exp modulus ≡ base ^ exp % modulus
unfolding mod_pow
mod_pow_lem base exp modulus big low_m fits =
    loop-power modulus 64 1 (base % modulus) exp (omega arith) low_m big (mod-lt base (omega arith))
      fits
    ∙ mul_mod_pow modulus 1 base exp
    ∙ ap (λ z. z % modulus) (one-mul (base ^ exp))
