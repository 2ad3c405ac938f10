-- ===== src/Ops/Muldiv/Division.antt =====
-- The witness of the division family, crates/runner/src/ops/muldiv.rs.
use stark_v.Base.{ℕ, ◌+◌, ◌-◌, ◌/◌, ◌%◌, Bool, not, List, [], ◌∷◌, ◌==◌, ◌&&◌, ltb}
use stark_v.Base.{
  if◌then◌else◌, bit_of, byte_of, bit_xor, shr, low, set, replicate, map, wrapping_sub,
}
use stark_v.Base.{div_i32, rem_i32, get_or}
use stark_v.Ops.Utils.{m31_p, m31_inverse}

-- The four bytes of a word, lowest first.
abbrev pub limbs : ℕ → List ℕ
limbs x = byte_of x 0 ∷ byte_of x 1 ∷ byte_of x 2 ∷ byte_of x 3 ∷ []

-- The loop of `negate_limbs`, with the carry.
unfoldable pub negate_loop : ℕ → List ℕ → List ℕ
negate_loop carry [] = []
negate_loop carry (limb ∷ rest) =
    let val = 256 + carry - 1 - limb in low val 8 ∷ negate_loop (shr val 8) rest

unfoldable pub negate_limbs : List ℕ → List ℕ
unfolding negate_loop
negate_limbs limbs = negate_loop 1 limbs

-- The highest limb in which the two differ, 4 if there is none.
unfoldable pub run_sltu_diff_idx : List ℕ → List ℕ → ℕ
run_sltu_diff_idx c r_prime =
    if not (get_or c 3 0 == get_or r_prime 3 0)
    then 3
    else if not (get_or c 2 0 == get_or r_prime 2 0)
    then 2
    else if not (get_or c 1 0 == get_or r_prime 1 0)
    then 1
    else if not (get_or c 0 0 == get_or r_prime 0 0)
    then 0
    else 4

pub record Quotient : Type 0 where
  pub quot : ℕ
  pub rest : ℕ
  pub sign : ℕ

-- `(q, r, q_sign)`.
unfoldable pub divide : ℕ → ℕ → Bool → Quotient
divide rs1_val rs2_val is_signed =
    if rs2_val == 0
    then record { quot = 0xffff_ffff; rest = rs1_val; sign = bit_of is_signed }
    else if is_signed && rs1_val == 0x8000_0000 && rs2_val == 0xffff_ffff
    then record { quot = rs1_val; rest = 0; sign = 0 }
    else if is_signed
    then record {
      quot = div_i32 rs1_val rs2_val;
      rest = rem_i32 rs1_val rs2_val;
      sign = low (shr (div_i32 rs1_val rs2_val) 31) 1;
    }
    else record { quot = rs1_val / rs2_val; rest = rs1_val % rs2_val; sign = 0 }

unfoldable pub sum : List ℕ → ℕ
sum [] = 0
sum (x ∷ xs) = x + sum xs

pub record DivWitness : Type 0 where
  pub zero_divisor : ℕ
  pub r_zero : ℕ
  pub q : List ℕ
  pub r : List ℕ
  pub b_sign : ℕ
  pub c_sign : ℕ
  pub q_sign : ℕ
  pub sign_xor : ℕ
  pub c_sum_inv : ℕ
  pub r_sum_inv : ℕ
  pub r_abs : List ℕ
  pub r_inv : List ℕ
  pub lt_marker : List ℕ
  pub lt_diff : ℕ

unfoldable pub compute_div_witness : ℕ → ℕ → Bool → DivWitness
unfolding divide negate_limbs run_sltu_diff_idx sum
compute_div_witness rs1_val rs2_val is_signed =
    let c_limbs = limbs rs2_val in
    let b_sign = bit_of (is_signed && not (ltb (byte_of rs1_val 3) 0x80)) in
    let c_sign = bit_of (is_signed && not (ltb (byte_of rs2_val 3) 0x80)) in
    let zero_divisor = bit_of (rs2_val == 0) in
    let overflow = is_signed && rs1_val == 0x8000_0000 && rs2_val == 0xffff_ffff in
    let d = divide rs1_val rs2_val is_signed in
    let sign_xor = bit_xor b_sign c_sign in
    let r_zero = bit_of (d.rest == 0 && zero_divisor == 0) in
    let r_limbs = limbs d.rest in
    let r_prime = if sign_xor == 1 then negate_limbs r_limbs else r_limbs in
    let idx = run_sltu_diff_idx c_limbs r_prime in
    let searched = zero_divisor == 0 && r_zero == 0 && not overflow && ltb idx 4 in
    let c_at = get_or c_limbs idx 0 in
    let r_at = get_or r_prime idx 0 in
    let c_sum = sum c_limbs in
    let r_sum = sum r_limbs in
    record {
      zero_divisor = zero_divisor;
      r_zero = r_zero;
      q = limbs d.quot;
      r = r_limbs;
      b_sign = b_sign;
      c_sign = c_sign;
      q_sign = d.sign;
      sign_xor = sign_xor;
      c_sum_inv = if c_sum == 0 then 0 else m31_inverse c_sum;
      r_sum_inv = if r_sum == 0 then 0 else m31_inverse r_sum;
      r_abs = r_prime;
      r_inv = map (λ limb. m31_inverse (m31_p - 256 + limb)) r_prime;
      lt_marker = if searched then set (replicate 4 0) idx 1 else replicate 4 0;
      lt_diff =
          if searched
          then if c_sign == 1 then wrapping_sub r_at c_at else wrapping_sub c_at r_at
          else 0;
    }
