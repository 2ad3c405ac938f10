-- ===== src/Ops/Utils.antt =====
-- The witness helpers of crates/runner/src/ops/utils.rs.
pub mod Power
pub mod Compare
use stark_v.Base.{ℕ, zero, suc, ◌+◌, ◌-◌, ◌*◌, ◌/◌, ◌%◌, ◌^◌, Bool, List, [], ◌∷◌}
use stark_v.Base.{ltb, ◌==◌, if◌then◌else◌, low, shr, lt_i32, byte_of, set, replicate}

-- The prime 2 ^ 31 - 1.
abbrev pub m31_p : ℕ
m31_p = 2147483647

unfoldable pub byte_to_signed_felt : ℕ → ℕ
byte_to_signed_felt byte = if ltb byte 0x80 then byte else m31_p - 256 + byte

-- `(imm as i64).rem_euclid(P)`: a negative `imm` is its bits less 2 ^ 32, and 3 * P keeps the sum
-- positive.
unfoldable pub imm_to_felt : ℕ → ℕ
imm_to_felt imm = if ltb imm (2 ^ 31) then imm % m31_p else (imm + 3 * m31_p - 2 ^ 32) % m31_p

-- A product of two `u64`, which wraps round without overflow checks.
abbrev pub wrapping_mul_64 : ℕ → ℕ → ℕ
wrapping_mul_64 a b = a * b % 2 ^ 64

-- The `while` loop of `mod_pow`, a round for each binary digit of the exponent: `rounds` bounds
-- their number.
unfoldable pub mod_pow_loop : ℕ → ℕ → ℕ → ℕ → ℕ → ℕ
mod_pow_loop zero result base exp modulus = result
mod_pow_loop (suc rounds) result base exp modulus =
    let next = if low exp 1 == 1 then wrapping_mul_64 result base % modulus else result in
    let rest = mod_pow_loop rounds next (wrapping_mul_64 base base % modulus) (shr exp 1) modulus in
    if exp == 0 then result else rest

-- The exponent is a `u64`, so that 64 rounds are enough.
unfoldable pub mod_pow : ℕ → ℕ → ℕ → ℕ
unfolding mod_pow_loop
mod_pow base exp modulus = mod_pow_loop 64 1 (base % modulus) exp modulus

unfoldable pub m31_inverse : ℕ → ℕ
unfolding mod_pow
m31_inverse a = if a == 0 then 0 else mod_pow a (m31_p - 2) m31_p

unfoldable pub create_one_hot_4 : ℕ → List ℕ
create_one_hot_4 index = if ltb index 4 then set (replicate 4 0) index 1 else replicate 4 0

unfoldable pub create_one_hot_8 : ℕ → List ℕ
create_one_hot_8 index = if ltb index 8 then set (replicate 8 0) index 1 else replicate 8 0

pub record ShiftWitness : Type 0 where
  pub rs1_sign : ℕ
  pub bit_shift_marker : List ℕ
  pub limb_shift_marker : List ℕ
  pub bit_shift_carry : List ℕ

-- What the byte of a limb sends on to the next one.
unfoldable pub bit_shift_carry_of : ℕ → ℕ → Bool → ℕ
bit_shift_carry_of byte bit_shift is_left =
    if bit_shift == 0 then 0 else if is_left then shr byte (8 - bit_shift) else low byte bit_shift

unfoldable pub compute_shift_witness : ℕ → ℕ → Bool → Bool → ShiftWitness
unfolding bit_shift_carry_of create_one_hot_4 create_one_hot_8
compute_shift_witness rs1_val shamt is_left is_sra =
    let limb_shift = shamt / 8 in
    let bit_shift = shamt % 8 in
    let carry = λ (i : ℕ). bit_shift_carry_of (byte_of rs1_val i) bit_shift is_left in
    record {
      rs1_sign = if is_sra then low (shr rs1_val 31) 1 else 0;
      bit_shift_marker = create_one_hot_8 bit_shift;
      limb_shift_marker = create_one_hot_4 limb_shift;
      bit_shift_carry = carry 0 ∷ carry 1 ∷ carry 2 ∷ carry 3 ∷ [];
    }

-- The search for the first limb, from the top, in which two words differ: its marker, and the
-- difference in the field, taken so that it is positive in the order of the comparison.
pub record Diff : Type 0 where
  pub diff_marker : List ℕ
  pub diff_val : ℕ

unfoldable pub felt_diff : Bool → ℕ → ℕ → ℕ
felt_diff cmp_result a b = if cmp_result then (b + m31_p - a) % m31_p else (a + m31_p - b) % m31_p

unfoldable pub diff_at : ℕ → Bool → ℕ → ℕ → Diff → Diff
unfolding felt_diff
diff_at i cmp_result a b rest =
    if a == b
    then rest
    else record { diff_marker = set (replicate 4 0) i 1; diff_val = felt_diff cmp_result a b }

-- The loop over the limbs of `compute_lt_reg_witness` and `compute_lt_imm_witness`; the top limbs
-- are given as field elements.
unfoldable pub first_diff : Bool → ℕ → ℕ → ℕ → ℕ → Diff
unfolding diff_at
first_diff cmp_result a_val a_msl b_val b_msl = diff_at 3 cmp_result a_msl b_msl (
    diff_at 2 cmp_result (byte_of a_val 2) (byte_of b_val 2) (
      diff_at 1 cmp_result (byte_of a_val 1) (byte_of b_val 1) (
        diff_at 0 cmp_result (byte_of a_val 0) (byte_of b_val 0)
          (record { diff_marker = replicate 4 0; diff_val = 0 }))))

pub record LtRegWitness : Type 0 where
  pub rs1_msl_felt : ℕ
  pub rs2_msl_felt : ℕ
  pub diff_marker : List ℕ
  pub diff_val : ℕ

unfoldable pub msl_felt : Bool → ℕ → ℕ
unfolding byte_to_signed_felt
msl_felt is_signed val = if is_signed then byte_to_signed_felt (byte_of val 3) else byte_of val 3

unfoldable pub compute_lt_reg_witness : ℕ → ℕ → Bool → LtRegWitness
unfolding msl_felt first_diff
compute_lt_reg_witness rs1_val rs2_val is_signed =
    let cmp_result = if is_signed then lt_i32 rs1_val rs2_val else ltb rs1_val rs2_val in
    let rs1_msl_felt = msl_felt is_signed rs1_val in
    let rs2_msl_felt = msl_felt is_signed rs2_val in
    let d = first_diff cmp_result rs1_val rs1_msl_felt rs2_val rs2_msl_felt in
    record {
      rs1_msl_felt = rs1_msl_felt;
      rs2_msl_felt = rs2_msl_felt;
      diff_marker = d.diff_marker;
      diff_val = d.diff_val;
    }

pub record LtImmWitness : Type 0 where
  pub rs1_msl_felt : ℕ
  pub diff_marker : List ℕ
  pub diff_val : ℕ

unfoldable pub compute_lt_imm_witness : ℕ → ℕ → Bool → LtImmWitness
unfolding msl_felt first_diff
compute_lt_imm_witness rs1_val imm is_signed =
    let cmp_result = if is_signed then lt_i32 rs1_val imm else ltb rs1_val imm in
    let rs1_msl_felt = msl_felt is_signed rs1_val in
    let imm_msl_felt = msl_felt is_signed imm in
    let d = first_diff cmp_result rs1_val rs1_msl_felt imm imm_msl_felt in
    record { rs1_msl_felt = rs1_msl_felt; diff_marker = d.diff_marker; diff_val = d.diff_val }
