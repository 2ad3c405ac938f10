-- ===== src/Execute/Preserves/Bounds.antt =====
-- The results of the handlers fit a word.
use stark_v.Base.{ℕ, ◌/◌, ◌%◌, ◌^◌, ◌<◌, arith, Bool, true, false}
use stark_v.Base.{ltb, ◌==◌, ◌&&◌, if◌then◌else◌, if_both, bit_of, wrapping_add, sra32, sext8}
use stark_v.Base.{sext16, div_i32, rem_i32}
use stark_v.Base.Int.{ℤ, pos, negsuc, to_word}
use stark_v.Memory.{Memory, read_u32}
use stark_v.Memory.Laws.{HoldsBytes, read_u32_sum}
use stark_v.Ops.Load.{extract_byte, extract_halfword}
use stark_v.Execute.Values.{div_value, rem_value, div-le_self}

pub to_word-lt : (z : ℤ) → to_word z < 2 ^ 32
to_word-lt (pos n) = omega arith
to_word-lt (negsuc n) = omega arith

pub bit_of-lt : (b : Bool) → bit_of b < 2 ^ 32
bit_of-lt true = omega arith
bit_of-lt false = omega arith

module _ (a b : ℕ) (ha : a < 2 ^ 32) (hb : b < 2 ^ 32) where
  pub div-lt :
      (if b == 0
        then 0xffff_ffff
        else if a == 0x8000_0000 && b == 0xffff_ffff
        then a
        else div_i32 a b)
      < 2 ^ 32
  div-lt =
      rw (div_value a b ha hb) (if_both (λ v. v < 2 ^ 32) (b == 0) (omega arith) (to_word-lt _))

  pub rem-lt :
      (if b == 0 then a else if a == 0x8000_0000 && b == 0xffff_ffff then 0 else rem_i32 a b)
      < 2 ^ 32
  rem-lt = rw (rem_value a b ha hb) (if_both (λ v. v < 2 ^ 32) (b == 0) ha (to_word-lt _))

  pub divu-lt : (if b == 0 then 0xffff_ffff else a / b) < 2 ^ 32
  divu-lt = if_both (λ v. v < 2 ^ 32) (b == 0) (omega arith) (omega (arith, div-le_self a b))

  pub remu-lt : (if b == 0 then a else a % b) < 2 ^ 32
  remu-lt = if_both (λ v. v < 2 ^ 32) (b == 0) ha (omega arith)

pub srl-lt : (a k : ℕ) → a < 2 ^ 32 → a / 2 ^ k < 2 ^ 32
srl-lt a k h = omega (arith, div-le_self a (2 ^ k))

pub sra-lt : (a k : ℕ) → a < 2 ^ 32 → sra32 a k < 2 ^ 32
sra-lt a k h = if_both (λ v. v < 2 ^ 32) (ltb a (2 ^ 31)) (srl-lt a k h) (omega arith)

pub extract_byte-lt : (w a : ℕ) → extract_byte w a < 2 ^ 8
unfolding extract_byte
extract_byte-lt w a = omega arith

pub extract_halfword-lt : (w a : ℕ) → extract_halfword w a < 2 ^ 16
unfolding extract_halfword
extract_halfword-lt w a = omega arith

pub sext8-lt : (v : ℕ) → v < 2 ^ 8 → sext8 v < 2 ^ 32
sext8-lt v h = if_both (λ x. x < 2 ^ 32) (ltb v (2 ^ 7)) (omega arith) (omega arith)

pub sext16-lt : (v : ℕ) → v < 2 ^ 16 → sext16 v < 2 ^ 32
sext16-lt v h = if_both (λ x. x < 2 ^ 32) (ltb v (2 ^ 15)) (omega arith) (omega arith)

pub read_u32-lt : (mem : Memory) → HoldsBytes mem → (p : ℕ) → read_u32 mem p < 2 ^ 32
read_u32-lt mem h p = omega (
  arith,
  read_u32_sum mem h p,
  h p,
  h (wrapping_add p 1),
  h (wrapping_add p 2),
  h (wrapping_add p 3),
)
