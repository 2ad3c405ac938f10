-- ===== src/Base/Word.antt =====
-- Machine words as native numbers. A `u8`, `u16`, `u32` or `u64` is a number below 2 ^ 8 to
-- 2 ^ 64, and an `i32` is the `u32` of the same bits, so that `as i32` and `as u32` between the
-- two change nothing. `x & (2 ^ k - 1)` is `low x k`, `x & !(2 ^ k - 1)` is `clear_low x k`
-- (`Bits.bit_and-low` and `Bits.bit_and-clear_low`), `x >> k` is `shr x k`.
use Prim.Native.Nat.{ℕ, ◌+◌, ◌-◌, ◌*◌, ◌/◌, ◌%◌, ◌^◌, ◌<◌}
use mathlib.Core.Bool.{Bool}
use stark_v.Base.Tests.{ltb, if◌then◌else◌}

abbrev pub IsU8 : ℕ → Type 0
IsU8 x = x < 2 ^ 8

abbrev pub IsU32 : ℕ → Type 0
IsU32 x = x < 2 ^ 32

-- `x as u8`, `x as u16` and `x as u32`.
abbrev pub u8 : ℕ → ℕ
u8 x = x % 2 ^ 8

abbrev pub u16 : ℕ → ℕ
u16 x = x % 2 ^ 16

abbrev pub u32 : ℕ → ℕ
u32 x = x % 2 ^ 32

abbrev pub shr : ℕ → ℕ → ℕ
shr x k = x / 2 ^ k

-- `x << k` on a `u32`.
abbrev pub shl32 : ℕ → ℕ → ℕ
shl32 x k = u32 (x * 2 ^ k)

abbrev pub low : ℕ → ℕ → ℕ
low x k = x % 2 ^ k

abbrev pub clear_low : ℕ → ℕ → ℕ
clear_low x k = x - x % 2 ^ k

-- `wrapping_add` and `wrapping_sub` of `u32`.
abbrev pub wrapping_add : ℕ → ℕ → ℕ
wrapping_add a b = u32 (a + b)

abbrev pub wrapping_sub : ℕ → ℕ → ℕ
wrapping_sub a b = u32 (a + 2 ^ 32 - b)

abbrev pub saturating_add : ℕ → ℕ → ℕ
saturating_add a b = if ltb (a + b) (2 ^ 32) then a + b else 2 ^ 32 - 1

-- `(x as i32) >> k`, rounding down.
abbrev pub sra32 : ℕ → ℕ → ℕ
sra32 x k = if ltb x (2 ^ 31) then x / 2 ^ k else 2 ^ 32 - 1 - (2 ^ 32 - 1 - x) / 2 ^ k

-- `x as i8 as i32 as u32` and `x as i16 as i32 as u32`.
abbrev pub sext8 : ℕ → ℕ
sext8 x = if ltb x (2 ^ 7) then x else x + (2 ^ 32 - 2 ^ 8)

abbrev pub sext16 : ℕ → ℕ
sext16 x = if ltb x (2 ^ 15) then x else x + (2 ^ 32 - 2 ^ 16)

-- `x as i32 as i64`, an `i64` being the `u64` of the same bits.
abbrev pub sext64 : ℕ → ℕ
sext64 x = if ltb x (2 ^ 31) then x else x + (2 ^ 64 - 2 ^ 32)

-- `(a as i32) < (b as i32)`: flipping the sign bit turns the signed order into the unsigned one.
abbrev pub lt_i32 : ℕ → ℕ → Bool
lt_i32 a b = ltb ((a + 2 ^ 31) % 2 ^ 32) ((b + 2 ^ 31) % 2 ^ 32)

-- The absolute value of an `i32`, and its negation modulo 2 ^ 32.
abbrev pub abs_i32 : ℕ → ℕ
abs_i32 x = if ltb x (2 ^ 31) then x else 2 ^ 32 - x

abbrev pub neg_i32 : ℕ → ℕ
neg_i32 x = u32 (2 ^ 32 - x)

-- `wrapping_div` and `wrapping_rem` of `i32` with a divisor other than 0: the quotient is rounded
-- towards 0 and the remainder has the sign of the dividend.
abbrev pub div_i32 : ℕ → ℕ → ℕ
div_i32 a b =
    let q = abs_i32 a / abs_i32 b in
    if ltb a (2 ^ 31)
    then if ltb b (2 ^ 31) then q else neg_i32 q
    else if ltb b (2 ^ 31)
    then neg_i32 q
    else u32 q

abbrev pub rem_i32 : ℕ → ℕ → ℕ
rem_i32 a b = let r = abs_i32 a % abs_i32 b in if ltb a (2 ^ 31) then r else neg_i32 r

-- Byte `i` of `x.to_le_bytes()`.
abbrev pub byte_of : ℕ → ℕ → ℕ
byte_of x i = x / 2 ^ (8 * i) % 2 ^ 8
