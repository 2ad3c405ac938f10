-- ===== src/Execute/Values.antt =====
-- The arithmetic of the handlers is that of the ISA: words against integers.
use stark_v.Base.{
  ℕ, ◌+◌, ◌-◌, ◌*◌, ◌/◌, ◌%◌, ◌^◌, ◌<◌, ◌≤◌, ◌≡◌, arith, ap, inl, inr, Bool-cases, ltb, ◌==◌, ◌&&◌,
  if◌then◌else◌,
}
use stark_v.Base.{
  wrapping_add, wrapping_sub, lt_i32, sra32, sext8, sext16, sext64, u32, shr, div_i32, rem_i32,
}
use stark_v.Base.Int.{pos, negsuc, ◌+ℤ◌, ◌-ℤ◌, ◌*ℤ◌, ltb_ℤ, signed32, to_word, floor_div, quot, rem}

pub div-le_self : (n d : ℕ) → n / d ≤ n
div-le_self n d = omega arith

-- The product of two negative numbers, by their magnitudes.
cross :
    (a b a' b' : ℕ)
    → a + a' ≡ 2 ^ 32
    → b + b' ≡ 2 ^ 32
    → a' * b' + (a + b) * 2 ^ 32 ≡ a * b + 2 ^ 64
cross a b a' b' ha hb = omega (arith, ap (λ (t : ℕ). t * b) ha, ap (λ (t : ℕ). a' * t) hb)

half_cross : (a b a' : ℕ) → a + a' ≡ 2 ^ 32 → a' * b + a * b ≡ b * 2 ^ 32
half_cross a b a' ha = omega (arith, ap (λ (t : ℕ). t * b) ha)

module _ (a b : ℕ) (ha : a < 2 ^ 32) (hb : b < 2 ^ 32) where
  pub wrapping_add_signed : wrapping_add a b ≡ to_word (signed32 a +ℤ signed32 b)
  unfolding ◌+ℤ◌
  wrapping_add_signed = ground arith

  pub wrapping_sub_signed : wrapping_sub a b ≡ to_word (signed32 a -ℤ signed32 b)
  unfolding ◌-ℤ◌
  wrapping_sub_signed = ground arith

  pub lt_i32_signed : lt_i32 a b ≡ ltb_ℤ (signed32 a) (signed32 b)
  lt_i32_signed = ground arith

  pub mul_signed : u32 (sext64 a * sext64 b % 2 ^ 64) ≡ to_word (signed32 a *ℤ signed32 b)
  unfolding ◌*ℤ◌
  mul_signed = elim (Bool-cases (ltb a (2 ^ 31))) [
    | inl p ↦ elim (Bool-cases (ltb b (2 ^ 31))) [
      | inl q ↦ rw (p, q) (ground arith)
      | inr q ↦ rw (p, q) (ground (arith, half_cross b a (2 ^ 32 - b) (ground arith)))
    ]
    | inr p ↦ elim (Bool-cases (ltb b (2 ^ 31))) [
      | inl q ↦ rw (p, q) (ground (arith, half_cross a b (2 ^ 32 - a) (ground arith)))
      | inr q ↦
          rw (p, q)
            (ground (arith, cross a b (2 ^ 32 - a) (2 ^ 32 - b) (ground arith) (ground arith)))
    ]
  ]

  pub mulh_signed :
      u32 (shr (sext64 a * sext64 b % 2 ^ 64) 32)
      ≡ to_word (floor_div (signed32 a *ℤ signed32 b) (2 ^ 32))
  unfolding ◌*ℤ◌
  mulh_signed = elim (Bool-cases (ltb a (2 ^ 31))) [
    | inl p ↦ elim (Bool-cases (ltb b (2 ^ 31))) [
      | inl q ↦ rw (p, q) (ground arith)
      | inr q ↦ rw (p, q) (ground (arith, half_cross b a (2 ^ 32 - b) (ground arith)))
    ]
    | inr p ↦ elim (Bool-cases (ltb b (2 ^ 31))) [
      | inl q ↦ rw (p, q) (ground (arith, half_cross a b (2 ^ 32 - a) (ground arith)))
      | inr q ↦
          rw (p, q)
            (ground (arith, cross a b (2 ^ 32 - a) (2 ^ 32 - b) (ground arith) (ground arith)))
    ]
  ]

  pub mulhsu_signed :
      u32 (shr (sext64 a * b % 2 ^ 64) 32) ≡ to_word (floor_div (signed32 a *ℤ pos b) (2 ^ 32))
  unfolding ◌*ℤ◌
  mulhsu_signed = elim (Bool-cases (ltb a (2 ^ 31))) [
    | inl p ↦ rw p (ground arith)
    | inr p ↦ rw p (ground (arith, half_cross a b (2 ^ 32 - a) (ground arith)))
  ]

  pub mulhu_unsigned : u32 (shr (a * b % 2 ^ 64) 32) ≡ a * b / 2 ^ 32
  mulhu_unsigned = grind arith

  div_signed :
      0 < b
      → (if a == 0x8000_0000 && b == 0xffff_ffff then a else div_i32 a b)
        ≡ to_word (quot (signed32 a) (signed32 b))
  div_signed p = ground arith

  rem_signed :
      0 < b
      → (if a == 0x8000_0000 && b == 0xffff_ffff then 0 else rem_i32 a b)
        ≡ to_word (rem (signed32 a) (signed32 b))
  rem_signed p = ground arith

  -- With the cases that the code tests for: the ISA has only the first.
  pub div_value :
      (if b == 0
        then 0xffff_ffff
        else if a == 0x8000_0000 && b == 0xffff_ffff
        then a
        else div_i32 a b)
      ≡ (if b == 0 then to_word (negsuc 0) else to_word (quot (signed32 a) (signed32 b)))
  div_value = elim (Bool-cases (b == 0)) [ inl e ↦ rw e | inr e ↦ rw e (div_signed (ground arith)) ]

  pub rem_value :
      (if b == 0 then a else if a == 0x8000_0000 && b == 0xffff_ffff then 0 else rem_i32 a b)
      ≡ (if b == 0 then a else to_word (rem (signed32 a) (signed32 b)))
  rem_value = elim (Bool-cases (b == 0)) [ inl e ↦ rw e | inr e ↦ rw e (rem_signed (ground arith)) ]

pub sra32_signed : (a k : ℕ) → a < 2 ^ 32 → sra32 a k ≡ to_word (floor_div (signed32 a) (2 ^ k))
sra32_signed a k ha = elim (Bool-cases (ltb a (2 ^ 31))) [
  | inl p ↦ rw p (ground (arith, div-le_self a (2 ^ k)))
  | inr p ↦ rw p (ground (arith, div-le_self (2 ^ 32 - a - 1) (2 ^ k)))
]

pub sext8_signed :
    (v : ℕ)
    → v < 2 ^ 8
    → sext8 v ≡ to_word (if ltb v (2 ^ 7) then pos v else negsuc (2 ^ 8 - v - 1))
sext8_signed v h = ground arith

pub sext16_signed :
    (v : ℕ)
    → v < 2 ^ 16
    → sext16 v ≡ to_word (if ltb v (2 ^ 15) then pos v else negsuc (2 ^ 16 - v - 1))
sext16_signed v h = ground arith
