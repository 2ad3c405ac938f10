-- ===== src/Decode/Fields.antt =====
-- The fields of an instruction word: what the shifts and masks of the decoder read from a word
-- that is put together from its parts, and the immediates of each format.
use stark_v.Base.{ℕ, ◌+◌, ◌*◌, ◌/◌, ◌%◌, ◌^◌, ◌<◌, ◌≡◌, arith, low, shr, bit_or, shl32, sra32}
use stark_v.Base.Bits.{bit_or-disjoint}
use stark_v.Decode.{imm_i, imm_s, imm_b, imm_j, imm_u}
use stark_v.Decode.Encoding.{word_of, Sext}

-- The `|` of the decoder's immediates puts disjoint fields together.
imm_s_sum : (w : ℕ) → imm_s w ≡ sra32 (shl32 (low (shr w 25) 7 * 2 ^ 5 + low (shr w 7) 5) 20) 20
unfolding imm_s
imm_s_sum w =
    rw (bit_or-disjoint 5 (low (shr w 25) 7 * 2 ^ 5) (low (shr w 7) 5) (omega arith) (omega arith))

four_sum :
    (a b c e i j k : ℕ)
    → a % 2 ^ i ≡ 0
    → b < 2 ^ i
    → (a + b) % 2 ^ j ≡ 0
    → c < 2 ^ j
    → (a + b + c) % 2 ^ k ≡ 0
    → e < 2 ^ k
    → bit_or (bit_or (bit_or a b) c) e ≡ a + b + c + e
four_sum a b c e i j k ha hb hab hc habc he =
    rw (bit_or-disjoint i a b ha hb, bit_or-disjoint j (a + b) c hab hc)
      (bit_or-disjoint k (a + b + c) e habc he)

imm_b_sum :
    (w : ℕ)
    → imm_b w
      ≡ sra32
          (shl32
            (low (shr w 31) 1 * 2 ^ 12
              + low (shr w 7) 1 * 2 ^ 11
              + low (shr w 25) 6 * 2 ^ 5
              + low (shr w 8) 4 * 2 ^ 1)
            19)
          19
unfolding imm_b
imm_b_sum w = rw (
    four_sum (low (shr w 31) 1 * 2 ^ 12) (low (shr w 7) 1 * 2 ^ 11) (low (shr w 25) 6 * 2 ^ 5)
      (low (shr w 8) 4 * 2 ^ 1) 12 11 5 (omega arith) (omega arith) (omega arith) (omega arith)
      (omega arith) (omega arith))

imm_j_sum :
    (w : ℕ)
    → imm_j w
      ≡ sra32
          (shl32
            (low (shr w 31) 1 * 2 ^ 20
              + low (shr w 12) 8 * 2 ^ 12
              + low (shr w 20) 1 * 2 ^ 11
              + low (shr w 21) 10 * 2 ^ 1)
            11)
          11
unfolding imm_j
imm_j_sum w = rw (
    four_sum (low (shr w 31) 1 * 2 ^ 20) (low (shr w 12) 8 * 2 ^ 12) (low (shr w 20) 1 * 2 ^ 11)
      (low (shr w 21) 10 * 2 ^ 1) 20 12 11 (omega arith) (omega arith) (omega arith) (omega arith)
      (omega arith) (omega arith))

module _ (o d f3 s1 s2 f7 : ℕ) (ho : o < 2 ^ 7) (hd : d < 2 ^ 5) (h3 : f3 < 2 ^ 3) (h1 : s1 < 2 ^ 5)
    (h2 : s2 < 2 ^ 5) (h7 : f7 < 2 ^ 7) where
  -- The six fields of a word are read back.
  pub word_of_fields :
      let w = word_of o d f3 s1 s2 f7 in
      (low w 7 ≡ o)
      × (low (shr w 7) 5 ≡ d)
      × (low (shr w 12) 3 ≡ f3)
      × (low (shr w 15) 5 ≡ s1)
      × (low (shr w 20) 5 ≡ s2)
      × (low (shr w 25) 7 ≡ f7)
  unfolding word_of
  word_of_fields = omega arith

  pub imm_i-word_of :
      (imm : ℕ)
      → Sext (2 ^ 11) imm
      → s2 ≡ imm % 2 ^ 5
      → f7 ≡ imm / 2 ^ 5 % 2 ^ 7
      → imm_i (word_of o d f3 s1 s2 f7) ≡ imm
  unfolding imm_i word_of
  imm_i-word_of imm h e2 e7 = ground arith

  pub imm_s-word_of :
      (imm : ℕ)
      → Sext (2 ^ 11) imm
      → d ≡ imm % 2 ^ 5
      → f7 ≡ imm / 2 ^ 5 % 2 ^ 7
      → imm_s (word_of o d f3 s1 s2 f7) ≡ imm
  imm_s-word_of imm h e2 e7 =
      rw (imm_s_sum, word_of_fields.1, word_of_fields.5, e2, e7) (ground arith)

  pub imm_b-word_of :
      (imm : ℕ)
      → Sext (2 ^ 12) imm
      → imm % 2 ≡ 0
      → d ≡ imm / 2 ^ 11 % 2 + imm / 2 % 2 ^ 4 * 2
      → f7 ≡ imm / 2 ^ 5 % 2 ^ 6 + imm / 2 ^ 12 % 2 * 2 ^ 6
      → imm_b (word_of o d f3 s1 s2 f7) ≡ imm
  unfolding word_of
  imm_b-word_of imm h ev e2 e7 = ground (arith, imm_b_sum (word_of o d f3 s1 s2 f7))

  pub imm_j-word_of :
      (imm : ℕ)
      → Sext (2 ^ 20) imm
      → imm % 2 ≡ 0
      → f3 ≡ imm / 2 ^ 12 % 2 ^ 3
      → s1 ≡ imm / 2 ^ 15 % 2 ^ 5
      → s2 ≡ imm / 2 ^ 11 % 2 + imm / 2 % 2 ^ 4 * 2
      → f7 ≡ imm / 2 ^ 5 % 2 ^ 6 + imm / 2 ^ 20 % 2 * 2 ^ 6
      → imm_j (word_of o d f3 s1 s2 f7) ≡ imm
  unfolding word_of
  imm_j-word_of imm h ev e3 e1 e2 e7 = ground (arith, imm_j_sum (word_of o d f3 s1 s2 f7))

  pub imm_u-word_of :
      (imm : ℕ)
      → imm < 2 ^ 32
      → imm % 2 ^ 12 ≡ 0
      → f3 ≡ imm / 2 ^ 12 % 2 ^ 3
      → s1 ≡ imm / 2 ^ 15 % 2 ^ 5
      → s2 ≡ imm / 2 ^ 20 % 2 ^ 5
      → f7 ≡ imm / 2 ^ 25
      → imm_u (word_of o d f3 s1 s2 f7) ≡ imm
  unfolding imm_u word_of
  imm_u-word_of imm h z e3 e1 e2 e7 = omega arith
