-- ===== src/Poseidon2/Matrix/Block.antt =====
-- The addition chains of the block M, in both forms.
use native.Mathlib.Nat.{mod-eq_of_lt}
use stark_v.Base.{ℕ, ◌+◌, ◌*◌, ◌%◌, ◌<◌, ◌≡◌, sym, ap, arith, ◌∙◌, IsU32}
use stark_v.Ops.Utils.{m31_p}
use stark_v.Poseidon2.Field.{M31}
use stark_v.Poseidon2.Permutation.{add_m31, apply_m4}
use stark_v.Poseidon2.Felt.{m4}
use stark_v.Poseidon2.Arith.{IsM31, mod_lt, mul_mod_both, add_m31_mod}

-- The elements that the block M makes of four.
abbrev pub row0 : ℕ → ℕ → ℕ → ℕ → ℕ
row0 a b c d = 5 * a + 7 * b + c + 3 * d

abbrev pub row1 : ℕ → ℕ → ℕ → ℕ → ℕ
row1 a b c d = 4 * a + 6 * b + c + d

abbrev pub row2 : ℕ → ℕ → ℕ → ℕ → ℕ
row2 a b c d = a + 3 * b + 5 * c + 7 * d

abbrev pub row3 : ℕ → ℕ → ℕ → ℕ → ℕ
row3 a b c d = a + b + 4 * c + 6 * d

abbrev pub block : ℕ → ℕ → ℕ → ℕ → ℕ × ℕ × ℕ × ℕ
block a b c d =
    (row0 a b c d % m31_p, row1 a b c d % m31_p, row2 a b c d % m31_p, row3 a b c d % m31_p)

-- An element that is congruent to `A`, reduced.
abbrev Is : ℕ → ℕ → Type 0
Is a A = a ≡ A % m31_p

becomes : {a A B : ℕ} → Is a A → A ≡ B → Is a B
becomes h e = h ∙ ap (λ z. z % m31_p) e

quad :
    {a b c d a' b' c' d' : ℕ}
    → a ≡ a'
    → b ≡ b'
    → c ≡ c'
    → d ≡ d'
    → Path (ℕ × ℕ × ℕ × ℕ) (a, b, c, d) (a', b', c', d')
quad p q r s = λ i. (p i, q i, r i, s i)

module _ (f : M31) where
  plus : (a b A B : ℕ) → Is a A → Is b B → Is (add_m31 f a b) (A + B)
  plus a b A B h k =
      let lt_a = mod_lt A in
      let lt_b = mod_lt B in add_m31_mod f a b (omega arith) (omega arith) ∙ omega arith

  pub apply_m4-block :
      (a b c d : ℕ) → IsU32 a → IsU32 b → IsU32 c → IsU32 d → apply_m4 f a b c d ≡ block a b c d
  unfolding apply_m4
  apply_m4-block a b c d ha hb hc hd =
      let t0 = add_m31_mod f a b ha hb in
      let t02 = plus _ _ _ _ t0 t0 in
      let t1 = add_m31_mod f c d hc hd in
      let t12 = plus _ _ _ _ t1 t1 in
      let t2 = plus _ _ _ _ (add_m31_mod f b b hb hb) t1 in
      let t3 = plus _ _ _ _ (add_m31_mod f d d hd hd) t0 in
      let t4 = plus _ _ _ _ (plus _ _ _ _ t12 t12) t3 in
      let t5 = plus _ _ _ _ (plus _ _ _ _ t02 t02) t2 in
      let t6 = plus _ _ _ _ t3 t5 in
      let t7 = plus _ _ _ _ t2 t4 in
      quad (becomes t6 (omega arith)) (becomes t5 (omega arith)) (becomes t7 (omega arith))
        (becomes t4 (omega arith))

  felt_plus : (a b A B : ℕ) → Is a A → Is b B → Is (f.add a b) (A + B)
  felt_plus a b A B h k =
      let lt_a = mod_lt A in
      let lt_b = mod_lt B in f.add_mod a b (omega arith) (omega arith) ∙ omega arith

  times : (c a A : ℕ) → c < m31_p → Is a A → Is (f.mul (f.reduce c) a) (c * A)
  times c a A small h =
      let lt_a = mod_lt A in
      rw (f.reduce_mod c (omega arith), h)
        (f.mul_mod (c % m31_p) (A % m31_p) (mod_lt c) lt_a ∙ mul_mod_both c A)

  pub m4-block :
      (a b c d : ℕ) → IsM31 a → IsM31 b → IsM31 c → IsM31 d → m4 f a b c d ≡ block a b c d
  unfolding m4
  m4-block a b c d ha hb hc hd =
      let is = λ (x : ℕ) (h : IsM31 x). sym (mod-eq_of_lt h) in
      let t0 = felt_plus _ _ _ _ (is a ha) (is b hb) in
      let t1 = felt_plus _ _ _ _ (is c hc) (is d hd) in
      let t2 = felt_plus _ _ _ _ (times 2 _ _ (omega arith) (is b hb)) t1 in
      let t3 = felt_plus _ _ _ _ (times 2 _ _ (omega arith) (is d hd)) t0 in
      let t4 = felt_plus _ _ _ _ (times 4 _ _ (omega arith) t1) t3 in
      let t5 = felt_plus _ _ _ _ (times 4 _ _ (omega arith) t0) t2 in
      let t6 = felt_plus _ _ _ _ t3 t5 in
      let t7 = felt_plus _ _ _ _ t2 t4 in
      quad (becomes t6 (omega arith)) (becomes t5 (omega arith)) (becomes t7 (omega arith))
        (becomes t4 (omega arith))
