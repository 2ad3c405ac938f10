-- ===== src/Commitment/Chain/Words.antt =====
-- The leaves that some words give: a leaf for each byte.
use stark_v.Base.{
  ℕ, ◌%◌, ◌<◌, ◌≡◌, refl, sym, ap, arith, ◌∙◌, ◌⊎◌, inl, inr, Bool-cases, some, List, [], ◌∷◌, All,
  if_both, ltb, ◌==◌, ==_iff, eq→==, if◌then◌else◌, true, false, ◌||◌, wrapping_add, byte_of,
  for_each, Dict, lookup, lookup-insert, insert,
}
use stark_v.Commitment.{MerkleValue, insert_word_leaves, contains, keys}
use stark_v.Commitment.Chain.Start.{IsWordAddr, word_of}

-- The leaf of the byte at `i` of a word.
abbrev pub leaf_of : ℕ → ℕ → MerkleValue
leaf_of word i = record { value = byte_of word (i % 4); multiplicity = 1 }

in_word :
    (a i : ℕ)
    → IsWordAddr a
    → word_of i ≡ a
    → (i ≡ wrapping_add a 0)
      ⊎ ((i ≡ wrapping_add a 1) ⊎ ((i ≡ wrapping_add a 2) ⊎ (i ≡ wrapping_add a 3)))
in_word a i is e = let aligned = is.aligned in let fits = is.fits in omega arith

module _ (leaves : Dict MerkleValue) (a word : ℕ) (is : IsWordAddr a) where
  inserted :
      (i : ℕ)
      → lookup i (insert_word_leaves leaves a word) ≡ (
          if wrapping_add a 3 == i
          then some (record { value = byte_of word 3; multiplicity = 1 })
          else if wrapping_add a 2 == i
          then some (record { value = byte_of word 2; multiplicity = 1 })
          else if wrapping_add a 1 == i
          then some (record { value = byte_of word 1; multiplicity = 1 })
          else if wrapping_add a 0 == i
          then some (record { value = byte_of word 0; multiplicity = 1 })
          else lookup i leaves)
  unfolding insert_word_leaves
  inserted i = rw (lookup-insert, lookup-insert, lookup-insert, lookup-insert) refl

  pub lookup-insert_word_leaves :
      (i : ℕ)
      → lookup i (insert_word_leaves leaves a word)
        ≡ (if word_of i == a then some (leaf_of word i) else lookup i leaves)
  lookup-insert_word_leaves i = elim (Bool-cases (word_of i == a)) [
    | inr ne ↦
        let aligned = is.aligned in
        let fits = is.fits in
        let no : (k : ℕ) → k < 4 → (wrapping_add a k == i) ≡ false = λ k small. ground arith in
        rw
          (
            inserted i,
            ne,
            no 3 (omega arith),
            no 2 (omega arith),
            no 1 (omega arith),
            no 0 (omega arith),
          )
          refl
    | inl e ↦
        let aligned = is.aligned in
        let fits = is.fits in
        let digit : (k : ℕ)
            → k ≡ i % 4
            → some (record { value = byte_of word k; multiplicity = 1 }) ≡ some (leaf_of word i) =
          λ k same. ap (λ z. some (record { value = byte_of word z; multiplicity = 1 })) same in
        elim (in_word a i is ((==_iff (word_of i) a).0 e)) [
          | inl at ↦
              let off : (k : ℕ) → (0 < k) × (k < 4) → (wrapping_add a k == i) ≡ false =
                λ k small. ground arith in
              rw
                (
                  inserted i,
                  e,
                  off 3 (omega arith, omega arith),
                  off 2 (omega arith, omega arith),
                  off 1 (omega arith, omega arith),
                  eq→== (wrapping_add a 0) i (sym at),
                )
                (digit 0 (omega arith))
          | inr (inl at) ↦
              let off : (k : ℕ) → (1 < k) × (k < 4) → (wrapping_add a k == i) ≡ false =
                λ k small. ground arith in
              rw
                (
                  inserted i,
                  e,
                  off 3 (omega arith, omega arith),
                  off 2 (omega arith, omega arith),
                  eq→== (wrapping_add a 1) i (sym at),
                )
                (digit 1 (omega arith))
          | inr (inr (inl at)) ↦
              let off : (k : ℕ) → (2 < k) × (k < 4) → (wrapping_add a k == i) ≡ false =
                λ k small. ground arith in
              rw
                (
                  inserted i,
                  e,
                  off 3 (omega arith, omega arith),
                  eq→== (wrapping_add a 2) i (sym at),
                )
                (digit 2 (omega arith))
          | inr (inr (inr at)) ↦
              rw (inserted i, e, eq→== (wrapping_add a 3) i (sym at)) (digit 3 (omega arith))
        ]
  ]

-- The leaves of some words, inserted one after the other.
pub insert_words :
    (g : ℕ → ℕ) (ws : List ℕ) (leaves : Dict MerkleValue)
    → All IsWordAddr ws
    → (i : ℕ)
    → lookup i (for_each ws (λ a l. insert_word_leaves l a (g a)) leaves)
      ≡ (if contains (word_of i) ws then some (leaf_of (g (word_of i)) i) else lookup i leaves)
insert_words g [] leaves h i = refl
insert_words g (a ∷ ws) leaves h i =
    let rest = insert_words g ws (insert_word_leaves leaves a (g a)) h.1 i in
    let here = lookup-insert_word_leaves leaves a (g a) h.0 i in
    elim (Bool-cases (contains (word_of i) ws)) [
      | inl later ↦ elim (Bool-cases (a == word_of i)) [
        | inl e ↦ let rest' = rw later at rest in rw e rest'
        | inr ne ↦ let rest' = rw later at rest in rw (ne, later) rest'
      ]
      | inr not_later ↦ elim (Bool-cases (a == word_of i)) [
        | inl e ↦
            let same : a ≡ word_of i = (==_iff a (word_of i)).0 e in
            let test : (word_of i == a) ≡ true = eq→== (word_of i) a (sym same) in
            let rest' = rw not_later at rest in
            let here' = rw test at here in
            rw e (rest' ∙ here' ∙ ap (λ w. some (leaf_of (g w) i)) same)
        | inr ne ↦
            let test : (word_of i == a) ≡ false = ground arith in
            let rest' = rw not_later at rest in
            let here' = rw test at here in rw (ne, not_later) (rest' ∙ here')
      ]
    ]

-- The keys after an insertion.
pub contains-insert {ℓ} :
    {V : Type ℓ} (q k : ℕ) (v : V) (m : Dict V)
    → contains q (keys (insert k v m)) ≡ (k == q || contains q (keys m))
unfolding insert
contains-insert q k v [] = refl
contains-insert q k v ((j, w) ∷ m) = let rest = contains-insert q k v m in ground (arith, rest)

pub All-insert {ℓ} :
    {V : Type ℓ} (P : ℕ → Type 0) (k : ℕ) (v : V) (m : Dict V)
    → P k
    → All P (keys m)
    → All P (keys (insert k v m))
unfolding insert
All-insert P k v [] h all = (h, tt)
All-insert P k v ((j, w) ∷ m) h all =
    if_both (λ (d : Dict _). All P (keys d)) (j == k) (h, all.1)
      (if_both (λ (d : Dict _). All P (keys d)) (ltb k j) (h, all)
        (all.0, All-insert P k v m h all.1))

pub contains-All : (P : ℕ → Type 0) (q : ℕ) (xs : List ℕ) → All P xs → contains q xs ≡ true → P q
contains-All P q [] all h = absurd (ground arith)
contains-All P q (x ∷ xs) all h = elim (Bool-cases (x == q)) [
  | inl e ↦ rw ((==_iff x q).0 e) at all.0
  | inr ne ↦ contains-All P q xs all.1 (ground arith)
]
