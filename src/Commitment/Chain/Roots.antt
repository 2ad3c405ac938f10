-- ===== src/Commitment/Chain/Roots.antt =====
-- The root over the bytes of some words depends only on the bytes.
use stark_v.Base.{
  if_both, ℕ, zero, suc, ◌+◌, ◌*◌, ◌%◌, ◌^◌, ◌<◌, ◌≡◌, refl, sym, ap, arith, ◌∙◌, inl, inr,
  Bool-cases, List, [], ◌∷◌, All, if◌then◌else◌, for_each, Dict, lookup, byte_of,
}
use stark_v.Poseidon2.{M31, Poseidon2Row}
use stark_v.Poseidon2.Hash.{matrix_hash}
use stark_v.Commitment.{
  MerkleValue, contains, keys, value_at, leaf_depth, insert_word_leaves, build_partial_merkle_tree,
}
use stark_v.Commitment.Root.{tree_value, HasWords, AreInTree, build_partial_merkle_tree-IsTree}
use stark_v.Commitment.Chain.Start.{IsWordAddr, word_of}
use stark_v.Commitment.Chain.Words.{insert_words, All-insert}

tree_value-cong :
    (l l' : Dict MerkleValue)
    → ((i : ℕ) → (value_at leaf_depth l i).value ≡ (value_at leaf_depth l' i).value)
    → (h i : ℕ) → tree_value l h i ≡ tree_value l' h i
unfolding tree_value
tree_value-cong l l' e zero i = e i
tree_value-cong l l' e (suc h) i =
    ap (λ x. matrix_hash x (tree_value l h (i * 2 + 1))) (tree_value-cong l l' e h (i * 2))
    ∙ ap (λ x. matrix_hash (tree_value l' h (i * 2)) x) (tree_value-cong l l' e h (i * 2 + 1))

-- The leaves that some words of the tree give.
abbrev pub word_leaves : (ℕ → ℕ) → List ℕ → Dict MerkleValue
word_leaves g ws = for_each ws (λ a l. insert_word_leaves l a (g a)) []

abbrev pub InTree : ℕ → Type 0
InTree w = IsWordAddr w × (w < 2 ^ 30)

pub All-map : (P Q : ℕ → Type 0) → ((w : ℕ) → P w → Q w) → (ws : List ℕ) → All P ws → All Q ws
All-map P Q f [] h = tt
All-map P Q f (w ∷ ws) h = (f w h.0, All-map P Q f ws h.1)

module _ (g : ℕ → ℕ) (ws : List ℕ) (ok : All InTree ws) where
  word_leaves-value :
      (i : ℕ)
      → (value_at leaf_depth (word_leaves g ws) i).value
        ≡ (if contains (word_of i) ws then byte_of (g (word_of i)) (i % 4) else 0)
  unfolding lookup
  word_leaves-value i =
      let found = insert_words g ws [] (All-map InTree IsWordAddr (λ w h. h.0) ws ok) i in
      elim (Bool-cases (contains (word_of i) ws)) [
        | inl inside ↦ let found' = rw inside at found in rw (found', inside) refl
        | inr outside ↦ let found' = rw outside at found in rw (found', outside) refl
      ]

  word_leaves-HasWords : HasWords (word_leaves g ws)
  word_leaves-HasWords i =
      rw (word_leaves-value i)
        (if_both (λ x. x < 2 ^ 32) (contains (word_of i) ws) (omega arith) (omega arith))

insert_word-InTree :
    (l : Dict MerkleValue) (a word : ℕ)
    → InTree a
    → All (λ k. k < 2 ^ 30) (keys l)
    → All (λ k. k < 2 ^ 30) (keys (insert_word_leaves l a word))
unfolding insert_word_leaves
insert_word-InTree l a word is h =
    let small = is.1 in
    let aligned = is.0.aligned in
    All-insert (λ k. k < 2 ^ 30) _ _ _ (omega arith)
      (All-insert (λ k. k < 2 ^ 30) _ _ _ (omega arith)
        (All-insert (λ k. k < 2 ^ 30) _ _ _ (omega arith)
          (All-insert (λ k. k < 2 ^ 30) _ _ _ (omega arith) h)))

word_leaves-keys :
    (g : ℕ → ℕ) (ws : List ℕ) (l : Dict MerkleValue)
    → All InTree ws
    → All (λ k. k < 2 ^ 30) (keys l)
    → All (λ k. k < 2 ^ 30) (keys (for_each ws (λ a l. insert_word_leaves l a (g a)) l))
word_leaves-keys g [] l ok h = h
word_leaves-keys g (a ∷ ws) l ok h =
    word_leaves-keys g ws (insert_word_leaves l a (g a)) ok.1 (insert_word-InTree l a (g a) ok.0 h)

keys-AreInTree : (l : Dict MerkleValue) → All (λ k. k < 2 ^ 30) (keys l) → AreInTree l
keys-AreInTree [] h = tt
keys-AreInTree (e ∷ l) h = (h.0, keys-AreInTree l h.1)

-- Two sets of words that agree where memory is not zero have one root.
pub one_root :
    (f : M31) (g g' : ℕ → ℕ) (ws ws' : List ℕ) (table table' : List Poseidon2Row)
    → All InTree ws
    → All InTree ws'
    → ((i : ℕ)
        → (if contains (word_of i) ws then byte_of (g (word_of i)) (i % 4) else 0)
          ≡ (if contains (word_of i) ws' then byte_of (g' (word_of i)) (i % 4) else 0))
    → (build_partial_merkle_tree f (word_leaves g ws) table).1
      ≡ (build_partial_merkle_tree f (word_leaves g' ws') table').1
one_root f g g' ws ws' table table' ok ok' same =
    let l = word_leaves g ws in
    let l' = word_leaves g' ws' in
    (build_partial_merkle_tree-IsTree f l table (word_leaves-HasWords g ws ok)
      (keys-AreInTree l (word_leaves-keys g ws [] ok tt))).0
    ∙ tree_value-cong l l'
        (λ i. word_leaves-value g ws ok i ∙ same i ∙ sym (word_leaves-value g' ws' ok' i))
        leaf_depth 0
    ∙ sym
        (build_partial_merkle_tree-IsTree f l' table' (word_leaves-HasWords g' ws' ok')
          (keys-AreInTree l' (word_leaves-keys g' ws' [] ok' tt))).0
