-- ===== src/Commitment/Root/Pairs.antt =====
-- One level of `build_partial_merkle_tree`: the level above holds the hashes of the pairs.
use stark_v.Base.{
  ℕ, ◌+◌, ◌*◌, ◌/◌, ◌≡◌, refl, ap, arith, ◌∙◌, ◌⊎◌, inl, inr, Bool-cases, eq→==, if_both, IsU32,
  Option, none, some, List, [], ◌∷◌, ◌++◌, All, All-append, for_each, Dict, lookup, lookup-insert,
  insert, true, ◌==◌, ==_iff, if◌then◌else◌, shr,
}
use stark_v.Base.Bits.{bit_xor-one}
use stark_v.Poseidon2.{M31}
use stark_v.Poseidon2.Hash.{matrix_hash, traced-hash}
use stark_v.Commitment.{
  MerkleValue, NodeData, Level, contains, value_at, left_of, right_of, hash_pair, visit,
}

pub left_of_lem : (i : ℕ) → left_of i ≡ i / 2 * 2
unfolding left_of
left_of_lem i = ground (arith, bit_xor-one i)

pub right_of_lem : (i : ℕ) → right_of i ≡ i / 2 * 2 + 1
unfolding right_of
right_of_lem i = ground (arith, bit_xor-one i)

shr-left_of : (i : ℕ) → shr (left_of i) 1 ≡ i / 2
shr-left_of i = rw (left_of_lem i) (omega arith)

-- A level whose values are words, and the node above a pair.
module _ (f : M31) (depth : ℕ) (current : Dict MerkleValue)
    (words : (i : ℕ) → IsU32 (value_at depth current i).value) where
  abbrev pub parent : ℕ → MerkleValue
  parent q = record {
    value =
        matrix_hash (value_at depth current (q * 2)).value
          (value_at depth current (q * 2 + 1)).value;
    multiplicity = 1;
  }

  abbrev pub node_of : ℕ → NodeData
  node_of q = record {
    index = q * 2;
    depth = depth;
    left = value_at depth current (q * 2);
    right = value_at depth current (q * 2 + 1);
    cur = parent q;
  }

  -- What a pair adds to a level.
  hash_pair_lem :
      (i : ℕ) (level : Level)
      → let hashed = hash_pair f depth current i level in
        (hashed.next ≡ insert (i / 2) (parent (i / 2)) level.next)
        × (hashed.nodes ≡ level.nodes ++ node_of (i / 2) ∷ [])
        × (hashed.processed ≡ ((i / 2 * 2 + 1) ∷ (i / 2 * 2) ∷ level.processed))
  unfolding hash_pair
  hash_pair_lem i level =
      let q = i / 2 in
      let hash =
        (traced-hash f level.table (value_at depth current (q * 2)).value
          (value_at depth current (q * 2 + 1)).value (words (q * 2)) (words (q * 2 + 1))).0 in
      rw (shr-left_of i, left_of_lem i, right_of_lem i, hash) (refl, refl, refl)

  -- The level above has been hashed at `q`.
  abbrev pub Has : Level → ℕ → Type 0
  Has level q = lookup q level.next ≡ some (parent q)

  -- What holds between two indices; `P` is what is claimed of every node.
  pub record IsLevel (P : NodeData → Type 0) (level : Level) : Type 0 where
    pub only : (q : ℕ) → (lookup q level.next ≡ none) ⊎ Has level q
    pub done : (i : ℕ) → contains i level.processed ≡ true → Has level (i / 2)
    pub nodes : All P level.nodes

  module _ (P : NodeData → Type 0) (is_node : (q : ℕ) → P (node_of q)) where
    inserted :
        (q k : ℕ) (next : Dict MerkleValue)
        → lookup k (insert q (parent q) next) ≡ (if q == k then some (parent k) else lookup k next)
    inserted q k next = elim (Bool-cases (q == k)) [
      | inl e ↦
          let found = rw e at (lookup-insert q k (parent q) next) in
          rw e (found ∙ ap (λ z. some (parent z)) ((==_iff q k).0 e))
      | inr e ↦ let other = rw e at (lookup-insert q k (parent q) next) in rw e other
    ]

    -- Hashing a pair adds it to the level above, and keeps what is there.
    hash_pair-Has :
        (i k : ℕ) (level : Level)
        → (i / 2 ≡ k) ⊎ Has level k
        → Has (hash_pair f depth current i level) k
    hash_pair-Has i k level h =
        let (e, _, _) = hash_pair_lem i level in
        let found = inserted (i / 2) k level.next in
        rw e (
          found ∙ elim h [
            | inl same ↦ rw (eq→== (i / 2) k same) refl
            | inr held ↦
                if_both (λ (o : Option MerkleValue). o ≡ some (parent k)) (i / 2 == k) refl held
          ])

    pair_or_before :
        (i k : ℕ) (processed : List ℕ)
        → contains k ((i / 2 * 2 + 1) ∷ (i / 2 * 2) ∷ processed) ≡ true
        → (i / 2 ≡ k / 2) ⊎ (contains k processed ≡ true)
    pair_or_before i k processed h = elim (Bool-cases (contains k processed)) [
      | inl before ↦ inr before
      | inr new ↦ inl (ground arith)
    ]

    hash_pair-IsLevel :
        (i : ℕ) (level : Level) → IsLevel P level → IsLevel P (hash_pair f depth current i level)
    hash_pair-IsLevel i level h =
        let (e, nodes, processed) = hash_pair_lem i level in
        record {
          only = λ k. rw e (
              rw (inserted (i / 2) k level.next) (
                if_both (λ (o : Option MerkleValue). (o ≡ none) ⊎ (o ≡ some (parent k)))
                  (i / 2 == k) (inr refl) (h.only k)));
          done = λ k c.
              hash_pair-Has i (k / 2) level
                (elim (pair_or_before i k level.processed (rw processed at c)) [
                  | inl same ↦ inl same
                  | inr before ↦ inr (h.done k before)
                ]);
          nodes =
              rw nodes
                (All-append P level.nodes (node_of (i / 2) ∷ []) h.nodes (is_node (i / 2), tt));
        }

    -- The loop over some indices hashes each one's pair, and undoes nothing.
    pub record Visited (is : List ℕ) (level final : Level) : Type 0 where
      pub level_ok : IsLevel P final
      pub all : (i : ℕ) → contains i is ≡ true → Has final (i / 2)
      pub kept : (q : ℕ) → Has level q → Has final q

    visit-IsLevel :
        (i : ℕ) (level : Level)
        → IsLevel P level
        → Visited (i ∷ []) level (visit f depth current i level)
    unfolding visit
    visit-IsLevel i level h = elim (Bool-cases (contains i level.processed)) [
      | inl before ↦ rw before (record {
        level_ok = h;
        all = λ k c. let same : i ≡ k = ground arith in rw same at (h.done i before);
        kept = λ q held. held;
      })
      | inr new ↦ rw new (record {
        level_ok = hash_pair-IsLevel i level h;
        all = λ k c.
            let same : i ≡ k = ground arith in hash_pair-Has i (k / 2) level (inl (omega arith));
        kept = λ q held. hash_pair-Has i q level (inr held);
      })
    ]

    pub visits :
        (is : List ℕ) (level : Level)
        → IsLevel P level
        → Visited is level (for_each is (visit f depth current) level)
    visits [] level h = record {
      level_ok = h;
      all = λ i c. absurd (ground arith);
      kept = λ q held. held;
    }
    visits (i ∷ is) level h =
        let next = visit f depth current i level in
        let first = visit-IsLevel i level h in
        let rest = visits is next first.level_ok in
        record {
          level_ok = rest.level_ok;
          all = λ k c. elim (Bool-cases (contains k is)) [
            | inl later ↦ rest.all k later
            | inr not_later ↦ rest.kept (k / 2) (first.all k (ground arith))
          ];
          kept = λ q held. rest.kept q (first.kept q held);
        }
