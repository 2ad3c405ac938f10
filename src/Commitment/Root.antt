-- ===== src/Commitment/Root.antt =====
-- The partial Merkle tree is the full tree over all 2 ^ 30 leaves, of which those that are not
-- given are zero.
pub mod Pairs
use native.Mathlib.Nat.{pow-succ'}
use mathlib.Core.Option.{none-ne-some}
use stark_v.Base.{
  ℕ, zero, suc, ◌+◌, ◌-◌, ◌*◌, ◌/◌, ◌%◌, ◌^◌, ◌<◌, ◌≤◌, ◌≡◌, refl, sym, ap, arith, ◌∙◌, ◌⊎◌, inl,
  inr, Bool-cases, Option-cases, IsU32, Option, none, some, List, [], ◌∷◌, ◌++◌, All, for_each,
  Dict, lookup, true, false, ◌==◌, eq→==, get_or,
}
use stark_v.Ops.Utils.{m31_p}
use stark_v.Poseidon2.{M31, default_hashes, Poseidon2Row}
use stark_v.Poseidon2.Hash.{matrix_hash, traced-hash, default_hashes-step}
use stark_v.Commitment.{
  MerkleValue, NodeData, Level, contains, keys, value_at, visit, build_levels,
  build_partial_merkle_tree, leaf_depth,
}
use stark_v.Commitment.Root.Pairs.{parent, node_of, Has, IsLevel, Visited, visits}

-- The value of the node of a height, the leaves having height 0.
unfoldable pub tree_value : Dict MerkleValue → ℕ → ℕ → ℕ
tree_value leaves zero i = (value_at leaf_depth leaves i).value
tree_value leaves (suc h) i =
    matrix_hash (tree_value leaves h (i * 2)) (tree_value leaves h (i * 2 + 1))

-- A node is a pair of neighbours and their parent, all with their values in the full tree.
pub record IsNode (leaves : Dict MerkleValue) (node : NodeData) : Type 0 where
  pub above : 0 < node.depth
  pub within : node.depth ≤ leaf_depth
  pub even : node.index % 2 ≡ 0
  pub left_value : node.left.value ≡ tree_value leaves (leaf_depth - node.depth) node.index
  pub right_value : node.right.value ≡ tree_value leaves (leaf_depth - node.depth) (node.index + 1)
  pub cur_value : node.cur.value ≡ matrix_hash node.left.value node.right.value
  pub once : node.cur.multiplicity ≡ 1

-- A key that is found is one of the keys.
pub lookup-contains {ℓ} :
    {V : Type ℓ} (i : ℕ) (v : V) (m : Dict V) → lookup i m ≡ some v → contains i (keys m) ≡ true
unfolding lookup
lookup-contains i v [] h = ground arith
lookup-contains i v ((j, w) ∷ m) h = let rest = lookup-contains i v m in ground (arith, rest)

module _ (f : M31) (d : ℕ) (small : d < 30) (current : Dict MerkleValue)
    (words : (i : ℕ) → IsU32 (value_at (suc d) current i).value) (P : NodeData → Type 0)
    (is_node : (q : ℕ) → P (node_of f (suc d) current words q)) where
  next_value :
      (level : Level)
      → ((q : ℕ) → (lookup q level.next ≡ none) ⊎ Has f (suc d) current words level q)
      → ((i : ℕ) → contains i (keys current) ≡ true → Has f (suc d) current words level (i / 2))
      → (q : ℕ)
      → (value_at d level.next q).value
        ≡ matrix_hash
            (value_at (suc d) current (q * 2)).value
            (value_at (suc d) current (q * 2 + 1)).value
  next_value level only all q =
      let absent : lookup q level.next ≡ none → (i : ℕ) → i / 2 ≡ q → lookup i current ≡ none =
        λ missing i half. elim (Option-cases (lookup i current)) [
          | inl none_there ↦ none_there
          | inr (v, found) ↦
              let held = all i (lookup-contains i v current found) in
              absurd
                (none-ne-some _ (sym missing ∙ sym (ap (λ j. lookup j level.next) half) ∙ held))
        ] in
      elim (only q) [
        | inr held ↦ rw held refl
        | inl missing ↦
            rw
              (
                missing,
                absent missing (q * 2) (omega arith),
                absent missing (q * 2 + 1) (omega arith),
              )
              (sym (default_hashes-step d small))
      ]

-- A dictionary of words: every leaf, given or not, has 32 bits.
abbrev pub HasWords : Dict MerkleValue → Type 0
HasWords leaves = (i : ℕ) → IsU32 (value_at leaf_depth leaves i).value

tree_value-suc :
    (leaves : Dict MerkleValue) (h i : ℕ)
    → matrix_hash (tree_value leaves h (i * 2)) (tree_value leaves h (i * 2 + 1))
      ≡ tree_value leaves (suc h) i
unfolding tree_value
tree_value-suc leaves h i = refl

-- So has a dictionary whose values are words.
pub HasWords-of :
    (leaves : Dict MerkleValue) → All (λ leaf. IsU32 leaf.1.value) leaves → HasWords leaves
unfolding lookup
HasWords-of [] h i = omega arith
HasWords-of ((k, v) ∷ leaves) h i =
    let rest = HasWords-of leaves h.1 i in
    elim (Bool-cases (k == i)) [ inl e ↦ rw e h.0 | inr e ↦ rw e rest ]

module _ (f : M31) (leaves : Dict MerkleValue) (leaf_words : HasWords leaves) where
  tree_value-IsU32 : (h i : ℕ) → IsU32 (tree_value leaves h i)
  unfolding tree_value
  tree_value-IsU32 zero i = leaf_words i
  tree_value-IsU32 (suc h) i =
      let hash =
        traced-hash f [] (tree_value leaves h (i * 2)) (tree_value leaves h (i * 2 + 1))
          (tree_value-IsU32 h (i * 2)) (tree_value-IsU32 h (i * 2 + 1)) in
      let below = hash.1 in omega (arith, below)

  -- The values of a level are those of the full tree.
  abbrev IsAt : ℕ → Dict MerkleValue → Type 0
  IsAt d current = (i : ℕ) → (value_at d current i).value ≡ tree_value leaves (leaf_depth - d) i

  -- What the loop over the depths returns, if a leaf is given.
  abbrev Builds : Dict MerkleValue → List NodeData → Type 0
  Builds current nodes =
      ((v : MerkleValue) × ((lookup 0 current ≡ some v)
          × (v.value ≡ tree_value leaves leaf_depth 0)))
      × All (IsNode leaves) nodes

  build_levels-Builds :
      (d : ℕ) (current : Dict MerkleValue) (nodes : List NodeData) (table : List Poseidon2Row)
      (k : ℕ) (v : MerkleValue)
      → d ≤ 30
      → IsAt d current
      → All (IsNode leaves) nodes
      → k < 2 ^ d
      → lookup k current ≡ some v
      → let (current', nodes', _) = build_levels f d current nodes table in Builds current' nodes'
  unfolding build_levels lookup
  build_levels-Builds zero current nodes table k v within at all small found =
      let e : k ≡ 0 = omega (arith, small) in
      let found' = rw e at found in ((v, (found', rw found' at (at 0))), all)
  build_levels-Builds (suc d) current nodes table k v within at all small found =
      let words : (i : ℕ) → IsU32 (value_at (suc d) current i).value =
        λ i. rw (at i) (tree_value-IsU32 (leaf_depth - suc d) i) in
      let is_node : (q : ℕ) → IsNode leaves (node_of f (suc d) current words q) = λ q. record {
        above = omega arith;
        within = within;
        even = omega arith;
        left_value = at (q * 2);
        right_value = at (q * 2 + 1);
        cur_value = refl;
        once = refl;
      } in
      let start : Level = record { nodes = nodes; next = []; processed = []; table = table } in
      let level = for_each (keys current) (visit f (suc d) current) start in
      let visited =
        visits f (suc d) current words (IsNode leaves) is_node (keys current) start
          (record { only = λ q. inl refl; done = λ i c. absurd (ground arith); nodes = all }) in
      let step : leaf_depth - d ≡ suc (leaf_depth - suc d) = omega (arith, within) in
      let at_next : IsAt d level.next = λ q.
        next_value f d (omega (arith, within)) current words (IsNode leaves) is_node level
          visited.level_ok.only visited.all q
        ∙ ap (λ x. matrix_hash x (value_at (suc d) current (q * 2 + 1)).value) (at (q * 2))
        ∙ ap (λ x. matrix_hash (tree_value leaves (leaf_depth - suc d) (q * 2)) x) (at (q * 2 + 1))
        ∙ tree_value-suc leaves (leaf_depth - suc d) q
        ∙ sym (ap (λ h. tree_value leaves h q) step) in
      build_levels-Builds d level.next level.nodes level.table (k / 2)
        (parent f (suc d) current words (k / 2)) (omega (arith, within)) at_next
        visited.level_ok.nodes (omega (arith, small, pow-succ' 2 d))
        (visited.all k (lookup-contains k v current found))

  -- The tree over no leaves has the default hashes.
  no_leaves : (h i : ℕ) → h ≤ 30 → tree_value [] h i ≡ get_or default_hashes (leaf_depth - h) 0
  unfolding tree_value lookup
  no_leaves zero i small = refl
  no_leaves (suc h) i small =
      let step : leaf_depth - h ≡ suc (leaf_depth - suc h) = omega (arith, small) in
      let here = default_hashes-step (leaf_depth - suc h) (omega (arith, small)) in
      ap (λ x. matrix_hash x (tree_value [] h (i * 2 + 1)))
        (no_leaves h (i * 2) (omega (arith, small)) ∙ ap (λ z. get_or default_hashes z 0) step)
      ∙ ap (λ x. matrix_hash (get_or default_hashes (suc (leaf_depth - suc h)) 0) x)
          (no_leaves h (i * 2 + 1) (omega (arith, small))
            ∙ ap (λ z. get_or default_hashes z 0) step)
      ∙ here

tree_value-zero :
    (leaves : Dict MerkleValue) (i : ℕ)
    → (value_at leaf_depth leaves i).value ≡ tree_value leaves (leaf_depth - leaf_depth) i
unfolding tree_value
tree_value-zero leaves i = refl

lookup_first : (k : ℕ) (v : MerkleValue) (m : Dict MerkleValue) → lookup k ((k, v) ∷ m) ≡ some v
unfolding lookup
lookup_first k v m = rw (eq→== k k refl) refl

-- Every index of a leaf has 30 bits.
abbrev pub AreInTree : Dict MerkleValue → Type 0
AreInTree leaves = All (λ leaf. leaf.0 < 2 ^ leaf_depth) leaves

-- If the leaves are words at indices of 30 bits, the root is that of the full binary tree over 2 ^ 30
-- leaves, in which a leaf that is not given is 0, and every node that is returned is a left and a right
-- neighbour of one depth with the hash of the two, both with the values that they have in the full tree.
pub build_partial_merkle_tree-IsTree :
    (f : M31) (leaves : Dict MerkleValue) (table : List Poseidon2Row)
    → HasWords leaves
    → AreInTree leaves
    → let (nodes, root, _) = build_partial_merkle_tree f leaves table in
      (root ≡ tree_value leaves leaf_depth 0) × All (IsNode leaves) nodes
unfolding build_partial_merkle_tree
build_partial_merkle_tree-IsTree f [] table words within =
    (sym (no_leaves f [] words leaf_depth 0 (omega arith)), tt)
build_partial_merkle_tree-IsTree f ((k, v) ∷ leaves) table words within =
    let given = (k, v) ∷ leaves in
    let built =
      build_levels-Builds f given words leaf_depth given [] table k v (omega arith)
        (tree_value-zero given) tt within.0 (lookup_first k v leaves) in
    let (root_value, here) = built.0 in (rw here.0 here.1, built.1)
