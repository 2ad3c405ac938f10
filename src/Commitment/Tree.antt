-- ===== src/Commitment/Tree.antt =====
-- `build_partial_merkle_tree` of crates/runner/src/commitment.rs: level by level, from the leaves
-- up, the nodes above a leaf. A node that is not above one has the default hash of its depth.
use stark_v.Base.{
  ℕ, zero, suc, ◌%◌, Bool, false, ◌||◌, ◌==◌, if◌then◌else◌, List, [], ◌∷◌, ◌++◌, map, get_or,
  for_each, Dict, lookup_or, insert, bit_xor, shr,
}
use stark_v.Poseidon2.{M31, Poseidon2Row, poseidon2_traced, default_hashes}

pub record MerkleValue : Type 0 where
  pub value : ℕ
  pub multiplicity : ℕ

pub record NodeData : Type 0 where
  pub index : ℕ
  pub depth : ℕ
  pub left : MerkleValue
  pub right : MerkleValue
  pub cur : MerkleValue

-- The depth of the leaves, `MAX_TREE_HEIGHT - 1`.
abbrev pub leaf_depth : ℕ
leaf_depth = 30

-- What the loop over a level changes. `processed` is a set.
pub record Level : Type 0 where
  pub nodes : List NodeData
  pub next : Dict MerkleValue
  pub processed : List ℕ
  pub table : List Poseidon2Row

abbrev pub contains : ℕ → List ℕ → Bool
contains x [] = false
contains x (y ∷ ys) = y == x || contains x ys

abbrev pub keys {ℓ} : {V : Type ℓ} → Dict V → List ℕ
keys m = map (λ entry. entry.0) m

-- The value at an index of a level.
abbrev pub value_at : ℕ → Dict MerkleValue → ℕ → MerkleValue
value_at depth current index =
    lookup_or index (record { value = get_or default_hashes depth 0; multiplicity = 0 }) current

-- `sibling_index` and the order of the pair.
unfoldable pub left_of : ℕ → ℕ
left_of index = if index % 2 == 0 then index else bit_xor index 1

unfoldable pub right_of : ℕ → ℕ
right_of index = if index % 2 == 0 then bit_xor index 1 else index

module _ (f : M31) where
  -- The rest of the loop's body, for an index that is not yet processed.
  unfoldable pub hash_pair : ℕ → Dict MerkleValue → ℕ → Level → Level
  hash_pair depth current index level =
      let left_index = left_of index in
      let right_index = right_of index in
      let left = value_at depth current left_index in
      let right = value_at depth current right_index in
      let (out, table) = poseidon2_traced f level.table left.value right.value in
      let cur : MerkleValue = record { value = get_or out 0 0; multiplicity = 1 } in
      let node : NodeData = record {
        index = left_index;
        depth = depth;
        left = left;
        right = right;
        cur = cur;
      } in
      record {
        nodes = level.nodes ++ node ∷ [];
        next = insert (shr left_index 1) cur level.next;
        processed = right_index ∷ left_index ∷ level.processed;
        table = table;
      }

  unfoldable pub visit : ℕ → Dict MerkleValue → ℕ → Level → Level
  visit depth current index level =
      let hashed = hash_pair depth current index level in
      if contains index level.processed then level else hashed

  -- The loop over the depths, down from `depth`.
  unfoldable pub build_levels :
      ℕ
      → Dict MerkleValue
      → List NodeData
      → List Poseidon2Row
      → Dict MerkleValue × List NodeData × List Poseidon2Row
  build_levels zero current nodes table = (current, nodes, table)
  build_levels (suc d) current nodes table =
      let start : Level = record { nodes = nodes; next = []; processed = []; table = table } in
      let level = for_each (keys current) (visit (suc d) current) start in
      build_levels d level.next level.nodes level.table

  unfoldable pub build_partial_merkle_tree :
      Dict MerkleValue → List Poseidon2Row → List NodeData × ℕ × List Poseidon2Row
  build_partial_merkle_tree [] table = ([], get_or default_hashes 0 0, table)
  build_partial_merkle_tree (leaf ∷ leaves) table =
      let (current, nodes, table) = build_levels leaf_depth (leaf ∷ leaves) [] table in
      let none_at : MerkleValue = record { value = 0; multiplicity = 0 } in
      let root = lookup_or 0 none_at current in (nodes, root.value, table)
