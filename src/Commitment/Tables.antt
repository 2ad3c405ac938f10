-- ===== src/Commitment/Tables.antt =====
-- The rows of the program, memory and Merkle tables, with the columns that crates/air/src/schema.rs
-- commits, and the functions of crates/runner/src/commitment.rs that push them.
use stark_v.Base.{
  ℕ, ◌-◌, if◌then◌else◌, List, [], ◌∷◌, ◌++◌, for_each, Dict, lookup_or, Result, and_then,
}
use stark_v.Memory.{Memory}
use stark_v.Trace.{Tracer}
use stark_v.Ops.Utils.{m31_p}
use stark_v.Program.{ProgramRow, CommitmentError, decode_program}
use stark_v.Poseidon2.{M31, Poseidon2Row}
use stark_v.Commitment.Layout.{MemoryLayout}
use stark_v.Commitment.Tree.{NodeData, build_partial_merkle_tree}
use stark_v.Commitment.Leaves.{
  SegmentRole, MemoryCommitmentEntry, initial_bytes, final_bytes, collect_program_leaves,
  collect_memory_commitment,
}

pub record ProgramTableRow : Type 0 where
  pub addr : ℕ
  pub value : List ℕ
  pub multiplicity : ℕ
  pub root : ℕ

pub record MemoryTableRow : Type 0 where
  pub addr : ℕ
  pub clock : ℕ
  pub value : List ℕ
  pub multiplicity : ℕ
  pub root : ℕ

pub record MerkleTableRow : Type 0 where
  pub index : ℕ
  pub depth : ℕ
  pub lhs : ℕ
  pub rhs : ℕ
  pub cur : ℕ
  pub lhs_mult : ℕ
  pub rhs_mult : ℕ
  pub cur_mult : ℕ
  pub root : ℕ

-- The four tables of the tracer that closing a segment fills.
pub record Commitments : Type 0 where
  pub program : List ProgramTableRow
  pub memory : List MemoryTableRow
  pub merkle : List MerkleTableRow
  pub poseidon2 : List Poseidon2Row

-- The body of the loop of `push_memory_rows`.
unfoldable pub push_entry :
    ℕ → ℕ → MemoryCommitmentEntry → List MemoryTableRow → List MemoryTableRow
push_entry rw_initial_root rw_final_root entry table =
    let opening : MemoryTableRow = record {
      addr = entry.addr;
      clock = 0;
      value = initial_bytes entry;
      multiplicity = 1;
      root = rw_initial_root;
    } in
    let closing : MemoryTableRow = record {
      addr = entry.addr;
      clock = entry.final_clock;
      value = final_bytes entry;
      multiplicity = m31_p - 1;
      root = rw_final_root;
    } in
    let opened = if entry.include_initial then table ++ opening ∷ [] else table in
    if entry.include_final then opened ++ closing ∷ [] else opened

unfoldable pub push_memory_rows :
    List MemoryTableRow → List MemoryCommitmentEntry → ℕ → ℕ → List MemoryTableRow
push_memory_rows table entries rw_initial_root rw_final_root =
    for_each entries (push_entry rw_initial_root rw_final_root) table

unfoldable pub push_program_row :
    Dict ℕ → ℕ → ProgramRow → List ProgramTableRow → List ProgramTableRow
push_program_row program_reads program_root row table =
    table
    ++ record {
      addr = row.addr;
      value = row.values;
      multiplicity = lookup_or row.addr 0 program_reads;
      root = program_root;
    }
      ∷ []

unfoldable pub push_program_rows :
    List ProgramTableRow → List ProgramRow → Dict ℕ → ℕ → List ProgramTableRow
push_program_rows table program_rows program_reads program_root =
    for_each program_rows (push_program_row program_reads program_root) table

unfoldable pub push_merkle_node : ℕ → NodeData → List MerkleTableRow → List MerkleTableRow
push_merkle_node root node table =
    table
    ++ record {
      index = node.index;
      depth = node.depth;
      lhs = node.left.value;
      rhs = node.right.value;
      cur = node.cur.value;
      lhs_mult = node.left.multiplicity;
      rhs_mult = node.right.multiplicity;
      cur_mult = node.cur.multiplicity;
      root = root;
    }
      ∷ []

unfoldable pub push_merkle_nodes : List NodeData → ℕ → List MerkleTableRow → List MerkleTableRow
push_merkle_nodes nodes root table = for_each nodes (push_merkle_node root) table

module _ (f : M31) where
  -- `finalize_commitments_with_role` once the program is decoded.
  unfoldable pub commit :
      Tracer → Memory → MemoryLayout → SegmentRole → List ProgramRow → Commitments
  commit tracer memory layout role program_rows =
      let program_leaves = collect_program_leaves program_rows in
      let collected = collect_memory_commitment tracer memory layout role in
      let (program_nodes, program_root, hashes) = build_partial_merkle_tree f program_leaves [] in
      let (rw_initial_nodes, rw_initial_root, hashes) =
        build_partial_merkle_tree f collected.rw_initial_leaves hashes in
      let (rw_final_nodes, rw_final_root, hashes) =
        build_partial_merkle_tree f collected.rw_final_leaves hashes in
      record {
        program = push_program_rows [] program_rows tracer.program_reads program_root;
        memory = push_memory_rows [] collected.entries rw_initial_root rw_final_root;
        merkle = push_merkle_nodes program_nodes program_root (
            push_merkle_nodes rw_final_nodes rw_final_root
              (push_merkle_nodes rw_initial_nodes rw_initial_root []));
        poseidon2 = hashes;
      }

  unfoldable pub finalize_commitments_with_role :
      Tracer → Memory → MemoryLayout → SegmentRole → Result CommitmentError Commitments
  unfolding commit
  finalize_commitments_with_role tracer memory layout role =
      and_then (decode_program memory layout.program_base layout.program_end)
        (λ program_rows. Result.ok (commit tracer memory layout role program_rows))
