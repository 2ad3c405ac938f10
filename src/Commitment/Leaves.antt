-- ===== src/Commitment/Leaves.antt =====
-- The leaves of the trees: `MemoryCommitmentEntry`, `collect_program_leaves` and
-- `collect_memory_commitment` of crates/runner/src/commitment.rs.
use stark_v.Base.{
  ℕ, Bool, true, not, ◌&&◌, ltb, if◌then◌else◌, List, [], ◌∷◌, ◌++◌, get_or, for_each, Dict,
  lookup_or, insert, clear_low, wrapping_add, byte_of,
}
use stark_v.Memory.{Memory, read_u32}
use stark_v.Trace.{Tracer}
use stark_v.Program.{ProgramRow}
use stark_v.Commitment.Layout.{MemoryLayout, is_input_addr, is_public_output_addr, is_rw_addr}
use stark_v.Commitment.Tree.{MerkleValue, keys}

-- Where a segment stands in a run.
pub record SegmentRole : Type 0 where
  pub is_first : Bool
  pub is_last : Bool

abbrev pub single : SegmentRole
single = record { is_first = true; is_last = true }

pub record MemoryCommitmentEntry : Type 0 where
  pub addr : ℕ
  pub initial_word : ℕ
  pub final_word : ℕ
  pub final_clock : ℕ
  pub include_initial : Bool
  pub include_final : Bool

-- `to_le_bytes` of a word.
abbrev pub le_bytes : ℕ → List ℕ
le_bytes word = byte_of word 0 ∷ byte_of word 1 ∷ byte_of word 2 ∷ byte_of word 3 ∷ []

unfoldable pub initial_bytes : MemoryCommitmentEntry → List ℕ
initial_bytes entry = le_bytes entry.initial_word

unfoldable pub final_bytes : MemoryCommitmentEntry → List ℕ
final_bytes entry = le_bytes entry.final_word

unfoldable pub insert_word_leaves : Dict MerkleValue → ℕ → ℕ → Dict MerkleValue
insert_word_leaves leaves addr word =
    for_each (0 ∷ 1 ∷ 2 ∷ 3 ∷ [])
      (λ limb leaves.
        insert (wrapping_add addr limb)
          (record { value = get_or (le_bytes word) limb 0; multiplicity = 1 }) leaves)
      leaves

-- The body of the loop over the rows.
unfoldable pub insert_row_leaves : ProgramRow → Dict MerkleValue → Dict MerkleValue
insert_row_leaves row leaves =
    for_each (0 ∷ 1 ∷ 2 ∷ 3 ∷ [])
      (λ limb leaves.
        insert (wrapping_add row.addr limb)
          (record { value = get_or row.values limb 0; multiplicity = 1 }) leaves)
      leaves

unfoldable pub collect_program_leaves : List ProgramRow → Dict MerkleValue
collect_program_leaves program_rows = for_each program_rows insert_row_leaves []

-- What `collect_memory_commitment` returns.
pub record Collected : Type 0 where
  pub entries : List MemoryCommitmentEntry
  pub rw_initial_leaves : Dict MerkleValue
  pub rw_final_leaves : Dict MerkleValue

-- `mem_addrs.insert(addr & !3)` for each read-write address of a list, the set being the keys.
unfoldable pub insert_rw_addrs : MemoryLayout → List ℕ → Dict {0} Unit → Dict {0} Unit
insert_rw_addrs layout addrs mem_addrs =
    for_each addrs
      (λ addr set. if is_rw_addr layout addr then insert (clear_low addr 2) tt set else set)
      mem_addrs

unfoldable pub rw_addrs : Tracer → Memory → MemoryLayout → List ℕ
rw_addrs tracer memory layout =
    keys (
      insert_rw_addrs layout (keys tracer.mem_clock)
        (insert_rw_addrs layout (keys memory.bytes) []))

-- The entry that the loop makes of an address.
unfoldable pub entry_of : Tracer → Memory → MemoryLayout → SegmentRole → ℕ → MemoryCommitmentEntry
entry_of tracer memory layout role addr =
    let output_len = read_u32 memory layout.output_len_addr in
    let is_input = role.is_first && is_input_addr layout addr in
    let is_public_output = role.is_last && is_public_output_addr layout addr output_len in
    let final_clock = lookup_or addr 0 tracer.mem_clock in
    let accessed = ltb 0 final_clock in
    let final_word = read_u32 memory addr in
    record {
      addr = addr;
      initial_word = lookup_or addr final_word tracer.mem_initial;
      final_word = final_word;
      final_clock = final_clock;
      include_initial = not is_input;
      include_final = if is_input then accessed else not is_public_output;
    }

unfoldable pub collect_entry : MemoryCommitmentEntry → Collected → Collected
collect_entry entry c = record {
  entries = c.entries ++ entry ∷ [];
  rw_initial_leaves =
      if entry.include_initial
      then insert_word_leaves c.rw_initial_leaves entry.addr entry.initial_word
      else c.rw_initial_leaves;
  rw_final_leaves =
      if entry.include_final
      then insert_word_leaves c.rw_final_leaves entry.addr entry.final_word
      else c.rw_final_leaves;
}

unfoldable pub collect_memory_commitment : Tracer → Memory → MemoryLayout → SegmentRole → Collected
collect_memory_commitment tracer memory layout role =
    for_each (rw_addrs tracer memory layout)
      (λ addr c. collect_entry (entry_of tracer memory layout role addr) c)
      (record { entries = []; rw_initial_leaves = []; rw_final_leaves = [] })
