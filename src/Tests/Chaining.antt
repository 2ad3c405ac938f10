-- ===== src/Tests/Chaining.antt =====
-- Two segments that meet: a store in the second one.
use stark_v.Base.{
  ℕ, ◌≡◌, refl, arith, inl, List, [], ◌∷◌, true, false, replicate, lookup, some, set, ◌||◌, ◌&&◌,
  not, ltb, insert,
}
use stark_v.Memory.{Memory, read_u8, read_u32}
use stark_v.Cpu.{reg}
use stark_v.Decode.{Opcode, DecodedInst}
use stark_v.Trace
use stark_v.Machine.{Machine}
use stark_v.Execute.{execute}
use stark_v.Commitment.{
  MemoryLayout, SegmentRole, is_rw_addr, is_input_addr, rw_addrs, insert_rw_addrs,
  collect_memory_commitment, build_partial_merkle_tree, collect_entry, entry_of, insert_word_leaves,
}
use stark_v.Commitment.Chain.{Goes, Fits, final_root-initial_root}
use stark_v.Tests.Hashing.{remainders}

abbrev layout : MemoryLayout
layout = record {
  program_base = 0x1000;
  program_end = 0x2000;
  data_base = 0x3000;
  data_end = 0x4000;
  stack_bottom = 0x5000;
  stack_top = 0x6000;
  io_base = 0x7000;
  io_end = 0x8000;
  input_base = 0x7000;
  input_end = 0x7004;
  output_len_addr = 0x7100;
  output_data_addr = 0x7104;
  output_base = 0x7100;
  output_end = 0x7200;
}

layout_lem :
    (j : ℕ)
    → is_rw_addr layout j ≡ (
        not (ltb j 0x3000) && ltb j 0x4000
        || not (ltb j 0x5000) && ltb j 0x6000
        || not (ltb j 0x7000) && ltb j 0x8000)
unfolding is_rw_addr
layout_lem j = refl

layout-Fits : (m : Memory) → Fits layout m
layout-Fits m = record {
  below = λ j h. ground (arith, layout_lem j);
  whole = λ i j same h held. ground (arith, layout_lem i, layout_lem j);
}

abbrev registers : List ℕ
registers = set (set (replicate 32 0) 1 0x3010) 2 77

abbrev started : Machine
started = record {
  cpu = record { regs = registers; pc = 0x1004 };
  mem = record { bytes = (0x3010, 5) ∷ (0x5ffc, 9) ∷ [] };
  tracer = Trace.default;
}

-- `sw x2, 4(x1)`.
abbrev store_word : DecodedInst
store_word = record { opcode = Opcode.sw; rd = 0; rs1 = 1; rs2 = 2; imm = 4 }

abbrev first : SegmentRole
first = record { is_first = true; is_last = false }

abbrev last : SegmentRole
last = record { is_first = false; is_last = true }

abbrev ended : Machine
ended = (execute store_word started).1

final_root-initial_root_example :
    (build_partial_merkle_tree remainders
      (collect_memory_commitment Trace.default started.mem layout first).rw_final_leaves
      []).1
    ≡ (build_partial_merkle_tree remainders
        (collect_memory_commitment ended.tracer ended.mem layout last).rw_initial_leaves
        []).1
unfolding rw_addrs insert_rw_addrs is_rw_addr is_input_addr Trace.default Trace.with_max_clock_diff
    insert reg
final_root-initial_root_example =
    final_root-initial_root remainders layout Trace.default started ended first last [] []
      (layout-Fits started.mem) refl (inl refl, (inl refl, tt)) refl refl
      (Goes.executes started store_word refl Goes.stays)

-- The input word that the first segment has not accessed.
abbrev unread : Memory
unread = record { bytes = (0x7000, 5) ∷ [] }

-- It is no leaf of the final root of the first segment, but four leaves of the initial root of the next.
unread_final : (collect_memory_commitment Trace.default unread layout first).rw_final_leaves ≡ []
unfolding collect_memory_commitment rw_addrs insert_rw_addrs is_rw_addr is_input_addr Trace.default
    Trace.with_max_clock_diff insert entry_of collect_entry lookup
unread_final = refl

unread_initial :
    lookup 0x7000 (collect_memory_commitment Trace.default unread layout last).rw_initial_leaves
    ≡ some (record { value = 5; multiplicity = 1 })
unfolding collect_memory_commitment rw_addrs insert_rw_addrs is_rw_addr is_input_addr Trace.default
    Trace.with_max_clock_diff insert entry_of collect_entry lookup insert_word_leaves read_u32
    read_u8
unread_initial = refl
