-- ===== src/Tests/Aggregating.antt =====
-- The tree over segments on sequences of up to four segments.
use stark_v.Base.{ℕ, [], ◌∷◌, some, ◌≡◌, refl}
use stark_v.Base.{Result, ◌==◌, if◌then◌else◌}
use stark_v.Base.{Bool, true, false, none}
use stark_v.Commitment.{MemoryCommitmentEntry, push_memory_rows}
use stark_v.Aggregation.Roots.{find_roots, find_roots-push_memory_rows}
use stark_v.Aggregation.{
  IoEntries, Mismatch, VerificationError, Proof, SegmentNode, of_segment, verify_segments,
  aggregate_segments, aggregate_with_recursion, fold_verified, fold_levels, pair_up, chain_pair,
  chain, verify_each, check_chain, check_windows, check_pair, regs_eq, root_eq, shifted,
}
use stark_v.Aggregation.Accepts.{
  Agree, Verified, aggregate_segments-Agree, aggregate_with_recursion-Verified,
}

abbrev no_io : IoEntries
no_io = record {
  input_start = 0;
  input_len = 0;
  input_words = [];
  output_len = 0;
  output_len_addr = 0;
  output_data_addr = 0;
  output_words = [];
}

-- A segment from one pc to another.
abbrev segment : ℕ → ℕ → Proof ℕ
segment from to = record {
  public_data = record {
    initial_pc = from;
    final_pc = to;
    clock = 1;
    initial_regs = from ∷ [];
    final_regs = to ∷ [];
    reg_last_clock = 0 ∷ [];
    program_root = some 42;
    initial_rw_root = some from;
    final_rw_root = some to;
    io_entries = no_io;
  };
  rest = 7;
}

-- A verifier that accepts the proofs of `segment`.
abbrev accepts : Proof ℕ → Result (VerificationError ℕ) Unit
accepts proof =
    if proof.rest == 7 then Result.ok tt else Result.err (VerificationError.stwo proof.rest)

abbrev accepts_node : SegmentNode ℕ → Proof ℕ → Result (VerificationError ℕ) Unit
accepts_node node proof = accepts proof

abbrev node_from : ℕ → ℕ → Proof ℕ × SegmentNode ℕ
node_from from to = (
  segment from to,
  record { boundary = of_segment ((segment from to).public_data); recursion_proof = 0 },
)

-- A leaf that states another exit than its proof has.
abbrev forged : Proof ℕ × SegmentNode ℕ
forged = (
  segment 4 8,
  record { boundary = of_segment ((segment 4 100).public_data); recursion_proof = 0 },
)

aggregate_segments-Agree_example :
    Agree
      (of_segment ((segment 0 4).public_data))
      (of_segment ((segment 4 8).public_data) ∷ of_segment ((segment 8 12).public_data) ∷ [])
      (verify_segments accepts (segment 0 4 ∷ segment 4 8 ∷ segment 8 12 ∷ []))
      (aggregate_segments accepts (segment 0 4 ∷ segment 4 8 ∷ segment 8 12 ∷ []))
aggregate_segments-Agree_example =
    aggregate_segments-Agree accepts (segment 0 4) (segment 4 8 ∷ segment 8 12 ∷ [])

aggregate_with_recursion-Verified_example :
    Verified
      ((node_from 0 4).1).boundary
      ((forged.1).boundary ∷ [])
      (verify_each (λ leaf. accepts_node leaf.1 leaf.0) (node_from 0 4 ∷ forged ∷ []))
      (aggregate_with_recursion accepts_node (node_from 0 4 ∷ forged ∷ []))
aggregate_with_recursion-Verified_example =
    aggregate_with_recursion-Verified accepts_node (node_from 0 4) (forged ∷ [])

-- A gap between the segments 1 and 2 is said to be between 0 and 2.
gap_at_two :
    aggregate_segments accepts (segment 0 4 ∷ segment 4 8 ∷ segment 9 12 ∷ segment 12 16 ∷ [])
    ≡ some (Result.err (VerificationError.segment_chain_mismatch 0 2 Mismatch.pc))
unfolding aggregate_segments fold_verified fold_levels pair_up chain_pair chain verify_each regs_eq
    root_eq of_segment shifted
gap_at_two = refl

-- The pairwise checks name them.
gap_named :
    verify_segments accepts (segment 0 4 ∷ segment 4 8 ∷ segment 9 12 ∷ segment 12 16 ∷ [])
    ≡ Result.err (VerificationError.segment_chain_mismatch 1 2 Mismatch.pc)
unfolding verify_segments check_chain check_windows check_pair regs_eq root_eq
gap_named = refl

-- The exit of the root is the one that the forged leaf states.
forged_exit :
    aggregate_with_recursion accepts_node (node_from 0 4 ∷ forged ∷ [])
    ≡ some (Result.ok (of_segment ((segment 0 100).public_data)))
unfolding aggregate_with_recursion fold_verified fold_levels pair_up chain_pair chain verify_each
    regs_eq root_eq of_segment
forged_exit = refl

abbrev entry_at : ℕ → Bool → MemoryCommitmentEntry
entry_at addr include_initial = record {
  addr = addr;
  initial_word = 1;
  final_word = 2;
  final_clock = 3;
  include_initial = include_initial;
  include_final = true;
}

find_roots-push_memory_rows_example :
    find_roots none none (push_memory_rows [] (entry_at 0 false ∷ entry_at 4 true ∷ []) 5 6)
    ≡ (some 5, some 6)
find_roots-push_memory_rows_example =
    find_roots-push_memory_rows (entry_at 0 false ∷ entry_at 4 true ∷ []) 5 6
