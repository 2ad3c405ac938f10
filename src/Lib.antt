-- ===== src/Lib.antt =====
-- The RV32IM zkVM runner of stark-v: decoding, executing and tracing a guest program.
--
-- The program. `run_segments_with_input` (crates/runner/src/lib.rs) loads an ELF file and then
-- fetches, decodes, and executes one instruction at a time. The decoder is
-- crates/air/src/decode.rs. The state is a `Cpu` (crates/runner/src/cpu.rs), a sparse byte
-- `Memory` (crates/runner/src/memory.rs) and a `Tracer` (crates/air/src/trace.rs with the struct
-- generated by crates/stwo-macros/src/trace_tables.rs). `execute` (crates/runner/src/execute.rs)
-- dispatches to a handler of crates/runner/src/ops, which reads and writes registers and memory
-- through traced accesses and pushes one row on the table of its family. The prover, the
-- recursion layer and the SDK consume those tables.
--
-- The files.
--   Base: words, tests, arrays, association lists and bit operations that all parts share.
--   Decode: `DecodedInst::decode`; the encoding of the ISA manual (Encoding), and its round trip.
--   Trace: the access log, `fill_gap` and the clocks of registers and of memory words.
--   Cpu, Memory: the register file and the memory without their traced accesses.
--   Machine: the three states together, and the traced accesses, in a state monad.
--   Ops: one function for each handler, in the file of its source, and the witness helpers
--     (Utils), with the power modulo a prime (Power) and the comparisons (Compare).
--   Execute: the dispatch; an independent description of RV32IM (Isa), and the proofs that the
--     handlers implement it (Refines) and keep the values within their types (Preserves).
--   Program: the words of the program region as four limbs.
--   Run: `run_segments_with_input` on a loaded file, one function for each part of a round; the
--     rounds as a relation (Rounds), what a run returns (Segments, Outcome), its rounds as steps
--     of the ISA (Correct), and the rounds on which it stops (Halting). The assertion on the length
--     of a segment is a panic of the model, and too little fuel another outcome (State.Ending).
--   Poseidon2: the permutation and its felt functions over the field of 2 ^ 31 - 1 elements
--     (crates/air/src/poseidon2.rs), the same as a product of matrices and fifth powers (Matrix),
--     and the hash of a pair (Hash).
--   Commitment: what closing a segment commits to (crates/runner/src/commitment.rs): the layout of
--     the memory (Layout), the leaves (Leaves), the partial Merkle tree (Tree), and the rows of the
--     program, memory and Merkle tables (Tables); that the tree is the full one (Root), when it
--     fails (Errors), and how consecutive segments meet (Chain).
--   Aggregation: the chaining of segment proofs (crates/prover/src/recursion/segments.rs and
--     aggregate.rs, crates/recursion/src/aggregate.rs, PublicData of
--     crates/prover/src/public_data.rs): the roots that the public data has (Roots), the checks
--     between segments, and the binary tree over their boundaries, on as much fuel as there are
--     leaves. The verification of one proof is a parameter, the text of a mismatch an
--     enumeration of what differs, and the panic on no proofs `none`.
--   Preprocessed: the lookup tables of crates/air/src/preprocessed, and that they are complete.
--   Tests: concrete runs.
--
-- Conventions. A `u8`, `u16`, `u32` or `u64` is a native number, with its wrap-around written
-- out, as without overflow checks; an `i32` is the `u32` of the same bits. `BTreeMap` and `FxHashMap` are association lists
-- in the order of their keys. The opcode tables of the tracer are one list of rows in the order
-- of execution. The `debug_assert`s are those of a release build, and so absent.
--
-- Bounds and fuel. `fill_gap_loop` has as fuel the distance to the target, which is enough as
-- each round advances by at least 1; `mod_pow_loop` has 64 rounds, one for each bit of a `u64`.
-- `collect_words` has the length of its region. `run_loop` takes its fuel from the caller: each
-- round but the last adds a cycle, and `max_cycles` bounds the cycles as long as `tracer.clock`,
-- which wraps at 2 ^ 32, does not wrap.
--
-- The field operations of the stwo crate (`M31::from`, `+`, `*`) are a parameter, `Poseidon2.M31`:
-- an element is the `u32` that it holds, and each operation is the one on numbers modulo the prime.
-- `Run.finalize` is of `Commitment.finalize_commitments_with_role` only whether it fails, which is
-- all that the loop depends on: both decode the same words.
--
-- Not modelled: ELF loading (crates/runner/src/elf.rs), whose result is a parameter; the constraints
-- of crates/air/src/schema.rs, which are generated into the prover; the columns that
-- `define_air_fns!` derives for the intermediate values of a permutation; the proofs
-- of stwo that the prover makes and verifies, the recursion circuits and the macros; the SDK and the
-- guest libraries, which are glue.
pub mod Aggregation
pub mod Base
pub mod Commitment
pub mod Cpu
pub mod Decode
pub mod Execute
pub mod Machine
pub mod Memory
pub mod Ops
pub mod Poseidon2
pub mod Preprocessed
pub mod Program
pub mod Run
pub mod Tests
pub mod Trace
