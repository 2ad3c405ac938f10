-- ===== src/Run.antt =====
-- The run loop, crates/runner/src/lib.rs. The commitment tables that closing a segment fills are
-- left out: `finalize` is its effect on what is modelled, which is to fail or not. Without
-- overflow checks, `tracer.clock += 1` wraps round.
pub mod Rounds
pub mod Segments
pub mod Outcome
pub mod Correct
pub mod Halting
mod State
mod Output
pub use State.*
unfoldable pub use Output.*
use stark_v.Base.{
  ℕ, zero, suc, ◌+◌, ◌-◌, ◌^◌, ◌≤◌, Option, none, some, List, [], ◌∷◌, ◌++◌, Bool, true, false,
}
use stark_v.Base.{not, ◌&&◌, ltb, leb, ◌==◌, if◌then◌else◌, Dict, lookup, insert}
use stark_v.Base.{Result, wrapping_add, clear_low, length}
use stark_v.Cpu.{Cpu, reg}
use stark_v.Cpu
use stark_v.Memory.{Memory, read_u32, write_u8}
use stark_v.Decode.{Opcode, DecodedInst, decode}
use stark_v.Trace.{Tracer, trace_instr_access}
use stark_v.Trace
use stark_v.Machine.{Machine}
use stark_v.Program.{CommitmentError, decode_program}
use stark_v.Execute.{execute}

unfoldable pub get_or_decode : Dict DecodedInst → Memory → ℕ → Option DecodedInst × Dict DecodedInst
get_or_decode cache mem pc = elim (lookup pc cache) [
  | some inst ↦ (some inst, cache)
  | none ↦ elim (decode (read_u32 mem pc)) [
    | none ↦ (none, cache)
    | some decoded ↦ (some decoded, insert pc decoded cache)
  ]
]

-- The `match inst.opcode` of `is_self_loop`.
unfoldable pub self_jump : Opcode → DecodedInst → Cpu → Bool
self_jump Opcode.jal inst cpu = inst.rd == 0 && inst.imm == 0
self_jump Opcode.jalr inst cpu =
    inst.rd == 0 && clear_low (wrapping_add (reg cpu inst.rs1) inst.imm) 1 == cpu.pc
self_jump _ inst cpu = false

-- The instructions that only jump to themselves.
unfoldable pub is_self_loop : DecodedInst → Cpu → Bool
is_self_loop inst cpu = self_jump inst.opcode inst cpu

-- `finalize_commitments_with_role`.
unfoldable pub finalize : Run → Memory → Option CommitmentError
finalize run mem = elim (decode_program mem run.loaded.text_base run.loaded.text_end) [
  | Result.ok rows ↦ none
  | Result.err e ↦ some e
]

unfoldable pub is_first : Loop → Bool
is_first l = elim l.segments [ [] ↦ true | _ ∷ _ ↦ false ]

-- The result of the segment that the loop is in.
unfoldable pub segment_result : Run → Loop → ℕ → RunResult
segment_result run l final_pc =
    let m = l.machine in
    let result =
      make_run_result m.tracer l.seg_initial_pc final_pc l.seg_initial_regs m.cpu.regs run m.mem in
    if is_first l then result else record result { input = [] }

-- A segment boundary: the segment that ends is pushed, without outputs, and the next one begins.
unfoldable pub close_segment : Run → Loop → Loop
close_segment run l =
    let m = l.machine in
    let result = segment_result run l m.cpu.pc in
    record l {
      machine = record m { tracer = Trace.default };
      segments =
          l.segments ++ record result { output = none; output_len = 0; output_words = [] } ∷ [];
      completed_cycles = l.completed_cycles + m.tracer.clock;
      seg_initial_pc = m.cpu.pc;
      seg_initial_regs = m.cpu.regs;
    }

unfoldable pub at_boundary : Run → Loop → Bool
at_boundary run l = elim run.segment_cycles [ none ↦ false | some n ↦ leb n l.machine.tracer.clock ]

unfoldable pub boundary : Run → Loop → Result RunError Loop
boundary run l =
    if at_boundary run l
    then elim (finalize run l.machine.mem) [
      | none ↦ Result.ok (close_segment run l)
      | some e ↦ Result.err (RunError.commitment e)
    ]
    else Result.ok l

-- How one round of the loop ends.
pub data Round : Type 0 where
  -- `break` with the final pc
  stop : ℕ → Loop → Round
  fail : RunError → Round
  again : Loop → Round

-- The fetch is cached and counted.
unfoldable pub count_fetch : Dict DecodedInst → Loop → Loop
count_fetch cache l =
    let m = l.machine in
    record l { cache = cache; machine = record m { tracer = trace_instr_access m.cpu.pc m.tracer } }

-- `tracer.clock += 1` and the call of `execute`.
unfoldable pub tick_and_execute : DecodedInst → Loop → Loop
tick_and_execute inst l =
    let m = l.machine in
    let ticked = record m {
      tracer = record (m.tracer) { clock = wrapping_add m.tracer.clock 1 };
    } in
    record l { machine = (execute inst ticked).1 }

-- From the execution of an instruction to the end of the round.
unfoldable pub execute_round : Run → DecodedInst → Loop → Round
execute_round run inst l =
    let prev_pc = l.machine.cpu.pc in
    let done = tick_and_execute inst l in
    let cycles = done.completed_cycles + done.machine.tracer.clock in
    if done.machine.cpu.pc == prev_pc
    then Round.stop prev_pc done
    else if ltb run.max_cycles cycles
    then Round.fail (RunError.max_cycles_exceeded cycles run.max_cycles)
    else Round.again done

-- From the fetched instruction to the end of the round.
unfoldable pub after_fetch : Run → Loop → Option DecodedInst × Dict DecodedInst → Round
after_fetch run l (none, cache) = Round.fail (RunError.invalid_instruction l.machine.cpu.pc)
after_fetch run l (some inst, cache) =
    let counted = count_fetch cache l in
    if is_self_loop inst l.machine.cpu
    then Round.stop l.machine.cpu.pc counted
    else execute_round run inst counted

unfoldable pub fetch_round : Run → Loop → Round
fetch_round run l = after_fetch run l (get_or_decode l.cache l.machine.mem l.machine.cpu.pc)

unfoldable pub after_boundary : Run → Result RunError Loop → Round
after_boundary run (Result.err e) = Round.fail e
after_boundary run (Result.ok l) = fetch_round run l

unfoldable pub round : Run → Loop → Round
round run l =
    if not (read_u32 l.machine.mem run.loaded.halt_flag_addr == 0)
    then Round.stop l.machine.cpu.pc l
    else after_boundary run (boundary run l)

-- After the loop.
unfoldable pub finish : Run → ℕ → Loop → Result RunError (List RunResult)
finish run final_pc l = elim (finalize run l.machine.mem) [
  | none ↦ Result.ok (l.segments ++ segment_result run l final_pc ∷ [])
  | some e ↦ Result.err (RunError.commitment e)
]

-- The loop, with fuel; `none` when it runs out.
unfoldable pub run_loop : ℕ → Run → Loop → Option (Result RunError (List RunResult))
run_loop zero run l = none
run_loop (suc fuel) run l = elim (round run l) [
  | Round.stop pc done ↦ some (finish run pc done)
  | Round.fail e ↦ some (Result.err e)
  | Round.again next ↦ run_loop fuel run next
]

-- Input bytes from index `i` on, written to the input region.
unfoldable pub write_input : ℕ → ℕ → List ℕ → Memory → Memory
write_input input_start i [] mem = mem
write_input input_start i (byte ∷ rest) mem =
    write_input input_start (suc i) rest (write_u8 (wrapping_add input_start i) byte mem)

unfoldable pub start : Run → Loop
start run =
    let elf = run.loaded in
    let cpu = Cpu.new elf.entry elf.sp elf.gp in
    record {
      machine = record {
        cpu = cpu;
        mem = write_input elf.input_start_addr 0 run.input elf.memory;
        tracer = Trace.default;
      };
      cache = [];
      segments = [];
      completed_cycles = 0;
      seg_initial_pc = cpu.pc;
      seg_initial_regs = cpu.regs;
    }

-- The condition of the assertion on the length of a segment.
unfoldable pub length_ok : Option ℕ → Bool
length_ok none = true
length_ok (some n) = ltb 0 n && ltb n (2 ^ 20)

unfoldable pub ending : Option (Result RunError (List RunResult)) → Ending
ending none = Ending.unfinished
ending (some result) = Ending.returns result

-- `run_segments_with_input` on a loaded file. The assertion comes before the file is loaded.
unfoldable pub run_segments_with_input : ℕ → Run → Ending
run_segments_with_input fuel run =
    let elf = run.loaded in
    let capacity = elf.input_end_addr - elf.input_start_addr in
    let looped = run_loop fuel run (start run) in
    if not (length_ok run.segment_cycles)
    then Ending.panics
    else if ltb capacity (length run.input)
    then Ending.returns (Result.err (RunError.input_too_large (length run.input) capacity))
    else ending looped
