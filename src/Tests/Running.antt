-- ===== src/Tests/Running.antt =====
-- A run of a file with two instructions, and the theorems on runs at its states.
use stark_v.Tests.{get_or-fits, lookup_or-fits}
use stark_v.Ops.Jump.{jalr}
use stark_v.Base.{ℕ, ◌^◌, ◌≡◌, refl, arith, some, List, [], ◌∷◌}
use stark_v.Base.{lookup, lookup_or}
use stark_v.Base.{Result, insert}
use stark_v.Machine.{set_pc, get_pc, read_reg, write_reg, advance_pc, trace_op}
use stark_v.Ops.AluImm.{addi}
use stark_v.Trace
use stark_v.Trace.{fill_gap_loop, push_gap, trace_reg_access, trace_instr_access}
use stark_v.Execute.{handler}
use stark_v.Program.{decode_program, decode_words, decode_program_word, limbs_of, limbs_values}
use stark_v.Run.{
  Run, Loop, Round, LoadedElf, RunResult, run_segments_with_input, start, round, run_loop,
  write_input, after_boundary, boundary, at_boundary, fetch_round, after_fetch, get_or_decode,
  is_self_loop, self_jump, count_fetch, execute_round, tick_and_execute, finalize, close_segment,
  segment_result, make_run_result, is_first, finish, length_ok, ending, Ending,
}
use stark_v.Run.Outcome.{IsEnding, run_segments-IsOutcome}
use stark_v.Run.Correct.{IsStep, round-IsStep}
use stark_v.Trace.{trace_mem_access}
use stark_v.Cpu
use stark_v.Cpu.{Cpu, reg, set_reg}
use stark_v.Memory.{Memory, read_u8, read_u32}
use stark_v.Decode.{decode, opcode_and_imm, i_type, imm_i, imm_j, is_shift_imm}
use stark_v.Trace.{GapTable, Tracer, with_max_clock_diff, fill_gap}
use stark_v.Execute.{execute}
use stark_v.Execute.Refines.Setup.{IsMachine}

-- `addi x1, x0, 1` and the jump to itself that halts, at 0x400; the halt flag stays 0.
abbrev code : Memory
code = record {
  bytes =
      (0x400, 0x93)
      ∷ (0x401, 0)
      ∷ (0x402, 0x10)
      ∷ (0x403, 0)
      ∷ (0x404, 0x6f)
      ∷ (0x405, 0)
      ∷ (0x406, 0)
      ∷ (0x407, 0)
      ∷ [];
}

abbrev file : LoadedElf
file = record {
  entry = 0x400;
  sp = 0x8000;
  gp = 0x9000;
  memory = code;
  text_base = 0x400;
  text_end = 0x408;
  data_base = 0x2000;
  data_end = 0x3000;
  stack_bottom = 0x7000;
  halt_flag_addr = 0x1000;
  output_len_addr = 0x1004;
  output_data_addr = 0x1008;
  output_end_addr = 0x1100;
  input_start_addr = 0x1200;
  input_end_addr = 0x1300;
}

abbrev tiny : Run
tiny = record { loaded = file; input = []; segment_cycles = some 1; max_cycles = 10 }

run_segments-IsOutcome_example : IsEnding tiny (run_segments_with_input 11 tiny)
run_segments-IsOutcome_example = run_segments-IsOutcome tiny (omega arith)

-- A segment of 2 ^ 20 cycles is refused.
too_long :
    run_segments_with_input 11 (record tiny { segment_cycles = some (2 ^ 20) }) ≡ Ending.panics
unfolding run_segments_with_input length_ok
too_long = refl

-- How many segments there are, and the fetches and rows of each.
abbrev counts : List RunResult → List (ℕ × ℕ)
counts [] = []
counts (r ∷ rs) = (lookup_or 0x404 0 r.tracer.program_reads, r.cycles) ∷ counts rs

abbrev counts_of : Ending → List (ℕ × ℕ)
counts_of (Ending.returns (Result.ok rs)) = counts rs
counts_of _ = []

-- What a run of `tiny` calls.
running_code : Unit {0}
unfolding run_segments_with_input length_ok ending run_loop round read_u32 read_u8 lookup insert
    start write_input after_boundary boundary at_boundary Trace.default with_max_clock_diff
    fetch_round after_fetch get_or_decode decode opcode_and_imm i_type imm_i imm_j is_shift_imm
    count_fetch trace_instr_access is_self_loop self_jump execute_round tick_and_execute execute
    handler addi get_pc read_reg write_reg advance_pc trace_op trace_reg_access fill_gap
    fill_gap_loop push_gap reg set_reg Cpu.new Cpu.advance_pc finalize decode_program decode_words
    decode_program_word limbs_of limbs_values close_segment segment_result make_run_result is_first
    finish
running_code = tt

-- The jump that halts is fetched once, in a segment without cycles.
tiny_counts : counts_of (run_segments_with_input 11 tiny) ≡ (0, 1) ∷ (1, 0) ∷ []
unfolding running_code
tiny_counts = refl

-- The first round executes `addi x1, x0, 1`.
abbrev second : Loop
unfolding running_code
second = elim (round tiny (start tiny)) [ Round.again next ↦ next | _ ↦ start tiny ]

start-second : round tiny (start tiny) ≡ Round.again second
unfolding running_code
start-second = refl

start-IsMachine : IsMachine (start tiny).machine
unfolding start write_input reg read_u8 Cpu.new
start-IsMachine = record {
  regs_length = refl;
  regs_fit =
      λ j. ground (arith, get_or-fits (start tiny).machine.cpu.regs (2 ^ 32) j (omega arith) refl);
  pc_fits = omega arith;
  bytes_fit = λ a. lookup_or-fits code.bytes 256 a (omega arith) refl;
}

round-IsStep_example : IsStep (start tiny) second
unfolding start lookup
round-IsStep_example =
    round-IsStep tiny (start tiny) second start-IsMachine (λ pc d e. ground arith) start-second

-- The file, entered at the jump to itself.
abbrev looping : Run
looping = record tiny { loaded = record file { entry = 0x404 } }

abbrev looped : Loop
unfolding running_code
looped = elim (round looping (start looping)) [ Round.stop pc done ↦ done | _ ↦ start looping ]

-- `jalr x2, 0(x2)` at 0x400, with 0x400 in x2.
abbrev jumping : Run
jumping = record tiny {
  loaded = record file {
    sp = 0x400;
    memory = record { bytes = (0x400, 0x67) ∷ (0x401, 1) ∷ (0x402, 1) ∷ (0x403, 0) ∷ [] };
  };
}

-- The final pc, and the pc and x2 of the machine.
abbrev stopped : Round → List ℕ
unfolding running_code
stopped (Round.stop pc done) = pc ∷ done.machine.cpu.pc ∷ reg done.machine.cpu 2 ∷ []
stopped _ = []

-- The loop stops after the jump, while the next jump of the ISA would be to 0x404.
jumping_stops : stopped (round jumping (start jumping)) ≡ 0x400 ∷ 0x400 ∷ 0x404 ∷ []
unfolding running_code jalr set_pc
jumping_stops = refl
