-- ===== src/Tests.antt =====
-- Concrete machines, and the theorems on their parts at concrete inputs.
pub mod Running
pub mod Hashing
mod Aggregating
mod Chaining
use stark_v.Ops.Utils.{compute_lt_reg_witness, compute_lt_imm_witness}
use stark_v.Ops.Utils.Compare.{IsDigit, compute_lt_witness-IsDigit}
use stark_v.Base.{true}
use stark_v.Decode.Bounds.{IsInst}
use stark_v.Base.{
  ℕ, zero, suc, ◌-◌, ◌^◌, ◌<◌, ◌≡◌, refl, arith, some, inl, inr, List, [], ◌∷◌, Bool, true, ◌&&◌,
  Bool-cases,
}
use stark_v.Base.{get_or, lookup, lookup_or, IsU32, Dict, ◌==◌, ltb}
use mathlib.Core.Option
use stark_v.Base.{Result, Option, ap, insert}
use stark_v.Machine.{get_pc, read_reg, write_reg, advance_pc, trace_op}
use stark_v.Ops.AluImm.{addi}
use stark_v.Trace
use stark_v.Trace.{fill_gap_loop, push_gap, trace_reg_access, trace_instr_access}
use stark_v.Execute.{handler}
use stark_v.Program.{decode_program, decode_words, decode_program_word, limbs_of, limbs_values}
use stark_v.Execute.Logs.{Logs, execute-Logs}
use stark_v.Decode.Bounds.{decode-IsInst}
use stark_v.Run.{
  Run, Loop, Round, LoadedElf, RunResult, RunError, run_segments_with_input, start, round, run_loop,
  write_input, after_boundary, boundary, at_boundary, fetch_round, after_fetch, get_or_decode,
  is_self_loop, count_fetch, execute_round, tick_and_execute, finalize, close_segment,
  segment_result, make_run_result, is_first, finish,
}
use stark_v.Run.Outcome.{IsOutcome, run_segments-IsOutcome}
use stark_v.Run.Correct.{IsStep, round-IsStep}
use stark_v.Trace.Accesses.{
  Links, trace_reg_access-Links, trace_mem_access-Links, trace_reg_access-reg_clock,
  trace_mem_access-mem_clock,
}
use stark_v.Trace.{trace_mem_access}
use stark_v.Base.{◌%◌}
use stark_v.Ops.Utils.{mod_pow, m31_p}
use stark_v.Ops.Utils.Power.{mod_pow_lem}
use stark_v.Cpu
use stark_v.Cpu.{Cpu, reg, set_reg}
use stark_v.Cpu.Laws.{reg-set_reg}
use stark_v.Memory.{Memory, read_u8, read_u32, write_u32}
use stark_v.Memory.Laws.{HoldsBytes, read_u32-write_u32}
use stark_v.Decode.{
  Opcode, DecodedInst, decode, opcode_and_imm, i_type, load_type, imm_i, imm_j, is_shift_imm,
}
use stark_v.Decode.Encoding.{encode, code_of, Encodable, SameRegisters}
use stark_v.Decode.Roundtrip.{decode-encode}
use stark_v.Trace.{GapTable, Tracer, with_max_clock_diff, fill_gap}
use stark_v.Trace.Gap.{Bridges, fill_gap-Bridges}
use stark_v.Machine.{Machine}
use stark_v.Execute.{execute}
use stark_v.Execute.Isa.{step}
use stark_v.Execute.Refines.{execute-Simulates}
use stark_v.Execute.Refines.Setup.{IsMachine, Simulates, arch}
use stark_v.Execute.Preserves.{execute-IsMachine}

-- `lw x5, 8(x2)`.
abbrev load_word : DecodedInst
load_word = record { opcode = Opcode.lw; rd = 5; rs1 = 2; rs2 = 8; imm = 8 }

-- `beq x5, x6, -8`.
abbrev branch_back : DecodedInst
branch_back = record { opcode = Opcode.beq; rd = 25; rs1 = 5; rs2 = 6; imm = 2 ^ 32 - 8 }

abbrev tracer : Tracer
unfolding with_max_clock_diff
tracer = with_max_clock_diff 10

abbrev registers : List ℕ
registers =
    0 ∷ 0 ∷ 0x8000 ∷ 0x9000 ∷ 0 ∷ 7 ∷ 0xfffffff9 ∷ 0 ∷ 0 ∷ 0 ∷ 0 ∷ 0 ∷ 0 ∷ 0 ∷ 0 ∷ 0 ∷ 0 ∷ 0 ∷ 0 ∷ 0
    ∷ 0 ∷ 0 ∷ 0 ∷ 0 ∷ 0 ∷ 0 ∷ 0 ∷ 0 ∷ 0 ∷ 0 ∷ 0 ∷ 0 ∷ []

abbrev cpu : Cpu
cpu = record { regs = registers; pc = 0x1000 }

abbrev memory : Memory
memory = record { bytes = (0x8008, 0xef) ∷ (0x8009, 0xbe) ∷ (0x800a, 0xad) ∷ (0x800b, 0xde) ∷ [] }

abbrev machine : Machine
machine = record { cpu = cpu; mem = memory; tracer = record tracer { clock = 35 } }

abbrev pub all_below : ℕ → List ℕ → Bool
all_below n [] = true
all_below n (x ∷ xs) = ltb x n && all_below n xs

abbrev pub values : Dict ℕ → List ℕ
values [] = []
values ((k, v) ∷ m) = v ∷ values m

pub get_or-fits : (xs : List ℕ) (n i : ℕ) → 0 < n → all_below n xs ≡ true → get_or xs i 0 < n
get_or-fits [] n i p h = p
get_or-fits (x ∷ xs) n zero p h = ground arith
get_or-fits (x ∷ xs) n (suc i) p h = get_or-fits xs n i p (ground arith)

pub lookup_or-fits :
    (m : Dict ℕ) (n k : ℕ) → 0 < n → all_below n (values m) ≡ true → lookup_or k 0 m < n
unfolding lookup
lookup_or-fits [] n k p h = p
lookup_or-fits ((j, v) ∷ m) n k p h =
    let rest = lookup_or-fits m n k p (ground arith) in
    elim (Bool-cases (j == k)) [ inl e ↦ rw e (ground arith) | inr e ↦ rw e rest ]

reg-fits : (j : ℕ) → IsU32 (reg cpu j)
unfolding reg
reg-fits j = ground (arith, get_or-fits registers (2 ^ 32) j (omega arith) refl)

memory-HoldsBytes : HoldsBytes memory
unfolding read_u8
memory-HoldsBytes a = lookup_or-fits memory.bytes 256 a (omega arith) refl

machine-IsMachine : IsMachine machine
machine-IsMachine = record {
  regs_length = refl;
  regs_fit = reg-fits;
  pc_fits = omega arith;
  bytes_fit = memory-HoldsBytes;
}

load_word-IsInst : IsInst load_word
load_word-IsInst = record {
  rd_fits = omega arith;
  rs1_fits = omega arith;
  rs2_fits = omega arith;
  imm_fits = omega arith;
}

branch_back-IsInst : IsInst branch_back
branch_back-IsInst = record {
  rd_fits = omega arith;
  rs1_fits = omega arith;
  rs2_fits = omega arith;
  imm_fits = omega arith;
}

branch_back-Encodable : Encodable branch_back
unfolding code_of
branch_back-Encodable = record {
  rd_fits = omega arith;
  rs1_fits = omega arith;
  rs2_fits = omega arith;
  imm_fits = (inr (omega arith, omega arith), refl);
}

decode-encode_example :
    (e : DecodedInst) × (decode (encode branch_back) ≡ some e)
    × (e.opcode ≡ Opcode.beq)
    × (e.imm ≡ 2 ^ 32 - 8)
    × SameRegisters (code_of Opcode.beq).format e branch_back
decode-encode_example = decode-encode branch_back branch_back-Encodable

reg-set_reg_example : reg (set_reg 5 9 cpu) 5 ≡ 9
reg-set_reg_example = reg-set_reg 5 5 9 cpu refl (omega arith)

-- The last word of the address space, which wraps round.
read_u32-write_u32_example :
    read_u32 (write_u32 (2 ^ 32 - 2) 0xdeadbeef memory) (2 ^ 32 - 2) ≡ 0xdeadbeef
read_u32-write_u32_example =
    read_u32-write_u32 memory (2 ^ 32 - 2) 0xdeadbeef memory-HoldsBytes (omega arith) (omega arith)

-- Three rows of 10 bridge a gap of 35.
fill_gap-Bridges_example :
    Bridges GapTable.mem 0x8008 7 0 35 tracer (fill_gap GapTable.mem 0x8008 7 0 35 tracer)
unfolding with_max_clock_diff
fill_gap-Bridges_example =
    fill_gap-Bridges GapTable.mem 0x8008 7 0 35 tracer (omega arith) (omega arith)

execute-Simulates_example : Simulates (execute load_word machine).1 (step load_word (arch machine))
unfolding reg
execute-Simulates_example =
    execute-Simulates load_word machine load_word-IsInst machine-IsMachine refl

execute-Logs_example : Logs machine (execute load_word machine).1
execute-Logs_example = execute-Logs load_word machine

load_word-decoded : decode 0x00812283 ≡ some load_word
unfolding decode opcode_and_imm load_type imm_i
load_word-decoded = refl

decode-IsInst_example : IsInst load_word
decode-IsInst_example = decode-IsInst 0x00812283 load_word (omega arith) load_word-decoded

-- A tracer that bridges gaps of more than 10, at clock 35.
abbrev late : Tracer
late = machine.tracer

trace_reg_access-Links_example :
    Links GapTable.reg 0 late (trace_reg_access late 5 7 8).0 (trace_reg_access late 5 7 8).1
unfolding with_max_clock_diff
trace_reg_access-Links_example =
    trace_reg_access-Links late (omega arith) (omega arith) 5 7 8 (omega arith)

trace_mem_access-Links_example :
    Links GapTable.mem 0 late
      (trace_mem_access late 0x200a 7 8).0
      (trace_mem_access late 0x200a 7 8).1
unfolding with_max_clock_diff lookup
trace_mem_access-Links_example =
    trace_mem_access-Links late (omega arith) (omega arith) 0x200a 7 8 (omega arith)

trace_reg_access-reg_clock_example : get_or (trace_reg_access late 5 7 8).1.reg_clock 5 0 ≡ 35
unfolding with_max_clock_diff
trace_reg_access-reg_clock_example =
    trace_reg_access-reg_clock late (omega arith) (omega arith) 5 7 8 5

trace_mem_access-mem_clock_example :
    lookup_or 0x2008 0 (trace_mem_access late 0x200a 7 8).1.mem_clock ≡ 35
unfolding with_max_clock_diff
trace_mem_access-mem_clock_example =
    trace_mem_access-mem_clock late (omega arith) (omega arith) 0x200a 7 8 0x2008

mod_pow_lem_example : mod_pow 3 100 m31_p ≡ 3 ^ 100 % m31_p
mod_pow_lem_example = mod_pow_lem 3 100 m31_p (omega arith) (omega arith) (omega arith)

-- 5 against -7.
compute_lt_witness-IsDigit_example :
    IsDigit (compute_lt_reg_witness 5 0xfffffff9 true).diff_val
    × IsDigit (compute_lt_imm_witness 5 0xfffffff9 true).diff_val
compute_lt_witness-IsDigit_example =
    compute_lt_witness-IsDigit 5 0xfffffff9 true (omega arith) (omega arith) (λ e. ground arith)
