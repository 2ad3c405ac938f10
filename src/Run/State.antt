-- ===== src/Run/State.antt =====
-- The data of a run: its errors, the addresses of its regions, the segments it yields and the
-- state of its loop, crates/runner/src/lib.rs and elf.rs. An ELF error is not one of these, since
-- loading the file is left to the caller.
use stark_v.Base.{ℕ, List, Option, Dict, Result}
use stark_v.Decode.{DecodedInst}
use stark_v.Memory.{Memory}
use stark_v.Trace.{Tracer}
use stark_v.Machine.{Machine}
use stark_v.Program.{CommitmentError}

-- What `load_elf` returns.
pub record LoadedElf : Type 0 where
  pub entry : ℕ
  pub sp : ℕ
  pub gp : ℕ
  pub memory : Memory
  pub text_base : ℕ
  pub text_end : ℕ
  pub data_base : ℕ
  pub data_end : ℕ
  pub stack_bottom : ℕ
  pub halt_flag_addr : ℕ
  pub output_len_addr : ℕ
  pub output_data_addr : ℕ
  pub output_end_addr : ℕ
  pub input_start_addr : ℕ
  pub input_end_addr : ℕ

-- `InvalidInstruction` has the pc, `MaxCyclesExceeded` the cycles and the limit, `InputTooLarge`
-- the length and the capacity.
pub data RunError : Type 0 where
  invalid_instruction : ℕ → RunError
  max_cycles_exceeded input_too_large : ℕ → ℕ → RunError
  commitment : CommitmentError → RunError

pub record IoWord : Type 0 where
  pub addr : ℕ
  pub value : ℕ

pub record RunResult : Type 0 where
  pub cycles : ℕ
  pub initial_pc : ℕ
  pub final_pc : ℕ
  pub initial_regs : List ℕ
  pub final_regs : List ℕ
  pub output : Option (List ℕ)
  pub input : List ℕ
  pub input_start : ℕ
  pub input_end : ℕ
  pub output_len : ℕ
  pub output_len_addr : ℕ
  pub output_data_addr : ℕ
  pub output_end_addr : ℕ
  pub output_words : List IoWord
  pub tracer : Tracer

-- What stays the same during a run: the loaded file, the input, and the limits.
pub record Run : Type 0 where
  pub loaded : LoadedElf
  pub input : List ℕ
  pub segment_cycles : Option ℕ
  pub max_cycles : ℕ

-- The variables of the loop. The segments are in the order in which they are pushed.
pub record Loop : Type 0 where
  pub machine : Machine
  pub cache : Dict DecodedInst
  pub segments : List RunResult
  pub completed_cycles : ℕ
  pub seg_initial_pc : ℕ
  pub seg_initial_regs : List ℕ

-- How a call of `run_segments_with_input` ends: it panics, it is still running when the fuel is
-- out, or it returns.
pub data Ending : Type 0 where
  panics : Ending
  unfinished : Ending
  returns : Result RunError (List RunResult) → Ending
