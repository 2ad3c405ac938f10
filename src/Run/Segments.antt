-- ===== src/Run/Segments.antt =====
-- What a run yields: it ends, and its segments are chained, short enough and fully traced.
pub mod Steps
use stark_v.Base.{ℕ, suc, ◌+◌, ◌^◌, ◌≤◌, ◌<◌, ◌≡◌, refl, sym, arith, none, some, true, false, leb}
use stark_v.Base.{
  List, [], ◌∷◌, ◌++◌, All, All-append, length, wrapping_add, if_both, lookup_or, lookup-insert,
  ◌==◌, bit_of, length-append, lookup, ◌∙◌,
}
use stark_v.Decode.{DecodedInst}
use stark_v.Machine.{Machine}
use stark_v.Trace.{trace_instr_access, with_max_clock_diff}
use stark_v.Trace
use stark_v.Trace.{Tracer}
use stark_v.Trace.Counts.{count_rows, count_rows-append}
use stark_v.Execute.{execute}
use stark_v.Execute.Logs.{execute-Logs}
use stark_v.Run.{
  Run, Loop, RunResult, at_boundary, close_segment, segment_result, make_run_result, count_fetch,
  tick_and_execute, is_first,
}
use stark_v.Run.Rounds.{total, Opens, Fetches}

-- The segments lead from one pc and register file to another, each from where the one before
-- ended.
abbrev pub Chain : ℕ → List ℕ → List RunResult → ℕ → List ℕ → Type 0
Chain pc regs [] pc' regs' = (pc ≡ pc') × (regs ≡ regs')
Chain pc regs (r ∷ rs) pc' regs' =
    (r.initial_pc ≡ pc) × (r.initial_regs ≡ regs) × Chain r.final_pc r.final_regs rs pc' regs'

abbrev pub cycles_of : List RunResult → ℕ
cycles_of [] = 0
cycles_of (r ∷ rs) = r.cycles + cycles_of rs

-- How often the program table says that the word at `p` is fetched.
abbrev pub reads : ℕ → Tracer → ℕ
reads p t = lookup_or p 0 t.program_reads

-- At every pc, there are as many rows as fetches.
abbrev pub IsBalanced : Tracer → Type 0
IsBalanced t = (p : ℕ) → reads p t ≡ count_rows p t.rows

-- A segment has a row for each cycle, and no more cycles than a segment may have.
pub record IsSegment (run : Run) (r : RunResult) : Type 0 where
  pub one_row_each : length r.tracer.rows ≡ r.cycles
  pub short : (n : ℕ) → run.segment_cycles ≡ some n → r.cycles ≤ n

-- A segment that is not the last: it has all the cycles a segment may have, a row for
-- each fetch, and no outputs.
pub record IsInner (run : Run) (r : RunResult) : Type 0 where
  pub segment : IsSegment run r
  pub full : (n : ℕ) → run.segment_cycles ≡ some n → r.cycles ≡ n
  pub balanced : IsBalanced r.tracer
  pub no_output : (r.output ≡ none) × (r.output_len ≡ 0) × (r.output_words ≡ [])

module _ (r : RunResult) {p q : ℕ} {ps qs : List ℕ} (p_is : r.initial_pc ≡ p)
    (ps_is : r.initial_regs ≡ ps) (q_is : r.final_pc ≡ q) (qs_is : r.final_regs ≡ qs) where
  pub Chain-append :
      (pc : ℕ) (regs : List ℕ) (rs : List RunResult)
      → Chain pc regs rs p ps
      → Chain pc regs (rs ++ r ∷ []) q qs
  Chain-append pc regs [] h = (p_is ∙ sym h.0, ps_is ∙ sym h.1, (q_is, qs_is))
  Chain-append pc regs (x ∷ xs) h = (h.0, h.1, Chain-append x.final_pc x.final_regs xs h.2)

pub cycles_of-append :
    (rs : List RunResult) (r : RunResult) → cycles_of (rs ++ r ∷ []) ≡ cycles_of rs + r.cycles
cycles_of-append [] r = omega arith
cycles_of-append (x ∷ xs) r = omega (arith, cycles_of-append xs r)

-- What holds of the loop before every round.
pub record IsLoop (run : Run) (pc : ℕ) (regs : List ℕ) (l : Loop) : Type 0 where
  pub chain : Chain pc regs l.segments l.seg_initial_pc l.seg_initial_regs
  pub inner : All (IsInner run) l.segments
  pub counted : cycles_of l.segments ≡ l.completed_cycles
  pub one_row_each : length l.machine.tracer.rows ≡ l.machine.tracer.clock
  pub balanced : IsBalanced l.machine.tracer
  pub short : (n : ℕ) → run.segment_cycles ≡ some n → l.machine.tracer.clock ≤ n

-- After a fetch: there is room in the segment, and the row of the fetched instruction is missing.
pub record IsFetched (run : Run) (pc : ℕ) (regs : List ℕ) (f : Loop) : Type 0 where
  pub chain : Chain pc regs f.segments f.seg_initial_pc f.seg_initial_regs
  pub inner : All (IsInner run) f.segments
  pub counted : cycles_of f.segments ≡ f.completed_cycles
  pub one_row_each : length f.machine.tracer.rows ≡ f.machine.tracer.clock
  pub one_ahead :
      (p : ℕ)
      → reads p f.machine.tracer
        ≡ count_rows p f.machine.tracer.rows + bit_of (f.machine.cpu.pc == p)
  pub room : (n : ℕ) → run.segment_cycles ≡ some n → f.machine.tracer.clock < n
