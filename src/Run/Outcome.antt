-- ===== src/Run/Outcome.antt =====
-- A run ends, and what it returns.
use stark_v.Base.{true, false, ap, ◌&&◌}
use stark_v.Base.{ℕ, zero, suc, ◌+◌, ◌^◌, ◌≤◌, ◌<◌, ◌≡◌, refl, arith, some, ltb, Option}
use stark_v.Base.{
  List, [], ◌∷◌, ◌++◌, All, Result, none, length, ◌-◌, inl, inr, Bool-cases, Option-cases, lookup,
  ◌⊎◌, ◌==◌, bit_of,
}
use stark_v.Trace.{Tracer, with_max_clock_diff}
use stark_v.Trace.Counts.{count_rows}
use stark_v.Trace
use stark_v.Run.{
  Run, Loop, RunError, RunResult, Round, round, run_loop, finish, finalize, segment_result,
  tick_and_execute, start, run_segments_with_input, length_ok, ending, Ending,
}
use stark_v.Run.Rounds.{total, Rounds, round-Rounds}
use stark_v.Run.Segments.{
  Chain, Chain-append, cycles_of, cycles_of-append, IsSegment, IsInner, IsLoop, IsFetched,
  IsBalanced, reads,
}
use stark_v.Run.Segments.Steps.{
  segment_result-Describes, segment_result-IsSegment, Fetches-IsLoop, tick_and_execute-IsLoop,
}

-- There are as many rows as fetches at every pc, but that a fetch at the last pc can be without
-- a row.
abbrev pub EndsBalanced : ℕ → Tracer → Type 0
EndsBalanced final_pc t =
    IsBalanced t ⊎ ((p : ℕ) → reads p t ≡ count_rows p t.rows + bit_of (final_pc == p))

-- The segments of a run that succeeds: a last one after inner ones, chained from the entry.
pub record IsRun (run : Run) (pc : ℕ) (regs : List ℕ) (rs : List RunResult) : Type 0 where
  pub inner : List RunResult
  pub last : RunResult
  pub whole : rs ≡ inner ++ last ∷ []
  pub inner_ok : All (IsInner run) inner
  pub last_ok : IsSegment run last
  pub last_reads : EndsBalanced last.final_pc last.tracer
  pub chain : Chain pc regs rs last.final_pc last.final_regs
  pub bounded : cycles_of rs ≤ suc run.max_cycles

abbrev pub IsOutcome : Run → ℕ → List ℕ → Result RunError (List RunResult) → Type 0
IsOutcome run pc regs (Result.err e) = Unit
IsOutcome run pc regs (Result.ok rs) = IsRun run pc regs rs

-- What holds of the loop when it is left.
record IsEnd (run : Run) (pc : ℕ) (regs : List ℕ) (final_pc : ℕ) (l : Loop) : Type 0 where
  chain : Chain pc regs l.segments l.seg_initial_pc l.seg_initial_regs
  inner : All (IsInner run) l.segments
  counted : cycles_of l.segments ≡ l.completed_cycles
  one_row_each : length l.machine.tracer.rows ≡ l.machine.tracer.clock
  short : (n : ℕ) → run.segment_cycles ≡ some n → l.machine.tracer.clock ≤ n
  balance : EndsBalanced final_pc l.machine.tracer
  bounded : total l ≤ suc run.max_cycles

IsLoop-IsEnd :
    (run : Run) (pc : ℕ) (regs : List ℕ) (final_pc : ℕ) (l : Loop)
    → IsLoop run pc regs l
    → total l ≤ suc run.max_cycles
    → IsEnd run pc regs final_pc l
IsLoop-IsEnd run pc regs final_pc l h b = record {
  chain = h.chain;
  inner = h.inner;
  counted = h.counted;
  one_row_each = h.one_row_each;
  short = h.short;
  balance = inl h.balanced;
  bounded = b;
}

IsFetched-IsEnd :
    (run : Run) (pc : ℕ) (regs : List ℕ) (f : Loop)
    → IsFetched run pc regs f
    → total f ≤ suc run.max_cycles
    → IsEnd run pc regs f.machine.cpu.pc f
IsFetched-IsEnd run pc regs f h b = record {
  chain = h.chain;
  inner = h.inner;
  counted = h.counted;
  one_row_each = h.one_row_each;
  short = λ n e. (let r = h.room n e in omega arith);
  balance = inr h.one_ahead;
  bounded = b;
}

-- The loop returns, and with what.
abbrev Ends : Run → ℕ → List ℕ → Option (Result RunError (List RunResult)) → Type 0
Ends run pc regs o = (r : Result RunError (List RunResult)) × (o ≡ some r) × IsOutcome run pc regs r

module _ (run : Run) (pc : ℕ) (regs : List ℕ)
    (valid : (n : ℕ) → run.segment_cycles ≡ some n → 0 < n)
    (small : run.max_cycles + 1 < 2 ^ 32) where
  finish_ok :
      (final_pc : ℕ) (l : Loop)
      → finalize run l.machine.mem ≡ none
      → finish run final_pc l ≡ Result.ok (l.segments ++ segment_result run l final_pc ∷ [])
  unfolding finish
  finish_ok final_pc l f = rw (f, finish)

  finish_err :
      (final_pc : ℕ) (l : Loop) (e : _)
      → finalize run l.machine.mem ≡ some e
      → finish run final_pc l ≡ Result.err (RunError.commitment e)
  unfolding finish
  finish_err final_pc l e f = rw (f, finish)

  -- Closing the last segment.
  finish-IsOutcome :
      (final_pc : ℕ) (l : Loop)
      → IsEnd run pc regs final_pc l
      → IsOutcome run pc regs (finish run final_pc l)
  finish-IsOutcome final_pc l h = elim (Option-cases (finalize run l.machine.mem)) [
    | inr (e, f) ↦ rw (finish_err final_pc l e f) tt
    | inl f ↦
        let r = segment_result run l final_pc in
        let d = segment_result-Describes run l final_pc in
        rw (finish_ok final_pc l f) (record {
          inner = l.segments;
          last = r;
          whole = refl;
          inner_ok = h.inner;
          last_ok = segment_result-IsSegment run pc regs l final_pc h.one_row_each h.short;
          last_reads = rw (d.end_pc, d.tracer) h.balance;
          chain = Chain-append r d.initial_pc d.initial_regs refl refl pc regs l.segments h.chain;
          bounded =
              (let b = h.bounded in
                omega (arith, cycles_of-append l.segments r, d.cycles, h.counted));
        })
  ]

  -- One round, when the loop is known to end on the fuel that is left.
  after_round-Ends :
      (fuel : ℕ) (l : Loop)
      → ((next : Loop)
          → IsLoop run pc regs next
          → total next ≤ run.max_cycles
          → run.max_cycles < fuel + total next
          → Ends run pc regs (run_loop fuel run next))
      → IsLoop run pc regs l
      → total l ≤ run.max_cycles
      → run.max_cycles < suc fuel + total l
      → (r : Round) → round run l ≡ r
      → Rounds run l r
      → Ends run pc regs (run_loop (suc fuel) run l)
  unfolding run_loop
  after_round-Ends fuel l ih h within enough r e (Rounds.halted flag) = (
    finish run l.machine.cpu.pc l,
    rw (e, run_loop),
    finish-IsOutcome _ l (IsLoop-IsEnd run pc regs _ l h (omega arith)),
  )
  after_round-Ends fuel l ih h within enough r e (Rounds.failed why) =
      (Result.err why, rw (e, run_loop), tt)
  after_round-Ends fuel l ih h within enough r e (Rounds.looped inst f fetched loops) =
      let (g, same) = Fetches-IsLoop run pc regs l f inst h valid (omega arith) fetched in
      (
        finish run f.machine.cpu.pc f,
        rw (e, run_loop),
        finish-IsOutcome _ f (IsFetched-IsEnd run pc regs f g (omega arith)),
      )
  after_round-Ends fuel l ih h within enough r e (Rounds.stuck inst f fetched same_pc) =
      let (g, same) = Fetches-IsLoop run pc regs l f inst h valid (omega arith) fetched in
      let done = tick_and_execute inst f in
      let (t, more) = tick_and_execute-IsLoop run pc regs f inst g (omega arith) in
      (
        finish run f.machine.cpu.pc done,
        rw (e, run_loop),
        finish-IsOutcome _ done (IsLoop-IsEnd run pc regs _ done t (omega arith)),
      )
  after_round-Ends fuel l ih h within enough r e (Rounds.goes_on inst f fetched fits) =
      let (g, same) = Fetches-IsLoop run pc regs l f inst h valid (omega arith) fetched in
      let (t, more) = tick_and_execute-IsLoop run pc regs f inst g (omega arith) in
      rw (e, run_loop) (ih (tick_and_execute inst f) t fits (omega arith))

  run_loop-Ends :
      (fuel : ℕ) (l : Loop)
      → IsLoop run pc regs l
      → total l ≤ run.max_cycles
      → run.max_cycles < fuel + total l
      → Ends run pc regs (run_loop fuel run l)
  run_loop-Ends zero l h within enough = ground arith
  run_loop-Ends (suc fuel) l h within enough =
      after_round-Ends fuel l (run_loop-Ends fuel) h within enough (round run l) refl
        (round-Rounds run l)

-- A segment length that the code accepts.
abbrev pub IsAllowed : Option ℕ → Type 0
IsAllowed none = Unit
IsAllowed (some n) = (0 < n) × (n < 2 ^ 20)

length_ok-IsAllowed :
    (o : Option ℕ)
    → ((length_ok o ≡ true) × IsAllowed o) ⊎ ((length_ok o ≡ false) × ¬ (IsAllowed o))
unfolding length_ok
length_ok-IsAllowed none = inl (refl, tt)
length_ok-IsAllowed (some n) = elim (Bool-cases (ltb 0 n && ltb n (2 ^ 20))) [
  | inl e ↦ inl (e, (ground arith, ground arith))
  | inr e ↦ inr (e, λ h. ground (arith, h.0, h.1))
]

IsAllowed-pos : (o : Option ℕ) → IsAllowed o → (n : ℕ) → o ≡ some n → 0 < n
IsAllowed-pos none h n e = ground arith
IsAllowed-pos (some m) h n e =
    let positive = h.0 in
    let same : m ≡ n = ap (λ p. elim p [ none ↦ 0 | some k ↦ k ]) e in omega arith

-- The call panics on the segment length, or it returns with this outcome.
abbrev pub IsEnding : Run → Ending → Type 0
IsEnding run e =
    ((¬ (IsAllowed run.segment_cycles)) × (e ≡ Ending.panics))
    ⊎ (IsAllowed run.segment_cycles
        × ((r : Result RunError (List RunResult)) × (e ≡ Ending.returns r)
            × IsOutcome run (start run).machine.cpu.pc (start run).machine.cpu.regs r))

-- If `max_cycles` is less than 2 ^ 32 - 1, a run with a segment length of 0 or of at least 2 ^
-- 20 panics, and any other ends within `max_cycles + 1` rounds of its loop. It returns an error,
-- or segments that chain: the first starts at the entry with the initial registers, each starts
-- with the pc and the registers with which the one before ended. Each segment has a row of the
-- opcode tables for each of its cycles, and all together have at most `max_cycles + 1`. Each but
-- the last has exactly the cycles that a segment may have, no outputs, and at every pc as many
-- rows as counted fetches; the last has at most as many cycles, and at most one fetch without a
-- row, at its final pc.
pub run_segments-IsOutcome :
    (run : Run)
    → run.max_cycles + 1 < 2 ^ 32
    → IsEnding run (run_segments_with_input (suc run.max_cycles) run)
unfolding run_segments_with_input ending start Trace.default with_max_clock_diff lookup
run_segments-IsOutcome run small = elim (length_ok-IsAllowed run.segment_cycles) [
  | inr (bad, wrong) ↦ inl (wrong, rw bad refl)
  | inl (fine, allowed) ↦
      let l = start run in
      let fresh : IsLoop run l.machine.cpu.pc l.machine.cpu.regs l = record {
        chain = (refl, refl);
        inner = tt;
        counted = refl;
        one_row_each = refl;
        balanced = λ p. refl;
        short = λ n e. omega arith;
      } in
      let (r, e, out) =
        run_loop-Ends run l.machine.cpu.pc l.machine.cpu.regs (IsAllowed-pos _ allowed) small
          (suc run.max_cycles) l fresh (omega arith) (omega arith) in
      let capacity = run.loaded.input_end_addr - run.loaded.input_start_addr in
      elim (Bool-cases (ltb capacity (length run.input))) [
        | inl over ↦ inr (
          allowed,
          (
            Result.err (RunError.input_too_large (length run.input) capacity),
            rw (fine, over) refl,
            tt,
          ),
        )
        | inr fits ↦ inr (allowed, (r, rw (fine, fits, e) refl, out))
      ]
]
