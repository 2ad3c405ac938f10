-- ===== src/Run/Segments/Steps.antt =====
-- The parts of a round keep what holds of the loop.
use stark_v.Base.{ℕ, suc, ◌+◌, ◌^◌, ◌≤◌, ◌<◌, ◌≡◌, refl, arith, none, some, true, false, leb}
use stark_v.Base.{
  List, [], ◌∷◌, All-append, length, wrapping_add, if_both, lookup_or, lookup-insert, length-append,
  lookup, ◌∙◌,
}
use stark_v.Decode.{DecodedInst}
use stark_v.Machine.{Machine}
use stark_v.Trace.{trace_instr_access, with_max_clock_diff}
use stark_v.Trace
use stark_v.Trace.{Tracer}
use stark_v.Trace.Counts.{count_rows-append, count_rows-length}
use stark_v.Execute.{execute}
use stark_v.Execute.Logs.{execute-Logs}
use stark_v.Run.{
  Run, Loop, RunResult, at_boundary, close_segment, segment_result, make_run_result, count_fetch,
  tick_and_execute, is_first,
}
use stark_v.Run.Rounds.{total, Opens, Fetches}
use stark_v.Run.Segments.{Chain-append, cycles_of-append, IsSegment, IsInner, IsLoop, IsFetched}

-- What `make_run_result` takes from the loop, whether the segment is the first or not.
pub record Describes (l : Loop) (final_pc : ℕ) (r : RunResult) : Type 0 where
  pub tracer : r.tracer ≡ l.machine.tracer
  pub cycles : r.cycles ≡ l.machine.tracer.clock
  pub initial_pc : r.initial_pc ≡ l.seg_initial_pc
  pub initial_regs : r.initial_regs ≡ l.seg_initial_regs
  pub end_pc : r.final_pc ≡ final_pc
  pub end_regs : r.final_regs ≡ l.machine.cpu.regs

pub segment_result-Describes :
    (run : Run) (l : Loop) (pc : ℕ) → Describes l pc (segment_result run l pc)
unfolding segment_result make_run_result
segment_result-Describes run l pc =
    if_both (Describes l pc) (is_first l)
      (record {
        tracer = refl;
        cycles = refl;
        initial_pc = refl;
        initial_regs = refl;
        end_pc = refl;
        end_regs = refl;
      })
      (record {
        tracer = refl;
        cycles = refl;
        initial_pc = refl;
        initial_regs = refl;
        end_pc = refl;
        end_regs = refl;
      })

module _ (run : Run) (pc : ℕ) (regs : List ℕ) where
  abbrev Good : Loop → Type 0
  Good l = IsLoop run pc regs l

  pub segment_result-IsSegment :
      (l : Loop) (final_pc : ℕ)
      → length l.machine.tracer.rows ≡ l.machine.tracer.clock
      → ((n : ℕ) → run.segment_cycles ≡ some n → l.machine.tracer.clock ≤ n)
      → IsSegment run (segment_result run l final_pc)
  segment_result-IsSegment l final_pc rows short =
      let d = segment_result-Describes run l final_pc in
      record {
        one_row_each = rw (d.tracer, d.cycles) rows;
        short = λ n e. (let at_most = short n e in rw d.cycles at_most);
      }

  at_boundary-full :
      (l : Loop) (n : ℕ)
      → at_boundary run l ≡ true
      → run.segment_cycles ≡ some n
      → n ≤ l.machine.tracer.clock
  unfolding at_boundary
  at_boundary-full l n h e =
      let h' : leb n l.machine.tracer.clock ≡ true = rw e at h in ground arith

  at_boundary-short :
      (l : Loop) (n : ℕ)
      → at_boundary run l ≡ false
      → run.segment_cycles ≡ some n
      → l.machine.tracer.clock < n
  unfolding at_boundary
  at_boundary-short l n h e =
      let h' : leb n l.machine.tracer.clock ≡ false = rw e at h in ground arith

  close_segment-IsLoop : (l : Loop) → Good l → at_boundary run l ≡ true → Good (close_segment run l)
  unfolding close_segment Trace.default with_max_clock_diff lookup
  close_segment-IsLoop l h b =
      let r = segment_result run l l.machine.cpu.pc in
      let d = segment_result-Describes run l l.machine.cpu.pc in
      let s = segment_result-IsSegment l l.machine.cpu.pc h.one_row_each h.short in
      let closed : RunResult = record r { output = none; output_len = 0; output_words = [] } in
      let seg : IsSegment run closed = record { one_row_each = s.one_row_each; short = s.short } in
      record {
        chain =
            Chain-append closed d.initial_pc d.initial_regs d.end_pc d.end_regs pc regs l.segments
              h.chain;
        inner = All-append (IsInner run) l.segments _ h.inner (
          record {
            segment = seg;
            full = λ n e.
                (let low = at_boundary-full l n b e in
                  let high = h.short n e in d.cycles ∙ omega arith);
            balanced = rw d.tracer h.balanced;
            no_output = (refl, refl, refl);
          },
          tt,
        );
        counted =
            cycles_of-append l.segments closed
            ∙ (let c = h.counted in let e = d.cycles in omega arith);
        one_row_each = refl;
        balanced = λ p. refl;
        short = λ n e. omega arith;
      }

  -- Opening a segment keeps the count of the cycles, and leaves room for one more.
  Opens-IsLoop :
      (l o : Loop)
      → Good l
      → ((n : ℕ) → run.segment_cycles ≡ some n → 0 < n)
      → Opens run l o
      → Good o
        × (total o ≡ total l)
        × ((n : ℕ) → run.segment_cycles ≡ some n → o.machine.tracer.clock < n)
  unfolding close_segment Trace.default with_max_clock_diff
  Opens-IsLoop l o h valid (Opens.stays short) = (h, refl, λ n e. at_boundary-short l n short e)
  Opens-IsLoop l o h valid (Opens.closes full) =
      (close_segment-IsLoop l h full, omega arith, λ n e. valid n e)

  -- The fetch is counted before its row is there.
  pub Fetches-IsLoop :
      (l f : Loop) (inst : DecodedInst)
      → Good l
      → ((n : ℕ) → run.segment_cycles ≡ some n → 0 < n)
      → total l + 1 < 2 ^ 32
      → Fetches run l inst f
      → IsFetched run pc regs f × (total f ≡ total l)
  unfolding count_fetch trace_instr_access
  Fetches-IsLoop l f inst h valid small (Fetches.fetches o _ cache opens got) =
      let (g, same, room) = Opens-IsLoop l o h valid opens in
      let t = o.machine.tracer in
      let pc' = o.machine.cpu.pc in
      let count = lookup_or pc' 0 t.program_reads in
      let rows = count_rows-length pc' t.rows in
      let no_wrap : wrapping_add count 1 ≡ count + 1 =
        (let b = g.balanced pc' in let each = g.one_row_each in omega arith) in
      (
        record {
          chain = g.chain;
          inner = g.inner;
          counted = g.counted;
          one_row_each = g.one_row_each;
          one_ahead = λ p.
              let b = g.balanced p in
              ground (arith, lookup-insert pc' p (wrapping_add count 1) t.program_reads, no_wrap);
          room = room;
        },
        same,
      )

  pub tick_and_execute-IsLoop :
      (f : Loop) (inst : DecodedInst)
      → IsFetched run pc regs f
      → f.machine.tracer.clock + 1 < 2 ^ 32
      → Good (tick_and_execute inst f) × (total (tick_and_execute inst f) ≡ suc (total f))
  unfolding tick_and_execute
  tick_and_execute-IsLoop f inst g small =
      let m = f.machine in
      let clock = m.tracer.clock in
      let ticked : Machine = record m {
        tracer = record (m.tracer) { clock = wrapping_add clock 1 };
      } in
      let logs = execute-Logs inst ticked in
      let plus_one : wrapping_add clock 1 ≡ suc clock = omega arith in
      let now : (execute inst ticked).1.tracer.clock ≡ suc clock = logs.same_clock ∙ plus_one in
      (
        record {
          chain = g.chain;
          inner = g.inner;
          counted = g.counted;
          one_row_each = rw logs.one_row (
              length-append m.tracer.rows (logs.row ∷ [])
              ∙ (let rows = g.one_row_each in omega (arith, now)));
          balanced = λ p.
              let ahead = g.one_ahead p in
              rw (logs.same_reads, logs.one_row, count_rows-append, logs.its_pc) ahead;
          short = λ n e. (let r = g.room n e in rw now r);
        },
        omega (arith, now),
      )
