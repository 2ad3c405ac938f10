-- ===== src/Trace/Kept.antt =====
-- What a traced access leaves alone: the clock, the rows and the program reads.
use stark_v.Base.{ℕ, zero, suc, ◌-◌, ◌==◌, ◌≡◌, refl, ltb, if_both}
use stark_v.Base.{lookup_or, get_or, clear_low, or_insert, insert, set, List, Dict}
use stark_v.Trace.{
  Tracer, GapTable, push_gap, fill_gap_loop, fill_gap, trace_reg_access, trace_mem_access,
}

pub record Kept (t t' : Tracer) : Type 0 where
  pub same_clock : t'.clock ≡ t.clock
  pub same_diff : t'.max_clock_diff ≡ t.max_clock_diff
  pub same_rows : t'.rows ≡ t.rows
  pub same_reads : t'.program_reads ≡ t.program_reads

-- The clocks of the registers and of the memory are no part of it.
with_clocks :
    {t u : Tracer}
    → Kept t u
    → (regs : List ℕ) (mem : Dict ℕ) → Kept t (record u { reg_clock = regs; mem_clock = mem })
with_clocks k regs mem = record {
  same_clock = k.same_clock;
  same_diff = k.same_diff;
  same_rows = k.same_rows;
  same_reads = k.same_reads;
}

fill_gap_loop-Kept :
    (fuel : ℕ) (table : GapTable) (addr value clock target : ℕ) (t : Tracer)
    → Kept t (fill_gap_loop fuel table addr value clock target t).1
unfolding fill_gap_loop push_gap
fill_gap_loop-Kept zero table addr value clock target t = record {
  same_clock = refl;
  same_diff = refl;
  same_rows = refl;
  same_reads = refl;
}
fill_gap_loop-Kept (suc fuel) table addr value clock target t =
    let rest = fill_gap_loop-Kept fuel table addr value _ target (push_gap _ t) in
    if_both (λ (r : ℕ × Tracer). Kept t r.1) (ltb t.max_clock_diff (target - clock))
      (record {
        same_clock = rest.same_clock;
        same_diff = rest.same_diff;
        same_rows = rest.same_rows;
        same_reads = rest.same_reads;
      })
      (record { same_clock = refl; same_diff = refl; same_rows = refl; same_reads = refl })

fill_gap-Kept :
    (table : GapTable) (addr value clock target : ℕ) (t : Tracer)
    → Kept t (fill_gap table addr value clock target t).1
unfolding fill_gap
fill_gap-Kept table addr value clock target t =
    fill_gap_loop-Kept (target - clock) table addr value clock target t

pub reg-Kept : (t : Tracer) (idx prev next : ℕ) → Kept t (trace_reg_access t idx prev next).1
unfolding trace_reg_access
reg-Kept t idx prev next =
    let clock_prev = get_or t.reg_clock idx 0 in
    let k = fill_gap-Kept GapTable.reg idx prev clock_prev t.clock t in
    let g = fill_gap GapTable.reg idx prev clock_prev t.clock t in
    if_both
      (λ (filled : Tracer).
        Kept t (record filled { reg_clock = set filled.reg_clock idx filled.clock }))
      (g.0 == clock_prev) (with_clocks k _ _) (with_clocks k _ _)

pub mem-Kept : (t : Tracer) (addr prev next : ℕ) → Kept t (trace_mem_access t addr prev next).1
unfolding trace_mem_access
mem-Kept t addr prev next =
    let aligned = clear_low addr 2 in
    let opened : Tracer = record t { mem_initial = or_insert aligned prev t.mem_initial } in
    let clock_prev = lookup_or aligned 0 t.mem_clock in
    let k = fill_gap-Kept GapTable.mem aligned prev clock_prev t.clock opened in
    let g = fill_gap GapTable.mem aligned prev clock_prev t.clock opened in
    let kept : Kept t g.1 = record {
      same_clock = k.same_clock;
      same_diff = k.same_diff;
      same_rows = k.same_rows;
      same_reads = k.same_reads;
    } in
    if_both
      (λ (filled : Tracer).
        Kept t (record filled { mem_clock = insert aligned filled.clock filled.mem_clock }))
      (g.0 == clock_prev) (with_clocks kept _ _) (with_clocks kept _ _)
