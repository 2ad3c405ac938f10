-- ===== src/Trace/Initial.antt =====
-- What a traced access does to the words that a segment found in memory (`mem_initial`).
use stark_v.Base.{
  ℕ, zero, suc, ◌-◌, ◌==◌, ◌≡◌, refl, ltb, if_both, lookup_or, get_or, clear_low, or_insert,
}
use stark_v.Trace.{
  Tracer, GapTable, push_gap, fill_gap_loop, fill_gap, trace_reg_access, trace_mem_access,
}

fill_gap_loop-mem_initial :
    (fuel : ℕ) (table : GapTable) (addr value clock target : ℕ) (t : Tracer)
    → (fill_gap_loop fuel table addr value clock target t).1.mem_initial ≡ t.mem_initial
unfolding fill_gap_loop push_gap
fill_gap_loop-mem_initial zero table addr value clock target t = refl
fill_gap_loop-mem_initial (suc fuel) table addr value clock target t =
    let rest = fill_gap_loop-mem_initial fuel table addr value _ target (push_gap _ t) in
    if_both (λ (r : ℕ × Tracer). r.1.mem_initial ≡ t.mem_initial)
      (ltb t.max_clock_diff (target - clock)) rest refl

fill_gap-mem_initial :
    (table : GapTable) (addr value clock target : ℕ) (t : Tracer)
    → (fill_gap table addr value clock target t).1.mem_initial ≡ t.mem_initial
unfolding fill_gap
fill_gap-mem_initial table addr value clock target t =
    fill_gap_loop-mem_initial (target - clock) table addr value clock target t

pub reg-mem_initial :
    (t : Tracer) (idx prev next : ℕ)
    → (trace_reg_access t idx prev next).1.mem_initial ≡ t.mem_initial
unfolding trace_reg_access
reg-mem_initial t idx prev next =
    let clock_prev = get_or t.reg_clock idx 0 in
    let k = fill_gap-mem_initial GapTable.reg idx prev clock_prev t.clock t in
    let g = fill_gap GapTable.reg idx prev clock_prev t.clock t in
    if_both (λ (filled : Tracer). filled.mem_initial ≡ t.mem_initial) (g.0 == clock_prev) k k

pub mem-mem_initial :
    (t : Tracer) (addr prev next : ℕ)
    → (trace_mem_access t addr prev next).1.mem_initial
      ≡ or_insert (clear_low addr 2) prev t.mem_initial
unfolding trace_mem_access
mem-mem_initial t addr prev next =
    let aligned = clear_low addr 2 in
    let opened : Tracer = record t { mem_initial = or_insert aligned prev t.mem_initial } in
    let clock_prev = lookup_or aligned 0 t.mem_clock in
    let k = fill_gap-mem_initial GapTable.mem aligned prev clock_prev t.clock opened in
    let g = fill_gap GapTable.mem aligned prev clock_prev t.clock opened in
    if_both (λ (filled : Tracer). filled.mem_initial ≡ or_insert aligned prev t.mem_initial)
      (g.0 == clock_prev) k k
