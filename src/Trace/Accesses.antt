-- ===== src/Trace/Accesses.antt =====
-- What a traced access records: it links to the access before, through the rows that fill the gap,
-- and its clock difference is within the bound.
use stark_v.Base.{
  ℕ, ◌+◌, ◌*◌, ◌^◌, ◌≤◌, ◌<◌, ◌≡◌, ap, arith, ◌++◌, length, get_or, get_or-set, length-set, set,
}
use stark_v.Base.{
  ltb, ◌==◌, ◌&&◌, if◌then◌else◌, inl, inr, lookup_or, lookup-insert, if_both, insert, clear_low,
  or_insert, Dict,
}
use stark_v.Trace.{
  Access, Tracer, GapTable, gap_addr_space, fill_gap, trace_reg_access, trace_mem_access,
}
use stark_v.Trace.Gap.{gap_rows, fill_gap-Bridges, Bridges}

-- `a` is an access at the clock of `t` to a place last accessed at `last`, and `t'` the tracer
-- after it.
pub record Links (table : GapTable) (last : ℕ) (t : Tracer) (a : Access) (t' : Tracer)
    : Type 0 where
  pub rounds : ℕ
  pub from_last : a.clock_prev ≡ last + rounds * t.max_clock_diff
  pub gap :
      t'.clock_update
      ≡ t.clock_update ++ gap_rows (gap_addr_space table) a.addr a.prev t.max_clock_diff rounds last
  pub not_ahead : a.clock_prev ≤ t.clock
  pub in_range : t.clock ≤ a.clock_prev + t.max_clock_diff

lookup_or-insert :
    (k j v : ℕ) (m : Dict ℕ)
    → lookup_or j 0 (insert k v m) ≡ (if k == j then v else lookup_or j 0 m)
lookup_or-insert k j v m = ground (arith, lookup-insert k j v m)

module _ (t : Tracer) (small : t.clock < 2 ^ 32) (positive : 0 < t.max_clock_diff) where
  not_past :
      (table : GapTable) (addr value last : ℕ) (u : Tracer) (result : ℕ × Tracer)
      → last ≤ t.clock
      → Bridges table addr value last t.clock u result
      → result.0 ≤ t.clock
  not_past table addr value last u result h b = elim b.no_further [
    | inl zero_rounds ↦
        let e = b.reached in
        let e' : result.0 ≡ last + 0 * u.max_clock_diff = rw zero_rounds at e in omega arith
    | inr before ↦ omega arith
  ]

  -- The clock that a traced register access gives for the last access is at most
  -- `max_clock_diff` back, and not ahead: the rows that fill the gap lead there from the clock that
  -- the register had. This holds below 2 ^ 32 cycles, for a positive `max_clock_diff` and a
  -- register last accessed at no later clock.
  pub trace_reg_access-Links :
      (idx prev next : ℕ)
      → get_or t.reg_clock idx 0 ≤ t.clock
      → Links GapTable.reg
          (get_or t.reg_clock idx 0)
          t
          (trace_reg_access t idx prev next).0
          (trace_reg_access t idx prev next).1
  unfolding trace_reg_access
  trace_reg_access-Links idx prev next h =
      let last = get_or t.reg_clock idx 0 in
      let g = fill_gap GapTable.reg idx prev last t.clock t in
      let b = fill_gap-Bridges GapTable.reg idx prev last t.clock t small positive in
      record {
        rounds = b.rounds;
        from_last = b.reached;
        gap =
            (let pushed = ap (λ (r : Tracer). r.clock_update) b.pushed in
              let bridge =
                gap_rows (gap_addr_space GapTable.reg) idx prev t.max_clock_diff b.rounds last in
              if_both (λ (filled : Tracer). filled.clock_update ≡ t.clock_update ++ bridge)
                (g.0 == last) pushed pushed);
        not_ahead = not_past GapTable.reg idx prev last t g h b;
        in_range = b.close;
      }

  -- The clock that a traced memory access gives for the last access to the word is at most
  -- `max_clock_diff` back, and not ahead: the rows that fill the gap lead there from the clock that
  -- the word had. This holds below 2 ^ 32 cycles, for a positive `max_clock_diff` and a word last
  -- accessed at no later clock.
  pub trace_mem_access-Links :
      (addr prev next : ℕ)
      → lookup_or (clear_low addr 2) 0 t.mem_clock ≤ t.clock
      → Links GapTable.mem
          (lookup_or (clear_low addr 2) 0 t.mem_clock)
          t
          (trace_mem_access t addr prev next).0
          (trace_mem_access t addr prev next).1
  unfolding trace_mem_access
  trace_mem_access-Links addr prev next h =
      let word = clear_low addr 2 in
      let opened : Tracer = record t { mem_initial = or_insert word prev t.mem_initial } in
      let last = lookup_or word 0 t.mem_clock in
      let g = fill_gap GapTable.mem word prev last t.clock opened in
      let b = fill_gap-Bridges GapTable.mem word prev last t.clock opened small positive in
      record {
        rounds = b.rounds;
        from_last = b.reached;
        gap =
            (let pushed = ap (λ (r : Tracer). r.clock_update) b.pushed in
              let bridge =
                gap_rows (gap_addr_space GapTable.mem) word prev t.max_clock_diff b.rounds last in
              if_both (λ (filled : Tracer). filled.clock_update ≡ t.clock_update ++ bridge)
                (g.0 == last) pushed pushed);
        not_ahead = not_past GapTable.mem word prev last opened g h b;
        in_range = b.close;
      }

  -- After an access to a register, its clock is that of the tracer, and the clocks of the other
  -- registers are what they were, below 2 ^ 32 cycles and for a positive `max_clock_diff`.
  pub trace_reg_access-reg_clock :
      (idx prev next j : ℕ)
      → get_or (trace_reg_access t idx prev next).1.reg_clock j 0
        ≡ (if idx == j && ltb j (length t.reg_clock) then t.clock else get_or t.reg_clock j 0)
  unfolding trace_reg_access
  trace_reg_access-reg_clock idx prev next j =
      let last = get_or t.reg_clock idx 0 in
      let g = fill_gap GapTable.reg idx prev last t.clock t in
      let b = fill_gap-Bridges GapTable.reg idx prev last t.clock t small positive in
      let clock = ap (λ (r : Tracer). r.clock) b.pushed in
      let clocks = ap (λ (r : Tracer). r.reg_clock) b.pushed in
      if_both
        (λ (filled : Tracer).
          get_or (set filled.reg_clock idx filled.clock) j 0
          ≡ (if idx == j && ltb j (length t.reg_clock) then t.clock else get_or t.reg_clock j 0))
        (g.0 == last) (rw (clock, clocks) (get_or-set t.reg_clock idx j t.clock 0))
        (rw (clock, clocks)
          (ground (
            arith,
            get_or-set (set t.reg_clock idx g.0) idx j t.clock 0,
            get_or-set t.reg_clock idx j g.0 0,
            length-set t.reg_clock idx g.0,
          )))

  -- After an access to an address, the clock of its word is that of the tracer, and the clocks of
  -- the other words are what they were, below 2 ^ 32 cycles and for a positive `max_clock_diff`.
  pub trace_mem_access-mem_clock :
      (addr prev next j : ℕ)
      → lookup_or j 0 (trace_mem_access t addr prev next).1.mem_clock
        ≡ (if clear_low addr 2 == j then t.clock else lookup_or j 0 t.mem_clock)
  unfolding trace_mem_access
  trace_mem_access-mem_clock addr prev next j =
      let word = clear_low addr 2 in
      let opened : Tracer = record t { mem_initial = or_insert word prev t.mem_initial } in
      let last = lookup_or word 0 t.mem_clock in
      let g = fill_gap GapTable.mem word prev last t.clock opened in
      let b = fill_gap-Bridges GapTable.mem word prev last t.clock opened small positive in
      let clock = ap (λ (r : Tracer). r.clock) b.pushed in
      let clocks = ap (λ (r : Tracer). r.mem_clock) b.pushed in
      if_both
        (λ (filled : Tracer).
          lookup_or j 0 (insert word filled.clock filled.mem_clock)
          ≡ (if word == j then t.clock else lookup_or j 0 t.mem_clock))
        (g.0 == last) (rw (clock, clocks) (lookup_or-insert word j t.clock t.mem_clock))
        (rw (clock, clocks)
          (ground (
            arith,
            lookup_or-insert word j t.clock (insert word g.0 t.mem_clock),
            lookup_or-insert word j g.0 t.mem_clock,
          )))
