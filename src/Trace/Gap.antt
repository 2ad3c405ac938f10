-- ===== src/Trace/Gap.antt =====
-- What `fill_gap` does: it terminates, it bridges the gap by rows that each advance the clock by
-- `max_clock_diff`, and it touches nothing else.
use mathlib.Core.List.{append_assoc, append-nil}
use stark_v.Base.{ℕ, zero, suc, ◌+◌, ◌-◌, ◌*◌, ◌^◌, ◌≤◌, ◌<◌, ◌≡◌, refl, ◌⊎◌, inl, inr, arith}
use stark_v.Base.{List, [], ◌∷◌, ◌++◌, ltb, Bool-cases, saturating_add}
use stark_v.Trace.{Tracer, GapTable, ClockGapRow, gap_addr_space, push_gap, fill_gap_loop, fill_gap}

-- `n` rows for one address, from `clock` on in steps of `diff`.
abbrev pub gap_rows : ℕ → ℕ → ℕ → ℕ → ℕ → ℕ → List ClockGapRow
gap_rows addr_space addr value diff zero clock = []
gap_rows addr_space addr value diff (suc n) clock =
    record { addr_space = addr_space; addr = addr; value = value; clock_prev = clock }
    ∷ gap_rows addr_space addr value diff n (clock + diff)

-- `result` is what bridging the gap from `clock` to `target` gives.
pub record Bridges (table : GapTable) (addr value clock target : ℕ) (t : Tracer)
    (result : ℕ × Tracer) : Type 0 where
  pub rounds : ℕ
  pub reached : result.0 ≡ clock + rounds * t.max_clock_diff
  pub close : target ≤ result.0 + t.max_clock_diff
  pub no_further : (rounds ≡ 0) ⊎ (result.0 < target)
  pub pushed : result.1 ≡ record t {
    clock_update =
        t.clock_update ++ gap_rows (gap_addr_space table) addr value t.max_clock_diff rounds clock;
  }

module _ (table : GapTable) (addr value target : ℕ) (small : target < 2 ^ 32) where
  stops :
      (clock : ℕ) (t : Tracer)
      → target ≤ clock + t.max_clock_diff
      → Bridges table addr value clock target t (clock, t)
  stops clock t h = record {
    rounds = 0;
    reached = omega arith;
    close = h;
    no_further = inl refl;
    pushed = rw append-nil;
  }

  goes_on :
      (clock : ℕ) (t : Tracer) (result : ℕ × Tracer)
      → clock + t.max_clock_diff < target
      → Bridges table addr value
          (clock + t.max_clock_diff)
          target
          (push_gap
            (record {
              addr_space = gap_addr_space table;
              addr = addr;
              value = value;
              clock_prev = clock;
            })
            t)
          result
      → Bridges table addr value clock target t result
  unfolding push_gap
  goes_on clock t result h rest =
      let diff = t.max_clock_diff in
      let n = rest.rounds in
      let e : result.0 ≡ clock + diff + n * diff = rest.reached in
      record {
        rounds = suc n;
        reached = omega arith;
        close = rest.close;
        no_further = inr (not_past rest.no_further);
        pushed = rw rest.pushed (rw append_assoc);
      }
    where
      not_past : (rest.rounds ≡ 0) ⊎ (result.0 < target) → result.0 < target
      not_past (inl z) =
          let e : result.0 ≡ clock + t.max_clock_diff + rest.rounds * t.max_clock_diff =
            rest.reached in
          let e' : result.0 ≡ clock + t.max_clock_diff + 0 * t.max_clock_diff = rw z at e in
          omega arith
      not_past (inr l) = l

  loop-Bridges :
      (fuel clock : ℕ) (t : Tracer)
      → 0 < t.max_clock_diff
      → target ≤ clock + fuel
      → Bridges table addr value clock target t (fill_gap_loop fuel table addr value clock target t)
  unfolding fill_gap_loop push_gap
  loop-Bridges zero clock t p h = stops clock t (omega arith)
  loop-Bridges (suc fuel) clock t p h = elim (Bool-cases (ltb t.max_clock_diff (target - clock))) [
    | inl far ↦
        let sat : saturating_add clock t.max_clock_diff ≡ clock + t.max_clock_diff = ground arith in
        rw (far, sat)
          (goes_on clock t _ (ground arith)
            (loop-Bridges fuel (clock + t.max_clock_diff) _ p (omega arith)))
    | inr near ↦ rw near (stops clock t (ground arith))
  ]

-- With a positive `max_clock_diff`, filling the gap before an access ends, and leaves the access
-- within `max_clock_diff` of the clock. It pushes the rows that lead there from the last access,
-- each `max_clock_diff` after the one before and with the same value, none that is not needed,
-- and changes no other part of the tracer.
pub fill_gap-Bridges :
    (table : GapTable) (addr value clock_prev target : ℕ) (t : Tracer)
    → target < 2 ^ 32
    → 0 < t.max_clock_diff
    → Bridges table addr value clock_prev target t (fill_gap table addr value clock_prev target t)
unfolding fill_gap
fill_gap-Bridges table addr value clock_prev target t small p =
    loop-Bridges table addr value target small (target - clock_prev) clock_prev t p (omega arith)
