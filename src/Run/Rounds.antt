-- ===== src/Run/Rounds.antt =====
-- The rounds of the run loop as a relation.
use stark_v.Base.{ℕ, ◌+◌, ◌≤◌, ◌≡◌, refl, arith, Option, none, some, true, false, ltb, ◌==◌}
use stark_v.Base.{Dict, Bool-cases, Option-cases, inl, inr}
use stark_v.Base.{Result, ◌≢◌, ==_iff}
use stark_v.Memory.{read_u32}
use stark_v.Decode.{DecodedInst}
use stark_v.Run.{
  Run, Loop, RunError, Round, round, fetch_round, after_fetch, after_boundary, execute_round,
  boundary, at_boundary, close_segment, finalize, get_or_decode, is_self_loop, count_fetch,
  tick_and_execute,
}

-- The cycles of all segments so far.
abbrev pub total : Loop → ℕ
total l = l.completed_cycles + l.machine.tracer.clock

-- A loop with the segment open in which the next instruction belongs.
pub data Opens (run : Run) (l : Loop) : Loop → Type 0 where
  stays : at_boundary run l ≡ false → Opens run l l
  closes : at_boundary run l ≡ true → Opens run l (close_segment run l)

-- The loop fetches an instruction and counts the fetch.
pub data Fetches (run : Run) (l : Loop) : DecodedInst → Loop → Type 0 where
  fetches :
      (o : Loop) (inst : DecodedInst) (cache : Dict DecodedInst)
      → Opens run l o
      → get_or_decode o.cache o.machine.mem o.machine.cpu.pc ≡ (some inst, cache)
      → Fetches run l inst (count_fetch cache o)

-- What a round can do.
pub data Rounds (run : Run) (l : Loop) : Round → Type 0 where
  halted :
      read_u32 l.machine.mem run.loaded.halt_flag_addr ≢ 0
      → Rounds run l (Round.stop l.machine.cpu.pc l)
  failed : (e : RunError) → Rounds run l (Round.fail e)
  looped :
      (inst : DecodedInst) (f : Loop)
      → Fetches run l inst f
      → is_self_loop inst f.machine.cpu ≡ true
      → Rounds run l (Round.stop f.machine.cpu.pc f)
  stuck :
      (inst : DecodedInst) (f : Loop)
      → Fetches run l inst f
      → (tick_and_execute inst f).machine.cpu.pc ≡ f.machine.cpu.pc
      → Rounds run l (Round.stop f.machine.cpu.pc (tick_and_execute inst f))
  goes_on :
      (inst : DecodedInst) (f : Loop)
      → Fetches run l inst f
      → total (tick_and_execute inst f) ≤ run.max_cycles
      → Rounds run l (Round.again (tick_and_execute inst f))

module _ (run : Run) (l : Loop) where
  execute_round-Rounds :
      (inst : DecodedInst) (f : Loop)
      → Fetches run l inst f
      → Rounds run l (execute_round run inst f)
  unfolding execute_round
  execute_round-Rounds inst f h =
      let done = tick_and_execute inst f in
      elim (Bool-cases (done.machine.cpu.pc == f.machine.cpu.pc)) [
        | inl same ↦ rw same (Rounds.stuck inst f h ((==_iff _ _).0 same))
        | inr moved ↦ elim (Bool-cases (ltb run.max_cycles (total done))) [
          | inl over ↦ rw (moved, over) (Rounds.failed _)
          | inr within ↦ rw (moved, within) (Rounds.goes_on inst f h (ground arith))
        ]
      ]

  fetch_round-Rounds :
      (o : Loop)
      → Opens run l o
      → (fetched : Option DecodedInst × Dict DecodedInst)
      → get_or_decode o.cache o.machine.mem o.machine.cpu.pc ≡ fetched
      → Rounds run l (fetch_round run o)
  unfolding fetch_round after_fetch count_fetch
  fetch_round-Rounds o h (none, cache) e = rw e (Rounds.failed _)
  fetch_round-Rounds o h (some inst, cache) e =
      let f = Fetches.fetches o inst cache h e in
      elim (Bool-cases (is_self_loop inst o.machine.cpu)) [
        | inl loop ↦ rw (e, loop) (Rounds.looped inst _ f loop)
        | inr other ↦ rw (e, other) (execute_round-Rounds inst _ f)
      ]

  boundary_stays : at_boundary run l ≡ false → boundary run l ≡ Result.ok l
  unfolding boundary
  boundary_stays h = rw h

  boundary_closes :
      at_boundary run l ≡ true
      → finalize run l.machine.mem ≡ none
      → boundary run l ≡ Result.ok (close_segment run l)
  unfolding boundary
  boundary_closes h f = rw (h, f)

  refuses :
      at_boundary run l ≡ true
      → (e : _) → finalize run l.machine.mem ≡ some e
      → boundary run l ≡ Result.err (RunError.commitment e)
  unfolding boundary
  refuses h e f = rw (h, f)

  -- The rounds are those of the relation.
  pub round-Rounds : Rounds run l (round run l)
  unfolding round after_boundary
  round-Rounds = elim (Bool-cases (read_u32 l.machine.mem run.loaded.halt_flag_addr == 0)) [
    | inr h ↦ rw h (Rounds.halted (ground arith))
    | inl z ↦ elim (Bool-cases (at_boundary run l)) [
      | inr short ↦ rw (z, boundary_stays short) (fetch_round-Rounds l (Opens.stays short) _ refl)
      | inl full ↦ elim (Option-cases (finalize run l.machine.mem)) [
        | inr (e, h) ↦ rw (z, refuses full e h) (Rounds.failed _)
        | inl h ↦ rw (z, boundary_closes full h) (fetch_round-Rounds _ (Opens.closes full) _ refl)
      ]
    ]
  ]
