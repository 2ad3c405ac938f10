-- ===== src/Run/Correct.antt =====
-- The rounds of the loop are steps of the ISA.
use stark_v.Base.{ℕ, ◌≡◌, refl, sym, Option, none, some, Dict, lookup, insert}
use stark_v.Base.{wrapping_add, Option-cases, inl, inr, ◌∙◌, ap}
use mathlib.Core.Path.{subst}
use stark_v.Cpu.{reg}
use stark_v.Memory.{Memory, read_u32}
use stark_v.Decode.{DecodedInst, decode}
use stark_v.Decode.Bounds.{decode-IsInst}
use stark_v.Machine.{Machine}
use stark_v.Trace.{trace_instr_access}
use stark_v.Execute.{execute}
use stark_v.Execute.Isa.{step}
use stark_v.Execute.Refines.{AccessIsAligned, execute-Simulates}
use stark_v.Execute.Refines.Setup.{IsMachine, Simulates, arch}
use stark_v.Execute.Preserves.{execute-IsMachine}
use stark_v.Execute.Preserves.Bounds.{read_u32-lt}
use stark_v.Run.{
  Run, Loop, Round, round, get_or_decode, count_fetch, tick_and_execute, close_segment,
}
use stark_v.Run.Rounds.{Opens, Fetches, Rounds, round-Rounds}

-- The cached instructions are those that the memory holds.
abbrev pub IsCoherent : Dict DecodedInst → Memory → Type 0
IsCoherent cache mem =
    (pc : ℕ) (d : DecodedInst) → lookup pc cache ≡ some d → decode (read_u32 mem pc) ≡ some d

-- With a coherent cache, what is fetched is the instruction in memory.
pub fetched-decode :
    (cache cache' : Dict DecodedInst) (mem : Memory) (pc : ℕ) (inst : DecodedInst)
    → IsCoherent cache mem
    → get_or_decode cache mem pc ≡ (some inst, cache')
    → decode (read_u32 mem pc) ≡ some inst
unfolding get_or_decode
fetched-decode cache cache' mem pc inst h e = elim (Option-cases (lookup pc cache)) [
  | inr (d, hit) ↦
      let same : (some d, cache) ≡ (some inst, cache') = rw (hit, get_or_decode) at e in
      h pc d hit ∙ ap (λ p. p.0) same
  | inl miss ↦ elim (Option-cases (decode (read_u32 mem pc))) [
    | inl bad ↦
        let nothing : Option DecodedInst = none in
        let same : (nothing, cache) ≡ (some inst, cache') = rw (miss, bad, get_or_decode) at e in
        bad ∙ ap (λ p. p.0) same
    | inr (d, good) ↦
        let same : (some d, insert pc d cache) ≡ (some inst, cache') =
          rw (miss, good, get_or_decode) at e in
        good ∙ ap (λ p. p.0) same
  ]
]

-- From `l`, the loop executes an instruction and goes on as `next`.
pub record IsStep (l next : Loop) : Type 0 where
  pub inst : DecodedInst
  pub decoded : decode (read_u32 l.machine.mem l.machine.cpu.pc) ≡ some inst
  pub simulates :
      AccessIsAligned inst.opcode (wrapping_add (reg l.machine.cpu inst.rs1) inst.imm)
      → Simulates next.machine (step inst (arch l.machine))
  pub keeps : IsMachine next.machine

-- What a round that goes on does; nothing is said of the others.
abbrev Steps : Loop → Round → Type 0
Steps l (Round.stop pc done) = Unit
Steps l (Round.fail e) = Unit
Steps l (Round.again next) = IsStep l next

module _ (l : Loop) (ok : IsMachine l.machine) (coherent : IsCoherent l.cache l.machine.mem) where
  -- `m` is the machine of `l` but for its tracer.
  pub executed-IsStep :
      (m : Machine) (inst : DecodedInst) (cache : Dict DecodedInst) (next : Loop)
      → m.cpu ≡ l.machine.cpu
      → m.mem ≡ l.machine.mem
      → get_or_decode l.cache l.machine.mem l.machine.cpu.pc ≡ (some inst, cache)
      → next.machine ≡ (execute inst m).1
      → IsStep l next
  executed-IsStep m inst cache next same_cpu same_mem got e =
      let decoded = fetched-decode l.cache cache l.machine.mem l.machine.cpu.pc inst coherent got in
      let fits = decode-IsInst _ inst (read_u32-lt l.machine.mem ok.bytes_fit _) decoded in
      let here : IsMachine m = record {
        regs_length = rw same_cpu ok.regs_length;
        regs_fit = λ j. rw same_cpu (ok.regs_fit j);
        pc_fits = rw same_cpu ok.pc_fits;
        bytes_fit = rw same_mem ok.bytes_fit;
      } in
      record {
        inst = inst;
        decoded = decoded;
        simulates = λ aligned.
            let there = execute-Simulates inst m fits here (rw same_cpu aligned) in
            rw (e, sym same_cpu, sym same_mem) there;
        keeps = rw e (execute-IsMachine inst m fits here);
      }

  round-Steps : (run : Run) (r : Round) → Rounds run l r → Steps l r
  unfolding count_fetch trace_instr_access tick_and_execute close_segment
  round-Steps run r (Rounds.halted flag) = tt
  round-Steps run r (Rounds.failed e) = tt
  round-Steps run r (Rounds.looped inst f fetched loops) = tt
  round-Steps run r (Rounds.stuck inst f fetched same_pc) = tt
  round-Steps run r
        (Rounds.goes_on inst f (Fetches.fetches o _ cache (Opens.stays short) got) fits) =
      executed-IsStep _ inst cache _ refl refl got refl
  round-Steps run r
        (Rounds.goes_on inst f (Fetches.fetches o _ cache (Opens.closes full) got) fits) =
      executed-IsStep _ inst cache _ refl refl got refl

-- A round of the loop that goes on is a step of the ISA, at a segment boundary too. From a machine
-- whose values fit their types and a cache that agrees with the memory, it executes the
-- instruction that the memory holds at the pc. If that loads and stores at aligned addresses only,
-- the next machine has the pc, the registers and the memory that the ISA asks for. Aligned or not,
-- its values fit their types.
pub round-IsStep :
    (run : Run) (l next : Loop)
    → IsMachine l.machine
    → IsCoherent l.cache l.machine.mem
    → round run l ≡ Round.again next
    → IsStep l next
round-IsStep run l next ok coherent e =
    subst (Steps l) e (round-Steps l ok coherent run (round run l) (round-Rounds run l))
