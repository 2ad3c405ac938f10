-- ===== src/Run/Halting.antt =====
-- The rounds on which the loop stops, and what they do to the ISA.
use stark_v.Base.{◌≡◌, ◌≢◌, true}
use stark_v.Machine.{Machine}
use stark_v.Memory.{read_u32}
use stark_v.Run.{Run, Loop, Round, is_self_loop}
use stark_v.Run.Rounds.{Rounds}
use stark_v.Run.Correct.{IsStep}

-- From `l`, the loop stops as `done`.
pub data IsHalt (run : Run) (l : Loop) : Loop → Type 0 where
  -- The halt flag is set, and nothing is fetched.
  by_flag : read_u32 l.machine.mem run.loaded.halt_flag_addr ≢ 0 → IsHalt run l l
  -- A self-loop is not executed: the machine stays, as its ISA step leaves it.
  by_self_loop :
      (done : Loop) (s : IsStep l done)
      → is_self_loop s.inst l.machine.cpu ≡ true
      → done.machine.cpu ≡ l.machine.cpu
      → done.machine.mem ≡ l.machine.mem
      → IsHalt run l done
  -- An instruction is executed and leads to its own address.
  by_same_pc :
      (done : Loop) → IsStep l done → done.machine.cpu.pc ≡ l.machine.cpu.pc → IsHalt run l done

-- What a round that stops does; nothing is said of the others.
abbrev Stops : Run → Loop → Round → Type 0
Stops run l (Round.stop pc done) = (pc ≡ l.machine.cpu.pc) × IsHalt run l done
Stops run l (Round.fail e) = Unit
Stops run l (Round.again next) = Unit
