-- ===== src/Execute/Refines/Setup.antt =====
-- What a machine is to the ISA, and the shapes in which the handlers change it.
use stark_v.Base.{ℕ, ◌<◌, ◌≡◌, refl, arith, length, IsU32}
use stark_v.Cpu.{Cpu, reg, set_reg}
use stark_v.Cpu
use stark_v.Cpu.Laws.{reg-set_reg}
use stark_v.Memory.{read_u8}
use stark_v.Memory.Laws.{HoldsBytes}
use stark_v.Machine.{Machine}
use stark_v.Execute.Isa.{Arch, put, next}

-- The sizes that the types of the source guarantee.
pub record IsMachine (s : Machine) : Type 0 where
  pub regs_length : length s.cpu.regs ≡ 32
  pub regs_fit : (j : ℕ) → IsU32 (reg s.cpu j)
  pub pc_fits : IsU32 s.cpu.pc
  pub bytes_fit : HoldsBytes s.mem

-- The machine as the ISA sees it.
abbrev pub arch : Machine → Arch
arch s = record { pc = s.cpu.pc; x = reg s.cpu; byte = read_u8 s.mem }

-- The machine agrees with an ISA state in the program counter, every register and every byte.
pub record Simulates (m : Machine) (a : Arch) : Type 0 where
  pub same_pc : m.cpu.pc ≡ a.pc
  pub same_x : (j : ℕ) → reg m.cpu j ≡ a.x j
  pub same_byte : (b : ℕ) → read_u8 m.mem b ≡ a.byte b

pub set_reg-pc : (rd v : ℕ) (cpu : Cpu) → (set_reg rd v cpu).pc ≡ cpu.pc
unfolding set_reg
set_reg-pc rd v cpu = ground arith

-- A new program counter leaves the registers alone.
pub reg-with_pc : (cpu : Cpu) (pc j : ℕ) → reg (record cpu { pc = pc }) j ≡ reg cpu j
unfolding reg
reg-with_pc cpu pc j = refl

module _ (s : Machine) (ok : IsMachine s) (m : Machine) where
  -- The handler writes `v` to `rd` and goes on.
  pub writes_register :
      (rd v v' : ℕ)
      → rd < 32
      → v ≡ v'
      → m.cpu ≡ Cpu.advance_pc (set_reg rd v s.cpu)
      → m.mem ≡ s.mem
      → Simulates m (record (arch s) { pc = next (arch s); x = put rd v' (reg s.cpu) })
  unfolding Cpu.advance_pc
  writes_register rd v v' h e ec em = record {
    same_pc = ground (arith, set_reg-pc rd v s.cpu);
    same_x = λ j. rw (ec, reg-with_pc, reg-set_reg rd j v s.cpu ok.regs_length h, e);
    same_byte = λ b. rw em;
  }

  -- The handler writes the return address to `rd` and jumps.
  pub jumps_and_writes :
      (rd pc pc' : ℕ)
      → rd < 32
      → pc ≡ pc'
      → m.cpu ≡ record (set_reg rd (next (arch s)) s.cpu) { pc = pc }
      → m.mem ≡ s.mem
      → Simulates m (record (arch s) { pc = pc'; x = put rd (next (arch s)) (reg s.cpu) })
  jumps_and_writes rd pc pc' h e ec em = record {
    same_pc = rw (ec, e);
    same_x = λ j. rw (ec, reg-with_pc, reg-set_reg rd j _ s.cpu ok.regs_length h);
    same_byte = λ b. rw em;
  }
