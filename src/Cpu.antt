-- ===== src/Cpu.antt =====
-- The register file and the program counter, crates/runner/src/cpu.rs. Its traced accesses, which
-- also change the tracer, are in Machine. An index is a `u8` below 32: beyond that the source
-- panics, and the model reads 0 and writes nothing.
pub mod Laws
use stark_v.Base.{ℕ, ◌+◌, List, get_or, set, replicate, ◌==◌, if◌then◌else◌, wrapping_add}

pub record Cpu : Type 0 where
  pub regs : List ℕ
  pub pc : ℕ

unfoldable pub new : ℕ → ℕ → ℕ → Cpu
new entry_pc sp gp = record { regs = set (set (replicate 32 0) 2 sp) 3 gp; pc = entry_pc }

unfoldable pub reg : Cpu → ℕ → ℕ
reg cpu idx = if idx == 0 then 0 else get_or cpu.regs idx 0

unfoldable pub set_reg : ℕ → ℕ → Cpu → Cpu
set_reg idx val cpu = if idx == 0 then cpu else record cpu { regs = set cpu.regs idx val }

unfoldable pub advance_pc : Cpu → Cpu
advance_pc cpu = record cpu { pc = wrapping_add cpu.pc 4 }
