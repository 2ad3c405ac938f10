-- ===== src/Cpu/Laws.antt =====
-- Reading a register after a write.
use stark_v.Base.{ℕ, ◌<◌, ◌≡◌, arith, length, ◌==◌, if◌then◌else◌}
use stark_v.Base.{get_or-set}
use stark_v.Cpu.{Cpu, reg, set_reg}

-- In a file of 32 registers, a register below 32 reads what was last written to it, another
-- register is unchanged, and x0 stays 0.
pub reg-set_reg :
    (idx j v : ℕ) (cpu : Cpu)
    → length cpu.regs ≡ 32
    → idx < 32
    → reg (set_reg idx v cpu) j ≡ (if j == 0 then 0 else if idx == j then v else reg cpu j)
unfolding reg set_reg
reg-set_reg idx j v cpu n h = ground (arith, get_or-set cpu.regs idx j v 0)
