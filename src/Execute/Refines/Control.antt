-- ===== src/Execute/Refines/Control.antt =====
-- Branches and jumps: ops/branch.rs and jump.rs.
use stark_v.Decode.Bounds.{IsInst}
use stark_v.Base.{ℕ, ◌≡◌, refl, ◌∙◌, ap, arith, Bool, true, false, not, ltb, leb, lt_i32}
use stark_v.Base.{if◌then◌else◌, wrapping_add, clear_low}
use stark_v.Cpu.{Cpu, reg, set_reg}
use stark_v.Cpu
use stark_v.Decode.{Opcode, DecodedInst}
use stark_v.Machine.{Machine, get_pc, set_pc, advance_pc, read_reg, write_reg, trace_op}
use stark_v.Trace.{trace_reg_access}
use stark_v.Ops.Branch
use stark_v.Ops.Branch.{branch_to}
use stark_v.Ops.Jump
use stark_v.Execute.{handler}
use stark_v.Execute.Isa
use stark_v.Execute.Isa.{class, step_class, holds, put, next, offset}
use stark_v.Execute.Values.{wrapping_add_signed, lt_i32_signed}
use stark_v.Execute.Refines.Setup.{
  IsMachine, arch, Simulates, jumps_and_writes, reg-with_pc, set_reg-pc,
}

-- The code that the proofs below run, besides the handler of each.
control_code : Unit {0}
unfolding handler class step_class holds get_pc set_pc advance_pc read_reg write_reg trace_op
    trace_reg_access
control_code = tt

pub branch_to_lem :
    (t : Bool) (imm : ℕ) (s : Machine)
    → ((branch_to t imm s).1.cpu
        ≡ record (s.cpu) { pc = if t then wrapping_add s.cpu.pc imm else wrapping_add s.cpu.pc 4 })
      × ((branch_to t imm s).1.mem ≡ s.mem)
unfolding branch_to get_pc set_pc advance_pc Cpu.advance_pc
branch_to_lem true imm s = (refl, refl)
branch_to_lem false imm s = (refl, refl)

module _ (d : DecodedInst) (i : IsInst d) (s : Machine) (ok : IsMachine s) where
  abbrev Goal : Opcode → Type 0
  Goal o = Simulates (handler o d s).1 (step_class (class o) d (arch s))

  abbrev a : ℕ
  a = reg s.cpu d.rs1

  abbrev b : ℕ
  b = reg s.cpu d.rs2

  -- A handler that branches after reading its registers, which changes the tracer alone.
  branches :
      {t t' : Bool} {m : Machine} (read : Machine)
      → t ≡ t'
      → read.cpu ≡ s.cpu
      → read.mem ≡ s.mem
      → m.cpu ≡ (branch_to t d.imm read).1.cpu
      → m.mem ≡ (branch_to t d.imm read).1.mem
      → Simulates m (record (arch s) { pc = if t' then offset s.cpu.pc d.imm else next (arch s) })
  branches {t} {t'} {m} read e rc rm ec em =
      let (bc, bm) = branch_to_lem t d.imm read in
      let same_cpu : m.cpu ≡ record (s.cpu) {
        pc = if t then wrapping_add s.cpu.pc d.imm else wrapping_add s.cpu.pc 4;
      } =
        rw (ec, bc, rc) refl in
      record {
        same_pc = rw (same_cpu, e, wrapping_add_signed s.cpu.pc d.imm ok.pc_fits i.imm_fits) refl;
        same_x = λ j. rw (same_cpu, reg-with_pc) refl;
        same_byte = λ b. rw (em, bm, rm) refl;
      }

  lt_signed : lt_i32 a b ≡ holds Isa.Test.lt a b
  unfolding holds
  lt_signed = lt_i32_signed a b (ok.regs_fit d.rs1) (ok.regs_fit d.rs2)

  pub beq : Goal Opcode.beq
  unfolding control_code Branch.beq
  beq = branches _ refl refl refl refl refl

  pub bne : Goal Opcode.bne
  unfolding control_code Branch.bne
  bne = branches _ refl refl refl refl refl

  pub blt : Goal Opcode.blt
  unfolding control_code Branch.blt
  blt = branches _ lt_signed refl refl refl refl

  pub bge : Goal Opcode.bge
  unfolding control_code Branch.bge
  bge = branches _ (ap not lt_signed) refl refl refl refl

  pub bltu : Goal Opcode.bltu
  unfolding control_code Branch.bltu
  bltu = branches _ refl refl refl refl refl

  not_lt : leb b a ≡ not (ltb a b)
  not_lt = ground arith

  pub bgeu : Goal Opcode.bgeu
  unfolding control_code Branch.bgeu
  bgeu = branches _ not_lt refl refl refl refl

  pub jal : Goal Opcode.jal
  unfolding control_code Jump.jal
  jal =
      jumps_and_writes s ok _ d.rd _ _ i.rd_fits
        (ap (λ pc. wrapping_add pc d.imm) (set_reg-pc d.rd (next (arch s)) s.cpu)
          ∙ wrapping_add_signed s.cpu.pc d.imm ok.pc_fits i.imm_fits)
        refl refl

  pub jalr : Goal Opcode.jalr
  unfolding control_code Jump.jalr
  jalr =
      jumps_and_writes s ok _ d.rd _ _ i.rd_fits
        (ap (λ t. clear_low t 1) (wrapping_add_signed a d.imm (ok.regs_fit d.rs1) i.imm_fits)) refl
        refl
