-- ===== src/Execute/Refines/Registers.antt =====
-- The register and immediate operations: ops/alu.rs, alu_imm.rs, upper.rs and muldiv.rs.
use stark_v.Decode.Bounds.{IsInst}
use stark_v.Base.{ℕ, ◌≡◌, refl, ap, bit_of, low}
use stark_v.Cpu.{reg, set_reg}
use stark_v.Cpu
use stark_v.Decode.{Opcode, DecodedInst}
use stark_v.Machine.{Machine, get_pc, advance_pc, read_reg, write_reg, trace_op}
use stark_v.Trace.{trace_reg_access}
use stark_v.Ops.Alu
use stark_v.Ops.AluImm
use stark_v.Ops.Muldiv
use stark_v.Ops.Muldiv.{compute_mulh_witness}
use stark_v.Ops.Upper
use stark_v.Execute.{handler}
use stark_v.Execute.Isa.{class, step_class, result, put, next}
use stark_v.Execute.Values.{
  wrapping_add_signed, wrapping_sub_signed, lt_i32_signed, mul_signed, mulh_signed, mulhsu_signed,
  mulhu_unsigned, div_value, rem_value, sra32_signed,
}
use stark_v.Execute.Refines.Setup.{IsMachine, arch, Simulates, writes_register}

-- The code that the proofs below run, besides the handler of each.
register_code : Unit {0}
unfolding handler class step_class result get_pc advance_pc read_reg write_reg trace_op
    trace_reg_access compute_mulh_witness
register_code = tt

module _ (d : DecodedInst) (i : IsInst d) (s : Machine) (ok : IsMachine s) where
  abbrev Goal : Opcode → Type 0
  Goal o = Simulates (handler o d s).1 (step_class (class o) d (arch s))

  abbrev a : ℕ
  a = reg s.cpu d.rs1

  abbrev b : ℕ
  b = reg s.cpu d.rs2

  writes :
      {v v' : ℕ} {m : Machine}
      → v ≡ v'
      → m.cpu ≡ Cpu.advance_pc (set_reg d.rd v s.cpu)
      → m.mem ≡ s.mem
      → Simulates m (record (arch s) { pc = next (arch s); x = put d.rd v' (reg s.cpu) })
  writes e ec em = writes_register s ok _ d.rd _ _ i.rd_fits e ec em

  pub add : Goal Opcode.add
  unfolding register_code Alu.add
  add = writes (wrapping_add_signed a b (ok.regs_fit d.rs1) (ok.regs_fit d.rs2)) refl refl

  pub sub : Goal Opcode.sub
  unfolding register_code Alu.sub
  sub = writes (wrapping_sub_signed a b (ok.regs_fit d.rs1) (ok.regs_fit d.rs2)) refl refl

  pub sll : Goal Opcode.sll
  unfolding register_code Alu.sll
  sll = writes refl refl refl

  pub slt : Goal Opcode.slt
  unfolding register_code Alu.slt
  slt = writes (ap bit_of (lt_i32_signed a b (ok.regs_fit d.rs1) (ok.regs_fit d.rs2))) refl refl

  pub sltu : Goal Opcode.sltu
  unfolding register_code Alu.sltu
  sltu = writes refl refl refl

  pub xor : Goal Opcode.xor
  unfolding register_code Alu.xor
  xor = writes refl refl refl

  pub srl : Goal Opcode.srl
  unfolding register_code Alu.srl
  srl = writes refl refl refl

  pub sra : Goal Opcode.sra
  unfolding register_code Alu.sra
  sra = writes (sra32_signed a (low b 5) (ok.regs_fit d.rs1)) refl refl

  pub or : Goal Opcode.or
  unfolding register_code Alu.or
  or = writes refl refl refl

  pub and : Goal Opcode.and
  unfolding register_code Alu.and
  and = writes refl refl refl

  pub addi : Goal Opcode.addi
  unfolding register_code AluImm.addi
  addi = writes (wrapping_add_signed a d.imm (ok.regs_fit d.rs1) i.imm_fits) refl refl

  pub slti : Goal Opcode.slti
  unfolding register_code AluImm.slti
  slti = writes (ap bit_of (lt_i32_signed a d.imm (ok.regs_fit d.rs1) i.imm_fits)) refl refl

  pub sltiu : Goal Opcode.sltiu
  unfolding register_code AluImm.sltiu
  sltiu = writes refl refl refl

  pub xori : Goal Opcode.xori
  unfolding register_code AluImm.xori
  xori = writes refl refl refl

  pub ori : Goal Opcode.ori
  unfolding register_code AluImm.ori
  ori = writes refl refl refl

  pub andi : Goal Opcode.andi
  unfolding register_code AluImm.andi
  andi = writes refl refl refl

  pub slli : Goal Opcode.slli
  unfolding register_code AluImm.slli
  slli = writes refl refl refl

  pub srli : Goal Opcode.srli
  unfolding register_code AluImm.srli
  srli = writes refl refl refl

  pub srai : Goal Opcode.srai
  unfolding register_code AluImm.srai
  srai = writes (sra32_signed a (low d.imm 5) (ok.regs_fit d.rs1)) refl refl

  pub lui : Goal Opcode.lui
  unfolding register_code Upper.lui
  lui = writes refl refl refl

  pub auipc : Goal Opcode.auipc
  unfolding register_code Upper.auipc
  auipc = writes (wrapping_add_signed s.cpu.pc d.imm ok.pc_fits i.imm_fits) refl refl

  pub mul : Goal Opcode.mul
  unfolding register_code Muldiv.mul
  mul = writes (mul_signed a b (ok.regs_fit d.rs1) (ok.regs_fit d.rs2)) refl refl

  pub mulh : Goal Opcode.mulh
  unfolding register_code Muldiv.mulh
  mulh = writes (mulh_signed a b (ok.regs_fit d.rs1) (ok.regs_fit d.rs2)) refl refl

  pub mulhsu : Goal Opcode.mulhsu
  unfolding register_code Muldiv.mulhsu
  mulhsu = writes (mulhsu_signed a b (ok.regs_fit d.rs1) (ok.regs_fit d.rs2)) refl refl

  pub mulhu : Goal Opcode.mulhu
  unfolding register_code Muldiv.mulhu
  mulhu = writes (mulhu_unsigned a b (ok.regs_fit d.rs1) (ok.regs_fit d.rs2)) refl refl

  pub div : Goal Opcode.div
  unfolding register_code Muldiv.div
  div = writes (div_value a b (ok.regs_fit d.rs1) (ok.regs_fit d.rs2)) refl refl

  pub divu : Goal Opcode.divu
  unfolding register_code Muldiv.divu
  divu = writes refl refl refl

  pub rem : Goal Opcode.rem
  unfolding register_code Muldiv.rem
  rem = writes (rem_value a b (ok.regs_fit d.rs1) (ok.regs_fit d.rs2)) refl refl

  pub remu : Goal Opcode.remu
  unfolding register_code Muldiv.remu
  remu = writes refl refl refl
