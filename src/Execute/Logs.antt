-- ===== src/Execute/Logs.antt =====
-- Executing an instruction pushes one row.
use stark_v.Base.{ℕ, ◌≡◌, refl, ◌∙◌, [], ◌∷◌, ◌++◌, if_both, Bool}
use stark_v.Decode.{Opcode, DecodedInst}
use stark_v.Machine.{M, Machine, get_pc, set_pc, advance_pc, read_reg, write_reg, trace_op}
use stark_v.Machine.{
  read_aligned_word_traced, read_u8_traced, read_u16_traced, read_u32_traced, write_u8_traced,
  write_u16_traced, write_u32_traced,
}
use stark_v.Trace.{Tracer, TraceRow, trace_reg_access, trace_mem_access}
use stark_v.Execute.Refines.Setup.{set_reg-pc}
use stark_v.Trace.Counts.{row_pc}
use stark_v.Trace.Kept.{Kept, reg-Kept, mem-Kept}
use stark_v.Ops.Alu
use stark_v.Ops.AluImm
use stark_v.Ops.Branch
use stark_v.Ops.Branch.{branch_to}
use stark_v.Ops.Jump
use stark_v.Ops.Load
use stark_v.Ops.Store
use stark_v.Ops.Upper
use stark_v.Ops.Muldiv
use stark_v.Ops.Muldiv.{compute_mulh_witness}
use stark_v.Execute.{handler, execute}

-- One row more, with the pc of the instruction, at the same clock, and no change to the counts of
-- the fetches.
pub record Logs (s m : Machine) : Type 0 where
  pub same_clock : m.tracer.clock ≡ s.tracer.clock
  pub same_diff : m.tracer.max_clock_diff ≡ s.tracer.max_clock_diff
  pub row : TraceRow
  pub its_pc : row_pc row ≡ s.cpu.pc
  pub one_row : m.tracer.rows ≡ s.tracer.rows ++ row ∷ []
  pub same_reads : m.tracer.program_reads ≡ s.tracer.program_reads

abbrev row_on : Tracer → TraceRow → Tracer
row_on t row = record t { rows = t.rows ++ row ∷ [] }

-- One access more, on a register or on memory, and a branch.
module _ {t u : Tracer} (k : Kept t u) where
  then_kept : {v : Tracer} → Kept u v → Kept t v
  then_kept l = record {
    same_clock = l.same_clock ∙ k.same_clock;
    same_diff = l.same_diff ∙ k.same_diff;
    same_rows = l.same_rows ∙ k.same_rows;
    same_reads = l.same_reads ∙ k.same_reads;
  }

  reg : (idx prev next : ℕ) → Kept t (trace_reg_access u idx prev next).1
  reg idx prev next = then_kept (reg-Kept u idx prev next)

  mem : (addr prev next : ℕ) → Kept t (trace_mem_access u addr prev next).1
  mem addr prev next = then_kept (mem-Kept u addr prev next)

here : {t : Tracer} → Kept t t
here = record { same_clock = refl; same_diff = refl; same_rows = refl; same_reads = refl }

branch :
    {t : Tracer} (r : Machine) (b : Bool) (imm : ℕ)
    → Kept t r.tracer
    → Kept t (branch_to b imm r).1.tracer
unfolding branch_to get_pc set_pc advance_pc
branch {t} r b imm k = if_both (λ (f : M (Unit {0})). Kept t (f r).1.tracer) b k k

machine_code : Unit {0}
unfolding get_pc set_pc advance_pc read_reg write_reg trace_op read_aligned_word_traced
    read_u8_traced read_u16_traced read_u32_traced write_u8_traced write_u16_traced write_u32_traced
machine_code = tt

module _ {s m : Machine} where
  logged :
      (t : Tracer) (row : TraceRow)
      → Kept s.tracer t
      → row_pc row ≡ s.cpu.pc
      → m.tracer ≡ row_on t row
      → Logs s m
  logged t row k p e = record {
    same_clock = rw e k.same_clock;
    same_diff = rw e k.same_diff;
    row = row;
    its_pc = p;
    one_row = rw (e, k.same_rows) refl;
    same_reads = rw e k.same_reads;
  }

module _ (d : DecodedInst) (s : Machine) where
  abbrev Goal : Opcode → Type 0
  Goal o = Logs s (handler o d s).1

  handler-Logs : (o : Opcode) → Goal o
  unfolding machine_code handler compute_mulh_witness Alu.add Alu.sub Alu.xor Alu.or Alu.and Alu.sll
      Alu.srl Alu.sra Alu.slt Alu.sltu Muldiv.mul Muldiv.mulh Muldiv.mulhsu Muldiv.mulhu Muldiv.div
      Muldiv.divu Muldiv.rem Muldiv.remu AluImm.addi AluImm.xori AluImm.ori AluImm.andi AluImm.slli
      AluImm.srli AluImm.srai AluImm.slti AluImm.sltiu Upper.lui Upper.auipc Jump.jal Jump.jalr
      Load.lb Load.lh Load.lw Load.lbu Load.lhu Store.sb Store.sh Store.sw Branch.beq Branch.bne
      Branch.blt Branch.bge Branch.bltu Branch.bgeu
  handler-Logs Opcode.add = logged _ _ (reg (reg (reg here _ _ _) _ _ _) _ _ _) refl refl
  handler-Logs Opcode.sub = logged _ _ (reg (reg (reg here _ _ _) _ _ _) _ _ _) refl refl
  handler-Logs Opcode.xor = logged _ _ (reg (reg (reg here _ _ _) _ _ _) _ _ _) refl refl
  handler-Logs Opcode.or = logged _ _ (reg (reg (reg here _ _ _) _ _ _) _ _ _) refl refl
  handler-Logs Opcode.and = logged _ _ (reg (reg (reg here _ _ _) _ _ _) _ _ _) refl refl
  handler-Logs Opcode.sll = logged _ _ (reg (reg (reg here _ _ _) _ _ _) _ _ _) refl refl
  handler-Logs Opcode.srl = logged _ _ (reg (reg (reg here _ _ _) _ _ _) _ _ _) refl refl
  handler-Logs Opcode.sra = logged _ _ (reg (reg (reg here _ _ _) _ _ _) _ _ _) refl refl
  handler-Logs Opcode.slt = logged _ _ (reg (reg (reg here _ _ _) _ _ _) _ _ _) refl refl
  handler-Logs Opcode.sltu = logged _ _ (reg (reg (reg here _ _ _) _ _ _) _ _ _) refl refl
  handler-Logs Opcode.mul = logged _ _ (reg (reg (reg here _ _ _) _ _ _) _ _ _) refl refl
  handler-Logs Opcode.mulh = logged _ _ (reg (reg (reg here _ _ _) _ _ _) _ _ _) refl refl
  handler-Logs Opcode.mulhsu = logged _ _ (reg (reg (reg here _ _ _) _ _ _) _ _ _) refl refl
  handler-Logs Opcode.mulhu = logged _ _ (reg (reg (reg here _ _ _) _ _ _) _ _ _) refl refl
  handler-Logs Opcode.div = logged _ _ (reg (reg (reg here _ _ _) _ _ _) _ _ _) refl refl
  handler-Logs Opcode.divu = logged _ _ (reg (reg (reg here _ _ _) _ _ _) _ _ _) refl refl
  handler-Logs Opcode.rem = logged _ _ (reg (reg (reg here _ _ _) _ _ _) _ _ _) refl refl
  handler-Logs Opcode.remu = logged _ _ (reg (reg (reg here _ _ _) _ _ _) _ _ _) refl refl
  handler-Logs Opcode.addi = logged _ _ (reg (reg here _ _ _) _ _ _) refl refl
  handler-Logs Opcode.xori = logged _ _ (reg (reg here _ _ _) _ _ _) refl refl
  handler-Logs Opcode.ori = logged _ _ (reg (reg here _ _ _) _ _ _) refl refl
  handler-Logs Opcode.andi = logged _ _ (reg (reg here _ _ _) _ _ _) refl refl
  handler-Logs Opcode.slli = logged _ _ (reg (reg here _ _ _) _ _ _) refl refl
  handler-Logs Opcode.srli = logged _ _ (reg (reg here _ _ _) _ _ _) refl refl
  handler-Logs Opcode.srai = logged _ _ (reg (reg here _ _ _) _ _ _) refl refl
  handler-Logs Opcode.slti = logged _ _ (reg (reg here _ _ _) _ _ _) refl refl
  handler-Logs Opcode.sltiu = logged _ _ (reg (reg here _ _ _) _ _ _) refl refl
  handler-Logs Opcode.lui = logged _ _ (reg here _ _ _) (set_reg-pc d.rd d.imm s.cpu) refl
  handler-Logs Opcode.auipc = logged _ _ (reg here _ _ _) refl refl
  handler-Logs Opcode.jal = logged _ _ (reg here _ _ _) refl refl
  handler-Logs Opcode.jalr = logged _ _ (reg (reg here _ _ _) _ _ _) refl refl
  handler-Logs Opcode.lb = logged _ _ (reg (mem (reg here _ _ _) _ _ _) _ _ _) refl refl
  handler-Logs Opcode.lh = logged _ _ (reg (mem (reg here _ _ _) _ _ _) _ _ _) refl refl
  handler-Logs Opcode.lw = logged _ _ (reg (mem (reg here _ _ _) _ _ _) _ _ _) refl refl
  handler-Logs Opcode.lbu = logged _ _ (reg (mem (reg here _ _ _) _ _ _) _ _ _) refl refl
  handler-Logs Opcode.lhu = logged _ _ (reg (mem (reg here _ _ _) _ _ _) _ _ _) refl refl
  handler-Logs Opcode.sb = logged _ _ (mem (reg (reg here _ _ _) _ _ _) _ _ _) refl refl
  handler-Logs Opcode.sh = logged _ _ (mem (reg (reg here _ _ _) _ _ _) _ _ _) refl refl
  handler-Logs Opcode.sw = logged _ _ (mem (reg (reg here _ _ _) _ _ _) _ _ _) refl refl
  handler-Logs Opcode.beq = logged _ _ (branch _ _ _ (reg (reg here _ _ _) _ _ _)) refl refl
  handler-Logs Opcode.bne = logged _ _ (branch _ _ _ (reg (reg here _ _ _) _ _ _)) refl refl
  handler-Logs Opcode.blt = logged _ _ (branch _ _ _ (reg (reg here _ _ _) _ _ _)) refl refl
  handler-Logs Opcode.bge = logged _ _ (branch _ _ _ (reg (reg here _ _ _) _ _ _)) refl refl
  handler-Logs Opcode.bltu = logged _ _ (branch _ _ _ (reg (reg here _ _ _) _ _ _)) refl refl
  handler-Logs Opcode.bgeu = logged _ _ (branch _ _ _ (reg (reg here _ _ _) _ _ _)) refl refl

-- Executing an instruction pushes exactly one row on the tables of the opcodes, whichever opcode
-- it has; the row has the pc of the instruction. It changes neither the clock, nor the bound of the clock differences, nor the counts
-- of the fetches.
pub execute-Logs : (d : DecodedInst) (s : Machine) → Logs s (execute d s).1
unfolding execute
execute-Logs d s = handler-Logs d s d.opcode
