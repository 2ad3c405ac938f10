-- ===== src/Commitment/Chain/Steps.antt =====
-- Executing an instruction keeps what the tracer knows of the start of the segment.
use stark_v.Base.{
  ℕ, ◌%◌, ◌^◌, ◌<◌, ◌≡◌, refl, ap, arith, ◌∙◌, if_both, Bool, [], ◌∷◌, ◌++◌, none, lookup,
  lookup-insert, wrapping_add,
}
use stark_v.Cpu
use stark_v.Decode.{Opcode, DecodedInst}
use stark_v.Memory.{Memory, read_u32, write_u8, write_u16, write_u32}
use stark_v.Machine.{M, Machine, get_pc, set_pc, advance_pc, read_reg, write_reg, trace_op}
use stark_v.Machine.{
  read_aligned_word_traced, read_u8_traced, read_u16_traced, read_u32_traced, write_u8_traced,
  write_u16_traced, write_u32_traced,
}
use stark_v.Trace.{Tracer, TraceRow, trace_reg_access, trace_mem_access}
use stark_v.Trace.Initial.{reg-mem_initial}
use stark_v.Ops.Alu
use stark_v.Ops.AluImm
use stark_v.Ops.Branch
use stark_v.Ops.Branch.{branch_to}
use stark_v.Ops.Jump
use stark_v.Ops.Load
use stark_v.Ops.Store
use stark_v.Ops.Upper
use stark_v.Ops.Muldiv
use stark_v.Ops.Muldiv.{compute_mulh_witness}
use stark_v.Execute.{handler, execute}
use stark_v.Commitment.Chain.Start.{
  Anchored, SameBut, word_of, read-Anchored, write-Anchored, write_u8-SameBut, write_u16-SameBut,
  write_u32-SameBut,
}

-- The address that a load or a store takes, and that a store stays within a word, which is what the
-- `debug_assert`s of memory.rs ask for.
abbrev pub address : DecodedInst → Machine → ℕ
address d s = wrapping_add (Cpu.reg s.cpu d.rs1) d.imm

abbrev pub IsAlignedFor : Opcode → ℕ → Type 0
IsAlignedFor Opcode.sh addr = addr % 2 ≡ 0
IsAlignedFor Opcode.sw addr = addr % 4 ≡ 0
IsAlignedFor _ addr = Unit

-- No byte is forgotten.
abbrev pub Grows : Memory → Memory → Type 0
Grows mem mem' = (b : ℕ) → lookup b mem'.bytes ≡ none → lookup b mem.bytes ≡ none

-- The machine knows what a segment found in memory.
pub record Grounded (start : Memory) (s : Machine) : Type 0 where
  pub anchored : Anchored start s.mem s.tracer.mem_initial
  pub grows : Grows start s.mem

-- A tracer with the same initial words.
record Untouched (t u : Tracer) : Type 0 where
  same_initial : u.mem_initial ≡ t.mem_initial

here : {t : Tracer} → Untouched t t
here = record { same_initial = refl }

reg :
    {t u : Tracer}
    → Untouched t u
    → (idx prev next : ℕ) → Untouched t (trace_reg_access u idx prev next).1
reg {t} {u} k idx prev next = record {
  same_initial = reg-mem_initial u idx prev next ∙ k.same_initial;
}

branch :
    {t : Tracer} (r : Machine) (b : Bool) (imm : ℕ)
    → Untouched t r.tracer
    → Untouched t (branch_to b imm r).1.tracer
unfolding branch_to get_pc set_pc advance_pc
branch {t} r b imm k = if_both (λ (f : M (Unit {0})). Untouched t (f r).1.tracer) b k k

branch-mem : (r : Machine) (b : Bool) (imm : ℕ) → (branch_to b imm r).1.mem ≡ r.mem
unfolding branch_to get_pc set_pc advance_pc
branch-mem r b imm = if_both (λ (f : M (Unit {0})). (f r).1.mem ≡ r.mem) b refl refl

write_u8-Grows : (mem : Memory) (a v : ℕ) → Grows mem (write_u8 a v mem)
unfolding write_u8
write_u8-Grows mem a v b h = ground (arith, lookup-insert a b v mem.bytes)

write_u16-Grows : (mem : Memory) (a v : ℕ) → Grows mem (write_u16 a v mem)
unfolding write_u16
write_u16-Grows mem a v b h = write_u8-Grows mem _ _ b (write_u8-Grows _ _ _ b h)

write_u32-Grows : (mem : Memory) (a v : ℕ) → Grows mem (write_u32 a v mem)
unfolding write_u32
write_u32-Grows mem a v b h =
    write_u8-Grows mem _ _ b
      (write_u8-Grows _ _ _ b (write_u8-Grows _ _ _ b (write_u8-Grows _ _ _ b h)))

whole_word :
    (mem : Memory) (addr : ℕ) → addr % 4 ≡ 0 → read_u32 mem addr ≡ read_u32 mem (word_of addr)
whole_word mem addr h = let e : addr ≡ word_of addr = omega arith in ap (λ z. read_u32 mem z) e

machine_code : Unit {0}
unfolding get_pc set_pc advance_pc read_reg write_reg trace_op read_aligned_word_traced
    read_u8_traced read_u16_traced read_u32_traced write_u8_traced write_u16_traced write_u32_traced
machine_code = tt

abbrev row_on : Tracer → TraceRow → Tracer
row_on t row = record t { rows = t.rows ++ row ∷ [] }

module _ (start : Memory) (s : Machine) (h : Grounded start s) where
  same :
      {m : Machine} (u : Tracer) (row : TraceRow)
      → Untouched s.tracer u
      → m.mem ≡ s.mem
      → m.tracer ≡ row_on u row
      → Grounded start m
  same u row k em et = record {
    anchored = rw (em, et, k.same_initial) h.anchored;
    grows = rw em h.grows;
  }

  loads :
      {m : Machine} (addr next : ℕ) (row : TraceRow) {u v : Tracer}
      → Untouched s.tracer u
      → Untouched (trace_mem_access u (word_of addr) (read_u32 s.mem (word_of addr)) next).1 v
      → addr < 2 ^ 32
      → m.mem ≡ s.mem
      → m.tracer ≡ row_on v row
      → Grounded start m
  loads addr next row {u} {v} k l fits em et =
      let at_u : Anchored start s.mem u.mem_initial = rw k.same_initial h.anchored in
      record {
        anchored = rw (em, et, l.same_initial) (read-Anchored start s.mem u at_u addr next fits);
        grows = rw em h.grows;
      }

  stores :
      {m : Machine} (addr prev next : ℕ) (mem' : Memory) (row : TraceRow) {u : Tracer}
      → Untouched s.tracer u
      → addr < 2 ^ 32
      → SameBut (word_of addr) s.mem mem'
      → Grows s.mem mem'
      → prev ≡ read_u32 s.mem (word_of addr)
      → m.mem ≡ mem'
      → m.tracer ≡ row_on (trace_mem_access u addr prev next).1 row
      → Grounded start m
  stores addr prev next mem' row {u} k fits kept more held em et =
      let at_u : Anchored start s.mem u.mem_initial = rw k.same_initial h.anchored in
      record {
        anchored = rw (em, et, held) (write-Anchored start s.mem u at_u addr next mem' fits kept);
        grows = λ b missing. h.grows b (more b (rw em at missing));
      }

module _ (start : Memory) (d : DecodedInst) (s : Machine) (h : Grounded start s) where
  abbrev Goal : Opcode → Type 0
  Goal o = IsAlignedFor o (address d s) → Grounded start (handler o d s).1

  -- What the first read of a store gives.
  store_address :
      (v : ℕ)
      → wrapping_add (trace_reg_access s.tracer d.rs1 v (Cpu.reg s.cpu d.rs1)).0.next d.imm
        ≡ address d s
  unfolding trace_reg_access
  store_address v = refl

  handler-Grounded : (o : Opcode) → Goal o
  unfolding machine_code handler compute_mulh_witness Alu.add Alu.sub Alu.xor Alu.or Alu.and Alu.sll
      Alu.srl Alu.sra Alu.slt Alu.sltu Muldiv.mul Muldiv.mulh Muldiv.mulhsu Muldiv.mulhu Muldiv.div
      Muldiv.divu Muldiv.rem Muldiv.remu AluImm.addi AluImm.xori AluImm.ori AluImm.andi AluImm.slli
      AluImm.srli AluImm.srai AluImm.slti AluImm.sltiu Upper.lui Upper.auipc Jump.jal Jump.jalr
      Load.lb Load.lh Load.lw Load.lbu Load.lhu Store.sb Store.sh Store.sw Branch.beq Branch.bne
      Branch.blt Branch.bge Branch.bltu Branch.bgeu
  handler-Grounded Opcode.add _ =
      same start s h _ _ (reg (reg (reg here _ _ _) _ _ _) _ _ _) refl refl
  handler-Grounded Opcode.sub _ =
      same start s h _ _ (reg (reg (reg here _ _ _) _ _ _) _ _ _) refl refl
  handler-Grounded Opcode.xor _ =
      same start s h _ _ (reg (reg (reg here _ _ _) _ _ _) _ _ _) refl refl
  handler-Grounded Opcode.or _ =
      same start s h _ _ (reg (reg (reg here _ _ _) _ _ _) _ _ _) refl refl
  handler-Grounded Opcode.and _ =
      same start s h _ _ (reg (reg (reg here _ _ _) _ _ _) _ _ _) refl refl
  handler-Grounded Opcode.sll _ =
      same start s h _ _ (reg (reg (reg here _ _ _) _ _ _) _ _ _) refl refl
  handler-Grounded Opcode.srl _ =
      same start s h _ _ (reg (reg (reg here _ _ _) _ _ _) _ _ _) refl refl
  handler-Grounded Opcode.sra _ =
      same start s h _ _ (reg (reg (reg here _ _ _) _ _ _) _ _ _) refl refl
  handler-Grounded Opcode.slt _ =
      same start s h _ _ (reg (reg (reg here _ _ _) _ _ _) _ _ _) refl refl
  handler-Grounded Opcode.sltu _ =
      same start s h _ _ (reg (reg (reg here _ _ _) _ _ _) _ _ _) refl refl
  handler-Grounded Opcode.mul _ =
      same start s h _ _ (reg (reg (reg here _ _ _) _ _ _) _ _ _) refl refl
  handler-Grounded Opcode.mulh _ =
      same start s h _ _ (reg (reg (reg here _ _ _) _ _ _) _ _ _) refl refl
  handler-Grounded Opcode.mulhsu _ =
      same start s h _ _ (reg (reg (reg here _ _ _) _ _ _) _ _ _) refl refl
  handler-Grounded Opcode.mulhu _ =
      same start s h _ _ (reg (reg (reg here _ _ _) _ _ _) _ _ _) refl refl
  handler-Grounded Opcode.div _ =
      same start s h _ _ (reg (reg (reg here _ _ _) _ _ _) _ _ _) refl refl
  handler-Grounded Opcode.divu _ =
      same start s h _ _ (reg (reg (reg here _ _ _) _ _ _) _ _ _) refl refl
  handler-Grounded Opcode.rem _ =
      same start s h _ _ (reg (reg (reg here _ _ _) _ _ _) _ _ _) refl refl
  handler-Grounded Opcode.remu _ =
      same start s h _ _ (reg (reg (reg here _ _ _) _ _ _) _ _ _) refl refl
  handler-Grounded Opcode.addi _ = same start s h _ _ (reg (reg here _ _ _) _ _ _) refl refl
  handler-Grounded Opcode.xori _ = same start s h _ _ (reg (reg here _ _ _) _ _ _) refl refl
  handler-Grounded Opcode.ori _ = same start s h _ _ (reg (reg here _ _ _) _ _ _) refl refl
  handler-Grounded Opcode.andi _ = same start s h _ _ (reg (reg here _ _ _) _ _ _) refl refl
  handler-Grounded Opcode.slli _ = same start s h _ _ (reg (reg here _ _ _) _ _ _) refl refl
  handler-Grounded Opcode.srli _ = same start s h _ _ (reg (reg here _ _ _) _ _ _) refl refl
  handler-Grounded Opcode.srai _ = same start s h _ _ (reg (reg here _ _ _) _ _ _) refl refl
  handler-Grounded Opcode.slti _ = same start s h _ _ (reg (reg here _ _ _) _ _ _) refl refl
  handler-Grounded Opcode.sltiu _ = same start s h _ _ (reg (reg here _ _ _) _ _ _) refl refl
  handler-Grounded Opcode.lui _ = same start s h _ _ (reg here _ _ _) refl refl
  handler-Grounded Opcode.auipc _ = same start s h _ _ (reg here _ _ _) refl refl
  handler-Grounded Opcode.jal _ = same start s h _ _ (reg here _ _ _) refl refl
  handler-Grounded Opcode.jalr _ = same start s h _ _ (reg (reg here _ _ _) _ _ _) refl refl
  handler-Grounded Opcode.lb _ =
      loads start s h _ _ _ (reg here _ _ _) (reg here _ _ _) (omega arith) refl refl
  handler-Grounded Opcode.lh _ =
      loads start s h _ _ _ (reg here _ _ _) (reg here _ _ _) (omega arith) refl refl
  handler-Grounded Opcode.lw _ =
      loads start s h _ _ _ (reg here _ _ _) (reg here _ _ _) (omega arith) refl refl
  handler-Grounded Opcode.lbu _ =
      loads start s h _ _ _ (reg here _ _ _) (reg here _ _ _) (omega arith) refl refl
  handler-Grounded Opcode.lhu _ =
      loads start s h _ _ _ (reg here _ _ _) (reg here _ _ _) (omega arith) refl refl
  handler-Grounded Opcode.sb aligned =
      stores start s h _ _ _ _ _ (reg (reg here _ _ _) _ _ _) (omega arith)
        (write_u8-SameBut s.mem _ _ (omega arith)) (write_u8-Grows s.mem _ _) refl refl refl
  handler-Grounded Opcode.sh aligned =
      stores start s h _ _ _ _ _ (reg (reg here _ _ _) _ _ _) (omega arith)
        (write_u16-SameBut s.mem _ _ (omega arith) (ap (λ z. z % 2) (store_address _) ∙ aligned))
        (write_u16-Grows s.mem _ _) refl refl refl
  handler-Grounded Opcode.sw aligned =
      stores start s h _ _ _ _ _ (reg (reg here _ _ _) _ _ _) (omega arith)
        (write_u32-SameBut s.mem _ _ (omega arith) (ap (λ z. z % 4) (store_address _) ∙ aligned))
        (write_u32-Grows s.mem _ _)
        (whole_word s.mem _ (ap (λ z. z % 4) (store_address _) ∙ aligned)) refl refl
  handler-Grounded Opcode.beq _ =
      same start s h _ _ (branch _ _ _ (reg (reg here _ _ _) _ _ _)) (branch-mem _ _ _) refl
  handler-Grounded Opcode.bne _ =
      same start s h _ _ (branch _ _ _ (reg (reg here _ _ _) _ _ _)) (branch-mem _ _ _) refl
  handler-Grounded Opcode.blt _ =
      same start s h _ _ (branch _ _ _ (reg (reg here _ _ _) _ _ _)) (branch-mem _ _ _) refl
  handler-Grounded Opcode.bge _ =
      same start s h _ _ (branch _ _ _ (reg (reg here _ _ _) _ _ _)) (branch-mem _ _ _) refl
  handler-Grounded Opcode.bltu _ =
      same start s h _ _ (branch _ _ _ (reg (reg here _ _ _) _ _ _)) (branch-mem _ _ _) refl
  handler-Grounded Opcode.bgeu _ =
      same start s h _ _ (branch _ _ _ (reg (reg here _ _ _) _ _ _)) (branch-mem _ _ _) refl

-- Executing an instruction keeps it, if a store stays within a word.
pub execute-Grounded :
    (start : Memory) (d : DecodedInst) (s : Machine)
    → Grounded start s
    → IsAlignedFor d.opcode (address d s)
    → Grounded start (execute d s).1
unfolding execute
execute-Grounded start d s h = handler-Grounded start d s h d.opcode
