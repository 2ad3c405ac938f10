-- ===== src/Execute/Preserves.antt =====
-- Executing an instruction keeps every value within its type, aligned or not.
pub mod Bounds
use stark_v.Decode.Bounds.{IsInst}
use stark_v.Base.{
  ℕ, ◌+◌, ◌*◌, ◌/◌, ◌%◌, ◌^◌, ◌-◌, ◌<◌, ◌≤◌, ◌≡◌, refl, ◌∙◌, arith, Bool, true, false,
}
use stark_v.Base.{
  ltb, ◌==◌, ◌&&◌, if◌then◌else◌, Bool-cases, inl, inr, if_both, IsU32, length, length-set,
}
use stark_v.Base.{
  bit_of, bit_and, bit_or, bit_xor, u8, low, clear_low, wrapping_add, sra32, sext8, sext16, div_i32,
  rem_i32,
}
use stark_v.Base.Bits.{bit_and-lt, bit_or-lt, bit_xor-lt}
use stark_v.Base.Int.{ℤ, pos, negsuc, to_word}
use stark_v.Cpu.{Cpu, reg, set_reg}
use stark_v.Cpu
use stark_v.Cpu.Laws.{reg-set_reg}
use stark_v.Memory.{Memory, read_u32}
use stark_v.Memory.Laws.{
  HoldsBytes, read_u32_sum, write_u8-HoldsBytes, write_u16-HoldsBytes, write_u32-HoldsBytes,
}
use stark_v.Decode.{Opcode, DecodedInst}
use stark_v.Machine.{Machine, get_pc, set_pc, advance_pc, read_reg, write_reg, trace_op}
use stark_v.Machine.{
  read_u8_traced, read_u16_traced, read_u32_traced, write_u8_traced, write_u16_traced,
  write_u32_traced,
}
use stark_v.Trace.{trace_reg_access, trace_mem_access}
use stark_v.Ops.Alu
use stark_v.Ops.AluImm
use stark_v.Ops.Branch
use stark_v.Ops.Branch.{branch_to}
use stark_v.Ops.Jump
use stark_v.Ops.Load
use stark_v.Ops.Load.{extract_byte, extract_halfword}
use stark_v.Ops.Store
use stark_v.Ops.Upper
use stark_v.Ops.Muldiv
use stark_v.Ops.Muldiv.{compute_mulh_witness}
use stark_v.Execute.{handler, execute}
use Bounds.{
  bit_of-lt, div-lt, rem-lt, divu-lt, remu-lt, srl-lt, sra-lt, extract_byte-lt, extract_halfword-lt,
  sext8-lt, sext16-lt, read_u32-lt,
}
use stark_v.Execute.Refines.Setup.{IsMachine, reg-with_pc, set_reg-pc}
use stark_v.Execute.Refines.Control.{branch_to_lem}

-- The code that the proofs below run, besides the handler of each.
machine_code : Unit {0}
unfolding handler get_pc set_pc advance_pc read_reg write_reg trace_op trace_reg_access
    trace_mem_access read_u8_traced read_u16_traced read_u32_traced write_u8_traced write_u16_traced
    write_u32_traced compute_mulh_witness
machine_code = tt

module _ (d : DecodedInst) (i : IsInst d) (s : Machine) (ok : IsMachine s) where
  abbrev Goal : Opcode → Type 0
  Goal o = IsMachine (handler o d s).1

  abbrev a : ℕ
  a = reg s.cpu d.rs1

  abbrev b : ℕ
  b = reg s.cpu d.rs2

  -- A register and the program counter get values that fit.
  writes :
      {v pc : ℕ} {m : Machine}
      → v < 2 ^ 32
      → pc < 2 ^ 32
      → m.cpu ≡ record (set_reg d.rd v s.cpu) { pc = pc }
      → m.mem ≡ s.mem
      → IsMachine m
  unfolding set_reg
  writes {v} {pc} hv hp ec em = record {
    regs_length = rw ec (ground (arith, ok.regs_length, length-set s.cpu.regs d.rd v));
    regs_fit = λ j.
        rw (ec, reg-with_pc)
          (ground (arith, reg-set_reg d.rd j v s.cpu ok.regs_length i.rd_fits, ok.regs_fit j));
    pc_fits = rw ec hp;
    bytes_fit = λ p. rw em (ok.bytes_fit p);
  }

  -- Only the program counter and the memory change.
  moves :
      {pc : ℕ} {m : Machine}
      → pc < 2 ^ 32
      → HoldsBytes m.mem
      → m.cpu ≡ record (s.cpu) { pc = pc }
      → IsMachine m
  moves hp hm ec = record {
    regs_length = rw ec ok.regs_length;
    regs_fit = λ j. rw (ec, reg-with_pc) (ok.regs_fit j);
    pc_fits = rw ec hp;
    bytes_fit = hm;
  }

  branches :
      {m : Machine} (t : Bool) (read : Machine)
      → read.cpu ≡ s.cpu
      → read.mem ≡ s.mem
      → m.cpu ≡ (branch_to t d.imm read).1.cpu
      → m.mem ≡ (branch_to t d.imm read).1.mem
      → IsMachine m
  branches t read rc rm ec em =
      let (bc, bm) = branch_to_lem t d.imm read in
      moves
        (if_both (λ p. p < 2 ^ 32) t {x = wrapping_add s.cpu.pc d.imm} {y = wrapping_add s.cpu.pc 4}
          (omega arith) (omega arith))
        (λ p. rw (em, bm, rm) (ok.bytes_fit p)) (ec ∙ bc ∙ rw rc refl)

  handler-IsMachine : (o : Opcode) → Goal o
  unfolding machine_code Cpu.advance_pc Alu.add Alu.sub Alu.sll Alu.slt Alu.sltu Alu.xor Alu.srl
      Alu.sra Alu.or Alu.and AluImm.addi AluImm.slti AluImm.sltiu AluImm.xori AluImm.ori AluImm.andi
      AluImm.slli AluImm.srli AluImm.srai Upper.lui Upper.auipc Muldiv.mul Muldiv.mulh Muldiv.mulhsu
      Muldiv.mulhu Muldiv.div Muldiv.divu Muldiv.rem Muldiv.remu Load.lb Load.lh Load.lw Load.lbu
      Load.lhu Jump.jal Jump.jalr Branch.beq Branch.bne Branch.blt Branch.bge Branch.bltu
      Branch.bgeu Store.sb Store.sh Store.sw
  handler-IsMachine Opcode.add = writes (omega arith) (omega arith) refl refl
  handler-IsMachine Opcode.sub = writes (omega arith) (omega arith) refl refl
  handler-IsMachine Opcode.sll = writes (omega arith) (omega arith) refl refl
  handler-IsMachine Opcode.slt = writes (bit_of-lt _) (omega arith) refl refl
  handler-IsMachine Opcode.sltu = writes (bit_of-lt _) (omega arith) refl refl
  handler-IsMachine Opcode.xor =
      writes (bit_xor-lt 32 a b (ok.regs_fit d.rs1) (ok.regs_fit d.rs2)) (omega arith) refl refl
  handler-IsMachine Opcode.srl =
      writes (srl-lt a (low b 5) (ok.regs_fit d.rs1)) (omega arith) refl refl
  handler-IsMachine Opcode.sra =
      writes (sra-lt a (low b 5) (ok.regs_fit d.rs1)) (omega arith) refl refl
  handler-IsMachine Opcode.or =
      writes (bit_or-lt 32 a b (ok.regs_fit d.rs1) (ok.regs_fit d.rs2)) (omega arith) refl refl
  handler-IsMachine Opcode.and =
      writes (bit_and-lt 32 a b (ok.regs_fit d.rs1)) (omega arith) refl refl
  handler-IsMachine Opcode.addi = writes (omega arith) (omega arith) refl refl
  handler-IsMachine Opcode.slti = writes (bit_of-lt _) (omega arith) refl refl
  handler-IsMachine Opcode.sltiu = writes (bit_of-lt _) (omega arith) refl refl
  handler-IsMachine Opcode.xori =
      writes (bit_xor-lt 32 a d.imm (ok.regs_fit d.rs1) i.imm_fits) (omega arith) refl refl
  handler-IsMachine Opcode.ori =
      writes (bit_or-lt 32 a d.imm (ok.regs_fit d.rs1) i.imm_fits) (omega arith) refl refl
  handler-IsMachine Opcode.andi =
      writes (bit_and-lt 32 a d.imm (ok.regs_fit d.rs1)) (omega arith) refl refl
  handler-IsMachine Opcode.slli = writes (omega arith) (omega arith) refl refl
  handler-IsMachine Opcode.srli =
      writes (srl-lt a (low d.imm 5) (ok.regs_fit d.rs1)) (omega arith) refl refl
  handler-IsMachine Opcode.srai =
      writes (sra-lt a (low d.imm 5) (ok.regs_fit d.rs1)) (omega arith) refl refl
  handler-IsMachine Opcode.lui = writes i.imm_fits (omega arith) refl refl
  handler-IsMachine Opcode.auipc = writes (omega arith) (omega arith) refl refl
  handler-IsMachine Opcode.mul = writes (omega arith) (omega arith) refl refl
  handler-IsMachine Opcode.mulh = writes (omega arith) (omega arith) refl refl
  handler-IsMachine Opcode.mulhsu = writes (omega arith) (omega arith) refl refl
  handler-IsMachine Opcode.mulhu = writes (omega arith) (omega arith) refl refl
  handler-IsMachine Opcode.div =
      writes (div-lt a b (ok.regs_fit d.rs1) (ok.regs_fit d.rs2)) (omega arith) refl refl
  handler-IsMachine Opcode.divu =
      writes (divu-lt a b (ok.regs_fit d.rs1) (ok.regs_fit d.rs2)) (omega arith) refl refl
  handler-IsMachine Opcode.rem =
      writes (rem-lt a b (ok.regs_fit d.rs1) (ok.regs_fit d.rs2)) (omega arith) refl refl
  handler-IsMachine Opcode.remu =
      writes (remu-lt a b (ok.regs_fit d.rs1) (ok.regs_fit d.rs2)) (omega arith) refl refl
  handler-IsMachine Opcode.lb = writes (sext8-lt _ (extract_byte-lt _ _)) (omega arith) refl refl
  handler-IsMachine Opcode.lh =
      writes (sext16-lt _ (extract_halfword-lt _ _)) (omega arith) refl refl
  handler-IsMachine Opcode.lw = writes (read_u32-lt s.mem ok.bytes_fit _) (omega arith) refl refl
  handler-IsMachine Opcode.lbu =
      writes
        (omega (
          arith,
          extract_byte-lt (read_u32 s.mem (clear_low (wrapping_add a d.imm) 2))
              (wrapping_add a d.imm),
        ))
        (omega arith) refl refl
  handler-IsMachine Opcode.lhu =
      writes
        (omega (
          arith,
          extract_halfword-lt (read_u32 s.mem (clear_low (wrapping_add a d.imm) 2))
              (wrapping_add a d.imm),
        ))
        (omega arith) refl refl
  handler-IsMachine Opcode.jal = writes (omega arith) (omega arith) refl refl
  handler-IsMachine Opcode.jalr = writes (omega arith) (omega arith) refl refl
  handler-IsMachine Opcode.beq = branches _ _ refl refl refl refl
  handler-IsMachine Opcode.bne = branches _ _ refl refl refl refl
  handler-IsMachine Opcode.blt = branches _ _ refl refl refl refl
  handler-IsMachine Opcode.bge = branches _ _ refl refl refl refl
  handler-IsMachine Opcode.bltu = branches _ _ refl refl refl refl
  handler-IsMachine Opcode.bgeu = branches _ _ refl refl refl refl
  handler-IsMachine Opcode.sb =
      moves (omega arith) (write_u8-HoldsBytes s.mem _ _ (omega arith) ok.bytes_fit) refl
  handler-IsMachine Opcode.sh =
      moves (omega arith) (write_u16-HoldsBytes s.mem _ _ ok.bytes_fit) refl
  handler-IsMachine Opcode.sw =
      moves (omega arith) (write_u32-HoldsBytes s.mem _ _ ok.bytes_fit) refl

-- Executing any instruction leaves 32 registers, with every register and the program counter below
-- 2 ^ 32 and every byte of memory below 2 ^ 8, whatever the addresses are.
pub execute-IsMachine :
    (d : DecodedInst) (s : Machine) → IsInst d → IsMachine s → IsMachine (execute d s).1
unfolding execute
execute-IsMachine d s i ok = handler-IsMachine d i s ok d.opcode
