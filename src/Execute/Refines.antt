-- ===== src/Execute/Refines.antt =====
-- Executing a decoded instruction does what the ISA says, for all of RV32IM.
pub mod Setup
pub mod Registers
pub mod Control
pub mod Loads
pub mod Stores
use stark_v.Decode.Bounds.{IsInst}
use stark_v.Base.{ℕ, ◌%◌, ◌≡◌, wrapping_add}
use stark_v.Cpu.{reg}
use stark_v.Decode.{Opcode, DecodedInst}
use stark_v.Machine.{Machine}
use stark_v.Execute.{handler, execute}
use stark_v.Execute.Isa.{Class, Width, class, step_class, step}
use Setup.{IsMachine, arch, Simulates}

abbrev pub IsAligned : Width → ℕ → Type 0
IsAligned Width.one addr = Unit
IsAligned Width.two addr = addr % 2 ≡ 0
IsAligned Width.four addr = addr % 4 ≡ 0

-- What the `debug_assert`s of the memory ask of the address of a load or a store.
abbrev pub AccessIsAligned : Opcode → ℕ → Type 0
AccessIsAligned Opcode.lh addr = IsAligned Width.two addr
AccessIsAligned Opcode.lhu addr = IsAligned Width.two addr
AccessIsAligned Opcode.lw addr = IsAligned Width.four addr
AccessIsAligned Opcode.sh addr = IsAligned Width.two addr
AccessIsAligned Opcode.sw addr = IsAligned Width.four addr
AccessIsAligned _ addr = Unit

module _ (d : DecodedInst) (i : IsInst d) (s : Machine) (ok : IsMachine s) where
  abbrev addr : ℕ
  addr = wrapping_add (reg s.cpu d.rs1) d.imm

  handler-Simulates :
      (o : Opcode)
      → AccessIsAligned o addr
      → Simulates (handler o d s).1 (step_class (class o) d (arch s))
  handler-Simulates Opcode.add aligned = Registers.add d i s ok
  handler-Simulates Opcode.sub aligned = Registers.sub d i s ok
  handler-Simulates Opcode.sll aligned = Registers.sll d i s ok
  handler-Simulates Opcode.slt aligned = Registers.slt d i s ok
  handler-Simulates Opcode.sltu aligned = Registers.sltu d i s ok
  handler-Simulates Opcode.xor aligned = Registers.xor d i s ok
  handler-Simulates Opcode.srl aligned = Registers.srl d i s ok
  handler-Simulates Opcode.sra aligned = Registers.sra d i s ok
  handler-Simulates Opcode.or aligned = Registers.or d i s ok
  handler-Simulates Opcode.and aligned = Registers.and d i s ok
  handler-Simulates Opcode.addi aligned = Registers.addi d i s ok
  handler-Simulates Opcode.slti aligned = Registers.slti d i s ok
  handler-Simulates Opcode.sltiu aligned = Registers.sltiu d i s ok
  handler-Simulates Opcode.xori aligned = Registers.xori d i s ok
  handler-Simulates Opcode.ori aligned = Registers.ori d i s ok
  handler-Simulates Opcode.andi aligned = Registers.andi d i s ok
  handler-Simulates Opcode.slli aligned = Registers.slli d i s ok
  handler-Simulates Opcode.srli aligned = Registers.srli d i s ok
  handler-Simulates Opcode.srai aligned = Registers.srai d i s ok
  handler-Simulates Opcode.lui aligned = Registers.lui d i s ok
  handler-Simulates Opcode.auipc aligned = Registers.auipc d i s ok
  handler-Simulates Opcode.mul aligned = Registers.mul d i s ok
  handler-Simulates Opcode.mulh aligned = Registers.mulh d i s ok
  handler-Simulates Opcode.mulhsu aligned = Registers.mulhsu d i s ok
  handler-Simulates Opcode.mulhu aligned = Registers.mulhu d i s ok
  handler-Simulates Opcode.div aligned = Registers.div d i s ok
  handler-Simulates Opcode.divu aligned = Registers.divu d i s ok
  handler-Simulates Opcode.rem aligned = Registers.rem d i s ok
  handler-Simulates Opcode.remu aligned = Registers.remu d i s ok
  handler-Simulates Opcode.beq aligned = Control.beq d i s ok
  handler-Simulates Opcode.bne aligned = Control.bne d i s ok
  handler-Simulates Opcode.blt aligned = Control.blt d i s ok
  handler-Simulates Opcode.bge aligned = Control.bge d i s ok
  handler-Simulates Opcode.bltu aligned = Control.bltu d i s ok
  handler-Simulates Opcode.bgeu aligned = Control.bgeu d i s ok
  handler-Simulates Opcode.jal aligned = Control.jal d i s ok
  handler-Simulates Opcode.jalr aligned = Control.jalr d i s ok
  handler-Simulates Opcode.lb aligned = Loads.lb d i s ok
  handler-Simulates Opcode.lbu aligned = Loads.lbu d i s ok
  handler-Simulates Opcode.lh aligned = Loads.lh d i s ok aligned
  handler-Simulates Opcode.lhu aligned = Loads.lhu d i s ok aligned
  handler-Simulates Opcode.lw aligned = Loads.lw d i s ok aligned
  handler-Simulates Opcode.sb aligned = Stores.sb d i s ok
  handler-Simulates Opcode.sh aligned = Stores.sh d i s ok aligned
  handler-Simulates Opcode.sw aligned = Stores.sw d i s ok aligned

-- From a machine whose values fit their types, an instruction with registers below 32, and an
-- aligned address if it loads or stores more than a byte, `execute` leaves the program counter,
-- every register and every byte of memory as the ISA manual says, for each of the 45 opcodes.
pub execute-Simulates :
    (d : DecodedInst) (s : Machine)
    → IsInst d
    → IsMachine s
    → AccessIsAligned d.opcode (wrapping_add (reg s.cpu d.rs1) d.imm)
    → Simulates (execute d s).1 (step d (arch s))
unfolding execute step
execute-Simulates d s i ok aligned = handler-Simulates d i s ok d.opcode aligned
