-- ===== src/Execute.antt =====
-- The dispatch of a decoded instruction to its handler, crates/runner/src/execute.rs.
pub mod Refines
pub mod Isa
pub mod Values
pub mod Preserves
pub mod Logs
use stark_v.Decode.{Opcode, DecodedInst}
use stark_v.Machine.{M}
use stark_v.Ops.Alu
use stark_v.Ops.AluImm
use stark_v.Ops.Load
use stark_v.Ops.Store
use stark_v.Ops.Branch
use stark_v.Ops.Jump
use stark_v.Ops.Upper
use stark_v.Ops.Muldiv

-- The handler of an opcode.
unfoldable pub handler : Opcode → DecodedInst → M (Unit {0})
handler Opcode.add = Alu.add
handler Opcode.sub = Alu.sub
handler Opcode.sll = Alu.sll
handler Opcode.slt = Alu.slt
handler Opcode.sltu = Alu.sltu
handler Opcode.xor = Alu.xor
handler Opcode.srl = Alu.srl
handler Opcode.sra = Alu.sra
handler Opcode.or = Alu.or
handler Opcode.and = Alu.and
handler Opcode.addi = AluImm.addi
handler Opcode.slti = AluImm.slti
handler Opcode.sltiu = AluImm.sltiu
handler Opcode.xori = AluImm.xori
handler Opcode.ori = AluImm.ori
handler Opcode.andi = AluImm.andi
handler Opcode.slli = AluImm.slli
handler Opcode.srli = AluImm.srli
handler Opcode.srai = AluImm.srai
handler Opcode.lb = Load.lb
handler Opcode.lh = Load.lh
handler Opcode.lw = Load.lw
handler Opcode.lbu = Load.lbu
handler Opcode.lhu = Load.lhu
handler Opcode.sb = Store.sb
handler Opcode.sh = Store.sh
handler Opcode.sw = Store.sw
handler Opcode.beq = Branch.beq
handler Opcode.bne = Branch.bne
handler Opcode.blt = Branch.blt
handler Opcode.bge = Branch.bge
handler Opcode.bltu = Branch.bltu
handler Opcode.bgeu = Branch.bgeu
handler Opcode.jal = Jump.jal
handler Opcode.jalr = Jump.jalr
handler Opcode.lui = Upper.lui
handler Opcode.auipc = Upper.auipc
handler Opcode.mul = Muldiv.mul
handler Opcode.mulh = Muldiv.mulh
handler Opcode.mulhsu = Muldiv.mulhsu
handler Opcode.mulhu = Muldiv.mulhu
handler Opcode.div = Muldiv.div
handler Opcode.divu = Muldiv.divu
handler Opcode.rem = Muldiv.rem
handler Opcode.remu = Muldiv.remu

unfoldable pub execute : DecodedInst → M (Unit {0})
unfolding handler
execute inst = handler inst.opcode inst
