-- ===== src/Execute/Isa.antt =====
-- The instructions of RV32IM as the ISA manual states them, over a program counter, a register
-- file and a byte memory that are functions: signed operands are integers, and a result is taken
-- modulo 2 ^ 32. There is no trace, and no case for the overflow of a division. The handlers are
-- measured against this.
use stark_v.Base.{
  ℕ, ◌+◌, ◌-◌, ◌*◌, ◌/◌, ◌%◌, ◌^◌, Bool, true, false, not, ltb, ◌==◌, if◌then◌else◌, bit_of,
}
use stark_v.Base.{bit_and, bit_or, bit_xor}
use stark_v.Base.Int.{pos, negsuc, ◌+ℤ◌, ◌-ℤ◌, ◌*ℤ◌, ltb_ℤ, signed32, to_word, floor_div, quot, rem}
use stark_v.Decode.{Opcode, DecodedInst}

pub record Arch : Type 0 where
  pub pc : ℕ
  pub x : ℕ → ℕ
  pub byte : ℕ → ℕ

-- Register 0 stays 0.
abbrev pub put : ℕ → ℕ → (ℕ → ℕ) → ℕ → ℕ
put rd v x j = if j == 0 then 0 else if rd == j then v else x j

abbrev pub poke : ℕ → ℕ → (ℕ → ℕ) → ℕ → ℕ
poke a v byte b = if a == b then v else byte b

abbrev pub offset : ℕ → ℕ → ℕ
offset a imm = to_word (signed32 a +ℤ signed32 imm)

pub data Alu : Type 0 where
  add sub sll slt sltu xor srl sra or and : Alu
  mul mulh mulhsu mulhu div divu rem' remu : Alu

pub data Test : Type 0 where
  eq ne lt ge ltu geu : Test

-- A width of 1, 2 or 4 bytes.
pub data Width : Type 0 where
  one two four : Width

-- What an opcode does.
pub data Class : Type 0 where
  op op_imm : Alu → Class
  load : Bool → Width → Class
  store : Width → Class
  branch : Test → Class
  jal jalr lui auipc : Class

-- The result of a register operation on two operands.
unfoldable pub result : Alu → ℕ → ℕ → ℕ
result Alu.add a b = to_word (signed32 a +ℤ signed32 b)
result Alu.sub a b = to_word (signed32 a -ℤ signed32 b)
result Alu.sll a b = a * 2 ^ (b % 32) % 2 ^ 32
result Alu.slt a b = bit_of (ltb_ℤ (signed32 a) (signed32 b))
result Alu.sltu a b = bit_of (ltb a b)
result Alu.xor a b = bit_xor a b
result Alu.srl a b = a / 2 ^ (b % 32)
result Alu.sra a b = to_word (floor_div (signed32 a) (2 ^ (b % 32)))
result Alu.or a b = bit_or a b
result Alu.and a b = bit_and a b
result Alu.mul a b = to_word (signed32 a *ℤ signed32 b)
result Alu.mulh a b = to_word (floor_div (signed32 a *ℤ signed32 b) (2 ^ 32))
result Alu.mulhsu a b = to_word (floor_div (signed32 a *ℤ pos b) (2 ^ 32))
result Alu.mulhu a b = a * b / 2 ^ 32
result Alu.div a b = if b == 0 then to_word (negsuc 0) else to_word (quot (signed32 a) (signed32 b))
result Alu.divu a b = if b == 0 then to_word (negsuc 0) else a / b
result Alu.rem' a b = if b == 0 then a else to_word (rem (signed32 a) (signed32 b))
result Alu.remu a b = if b == 0 then a else a % b

unfoldable pub class : Opcode → Class
class Opcode.add = Class.op Alu.add
class Opcode.sub = Class.op Alu.sub
class Opcode.sll = Class.op Alu.sll
class Opcode.slt = Class.op Alu.slt
class Opcode.sltu = Class.op Alu.sltu
class Opcode.xor = Class.op Alu.xor
class Opcode.srl = Class.op Alu.srl
class Opcode.sra = Class.op Alu.sra
class Opcode.or = Class.op Alu.or
class Opcode.and = Class.op Alu.and
class Opcode.mul = Class.op Alu.mul
class Opcode.mulh = Class.op Alu.mulh
class Opcode.mulhsu = Class.op Alu.mulhsu
class Opcode.mulhu = Class.op Alu.mulhu
class Opcode.div = Class.op Alu.div
class Opcode.divu = Class.op Alu.divu
class Opcode.rem = Class.op Alu.rem'
class Opcode.remu = Class.op Alu.remu
class Opcode.addi = Class.op_imm Alu.add
class Opcode.slti = Class.op_imm Alu.slt
class Opcode.sltiu = Class.op_imm Alu.sltu
class Opcode.xori = Class.op_imm Alu.xor
class Opcode.ori = Class.op_imm Alu.or
class Opcode.andi = Class.op_imm Alu.and
class Opcode.slli = Class.op_imm Alu.sll
class Opcode.srli = Class.op_imm Alu.srl
class Opcode.srai = Class.op_imm Alu.sra
class Opcode.lb = Class.load true Width.one
class Opcode.lh = Class.load true Width.two
class Opcode.lw = Class.load false Width.four
class Opcode.lbu = Class.load false Width.one
class Opcode.lhu = Class.load false Width.two
class Opcode.sb = Class.store Width.one
class Opcode.sh = Class.store Width.two
class Opcode.sw = Class.store Width.four
class Opcode.beq = Class.branch Test.eq
class Opcode.bne = Class.branch Test.ne
class Opcode.blt = Class.branch Test.lt
class Opcode.bge = Class.branch Test.ge
class Opcode.bltu = Class.branch Test.ltu
class Opcode.bgeu = Class.branch Test.geu
class Opcode.jal = Class.jal
class Opcode.jalr = Class.jalr
class Opcode.lui = Class.lui
class Opcode.auipc = Class.auipc

-- Whether a branch is taken.
unfoldable pub holds : Test → ℕ → ℕ → Bool
holds Test.eq a b = a == b
holds Test.ne a b = not (a == b)
holds Test.lt a b = ltb_ℤ (signed32 a) (signed32 b)
holds Test.ge a b = not (ltb_ℤ (signed32 a) (signed32 b))
holds Test.ltu a b = ltb a b
holds Test.geu a b = not (ltb a b)

-- The little-endian number at an address.
unfoldable pub fetch : Width → (ℕ → ℕ) → ℕ → ℕ
fetch Width.one byte a = byte a
fetch Width.two byte a = byte a + byte (a + 1) * 2 ^ 8
fetch Width.four byte a =
    byte a + byte (a + 1) * 2 ^ 8 + byte (a + 2) * 2 ^ 16 + byte (a + 3) * 2 ^ 24

-- The number that `v` of a width stands for in two's complement, as a word.
unfoldable pub sign_extend : Width → ℕ → ℕ
sign_extend Width.one v = to_word (if ltb v (2 ^ 7) then pos v else negsuc (2 ^ 8 - v - 1))
sign_extend Width.two v = to_word (if ltb v (2 ^ 15) then pos v else negsuc (2 ^ 16 - v - 1))
sign_extend Width.four v = v

unfoldable pub keep : Width → ℕ → ℕ → (ℕ → ℕ) → ℕ → ℕ
keep Width.one a v byte = poke a (v % 2 ^ 8) byte
keep Width.two a v byte = poke a (v % 2 ^ 8) (poke (a + 1) (v / 2 ^ 8 % 2 ^ 8) byte)
keep Width.four a v byte = poke a (v % 2 ^ 8) (
    poke (a + 1) (v / 2 ^ 8 % 2 ^ 8)
      (poke (a + 2) (v / 2 ^ 16 % 2 ^ 8) (poke (a + 3) (v / 2 ^ 24 % 2 ^ 8) byte)))

abbrev pub next : Arch → ℕ
next s = (s.pc + 4) % 2 ^ 32

unfoldable pub step_class : Class → DecodedInst → Arch → Arch
step_class (Class.op o) d s = record s {
  pc = next s;
  x = put d.rd (result o (s.x d.rs1) (s.x d.rs2)) s.x;
}
step_class (Class.op_imm o) d s = record s {
  pc = next s;
  x = put d.rd (result o (s.x d.rs1) d.imm) s.x;
}
step_class (Class.load signed w) d s =
    let v = fetch w s.byte (offset (s.x d.rs1) d.imm) in
    record s { pc = next s; x = put d.rd (if signed then sign_extend w v else v) s.x }
step_class (Class.store w) d s = record s {
  pc = next s;
  byte = keep w (offset (s.x d.rs1) d.imm) (s.x d.rs2) s.byte;
}
step_class (Class.branch t) d s = record s {
  pc = if holds t (s.x d.rs1) (s.x d.rs2) then offset s.pc d.imm else next s;
}
step_class Class.jal d s = record s { pc = offset s.pc d.imm; x = put d.rd (next s) s.x }
step_class Class.jalr d s =
    let target = offset (s.x d.rs1) d.imm in
    record s { pc = target - target % 2; x = put d.rd (next s) s.x }
step_class Class.lui d s = record s { pc = next s; x = put d.rd d.imm s.x }
step_class Class.auipc d s = record s { pc = next s; x = put d.rd (offset s.pc d.imm) s.x }

unfoldable pub step : DecodedInst → Arch → Arch
unfolding class step_class result holds fetch sign_extend keep
step d s = step_class (class d.opcode) d s
