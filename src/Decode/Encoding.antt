-- ===== src/Decode/Encoding.antt =====
-- The instruction words of RV32IM as the ISA manual lays them out: for each opcode its format
-- and its codes, and the word of an instruction. The decoder is measured against this.
use stark_v.Base.{ℕ, ◌+◌, ◌*◌, ◌/◌, ◌%◌, ◌^◌, ◌-◌, ◌<◌, ◌≤◌, ◌≡◌, ◌⊎◌}
use stark_v.Decode.{Opcode, DecodedInst}

pub data Format : Type 0 where
  r i shift s b u j : Format

pub record Code : Type 0 where
  pub format : Format
  pub opcode_bits : ℕ
  pub funct3 : ℕ
  pub funct7 : ℕ

abbrev code : Format → ℕ → ℕ → ℕ → Code
code f o f3 f7 = record { format = f; opcode_bits = o; funct3 = f3; funct7 = f7 }

unfoldable pub code_of : Opcode → Code
code_of Opcode.add = code Format.r 0x33 0 0
code_of Opcode.sub = code Format.r 0x33 0 0x20
code_of Opcode.sll = code Format.r 0x33 1 0
code_of Opcode.slt = code Format.r 0x33 2 0
code_of Opcode.sltu = code Format.r 0x33 3 0
code_of Opcode.xor = code Format.r 0x33 4 0
code_of Opcode.srl = code Format.r 0x33 5 0
code_of Opcode.sra = code Format.r 0x33 5 0x20
code_of Opcode.or = code Format.r 0x33 6 0
code_of Opcode.and = code Format.r 0x33 7 0
code_of Opcode.addi = code Format.i 0x13 0 0
code_of Opcode.slti = code Format.i 0x13 2 0
code_of Opcode.sltiu = code Format.i 0x13 3 0
code_of Opcode.xori = code Format.i 0x13 4 0
code_of Opcode.ori = code Format.i 0x13 6 0
code_of Opcode.andi = code Format.i 0x13 7 0
code_of Opcode.slli = code Format.shift 0x13 1 0
code_of Opcode.srli = code Format.shift 0x13 5 0
code_of Opcode.srai = code Format.shift 0x13 5 0x20
code_of Opcode.lb = code Format.i 0x03 0 0
code_of Opcode.lh = code Format.i 0x03 1 0
code_of Opcode.lw = code Format.i 0x03 2 0
code_of Opcode.lbu = code Format.i 0x03 4 0
code_of Opcode.lhu = code Format.i 0x03 5 0
code_of Opcode.sb = code Format.s 0x23 0 0
code_of Opcode.sh = code Format.s 0x23 1 0
code_of Opcode.sw = code Format.s 0x23 2 0
code_of Opcode.beq = code Format.b 0x63 0 0
code_of Opcode.bne = code Format.b 0x63 1 0
code_of Opcode.blt = code Format.b 0x63 4 0
code_of Opcode.bge = code Format.b 0x63 5 0
code_of Opcode.bltu = code Format.b 0x63 6 0
code_of Opcode.bgeu = code Format.b 0x63 7 0
code_of Opcode.jal = code Format.j 0x6f 0 0
code_of Opcode.jalr = code Format.i 0x67 0 0
code_of Opcode.lui = code Format.u 0x37 0 0
code_of Opcode.auipc = code Format.u 0x17 0 0
code_of Opcode.mul = code Format.r 0x33 0 1
code_of Opcode.mulh = code Format.r 0x33 1 1
code_of Opcode.mulhsu = code Format.r 0x33 2 1
code_of Opcode.mulhu = code Format.r 0x33 3 1
code_of Opcode.div = code Format.r 0x33 4 1
code_of Opcode.divu = code Format.r 0x33 5 1
code_of Opcode.rem = code Format.r 0x33 6 1
code_of Opcode.remu = code Format.r 0x33 7 1

-- The seven bits from 25 up, the five from 20, and the five from 7, of each format: what is not
-- a register or a code is a part of the immediate.
abbrev pub high7 : Format → ℕ → ℕ → ℕ
high7 Format.r f7 imm = f7
high7 Format.shift f7 imm = f7
high7 Format.i f7 imm = imm / 2 ^ 5 % 2 ^ 7
high7 Format.s f7 imm = imm / 2 ^ 5 % 2 ^ 7
high7 Format.b f7 imm = imm / 2 ^ 5 % 2 ^ 6 + imm / 2 ^ 12 % 2 * 2 ^ 6
high7 Format.u f7 imm = imm / 2 ^ 25
high7 Format.j f7 imm = imm / 2 ^ 5 % 2 ^ 6 + imm / 2 ^ 20 % 2 * 2 ^ 6

abbrev pub second5 : Format → ℕ → ℕ → ℕ
second5 Format.r rs2 imm = rs2
second5 Format.s rs2 imm = rs2
second5 Format.b rs2 imm = rs2
second5 Format.shift rs2 imm = imm
second5 Format.i rs2 imm = imm % 2 ^ 5
second5 Format.u rs2 imm = imm / 2 ^ 20 % 2 ^ 5
second5 Format.j rs2 imm = imm / 2 ^ 11 % 2 + imm / 2 % 2 ^ 4 * 2

abbrev pub first5 : Format → ℕ → ℕ → ℕ
first5 Format.u rs1 imm = imm / 2 ^ 15 % 2 ^ 5
first5 Format.j rs1 imm = imm / 2 ^ 15 % 2 ^ 5
first5 _ rs1 imm = rs1

abbrev pub middle3 : Format → ℕ → ℕ → ℕ
middle3 Format.u f3 imm = imm / 2 ^ 12 % 2 ^ 3
middle3 Format.j f3 imm = imm / 2 ^ 12 % 2 ^ 3
middle3 _ f3 imm = f3

abbrev pub low5 : Format → ℕ → ℕ → ℕ
low5 Format.s rd imm = imm % 2 ^ 5
low5 Format.b rd imm = imm / 2 ^ 11 % 2 + imm / 2 % 2 ^ 4 * 2
low5 _ rd imm = rd

unfoldable pub word_of : ℕ → ℕ → ℕ → ℕ → ℕ → ℕ → ℕ
word_of o d f3 s1 s2 f7 = o + d * 2 ^ 7 + f3 * 2 ^ 12 + s1 * 2 ^ 15 + s2 * 2 ^ 20 + f7 * 2 ^ 25

-- The instruction word of `d`.
unfoldable pub encode : DecodedInst → ℕ
unfolding word_of
encode d =
    let c = code_of d.opcode in
    word_of c.opcode_bits (low5 c.format d.rd d.imm) (middle3 c.format c.funct3 d.imm)
      (first5 c.format d.rs1 d.imm) (second5 c.format d.rs2 d.imm) (high7 c.format c.funct7 d.imm)

-- The two's complement patterns of the integers of `k` bits.
abbrev pub Sext : ℕ → ℕ → Type 0
Sext half imm = (imm < half) ⊎ ((2 ^ 32 - half ≤ imm) × (imm < 2 ^ 32))

-- The immediates that a format can hold.
abbrev pub ImmFits : Format → ℕ → Type 0
ImmFits Format.r imm = imm ≡ 0
ImmFits Format.i imm = Sext (2 ^ 11) imm
ImmFits Format.shift imm = imm < 2 ^ 5
ImmFits Format.s imm = Sext (2 ^ 11) imm
ImmFits Format.b imm = Sext (2 ^ 12) imm × (imm % 2 ≡ 0)
ImmFits Format.u imm = (imm < 2 ^ 32) × (imm % 2 ^ 12 ≡ 0)
ImmFits Format.j imm = Sext (2 ^ 20) imm × (imm % 2 ≡ 0)

-- An instruction that its format can encode.
pub record Encodable (d : DecodedInst) : Type 0 where
  pub rd_fits : d.rd < 2 ^ 5
  pub rs1_fits : d.rs1 < 2 ^ 5
  pub rs2_fits : d.rs2 < 2 ^ 5
  pub imm_fits : ImmFits (code_of d.opcode).format d.imm

-- The registers that an instruction of a format names.
abbrev pub SameRegisters : Format → DecodedInst → DecodedInst → Type 0
SameRegisters Format.r d e = (d.rd ≡ e.rd) × (d.rs1 ≡ e.rs1) × (d.rs2 ≡ e.rs2)
SameRegisters Format.i d e = (d.rd ≡ e.rd) × (d.rs1 ≡ e.rs1)
SameRegisters Format.shift d e = (d.rd ≡ e.rd) × (d.rs1 ≡ e.rs1)
SameRegisters Format.s d e = (d.rs1 ≡ e.rs1) × (d.rs2 ≡ e.rs2)
SameRegisters Format.b d e = (d.rs1 ≡ e.rs1) × (d.rs2 ≡ e.rs2)
SameRegisters Format.u d e = d.rd ≡ e.rd
SameRegisters Format.j d e = d.rd ≡ e.rd
