-- ===== src/Program.antt =====
-- The program table: an instruction as four limbs, crates/runner/src/program.rs.
use stark_v.Base.{ℕ, zero, suc, ◌+◌, ◌-◌, ◌/◌, List, [], ◌∷◌, none, some, Result, and_then}
use stark_v.Base.{◌==◌, if◌then◌else◌, low, shr}
use stark_v.Decode.{Opcode, DecodedInst, decode}
use stark_v.Memory.{Memory, read_u32}
use stark_v.Ops.Utils.{imm_to_felt}

-- `CommitmentError`.
pub data CommitmentError : Type 0 where
  decode_failure : ℕ → ℕ → CommitmentError

pub record ProgramRow : Type 0 where
  pub addr : ℕ
  pub values : List ℕ

-- The shapes in which the limbs after the opcode are laid out.
pub data Limbs : Type 0 where
  registers store load shift arithmetic jalr lui auipc_or_jal branch : Limbs

-- `opcode as u32`.
unfoldable pub opcode_id : Opcode → ℕ
opcode_id Opcode.add = 0
opcode_id Opcode.sub = 1
opcode_id Opcode.sll = 2
opcode_id Opcode.slt = 3
opcode_id Opcode.sltu = 4
opcode_id Opcode.xor = 5
opcode_id Opcode.srl = 6
opcode_id Opcode.sra = 7
opcode_id Opcode.or = 8
opcode_id Opcode.and = 9
opcode_id Opcode.addi = 10
opcode_id Opcode.slti = 11
opcode_id Opcode.sltiu = 12
opcode_id Opcode.xori = 13
opcode_id Opcode.ori = 14
opcode_id Opcode.andi = 15
opcode_id Opcode.slli = 16
opcode_id Opcode.srli = 17
opcode_id Opcode.srai = 18
opcode_id Opcode.lb = 19
opcode_id Opcode.lh = 20
opcode_id Opcode.lw = 21
opcode_id Opcode.lbu = 22
opcode_id Opcode.lhu = 23
opcode_id Opcode.sb = 24
opcode_id Opcode.sh = 25
opcode_id Opcode.sw = 26
opcode_id Opcode.beq = 27
opcode_id Opcode.bne = 28
opcode_id Opcode.blt = 29
opcode_id Opcode.bge = 30
opcode_id Opcode.bltu = 31
opcode_id Opcode.bgeu = 32
opcode_id Opcode.jal = 33
opcode_id Opcode.jalr = 34
opcode_id Opcode.lui = 35
opcode_id Opcode.auipc = 36
opcode_id Opcode.mul = 37
opcode_id Opcode.mulh = 38
opcode_id Opcode.mulhsu = 39
opcode_id Opcode.mulhu = 40
opcode_id Opcode.div = 41
opcode_id Opcode.divu = 42
opcode_id Opcode.rem = 43
opcode_id Opcode.remu = 44

-- The arm of the `match` that takes an opcode.
unfoldable pub limbs_of : Opcode → Limbs
limbs_of Opcode.sb = Limbs.store
limbs_of Opcode.sh = Limbs.store
limbs_of Opcode.sw = Limbs.store
limbs_of Opcode.lb = Limbs.load
limbs_of Opcode.lh = Limbs.load
limbs_of Opcode.lw = Limbs.load
limbs_of Opcode.lbu = Limbs.load
limbs_of Opcode.lhu = Limbs.load
limbs_of Opcode.slli = Limbs.shift
limbs_of Opcode.srli = Limbs.shift
limbs_of Opcode.srai = Limbs.shift
limbs_of Opcode.addi = Limbs.arithmetic
limbs_of Opcode.slti = Limbs.arithmetic
limbs_of Opcode.sltiu = Limbs.arithmetic
limbs_of Opcode.xori = Limbs.arithmetic
limbs_of Opcode.ori = Limbs.arithmetic
limbs_of Opcode.andi = Limbs.arithmetic
limbs_of Opcode.jalr = Limbs.jalr
limbs_of Opcode.lui = Limbs.lui
limbs_of Opcode.auipc = Limbs.auipc_or_jal
limbs_of Opcode.jal = Limbs.auipc_or_jal
limbs_of Opcode.beq = Limbs.branch
limbs_of Opcode.bne = Limbs.branch
limbs_of Opcode.blt = Limbs.branch
limbs_of Opcode.bge = Limbs.branch
limbs_of Opcode.bltu = Limbs.branch
limbs_of Opcode.bgeu = Limbs.branch
limbs_of _ = Limbs.registers

unfoldable pub limbs_values : Limbs → DecodedInst → ℕ → List ℕ
unfolding opcode_id
limbs_values Limbs.registers inst word = opcode_id inst.opcode ∷ inst.rd ∷ inst.rs1 ∷ inst.rs2 ∷ []
limbs_values Limbs.store inst word =
    opcode_id inst.opcode ∷ inst.rs1 ∷ inst.rs2 ∷ imm_to_felt inst.imm ∷ []
limbs_values Limbs.load inst word =
    opcode_id inst.opcode ∷ inst.rs1 ∷ inst.rd ∷ imm_to_felt inst.imm ∷ []
limbs_values Limbs.shift inst word =
    opcode_id inst.opcode ∷ inst.rd ∷ inst.rs1 ∷ low inst.imm 5 ∷ []
limbs_values Limbs.arithmetic inst word =
    opcode_id inst.opcode ∷ inst.rd ∷ inst.rs1 ∷ low inst.imm 12 ∷ []
limbs_values Limbs.jalr inst word =
    opcode_id inst.opcode ∷ inst.rd ∷ inst.rs1 ∷ imm_to_felt inst.imm ∷ []
limbs_values Limbs.lui inst word = opcode_id inst.opcode ∷ inst.rd ∷ low (shr word 12) 20 ∷ 0 ∷ []
limbs_values Limbs.auipc_or_jal inst word =
    opcode_id inst.opcode ∷ inst.rd ∷ imm_to_felt inst.imm ∷ 0 ∷ []
limbs_values Limbs.branch inst word =
    opcode_id inst.opcode ∷ inst.rs1 ∷ inst.rs2 ∷ imm_to_felt inst.imm ∷ []

unfoldable pub decode_program_word : ℕ → ℕ → Result CommitmentError (List ℕ)
unfolding limbs_values limbs_of
decode_program_word addr word = elim (decode word) [
  | none ↦ Result.err (CommitmentError.decode_failure addr word)
  | some inst ↦ Result.ok (limbs_values (limbs_of inst.opcode) inst word)
]

-- The loop of `decode_program` over `n` words from `addr` on.
unfoldable pub decode_words : ℕ → Memory → ℕ → Result CommitmentError (List ProgramRow)
unfolding decode_program_word
decode_words zero mem addr = Result.ok []
decode_words (suc n) mem addr =
    let word = read_u32 mem addr in
    let rest = decode_words n mem (addr + 4) in
    if word == 0
    then rest
    else and_then (decode_program_word addr word) (λ values.
      and_then rest (λ rows. Result.ok (record { addr = addr; values = values } ∷ rows)))

-- `(base..end).step_by(4)` has as many addresses as the range has words, begun ones included.
unfoldable pub decode_program : Memory → ℕ → ℕ → Result CommitmentError (List ProgramRow)
unfolding decode_words
decode_program mem program_base program_end =
    decode_words ((program_end - program_base + 3) / 4) mem program_base
