-- ===== src/Decode.antt =====
-- The RV32IM instruction decoder, crates/air/src/decode.rs. An immediate is an `i32`, and so the
-- `u32` of the same bits.
pub mod Encoding
pub mod Fields
pub mod Roundtrip
pub mod Bounds
use stark_v.Base.{ℕ, ◌*◌, ◌^◌, Bool, false, true, ◌&&◌, Option, none, some, List, [], ◌∷◌}
use stark_v.Base.{bit_or, ◌==◌, if◌then◌else◌, low, shr, shl32, sra32, clear_low}

pub data Opcode : Type 0 where
  -- R-type
  add sub sll slt sltu xor srl sra or and : Opcode
  -- I-type
  addi slti sltiu xori ori andi slli srli srai : Opcode
  -- loads and stores
  lb lh lw lbu lhu : Opcode
  sb sh sw : Opcode
  -- branches, jumps and upper immediates
  beq bne blt bge bltu bgeu : Opcode
  jal jalr lui auipc : Opcode
  -- M-extension
  mul mulh mulhsu mulhu div divu rem remu : Opcode

pub record DecodedInst : Type 0 where
  pub opcode : Opcode
  pub rd : ℕ
  pub rs1 : ℕ
  pub rs2 : ℕ
  pub imm : ℕ

-- A `match` on numbers: the first arm whose test holds, `None` where there is none.
abbrev pub select {ℓ} : {A : Type ℓ} → List (Bool × A) → Option A
select [] = none
select ((b, x) ∷ arms) = if b then some x else select arms

unfoldable pub r_type : ℕ → ℕ → Option Opcode
r_type funct3 funct7 = select (
    (funct3 == 0b000 && funct7 == 0b0000000, Opcode.add)
    ∷ (funct3 == 0b000 && funct7 == 0b0100000, Opcode.sub)
    ∷ (funct3 == 0b001 && funct7 == 0b0000000, Opcode.sll)
    ∷ (funct3 == 0b010 && funct7 == 0b0000000, Opcode.slt)
    ∷ (funct3 == 0b011 && funct7 == 0b0000000, Opcode.sltu)
    ∷ (funct3 == 0b100 && funct7 == 0b0000000, Opcode.xor)
    ∷ (funct3 == 0b101 && funct7 == 0b0000000, Opcode.srl)
    ∷ (funct3 == 0b101 && funct7 == 0b0100000, Opcode.sra)
    ∷ (funct3 == 0b110 && funct7 == 0b0000000, Opcode.or)
    ∷ (funct3 == 0b111 && funct7 == 0b0000000, Opcode.and)
    ∷ (funct3 == 0b000 && funct7 == 0b0000001, Opcode.mul)
    ∷ (funct3 == 0b001 && funct7 == 0b0000001, Opcode.mulh)
    ∷ (funct3 == 0b010 && funct7 == 0b0000001, Opcode.mulhsu)
    ∷ (funct3 == 0b011 && funct7 == 0b0000001, Opcode.mulhu)
    ∷ (funct3 == 0b100 && funct7 == 0b0000001, Opcode.div)
    ∷ (funct3 == 0b101 && funct7 == 0b0000001, Opcode.divu)
    ∷ (funct3 == 0b110 && funct7 == 0b0000001, Opcode.rem)
    ∷ (funct3 == 0b111 && funct7 == 0b0000001, Opcode.remu)
    ∷ [])

unfoldable pub i_type : ℕ → ℕ → Option Opcode
i_type funct3 funct7 = select (
    (funct3 == 0b000, Opcode.addi)
    ∷ (funct3 == 0b010, Opcode.slti)
    ∷ (funct3 == 0b011, Opcode.sltiu)
    ∷ (funct3 == 0b100, Opcode.xori)
    ∷ (funct3 == 0b110, Opcode.ori)
    ∷ (funct3 == 0b111, Opcode.andi)
    ∷ (funct3 == 0b001, Opcode.slli)
    ∷ (funct3 == 0b101, if funct7 == 0b0100000 then Opcode.srai else Opcode.srli)
    ∷ [])

unfoldable pub load_type : ℕ → Option Opcode
load_type funct3 = select (
    (funct3 == 0b000, Opcode.lb)
    ∷ (funct3 == 0b001, Opcode.lh)
    ∷ (funct3 == 0b010, Opcode.lw)
    ∷ (funct3 == 0b100, Opcode.lbu)
    ∷ (funct3 == 0b101, Opcode.lhu)
    ∷ [])

unfoldable pub store_type : ℕ → Option Opcode
store_type funct3 = select (
    (funct3 == 0b000, Opcode.sb) ∷ (funct3 == 0b001, Opcode.sh) ∷ (funct3 == 0b010, Opcode.sw) ∷ [])

unfoldable pub branch_type : ℕ → Option Opcode
branch_type funct3 = select (
    (funct3 == 0b000, Opcode.beq)
    ∷ (funct3 == 0b001, Opcode.bne)
    ∷ (funct3 == 0b100, Opcode.blt)
    ∷ (funct3 == 0b101, Opcode.bge)
    ∷ (funct3 == 0b110, Opcode.bltu)
    ∷ (funct3 == 0b111, Opcode.bgeu)
    ∷ [])

-- `matches!(op, Slli | Srli | Srai)`.
unfoldable pub is_shift_imm : Opcode → Bool
is_shift_imm Opcode.slli = true
is_shift_imm Opcode.srli = true
is_shift_imm Opcode.srai = true
is_shift_imm _ = false

-- The immediates of the formats.
unfoldable pub imm_i : ℕ → ℕ
imm_i inst = sra32 inst 20

unfoldable pub imm_s : ℕ → ℕ
imm_s inst =
    let imm = bit_or (low (shr inst 25) 7 * 2 ^ 5) (low (shr inst 7) 5) in sra32 (shl32 imm 20) 20

unfoldable pub imm_b : ℕ → ℕ
imm_b inst =
    let imm12 = low (shr inst 31) 1 in
    let imm10_5 = low (shr inst 25) 6 in
    let imm4_1 = low (shr inst 8) 4 in
    let imm11 = low (shr inst 7) 1 in
    let imm =
      bit_or (bit_or (bit_or (imm12 * 2 ^ 12) (imm11 * 2 ^ 11)) (imm10_5 * 2 ^ 5))
        (imm4_1 * 2 ^ 1) in
    sra32 (shl32 imm 19) 19

unfoldable pub imm_j : ℕ → ℕ
imm_j inst =
    let imm20 = low (shr inst 31) 1 in
    let imm10_1 = low (shr inst 21) 10 in
    let imm11 = low (shr inst 20) 1 in
    let imm19_12 = low (shr inst 12) 8 in
    let imm =
      bit_or (bit_or (bit_or (imm20 * 2 ^ 20) (imm19_12 * 2 ^ 12)) (imm11 * 2 ^ 11))
        (imm10_1 * 2 ^ 1) in
    sra32 (shl32 imm 11) 11

unfoldable pub imm_u : ℕ → ℕ
imm_u inst = clear_low inst 12

-- An arm's opcode with its immediate, or `return None`.
abbrev pub with_imm : Option Opcode → (Opcode → ℕ) → Option (Opcode × ℕ)
with_imm none imm = none
with_imm (some op) imm = some (op, imm op)

-- The `match opcode_bits` of `decode`.
unfoldable pub opcode_and_imm : ℕ → ℕ → ℕ → ℕ → Option (Opcode × ℕ)
opcode_and_imm opcode_bits funct3 funct7 inst =
    if opcode_bits == 0b0110011
    then with_imm (r_type funct3 funct7) (λ _. 0)
    else if opcode_bits == 0b0010011
    then with_imm (i_type funct3 funct7)
        (λ op. if is_shift_imm op then low (shr inst 20) 5 else imm_i inst)
    else if opcode_bits == 0b0000011
    then with_imm (load_type funct3) (λ _. imm_i inst)
    else if opcode_bits == 0b0100011
    then with_imm (store_type funct3) (λ _. imm_s inst)
    else if opcode_bits == 0b1100011
    then with_imm (branch_type funct3) (λ _. imm_b inst)
    else if opcode_bits == 0b1101111
    then some (Opcode.jal, imm_j inst)
    else if opcode_bits == 0b1100111
    then some (Opcode.jalr, imm_i inst)
    else if opcode_bits == 0b0110111
    then some (Opcode.lui, imm_u inst)
    else if opcode_bits == 0b0010111
    then some (Opcode.auipc, imm_u inst)
    else none

unfoldable pub decode : ℕ → Option DecodedInst
decode inst =
    let opcode_bits = low inst 7 in
    let rd = low (shr inst 7) 5 in
    let funct3 = low (shr inst 12) 3 in
    let rs1 = low (shr inst 15) 5 in
    let rs2 = low (shr inst 20) 5 in
    let funct7 = low (shr inst 25) 7 in
    elim (opcode_and_imm opcode_bits funct3 funct7 inst) [
      | none ↦ none
      | some (op, imm) ↦ some (record { opcode = op; rd = rd; rs1 = rs1; rs2 = rs2; imm = imm })
    ]
