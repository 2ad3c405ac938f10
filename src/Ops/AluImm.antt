-- ===== src/Ops/AluImm.antt =====
-- I-type ALU operations, crates/runner/src/ops/alu_imm.rs.
use stark_v.Base.{ℕ, ◌%◌, true, false, bit_and, bit_or, bit_xor, ltb, lt_i32, bit_of}
use stark_v.Base.{wrapping_add, low, shr, shl32, sra32}
use stark_v.Decode.{DecodedInst}
use stark_v.Trace.{TraceRow}
use stark_v.Machine.{M, ◌>>=◌, ◌>>◌, get_pc, advance_pc, read_reg, write_reg, trace_op}
use stark_v.Ops.Utils.{compute_shift_witness, compute_lt_imm_witness}

-- The immediate's 12 bits as 8, 3 and 1.
unfoldable pub decode_imm_limbs : ℕ → ℕ × ℕ × ℕ
decode_imm_limbs imm =
    let imm_unsigned = low imm 12 in
    (low imm_unsigned 8, low (shr imm_unsigned 8) 3, low (shr imm_unsigned 11) 1)

unfoldable pub addi : DecodedInst → M (Unit {0})
addi inst = do
  old_pc ← get_pc
  rs1 ← read_reg inst.rs1
  let result = wrapping_add rs1.next inst.imm
  rd ← write_reg inst.rd result
  advance_pc
  let limbs = decode_imm_limbs inst.imm
  trace_op (λ clock. TraceRow.base_alu_imm (record {
    clock = clock;
    pc = old_pc;
    rd = rd;
    rs1 = rs1;
    imm_0 = limbs.0;
    imm_1 = limbs.1;
    imm_msb = limbs.2;
    opcode_add_flag = 1;
    opcode_xor_flag = 0;
    opcode_or_flag = 0;
    opcode_and_flag = 0;
  }))

unfoldable pub xori : DecodedInst → M (Unit {0})
xori inst = do
  old_pc ← get_pc
  rs1 ← read_reg inst.rs1
  let result = bit_xor rs1.next inst.imm
  rd ← write_reg inst.rd result
  advance_pc
  let limbs = decode_imm_limbs inst.imm
  trace_op (λ clock. TraceRow.base_alu_imm (record {
    clock = clock;
    pc = old_pc;
    rd = rd;
    rs1 = rs1;
    imm_0 = limbs.0;
    imm_1 = limbs.1;
    imm_msb = limbs.2;
    opcode_add_flag = 0;
    opcode_xor_flag = 1;
    opcode_or_flag = 0;
    opcode_and_flag = 0;
  }))

unfoldable pub ori : DecodedInst → M (Unit {0})
ori inst = do
  old_pc ← get_pc
  rs1 ← read_reg inst.rs1
  let result = bit_or rs1.next inst.imm
  rd ← write_reg inst.rd result
  advance_pc
  let limbs = decode_imm_limbs inst.imm
  trace_op (λ clock. TraceRow.base_alu_imm (record {
    clock = clock;
    pc = old_pc;
    rd = rd;
    rs1 = rs1;
    imm_0 = limbs.0;
    imm_1 = limbs.1;
    imm_msb = limbs.2;
    opcode_add_flag = 0;
    opcode_xor_flag = 0;
    opcode_or_flag = 1;
    opcode_and_flag = 0;
  }))

unfoldable pub andi : DecodedInst → M (Unit {0})
andi inst = do
  old_pc ← get_pc
  rs1 ← read_reg inst.rs1
  let result = bit_and rs1.next inst.imm
  rd ← write_reg inst.rd result
  advance_pc
  let limbs = decode_imm_limbs inst.imm
  trace_op (λ clock. TraceRow.base_alu_imm (record {
    clock = clock;
    pc = old_pc;
    rd = rd;
    rs1 = rs1;
    imm_0 = limbs.0;
    imm_1 = limbs.1;
    imm_msb = limbs.2;
    opcode_add_flag = 0;
    opcode_xor_flag = 0;
    opcode_or_flag = 0;
    opcode_and_flag = 1;
  }))

unfoldable pub slli : DecodedInst → M (Unit {0})
slli inst = do
  old_pc ← get_pc
  rs1 ← read_reg inst.rs1
  let shamt = low inst.imm 5
  let result = shl32 rs1.next shamt
  rd ← write_reg inst.rd result
  advance_pc
  let w = compute_shift_witness rs1.next shamt true false
  let bit_multiplier = shl32 1 (shamt % 8)
  trace_op (λ clock. TraceRow.shifts_imm (record {
    clock = clock;
    pc = old_pc;
    rd = rd;
    rs1 = rs1;
    rs1_sign = w.rs1_sign;
    imm_truncated = shamt;
    opcode_sll_flag = 1;
    opcode_srl_flag = 0;
    opcode_sra_flag = 0;
    bit_multiplier_left = bit_multiplier;
    bit_multiplier_right = 0;
    bit_shift_marker = w.bit_shift_marker;
    limb_shift_marker = w.limb_shift_marker;
    bit_shift_carry = w.bit_shift_carry;
  }))

unfoldable pub srli : DecodedInst → M (Unit {0})
srli inst = do
  old_pc ← get_pc
  rs1 ← read_reg inst.rs1
  let shamt = low inst.imm 5
  let result = shr rs1.next shamt
  rd ← write_reg inst.rd result
  advance_pc
  let w = compute_shift_witness rs1.next shamt false false
  let bit_multiplier = shl32 1 (shamt % 8)
  trace_op (λ clock. TraceRow.shifts_imm (record {
    clock = clock;
    pc = old_pc;
    rd = rd;
    rs1 = rs1;
    rs1_sign = w.rs1_sign;
    imm_truncated = shamt;
    opcode_sll_flag = 0;
    opcode_srl_flag = 1;
    opcode_sra_flag = 0;
    bit_multiplier_left = 0;
    bit_multiplier_right = bit_multiplier;
    bit_shift_marker = w.bit_shift_marker;
    limb_shift_marker = w.limb_shift_marker;
    bit_shift_carry = w.bit_shift_carry;
  }))

unfoldable pub srai : DecodedInst → M (Unit {0})
srai inst = do
  old_pc ← get_pc
  rs1 ← read_reg inst.rs1
  let shamt = low inst.imm 5
  let result = sra32 rs1.next shamt
  rd ← write_reg inst.rd result
  advance_pc
  let w = compute_shift_witness rs1.next shamt false true
  let bit_multiplier = shl32 1 (shamt % 8)
  trace_op (λ clock. TraceRow.shifts_imm (record {
    clock = clock;
    pc = old_pc;
    rd = rd;
    rs1 = rs1;
    rs1_sign = w.rs1_sign;
    imm_truncated = shamt;
    opcode_sll_flag = 0;
    opcode_srl_flag = 0;
    opcode_sra_flag = 1;
    bit_multiplier_left = 0;
    bit_multiplier_right = bit_multiplier;
    bit_shift_marker = w.bit_shift_marker;
    limb_shift_marker = w.limb_shift_marker;
    bit_shift_carry = w.bit_shift_carry;
  }))

unfoldable pub slti : DecodedInst → M (Unit {0})
slti inst = do
  old_pc ← get_pc
  rs1 ← read_reg inst.rs1
  let cmp_result = bit_of (lt_i32 rs1.next inst.imm)
  rd ← write_reg inst.rd cmp_result
  advance_pc
  let limbs = decode_imm_limbs inst.imm
  let w = compute_lt_imm_witness rs1.next inst.imm true
  trace_op (λ clock. TraceRow.lt_imm (record {
    clock = clock;
    pc = old_pc;
    rd = rd;
    rs1 = rs1;
    cmp_result = cmp_result;
    rs1_msl_felt = w.rs1_msl_felt;
    imm_0 = limbs.0;
    imm_1 = limbs.1;
    imm_msb = limbs.2;
    opcode_slti_flag = 1;
    opcode_sltiu_flag = 0;
    diff_marker = w.diff_marker;
    diff_val = w.diff_val;
  }))

unfoldable pub sltiu : DecodedInst → M (Unit {0})
sltiu inst = do
  old_pc ← get_pc
  rs1 ← read_reg inst.rs1
  let cmp_result = bit_of (ltb rs1.next inst.imm)
  rd ← write_reg inst.rd cmp_result
  advance_pc
  let limbs = decode_imm_limbs inst.imm
  let w = compute_lt_imm_witness rs1.next inst.imm false
  trace_op (λ clock. TraceRow.lt_imm (record {
    clock = clock;
    pc = old_pc;
    rd = rd;
    rs1 = rs1;
    cmp_result = cmp_result;
    rs1_msl_felt = w.rs1_msl_felt;
    imm_0 = limbs.0;
    imm_1 = limbs.1;
    imm_msb = limbs.2;
    opcode_slti_flag = 0;
    opcode_sltiu_flag = 1;
    diff_marker = w.diff_marker;
    diff_val = w.diff_val;
  }))
