-- ===== src/Ops/Alu.antt =====
-- R-type ALU operations, crates/runner/src/ops/alu.rs.
use stark_v.Base.{◌%◌, true, false, bit_and, bit_or, bit_xor, ltb, lt_i32, bit_of}
use stark_v.Base.{wrapping_add, wrapping_sub, low, shr, shl32, sra32}
use stark_v.Decode.{DecodedInst}
use stark_v.Trace.{TraceRow}
use stark_v.Machine.{M, ◌>>=◌, ◌>>◌, get_pc, advance_pc, read_reg, write_reg, trace_op}
use stark_v.Ops.Utils.{compute_shift_witness, compute_lt_reg_witness}

unfoldable pub add : DecodedInst → M (Unit {0})
add inst = do
  old_pc ← get_pc
  rs1 ← read_reg inst.rs1
  rs2 ← read_reg inst.rs2
  let result = wrapping_add rs1.next rs2.next
  rd ← write_reg inst.rd result
  advance_pc
  trace_op (λ clock. TraceRow.base_alu_reg (record {
    clock = clock;
    pc = old_pc;
    rd = rd;
    rs1 = rs1;
    rs2 = rs2;
    opcode_add_flag = 1;
    opcode_sub_flag = 0;
    opcode_xor_flag = 0;
    opcode_or_flag = 0;
    opcode_and_flag = 0;
  }))

unfoldable pub sub : DecodedInst → M (Unit {0})
sub inst = do
  old_pc ← get_pc
  rs1 ← read_reg inst.rs1
  rs2 ← read_reg inst.rs2
  let result = wrapping_sub rs1.next rs2.next
  rd ← write_reg inst.rd result
  advance_pc
  trace_op (λ clock. TraceRow.base_alu_reg (record {
    clock = clock;
    pc = old_pc;
    rd = rd;
    rs1 = rs1;
    rs2 = rs2;
    opcode_add_flag = 0;
    opcode_sub_flag = 1;
    opcode_xor_flag = 0;
    opcode_or_flag = 0;
    opcode_and_flag = 0;
  }))

unfoldable pub xor : DecodedInst → M (Unit {0})
xor inst = do
  old_pc ← get_pc
  rs1 ← read_reg inst.rs1
  rs2 ← read_reg inst.rs2
  let result = bit_xor rs1.next rs2.next
  rd ← write_reg inst.rd result
  advance_pc
  trace_op (λ clock. TraceRow.base_alu_reg (record {
    clock = clock;
    pc = old_pc;
    rd = rd;
    rs1 = rs1;
    rs2 = rs2;
    opcode_add_flag = 0;
    opcode_sub_flag = 0;
    opcode_xor_flag = 1;
    opcode_or_flag = 0;
    opcode_and_flag = 0;
  }))

unfoldable pub or : DecodedInst → M (Unit {0})
or inst = do
  old_pc ← get_pc
  rs1 ← read_reg inst.rs1
  rs2 ← read_reg inst.rs2
  let result = bit_or rs1.next rs2.next
  rd ← write_reg inst.rd result
  advance_pc
  trace_op (λ clock. TraceRow.base_alu_reg (record {
    clock = clock;
    pc = old_pc;
    rd = rd;
    rs1 = rs1;
    rs2 = rs2;
    opcode_add_flag = 0;
    opcode_sub_flag = 0;
    opcode_xor_flag = 0;
    opcode_or_flag = 1;
    opcode_and_flag = 0;
  }))

unfoldable pub and : DecodedInst → M (Unit {0})
and inst = do
  old_pc ← get_pc
  rs1 ← read_reg inst.rs1
  rs2 ← read_reg inst.rs2
  let result = bit_and rs1.next rs2.next
  rd ← write_reg inst.rd result
  advance_pc
  trace_op (λ clock. TraceRow.base_alu_reg (record {
    clock = clock;
    pc = old_pc;
    rd = rd;
    rs1 = rs1;
    rs2 = rs2;
    opcode_add_flag = 0;
    opcode_sub_flag = 0;
    opcode_xor_flag = 0;
    opcode_or_flag = 0;
    opcode_and_flag = 1;
  }))

unfoldable pub sll : DecodedInst → M (Unit {0})
sll inst = do
  old_pc ← get_pc
  rs1 ← read_reg inst.rs1
  rs2 ← read_reg inst.rs2
  let shamt = low rs2.next 5
  let result = shl32 rs1.next shamt
  rd ← write_reg inst.rd result
  advance_pc
  let w = compute_shift_witness rs1.next shamt true false
  let bit_multiplier = shl32 1 (shamt % 8)
  trace_op (λ clock. TraceRow.shifts_reg (record {
    clock = clock;
    pc = old_pc;
    rd = rd;
    rs1 = rs1;
    rs2 = rs2;
    rs1_sign = w.rs1_sign;
    opcode_sll_flag = 1;
    opcode_srl_flag = 0;
    opcode_sra_flag = 0;
    bit_multiplier_left = bit_multiplier;
    bit_multiplier_right = 0;
    bit_shift_marker = w.bit_shift_marker;
    limb_shift_marker = w.limb_shift_marker;
    bit_shift_carry = w.bit_shift_carry;
  }))

unfoldable pub srl : DecodedInst → M (Unit {0})
srl inst = do
  old_pc ← get_pc
  rs1 ← read_reg inst.rs1
  rs2 ← read_reg inst.rs2
  let shamt = low rs2.next 5
  let result = shr rs1.next shamt
  rd ← write_reg inst.rd result
  advance_pc
  let w = compute_shift_witness rs1.next shamt false false
  let bit_multiplier = shl32 1 (shamt % 8)
  trace_op (λ clock. TraceRow.shifts_reg (record {
    clock = clock;
    pc = old_pc;
    rd = rd;
    rs1 = rs1;
    rs2 = rs2;
    rs1_sign = w.rs1_sign;
    opcode_sll_flag = 0;
    opcode_srl_flag = 1;
    opcode_sra_flag = 0;
    bit_multiplier_left = 0;
    bit_multiplier_right = bit_multiplier;
    bit_shift_marker = w.bit_shift_marker;
    limb_shift_marker = w.limb_shift_marker;
    bit_shift_carry = w.bit_shift_carry;
  }))

unfoldable pub sra : DecodedInst → M (Unit {0})
sra inst = do
  old_pc ← get_pc
  rs1 ← read_reg inst.rs1
  rs2 ← read_reg inst.rs2
  let shamt = low rs2.next 5
  let result = sra32 rs1.next shamt
  rd ← write_reg inst.rd result
  advance_pc
  let w = compute_shift_witness rs1.next shamt false true
  let bit_multiplier = shl32 1 (shamt % 8)
  trace_op (λ clock. TraceRow.shifts_reg (record {
    clock = clock;
    pc = old_pc;
    rd = rd;
    rs1 = rs1;
    rs2 = rs2;
    rs1_sign = w.rs1_sign;
    opcode_sll_flag = 0;
    opcode_srl_flag = 0;
    opcode_sra_flag = 1;
    bit_multiplier_left = 0;
    bit_multiplier_right = bit_multiplier;
    bit_shift_marker = w.bit_shift_marker;
    limb_shift_marker = w.limb_shift_marker;
    bit_shift_carry = w.bit_shift_carry;
  }))

unfoldable pub slt : DecodedInst → M (Unit {0})
slt inst = do
  old_pc ← get_pc
  rs1 ← read_reg inst.rs1
  rs2 ← read_reg inst.rs2
  let cmp_result = bit_of (lt_i32 rs1.next rs2.next)
  rd ← write_reg inst.rd cmp_result
  advance_pc
  let w = compute_lt_reg_witness rs1.next rs2.next true
  trace_op (λ clock. TraceRow.lt_reg (record {
    clock = clock;
    pc = old_pc;
    rd = rd;
    rs1 = rs1;
    rs2 = rs2;
    cmp_result = cmp_result;
    rs1_msl_felt = w.rs1_msl_felt;
    rs2_msl_felt = w.rs2_msl_felt;
    opcode_slt_flag = 1;
    opcode_sltu_flag = 0;
    diff_marker = w.diff_marker;
    diff_val = w.diff_val;
  }))

unfoldable pub sltu : DecodedInst → M (Unit {0})
sltu inst = do
  old_pc ← get_pc
  rs1 ← read_reg inst.rs1
  rs2 ← read_reg inst.rs2
  let cmp_result = bit_of (ltb rs1.next rs2.next)
  rd ← write_reg inst.rd cmp_result
  advance_pc
  let w = compute_lt_reg_witness rs1.next rs2.next false
  trace_op (λ clock. TraceRow.lt_reg (record {
    clock = clock;
    pc = old_pc;
    rd = rd;
    rs1 = rs1;
    rs2 = rs2;
    cmp_result = cmp_result;
    rs1_msl_felt = w.rs1_msl_felt;
    rs2_msl_felt = w.rs2_msl_felt;
    opcode_slt_flag = 0;
    opcode_sltu_flag = 1;
    diff_marker = w.diff_marker;
    diff_val = w.diff_val;
  }))
