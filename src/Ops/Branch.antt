-- ===== src/Ops/Branch.antt =====
-- Branches, crates/runner/src/ops/branch.rs.
use stark_v.Base.{
  ℕ, ◌-◌, Bool, true, false, not, List, ltb, leb, lt_i32, bit_of, ◌==◌, if◌then◌else◌,
}
use stark_v.Base.{wrapping_add, byte_of, set, replicate}
use stark_v.Decode.{DecodedInst}
use stark_v.Trace.{TraceRow}
use stark_v.Machine.{M, ◌>>=◌, ◌>>◌, get_pc, set_pc, advance_pc, read_reg, trace_op}
use stark_v.Ops.Utils.{m31_p, m31_inverse, imm_to_felt, compute_lt_reg_witness}

-- The difference of two bytes in the field.
unfoldable pub byte_diff : ℕ → ℕ → ℕ
byte_diff a b = if ltb b a then a - b else m31_p - (b - a)

unfoldable pub inverse_at : ℕ → ℕ → ℕ → List ℕ → List ℕ
unfolding byte_diff
inverse_at i a b rest = if a == b then rest else set (replicate 4 0) i (m31_inverse (byte_diff a b))

-- `diff_inv_marker`: the inverse of the first difference, from the lowest byte.
unfoldable pub compute_branch_eq_witness : ℕ → ℕ → List ℕ
unfolding inverse_at
compute_branch_eq_witness rs1_val rs2_val = inverse_at 0 (byte_of rs1_val 0) (byte_of rs2_val 0) (
    inverse_at 1 (byte_of rs1_val 1) (byte_of rs2_val 1) (
      inverse_at 2 (byte_of rs1_val 2) (byte_of rs2_val 2)
        (inverse_at 3 (byte_of rs1_val 3) (byte_of rs2_val 3) (replicate 4 0))))

-- `if taken { cpu.pc = cpu.pc.wrapping_add(imm) } else { cpu.advance_pc() }`.
unfoldable pub branch_to : Bool → ℕ → M (Unit {0})
branch_to taken imm = if taken then (do pc ← get_pc; set_pc (wrapping_add pc imm)) else advance_pc

unfoldable pub beq : DecodedInst → M (Unit {0})
beq inst = do
  rs1 ← read_reg inst.rs1
  rs2 ← read_reg inst.rs2
  let taken = rs1.next == rs2.next
  old_pc ← get_pc
  branch_to taken inst.imm
  let w = compute_branch_eq_witness rs1.next rs2.next
  trace_op (λ clock. TraceRow.branch_eq (record {
    clock = clock;
    pc = old_pc;
    rs1 = rs1;
    rs2 = rs2;
    imm_felt = imm_to_felt inst.imm;
    cmp_result = bit_of taken;
    diff_inv_marker = w;
    opcode_beq_flag = 1;
    opcode_bne_flag = 0;
  }))

unfoldable pub bne : DecodedInst → M (Unit {0})
bne inst = do
  rs1 ← read_reg inst.rs1
  rs2 ← read_reg inst.rs2
  let taken = not (rs1.next == rs2.next)
  old_pc ← get_pc
  branch_to taken inst.imm
  let w = compute_branch_eq_witness rs1.next rs2.next
  trace_op (λ clock. TraceRow.branch_eq (record {
    clock = clock;
    pc = old_pc;
    rs1 = rs1;
    rs2 = rs2;
    imm_felt = imm_to_felt inst.imm;
    cmp_result = bit_of taken;
    diff_inv_marker = w;
    opcode_beq_flag = 0;
    opcode_bne_flag = 1;
  }))

unfoldable pub blt : DecodedInst → M (Unit {0})
blt inst = do
  rs1 ← read_reg inst.rs1
  rs2 ← read_reg inst.rs2
  let lt = lt_i32 rs1.next rs2.next
  let taken = lt
  old_pc ← get_pc
  branch_to taken inst.imm
  branch_target ← get_pc
  let w = compute_lt_reg_witness rs1.next rs2.next true
  trace_op (λ clock. TraceRow.branch_lt (record {
    clock = clock;
    pc = old_pc;
    rs1 = rs1;
    rs2 = rs2;
    rs1_msl_felt = w.rs1_msl_felt;
    rs2_msl_felt = w.rs2_msl_felt;
    imm_felt = imm_to_felt inst.imm;
    cmp_result = bit_of taken;
    cmp_lt = bit_of lt;
    diff_marker = w.diff_marker;
    diff_val = w.diff_val;
    branch_target = branch_target;
    opcode_blt_flag = 1;
    opcode_bltu_flag = 0;
    opcode_bge_flag = 0;
    opcode_bgeu_flag = 0;
  }))

unfoldable pub bltu : DecodedInst → M (Unit {0})
bltu inst = do
  rs1 ← read_reg inst.rs1
  rs2 ← read_reg inst.rs2
  let lt = ltb rs1.next rs2.next
  let taken = lt
  old_pc ← get_pc
  branch_to taken inst.imm
  branch_target ← get_pc
  let w = compute_lt_reg_witness rs1.next rs2.next false
  trace_op (λ clock. TraceRow.branch_lt (record {
    clock = clock;
    pc = old_pc;
    rs1 = rs1;
    rs2 = rs2;
    rs1_msl_felt = w.rs1_msl_felt;
    rs2_msl_felt = w.rs2_msl_felt;
    imm_felt = imm_to_felt inst.imm;
    cmp_result = bit_of taken;
    cmp_lt = bit_of lt;
    diff_marker = w.diff_marker;
    diff_val = w.diff_val;
    branch_target = branch_target;
    opcode_blt_flag = 0;
    opcode_bltu_flag = 1;
    opcode_bge_flag = 0;
    opcode_bgeu_flag = 0;
  }))

unfoldable pub bge : DecodedInst → M (Unit {0})
bge inst = do
  rs1 ← read_reg inst.rs1
  rs2 ← read_reg inst.rs2
  let lt = lt_i32 rs1.next rs2.next
  let taken = not (lt_i32 rs1.next rs2.next)
  old_pc ← get_pc
  branch_to taken inst.imm
  branch_target ← get_pc
  let w = compute_lt_reg_witness rs1.next rs2.next true
  trace_op (λ clock. TraceRow.branch_lt (record {
    clock = clock;
    pc = old_pc;
    rs1 = rs1;
    rs2 = rs2;
    rs1_msl_felt = w.rs1_msl_felt;
    rs2_msl_felt = w.rs2_msl_felt;
    imm_felt = imm_to_felt inst.imm;
    cmp_result = bit_of taken;
    cmp_lt = bit_of lt;
    diff_marker = w.diff_marker;
    diff_val = w.diff_val;
    branch_target = branch_target;
    opcode_blt_flag = 0;
    opcode_bltu_flag = 0;
    opcode_bge_flag = 1;
    opcode_bgeu_flag = 0;
  }))

unfoldable pub bgeu : DecodedInst → M (Unit {0})
bgeu inst = do
  rs1 ← read_reg inst.rs1
  rs2 ← read_reg inst.rs2
  let lt = ltb rs1.next rs2.next
  let taken = leb rs2.next rs1.next
  old_pc ← get_pc
  branch_to taken inst.imm
  branch_target ← get_pc
  let w = compute_lt_reg_witness rs1.next rs2.next false
  trace_op (λ clock. TraceRow.branch_lt (record {
    clock = clock;
    pc = old_pc;
    rs1 = rs1;
    rs2 = rs2;
    rs1_msl_felt = w.rs1_msl_felt;
    rs2_msl_felt = w.rs2_msl_felt;
    imm_felt = imm_to_felt inst.imm;
    cmp_result = bit_of taken;
    cmp_lt = bit_of lt;
    diff_marker = w.diff_marker;
    diff_val = w.diff_val;
    branch_target = branch_target;
    opcode_blt_flag = 0;
    opcode_bltu_flag = 0;
    opcode_bge_flag = 0;
    opcode_bgeu_flag = 1;
  }))
