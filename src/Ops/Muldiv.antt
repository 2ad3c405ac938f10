-- ===== src/Ops/Muldiv.antt =====
-- Multiplication and division, crates/runner/src/ops/muldiv.rs.
mod Division
unfoldable pub use Division.*
use stark_v.Base.{ℕ, ◌+◌, ◌-◌, ◌*◌, ◌/◌, ◌%◌, ◌^◌, Bool, true, false, List, [], ◌∷◌, ◌==◌, ◌&&◌}
use stark_v.Base.{if◌then◌else◌, low, shr, u32, sext64, div_i32, rem_i32}
use stark_v.Decode.{DecodedInst}
use stark_v.Trace.{Access, TraceRow}
use stark_v.Machine.{M, ◌>>=◌, ◌>>◌, get_pc, advance_pc, read_reg, write_reg, trace_op}

-- `i64::wrapping_mul`, an `i64` being the `u64` of the same bits.
abbrev pub mul_i64 : ℕ → ℕ → ℕ
mul_i64 a b = a * b % 2 ^ 64

pub record MulhWitness : Type 0 where
  pub hi : ℕ
  pub rd_high : List ℕ
  pub rs1_sign : ℕ
  pub rs2_sign : ℕ

unfoldable pub compute_mulh_witness : ℕ → ℕ → Bool → Bool → MulhWitness
compute_mulh_witness rs1_val rs2_val rs1_signed rs2_signed =
    let a = if rs1_signed then sext64 rs1_val else rs1_val in
    let b = if rs2_signed then sext64 rs2_val else rs2_val in
    let product = mul_i64 a b in
    let lo = u32 product in
    record {
      hi = u32 (shr product 32);
      rd_high = low lo 8 ∷ low (shr lo 8) 8 ∷ low (shr lo 16) 8 ∷ low (shr lo 24) 8 ∷ [];
      rs1_sign = if rs1_signed then low (shr rs1_val 31) 1 else 0;
      rs2_sign = if rs2_signed then low (shr rs2_val 31) 1 else 0;
    }

unfoldable pub mul : DecodedInst → M (Unit {0})
mul inst = do
  old_pc ← get_pc
  rs1 ← read_reg inst.rs1
  rs2 ← read_reg inst.rs2
  let result = u32 (mul_i64 (sext64 rs1.next) (sext64 rs2.next))
  rd ← write_reg inst.rd result
  advance_pc
  trace_op
      (λ clock. TraceRow.mul (record { clock = clock; pc = old_pc; rd = rd; rs1 = rs1; rs2 = rs2 }))

unfoldable pub mulh : DecodedInst → M (Unit {0})
mulh inst = do
  old_pc ← get_pc
  rs1 ← read_reg inst.rs1
  rs2 ← read_reg inst.rs2
  let w = compute_mulh_witness rs1.next rs2.next true true
  rd ← write_reg inst.rd w.hi
  advance_pc
  trace_op (λ clock. TraceRow.mulh (record {
    clock = clock;
    pc = old_pc;
    rd = rd;
    rs1 = rs1;
    rs2 = rs2;
    rs1_sign = w.rs1_sign;
    rs2_sign = w.rs2_sign;
    opcode_mulh_flag = 1;
    opcode_mulhsu_flag = 0;
    opcode_mulhu_flag = 0;
    rd_high = w.rd_high;
  }))

unfoldable pub mulhsu : DecodedInst → M (Unit {0})
mulhsu inst = do
  old_pc ← get_pc
  rs1 ← read_reg inst.rs1
  rs2 ← read_reg inst.rs2
  let w = compute_mulh_witness rs1.next rs2.next true false
  rd ← write_reg inst.rd w.hi
  advance_pc
  trace_op (λ clock. TraceRow.mulh (record {
    clock = clock;
    pc = old_pc;
    rd = rd;
    rs1 = rs1;
    rs2 = rs2;
    rs1_sign = w.rs1_sign;
    rs2_sign = w.rs2_sign;
    opcode_mulh_flag = 0;
    opcode_mulhsu_flag = 1;
    opcode_mulhu_flag = 0;
    rd_high = w.rd_high;
  }))

unfoldable pub mulhu : DecodedInst → M (Unit {0})
mulhu inst = do
  old_pc ← get_pc
  rs1 ← read_reg inst.rs1
  rs2 ← read_reg inst.rs2
  let w = compute_mulh_witness rs1.next rs2.next false false
  rd ← write_reg inst.rd w.hi
  advance_pc
  trace_op (λ clock. TraceRow.mulh (record {
    clock = clock;
    pc = old_pc;
    rd = rd;
    rs1 = rs1;
    rs2 = rs2;
    rs1_sign = w.rs1_sign;
    rs2_sign = w.rs2_sign;
    opcode_mulh_flag = 0;
    opcode_mulhsu_flag = 0;
    opcode_mulhu_flag = 1;
    rd_high = w.rd_high;
  }))

unfoldable pub div : DecodedInst → M (Unit {0})
div inst = do
  old_pc ← get_pc
  rs1 ← read_reg inst.rs1
  rs2 ← read_reg inst.rs2
  let result : ℕ =
      if rs2.next == 0
      then 0xffff_ffff
      else if rs1.next == 0x8000_0000 && rs2.next == 0xffff_ffff
      then rs1.next
      else div_i32 rs1.next rs2.next
  rd ← write_reg inst.rd result
  advance_pc
  let w = compute_div_witness rs1.next rs2.next true
  trace_op (λ clock. TraceRow.div (record {
    clock = clock;
    pc = old_pc;
    rd = rd;
    rs1 = rs1;
    rs2 = rs2;
    zero_divisor = w.zero_divisor;
    r_zero = w.r_zero;
    q = w.q;
    r = w.r;
    b_sign = w.b_sign;
    c_sign = w.c_sign;
    q_sign = w.q_sign;
    sign_xor = w.sign_xor;
    c_sum_inv = w.c_sum_inv;
    r_sum_inv = w.r_sum_inv;
    r_abs = w.r_abs;
    r_inv = w.r_inv;
    lt_marker = w.lt_marker;
    lt_diff = w.lt_diff;
    opcode_div_flag = 1;
    opcode_divu_flag = 0;
    opcode_rem_flag = 0;
    opcode_remu_flag = 0;
  }))

unfoldable pub divu : DecodedInst → M (Unit {0})
divu inst = do
  old_pc ← get_pc
  rs1 ← read_reg inst.rs1
  rs2 ← read_reg inst.rs2
  let result : ℕ = if rs2.next == 0 then 0xffff_ffff else rs1.next / rs2.next
  rd ← write_reg inst.rd result
  advance_pc
  let w = compute_div_witness rs1.next rs2.next false
  trace_op (λ clock. TraceRow.div (record {
    clock = clock;
    pc = old_pc;
    rd = rd;
    rs1 = rs1;
    rs2 = rs2;
    zero_divisor = w.zero_divisor;
    r_zero = w.r_zero;
    q = w.q;
    r = w.r;
    b_sign = w.b_sign;
    c_sign = w.c_sign;
    q_sign = w.q_sign;
    sign_xor = w.sign_xor;
    c_sum_inv = w.c_sum_inv;
    r_sum_inv = w.r_sum_inv;
    r_abs = w.r_abs;
    r_inv = w.r_inv;
    lt_marker = w.lt_marker;
    lt_diff = w.lt_diff;
    opcode_div_flag = 0;
    opcode_divu_flag = 1;
    opcode_rem_flag = 0;
    opcode_remu_flag = 0;
  }))

unfoldable pub rem : DecodedInst → M (Unit {0})
rem inst = do
  old_pc ← get_pc
  rs1 ← read_reg inst.rs1
  rs2 ← read_reg inst.rs2
  let result : ℕ =
      if rs2.next == 0
      then rs1.next
      else if rs1.next == 0x8000_0000 && rs2.next == 0xffff_ffff
      then 0
      else rem_i32 rs1.next rs2.next
  rd ← write_reg inst.rd result
  advance_pc
  let w = compute_div_witness rs1.next rs2.next true
  trace_op (λ clock. TraceRow.div (record {
    clock = clock;
    pc = old_pc;
    rd = rd;
    rs1 = rs1;
    rs2 = rs2;
    zero_divisor = w.zero_divisor;
    r_zero = w.r_zero;
    q = w.q;
    r = w.r;
    b_sign = w.b_sign;
    c_sign = w.c_sign;
    q_sign = w.q_sign;
    sign_xor = w.sign_xor;
    c_sum_inv = w.c_sum_inv;
    r_sum_inv = w.r_sum_inv;
    r_abs = w.r_abs;
    r_inv = w.r_inv;
    lt_marker = w.lt_marker;
    lt_diff = w.lt_diff;
    opcode_div_flag = 0;
    opcode_divu_flag = 0;
    opcode_rem_flag = 1;
    opcode_remu_flag = 0;
  }))

unfoldable pub remu : DecodedInst → M (Unit {0})
remu inst = do
  old_pc ← get_pc
  rs1 ← read_reg inst.rs1
  rs2 ← read_reg inst.rs2
  let result : ℕ = if rs2.next == 0 then rs1.next else rs1.next % rs2.next
  rd ← write_reg inst.rd result
  advance_pc
  let w = compute_div_witness rs1.next rs2.next false
  trace_op (λ clock. TraceRow.div (record {
    clock = clock;
    pc = old_pc;
    rd = rd;
    rs1 = rs1;
    rs2 = rs2;
    zero_divisor = w.zero_divisor;
    r_zero = w.r_zero;
    q = w.q;
    r = w.r;
    b_sign = w.b_sign;
    c_sign = w.c_sign;
    q_sign = w.q_sign;
    sign_xor = w.sign_xor;
    c_sum_inv = w.c_sum_inv;
    r_sum_inv = w.r_sum_inv;
    r_abs = w.r_abs;
    r_inv = w.r_inv;
    lt_marker = w.lt_marker;
    lt_diff = w.lt_diff;
    opcode_div_flag = 0;
    opcode_divu_flag = 0;
    opcode_rem_flag = 0;
    opcode_remu_flag = 1;
  }))
