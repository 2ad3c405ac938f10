-- ===== src/Ops/Store.antt =====
-- Stores, crates/runner/src/ops/store.rs.
use stark_v.Base.{ℕ, ◌-◌, ◌%◌, Bool, true, false, List, [], ◌∷◌, ltb, if◌then◌else◌, set}
use stark_v.Base.{replicate, wrapping_add, low, shr, u8, u16}
use stark_v.Decode.{DecodedInst}
use stark_v.Trace.{TraceRow}
use stark_v.Machine.{M, ◌>>=◌, ◌>>◌, get_pc, advance_pc, read_reg, trace_op}
use stark_v.Machine.{write_u8_traced, write_u16_traced, write_u32_traced}
use stark_v.Ops.Utils.{imm_to_felt}

pub record StoreWitness : Type 0 where
  pub shift_amount : ℕ
  pub marker : List ℕ

unfoldable pub compute_store_witness : ℕ → Bool → Bool → StoreWitness
compute_store_witness addr is_byte is_half =
    let byte_offset = low addr 2 in
    record {
      shift_amount =
          if is_byte then byte_offset else if is_half then byte_offset - byte_offset % 2 else 0;
      marker =
          if is_byte
          then set (replicate 4 0) byte_offset 1
          else if is_half
          then if ltb byte_offset 2 then 1 ∷ 1 ∷ 0 ∷ 0 ∷ [] else 0 ∷ 0 ∷ 1 ∷ 1 ∷ []
          else replicate 4 0;
    }

unfoldable pub sb : DecodedInst → M (Unit {0})
sb inst = do
  old_pc ← get_pc
  rs1 ← read_reg inst.rs1
  rs2 ← read_reg inst.rs2
  let addr = wrapping_add rs1.next inst.imm
  let value = u8 rs2.next
  mem ← write_u8_traced addr value
  advance_pc
  let w = compute_store_witness addr true false
  trace_op (λ clock. TraceRow.load_store (record {
    clock = clock;
    pc = old_pc;
    dst = mem;
    rs1 = rs1;
    src = rs2;
    r2_idx = inst.rs2;
    imm_felt = imm_to_felt inst.imm;
    src_msb = low (shr value 7) 1;
    shift_amount = w.shift_amount;
    src_addr_selector = inst.rs2;
    dst_addr_selector = addr - w.shift_amount;
    marker = w.marker;
    opcode_lb_flag = 0;
    opcode_lh_flag = 0;
    opcode_lbu_flag = 0;
    opcode_lhu_flag = 0;
    opcode_lw_flag = 0;
    opcode_sb_flag = 1;
    opcode_sh_flag = 0;
    opcode_sw_flag = 0;
  }))

unfoldable pub sh : DecodedInst → M (Unit {0})
sh inst = do
  old_pc ← get_pc
  rs1 ← read_reg inst.rs1
  rs2 ← read_reg inst.rs2
  let addr = wrapping_add rs1.next inst.imm
  let value = u16 rs2.next
  mem ← write_u16_traced addr value
  advance_pc
  let w = compute_store_witness addr false true
  trace_op (λ clock. TraceRow.load_store (record {
    clock = clock;
    pc = old_pc;
    dst = mem;
    rs1 = rs1;
    src = rs2;
    r2_idx = inst.rs2;
    imm_felt = imm_to_felt inst.imm;
    src_msb = low (shr value 15) 1;
    shift_amount = w.shift_amount;
    src_addr_selector = inst.rs2;
    dst_addr_selector = addr - w.shift_amount;
    marker = w.marker;
    opcode_lb_flag = 0;
    opcode_lh_flag = 0;
    opcode_lbu_flag = 0;
    opcode_lhu_flag = 0;
    opcode_lw_flag = 0;
    opcode_sb_flag = 0;
    opcode_sh_flag = 1;
    opcode_sw_flag = 0;
  }))

unfoldable pub sw : DecodedInst → M (Unit {0})
sw inst = do
  old_pc ← get_pc
  rs1 ← read_reg inst.rs1
  rs2 ← read_reg inst.rs2
  let addr = wrapping_add rs1.next inst.imm
  let value = rs2.next
  mem ← write_u32_traced addr value
  advance_pc
  let w = compute_store_witness addr false false
  trace_op (λ clock. TraceRow.load_store (record {
    clock = clock;
    pc = old_pc;
    dst = mem;
    rs1 = rs1;
    src = rs2;
    r2_idx = inst.rs2;
    imm_felt = imm_to_felt inst.imm;
    src_msb = low (shr value 31) 1;
    shift_amount = w.shift_amount;
    src_addr_selector = inst.rs2;
    dst_addr_selector = addr - w.shift_amount;
    marker = w.marker;
    opcode_lb_flag = 0;
    opcode_lh_flag = 0;
    opcode_lbu_flag = 0;
    opcode_lhu_flag = 0;
    opcode_lw_flag = 0;
    opcode_sb_flag = 0;
    opcode_sh_flag = 0;
    opcode_sw_flag = 1;
  }))
