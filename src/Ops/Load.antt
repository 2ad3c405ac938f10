-- ===== src/Ops/Load.antt =====
-- Loads, crates/runner/src/ops/load.rs.
use stark_v.Base.{ℕ, ◌-◌, ◌*◌, ◌%◌, Bool, true, false, List, [], ◌∷◌, ltb, if◌then◌else◌, set}
use stark_v.Base.{replicate, wrapping_add, low, shr, u8, u16, sext8, sext16}
use stark_v.Decode.{DecodedInst}
use stark_v.Trace.{TraceRow}
use stark_v.Machine.{M, ◌>>=◌, ◌>>◌, get_pc, advance_pc, read_reg, write_reg, trace_op}
use stark_v.Machine.{read_u8_traced, read_u16_traced, read_u32_traced}
use stark_v.Ops.Utils.{imm_to_felt}

unfoldable pub extract_byte : ℕ → ℕ → ℕ
extract_byte word offset = u8 (shr word (8 * low offset 2))

-- `offset & 2`: bit 1 in its place.
unfoldable pub extract_halfword : ℕ → ℕ → ℕ
extract_halfword word offset = u16 (shr word (8 * (low offset 2 - offset % 2)))

pub record LoadStoreWitness : Type 0 where
  pub shift_amount : ℕ
  pub marker : List ℕ

unfoldable pub compute_load_store_witness : ℕ → Bool → Bool → LoadStoreWitness
compute_load_store_witness addr is_byte is_half =
    let byte_offset = low addr 2 in
    record {
      shift_amount =
          if is_byte then byte_offset else if is_half then byte_offset - byte_offset % 2 else 0;
      marker =
          if is_byte
          then set (replicate 4 0) byte_offset 1
          else if is_half
          then if ltb byte_offset 2 then 1 ∷ 1 ∷ 0 ∷ 0 ∷ [] else 0 ∷ 0 ∷ 1 ∷ 1 ∷ []
          else replicate 4 0;
    }

unfoldable pub lb : DecodedInst → M (Unit {0})
lb inst = do
  old_pc ← get_pc
  rs1 ← read_reg inst.rs1
  let addr = wrapping_add rs1.next inst.imm
  mem ← read_u8_traced addr
  let byte = extract_byte mem.next addr
  let value = sext8 byte
  rd ← write_reg inst.rd value
  advance_pc
  let w = compute_load_store_witness addr true false
  trace_op (λ clock. TraceRow.load_store (record {
    clock = clock;
    pc = old_pc;
    dst = rd;
    rs1 = rs1;
    src = mem;
    r2_idx = inst.rd;
    imm_felt = imm_to_felt inst.imm;
    src_msb = low (shr byte 7) 1;
    shift_amount = w.shift_amount;
    src_addr_selector = addr - w.shift_amount;
    dst_addr_selector = inst.rd;
    marker = w.marker;
    opcode_lb_flag = 1;
    opcode_lh_flag = 0;
    opcode_lbu_flag = 0;
    opcode_lhu_flag = 0;
    opcode_lw_flag = 0;
    opcode_sb_flag = 0;
    opcode_sh_flag = 0;
    opcode_sw_flag = 0;
  }))

unfoldable pub lh : DecodedInst → M (Unit {0})
lh inst = do
  old_pc ← get_pc
  rs1 ← read_reg inst.rs1
  let addr = wrapping_add rs1.next inst.imm
  mem ← read_u16_traced addr
  let halfword = extract_halfword mem.next addr
  let value = sext16 halfword
  rd ← write_reg inst.rd value
  advance_pc
  let w = compute_load_store_witness addr false true
  trace_op (λ clock. TraceRow.load_store (record {
    clock = clock;
    pc = old_pc;
    dst = rd;
    rs1 = rs1;
    src = mem;
    r2_idx = inst.rd;
    imm_felt = imm_to_felt inst.imm;
    src_msb = low (shr halfword 15) 1;
    shift_amount = w.shift_amount;
    src_addr_selector = addr - w.shift_amount;
    dst_addr_selector = inst.rd;
    marker = w.marker;
    opcode_lb_flag = 0;
    opcode_lh_flag = 1;
    opcode_lbu_flag = 0;
    opcode_lhu_flag = 0;
    opcode_lw_flag = 0;
    opcode_sb_flag = 0;
    opcode_sh_flag = 0;
    opcode_sw_flag = 0;
  }))

unfoldable pub lw : DecodedInst → M (Unit {0})
lw inst = do
  old_pc ← get_pc
  rs1 ← read_reg inst.rs1
  let addr = wrapping_add rs1.next inst.imm
  mem ← read_u32_traced addr
  let value = mem.next
  rd ← write_reg inst.rd value
  advance_pc
  let w = compute_load_store_witness addr false false
  trace_op (λ clock. TraceRow.load_store (record {
    clock = clock;
    pc = old_pc;
    dst = rd;
    rs1 = rs1;
    src = mem;
    r2_idx = inst.rd;
    imm_felt = imm_to_felt inst.imm;
    src_msb = low (shr value 31) 1;
    shift_amount = w.shift_amount;
    src_addr_selector = addr - w.shift_amount;
    dst_addr_selector = inst.rd;
    marker = w.marker;
    opcode_lb_flag = 0;
    opcode_lh_flag = 0;
    opcode_lbu_flag = 0;
    opcode_lhu_flag = 0;
    opcode_lw_flag = 1;
    opcode_sb_flag = 0;
    opcode_sh_flag = 0;
    opcode_sw_flag = 0;
  }))

unfoldable pub lbu : DecodedInst → M (Unit {0})
lbu inst = do
  old_pc ← get_pc
  rs1 ← read_reg inst.rs1
  let addr = wrapping_add rs1.next inst.imm
  mem ← read_u8_traced addr
  let value = extract_byte mem.next addr
  rd ← write_reg inst.rd value
  advance_pc
  let w = compute_load_store_witness addr true false
  trace_op (λ clock. TraceRow.load_store (record {
    clock = clock;
    pc = old_pc;
    dst = rd;
    rs1 = rs1;
    src = mem;
    r2_idx = inst.rd;
    imm_felt = imm_to_felt inst.imm;
    src_msb = low (shr mem.next 31) 1;
    shift_amount = w.shift_amount;
    src_addr_selector = addr - w.shift_amount;
    dst_addr_selector = inst.rd;
    marker = w.marker;
    opcode_lb_flag = 0;
    opcode_lh_flag = 0;
    opcode_lbu_flag = 1;
    opcode_lhu_flag = 0;
    opcode_lw_flag = 0;
    opcode_sb_flag = 0;
    opcode_sh_flag = 0;
    opcode_sw_flag = 0;
  }))

unfoldable pub lhu : DecodedInst → M (Unit {0})
lhu inst = do
  old_pc ← get_pc
  rs1 ← read_reg inst.rs1
  let addr = wrapping_add rs1.next inst.imm
  mem ← read_u16_traced addr
  let value = extract_halfword mem.next addr
  rd ← write_reg inst.rd value
  advance_pc
  let w = compute_load_store_witness addr false true
  trace_op (λ clock. TraceRow.load_store (record {
    clock = clock;
    pc = old_pc;
    dst = rd;
    rs1 = rs1;
    src = mem;
    r2_idx = inst.rd;
    imm_felt = imm_to_felt inst.imm;
    src_msb = low (shr mem.next 31) 1;
    shift_amount = w.shift_amount;
    src_addr_selector = addr - w.shift_amount;
    dst_addr_selector = inst.rd;
    marker = w.marker;
    opcode_lb_flag = 0;
    opcode_lh_flag = 0;
    opcode_lbu_flag = 0;
    opcode_lhu_flag = 1;
    opcode_lw_flag = 0;
    opcode_sb_flag = 0;
    opcode_sh_flag = 0;
    opcode_sw_flag = 0;
  }))
