-- ===== src/Ops/Jump.antt =====
-- Jumps, crates/runner/src/ops/jump.rs.
use stark_v.Base.{◌/◌, wrapping_add, clear_low, low}
use stark_v.Decode.{DecodedInst}
use stark_v.Trace.{TraceRow}
use stark_v.Machine.{M, ◌>>=◌, ◌>>◌, get_pc, set_pc, read_reg, write_reg, trace_op}
use stark_v.Ops.Utils.{imm_to_felt}

unfoldable pub jal : DecodedInst → M (Unit {0})
jal inst = do
  old_pc ← get_pc
  let return_addr = wrapping_add old_pc 4
  rd ← write_reg inst.rd return_addr
  pc ← get_pc
  set_pc (wrapping_add pc inst.imm)
  trace_op (λ clock.
      TraceRow.jal
        (record { clock = clock; pc = old_pc; rd = rd; imm_felt = imm_to_felt inst.imm }))

unfoldable pub jalr : DecodedInst → M (Unit {0})
jalr inst = do
  old_pc ← get_pc
  let return_addr = wrapping_add old_pc 4
  rs1 ← read_reg inst.rs1
  let target = wrapping_add rs1.next inst.imm
  let target_aligned = clear_low target 1
  rd ← write_reg inst.rd return_addr
  set_pc target_aligned
  trace_op (λ clock. TraceRow.jalr (record {
    clock = clock;
    pc = old_pc;
    rd = rd;
    rs1 = rs1;
    to_pc_over_two = target_aligned / 2;
    to_pc_lsb = low target 1;
    imm_felt = imm_to_felt inst.imm;
  }))
