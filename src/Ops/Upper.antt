-- ===== src/Ops/Upper.antt =====
-- Upper immediates, crates/runner/src/ops/upper.rs.
use stark_v.Base.{wrapping_add, low, shr}
use stark_v.Decode.{DecodedInst}
use stark_v.Trace.{TraceRow}
use stark_v.Machine.{M, ◌>>=◌, ◌>>◌, get_pc, advance_pc, write_reg, trace_op}
use stark_v.Ops.Utils.{imm_to_felt}

unfoldable pub lui : DecodedInst → M (Unit {0})
lui inst = do
  rd ← write_reg inst.rd inst.imm
  old_pc ← get_pc
  advance_pc
  let imm_val = shr inst.imm 12
  trace_op (λ clock. TraceRow.lui (record {
    clock = clock;
    pc = old_pc;
    rd = rd;
    imm_0 = low imm_val 4;
    imm_1 = low (shr imm_val 4) 8;
    imm_2 = low (shr imm_val 12) 8;
  }))

unfoldable pub auipc : DecodedInst → M (Unit {0})
auipc inst = do
  old_pc ← get_pc
  let result = wrapping_add old_pc inst.imm
  rd ← write_reg inst.rd result
  advance_pc
  trace_op (λ clock.
      TraceRow.auipc
        (record { clock = clock; pc = old_pc; rd = rd; imm_felt = imm_to_felt inst.imm }))
