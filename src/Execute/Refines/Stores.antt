-- ===== src/Execute/Refines/Stores.antt =====
-- Stores, ops/store.rs.
use stark_v.Decode.Bounds.{IsInst}
use stark_v.Base.{ℕ, ◌%◌, ◌^◌, ◌<◌, ◌≡◌, refl, ◌∙◌, ap, arith, wrapping_add, u8, u16}
use stark_v.Cpu.{Cpu, reg}
use stark_v.Cpu
use stark_v.Memory.{Memory, read_u8, write_u8, write_u16, write_u32}
use stark_v.Memory.Laws.{read_u8-write_u8, read_u8-write_u16, read_u8-write_u32}
use stark_v.Decode.{Opcode, DecodedInst}
use stark_v.Machine.{Machine, get_pc, advance_pc, read_reg, trace_op}
use stark_v.Machine.{write_u8_traced, write_u16_traced, write_u32_traced}
use stark_v.Trace.{trace_reg_access, trace_mem_access}
use stark_v.Ops.Store
use stark_v.Execute.{handler}
use stark_v.Execute.Isa.{Width, class, step_class, keep, next, offset}
use stark_v.Execute.Values.{wrapping_add_signed}
use stark_v.Execute.Refines.Setup.{IsMachine, arch, Simulates, reg-with_pc}

-- The code that the proofs below run, besides the handler of each.
store_code : Unit {0}
unfolding handler class step_class get_pc advance_pc read_reg trace_op trace_reg_access
    trace_mem_access write_u8_traced write_u16_traced write_u32_traced
store_code = tt

-- What the three writes do to each byte is what the ISA says.
keep_one :
    (mem : Memory) (a v b : ℕ)
    → read_u8 (write_u8 a (u8 v) mem) b ≡ keep Width.one a v (read_u8 mem) b
unfolding keep
keep_one mem a v b = read_u8-write_u8 mem a b (u8 v)

keep_two :
    (mem : Memory) (a v b : ℕ)
    → a < 2 ^ 32
    → a % 2 ≡ 0
    → read_u8 (write_u16 a (u16 v) mem) b ≡ keep Width.two a v (read_u8 mem) b
unfolding keep
keep_two mem a v b h e = ground (arith, read_u8-write_u16 mem a b (u16 v))

keep_four :
    (mem : Memory) (a v b : ℕ)
    → a < 2 ^ 32
    → a % 4 ≡ 0
    → read_u8 (write_u32 a v mem) b ≡ keep Width.four a v (read_u8 mem) b
unfolding keep
keep_four mem a v b h e = ground (arith, read_u8-write_u32 mem a b v)

module _ (d : DecodedInst) (i : IsInst d) (s : Machine) (ok : IsMachine s) where
  abbrev Goal : Opcode → Type 0
  Goal o = Simulates (handler o d s).1 (step_class (class o) d (arch s))

  abbrev addr : ℕ
  addr = wrapping_add (reg s.cpu d.rs1) d.imm

  abbrev value : ℕ
  value = reg s.cpu d.rs2

  stores :
      {m : Machine} (w : Width) (written : Memory)
      → ((b : ℕ) → read_u8 written b ≡ keep w addr value (read_u8 s.mem) b)
      → m.cpu ≡ Cpu.advance_pc s.cpu
      → m.mem ≡ written
      → Simulates m (record (arch s) {
        pc = next (arch s);
        byte = keep w (offset (reg s.cpu d.rs1) d.imm) value (read_u8 s.mem);
      })
  unfolding Cpu.advance_pc
  stores w written h ec em = record {
    same_pc = rw ec;
    same_x = λ j. rw (ec, reg-with_pc);
    same_byte = λ b. rw em (
        h b
        ∙ ap (λ p. keep w p value (read_u8 s.mem) b)
            (wrapping_add_signed _ d.imm (ok.regs_fit d.rs1) i.imm_fits));
  }

  pub sb : Goal Opcode.sb
  unfolding store_code Store.sb
  sb = stores Width.one _ (keep_one s.mem addr value) refl refl

  pub sh : addr % 2 ≡ 0 → Goal Opcode.sh
  unfolding store_code Store.sh
  sh even = stores Width.two _ (λ b. keep_two s.mem addr value b (omega arith) even) refl refl

  pub sw : addr % 4 ≡ 0 → Goal Opcode.sw
  unfolding store_code Store.sw
  sw aligned =
      stores Width.four _ (λ b. keep_four s.mem addr value b (omega arith) aligned) refl refl
