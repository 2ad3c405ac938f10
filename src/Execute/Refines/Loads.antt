-- ===== src/Execute/Refines/Loads.antt =====
-- Loads, ops/load.rs: the byte or half-word that is cut out of the aligned word is the one at the
-- address.
use stark_v.Decode.Bounds.{IsInst}
use stark_v.Base.{ℕ, zero, suc, ◌+◌, ◌-◌, ◌*◌, ◌/◌, ◌%◌, ◌^◌, ◌<◌, ◌≡◌, refl, ◌∙◌, ap, arith}
use stark_v.Base.{wrapping_add, clear_low, sext8, sext16}
use stark_v.Cpu.{reg, set_reg}
use stark_v.Cpu
use stark_v.Memory.{Memory, read_u8, read_u32}
use stark_v.Memory.Laws.{HoldsBytes, read_u32_sum}
use stark_v.Decode.{Opcode, DecodedInst}
use stark_v.Machine.{Machine, get_pc, advance_pc, read_reg, write_reg, trace_op}
use stark_v.Machine.{read_u8_traced, read_u16_traced, read_u32_traced}
use stark_v.Trace.{trace_reg_access, trace_mem_access}
use stark_v.Ops.Load
use stark_v.Ops.Load.{extract_byte, extract_halfword}
use stark_v.Execute.{handler}
use stark_v.Execute.Isa.{Width, class, step_class, fetch, sign_extend, put, next, offset}
use stark_v.Execute.Values.{wrapping_add_signed, sext8_signed, sext16_signed}
use stark_v.Execute.Refines.Setup.{IsMachine, arch, Simulates, writes_register}

-- The code that the proofs below run, besides the handler of each.
load_code : Unit {0}
unfolding handler class step_class get_pc advance_pc read_reg write_reg trace_op trace_reg_access
    trace_mem_access read_u8_traced read_u16_traced read_u32_traced
load_code = tt

module _ (mem : Memory) (h : HoldsBytes mem) (addr : ℕ) (fits : addr < 2 ^ 32) where
  abbrev base : ℕ
  base = clear_low addr 2

  byte_at_offset :
      (r : ℕ) → addr % 4 ≡ r → r < 4 → read_u32 mem base / 2 ^ (8 * r) % 2 ^ 8 ≡ read_u8 mem addr
  byte_at_offset zero e l = ground (arith, read_u32_sum mem h base, h base)
  byte_at_offset (suc zero) e l =
      ground (arith, read_u32_sum mem h base, h base, h (wrapping_add base 1))
  byte_at_offset (suc (suc zero)) e l =
      ground
        (arith, read_u32_sum mem h base, h base, h (wrapping_add base 1), h (wrapping_add base 2))
  byte_at_offset (suc (suc (suc zero))) e l = ground (
    arith,
    read_u32_sum mem h base,
    h base,
    h (wrapping_add base 1),
    h (wrapping_add base 2),
    h (wrapping_add base 3),
  )
  byte_at_offset (suc (suc (suc (suc r)))) e l = absurd (omega arith)

  -- The byte that is cut out of the aligned word.
  pub extract_byte-read_u32 : extract_byte (read_u32 mem base) addr ≡ read_u8 mem addr
  unfolding extract_byte
  extract_byte-read_u32 = byte_at_offset (addr % 4) refl (omega arith)

  half_at_offset :
      (r : ℕ)
      → addr % 4 ≡ r
      → r < 4
      → r % 2 ≡ 0
      → read_u32 mem base / 2 ^ (8 * r) % 2 ^ 16 ≡ fetch Width.two (read_u8 mem) addr
  unfolding fetch
  half_at_offset zero e l z =
      ground
        (arith, read_u32_sum mem h base, h base, h (wrapping_add base 1), h (wrapping_add base 2))
  half_at_offset (suc (suc zero)) e l z = ground (
    arith,
    read_u32_sum mem h base,
    h base,
    h (wrapping_add base 1),
    h (wrapping_add base 2),
    h (wrapping_add base 3),
  )
  half_at_offset (suc zero) e l z = absurd (omega arith)
  half_at_offset (suc (suc (suc r))) e l z = absurd (omega arith)

  -- The half-word that is cut out of the aligned word, at an even address.
  pub extract_halfword-read_u32 :
      addr % 2 ≡ 0 → extract_halfword (read_u32 mem base) addr ≡ fetch Width.two (read_u8 mem) addr
  unfolding extract_halfword
  extract_halfword-read_u32 even =
      let e : addr % 4 - addr % 2 ≡ addr % 4 = omega arith in
      rw e (half_at_offset (addr % 4) refl (omega arith) (omega arith))

  pub word-read_u32 : addr % 4 ≡ 0 → read_u32 mem base ≡ fetch Width.four (read_u8 mem) addr
  unfolding fetch
  word-read_u32 e = ground (arith, read_u32_sum mem h base)

  pub fetch_two-lt : fetch Width.two (read_u8 mem) addr < 2 ^ 16
  unfolding fetch
  fetch_two-lt = omega (arith, h addr, h (addr + 1))

module _ (d : DecodedInst) (i : IsInst d) (s : Machine) (ok : IsMachine s) where
  abbrev Goal : Opcode → Type 0
  Goal o = Simulates (handler o d s).1 (step_class (class o) d (arch s))

  abbrev addr : ℕ
  addr = wrapping_add (reg s.cpu d.rs1) d.imm

  -- A value that is loaded from `addr` is loaded from the ISA's address.
  loads :
      {v : ℕ} {m : Machine} (value : ℕ → ℕ)
      → v ≡ value addr
      → m.cpu ≡ Cpu.advance_pc (set_reg d.rd v s.cpu)
      → m.mem ≡ s.mem
      → Simulates m (record (arch s) {
        pc = next (arch s);
        x = put d.rd (value (offset (reg s.cpu d.rs1) d.imm)) (reg s.cpu);
      })
  loads value e ec em =
      writes_register s ok _ d.rd _ _ i.rd_fits
        (e ∙ ap value (wrapping_add_signed _ d.imm (ok.regs_fit d.rs1) i.imm_fits)) ec em

  byte : extract_byte (read_u32 s.mem (clear_low addr 2)) addr ≡ read_u8 s.mem addr
  byte = extract_byte-read_u32 s.mem ok.bytes_fit addr (omega arith)

  half :
      addr % 2 ≡ 0
      → extract_halfword (read_u32 s.mem (clear_low addr 2)) addr
        ≡ fetch Width.two (read_u8 s.mem) addr
  half = extract_halfword-read_u32 s.mem ok.bytes_fit addr (omega arith)

  pub lb : Goal Opcode.lb
  unfolding load_code fetch sign_extend Load.lb
  lb =
      loads (λ p. sign_extend Width.one (fetch Width.one (read_u8 s.mem) p))
        (ap sext8 byte ∙ sext8_signed (read_u8 s.mem addr) (ok.bytes_fit addr)) refl refl

  pub lbu : Goal Opcode.lbu
  unfolding load_code fetch Load.lbu
  lbu = loads (λ p. fetch Width.one (read_u8 s.mem) p) byte refl refl

  pub lh : addr % 2 ≡ 0 → Goal Opcode.lh
  unfolding load_code sign_extend Load.lh
  lh even =
      loads (λ p. sign_extend Width.two (fetch Width.two (read_u8 s.mem) p))
        (ap sext16 (half even)
          ∙ sext16_signed (fetch Width.two (read_u8 s.mem) addr)
              (fetch_two-lt s.mem ok.bytes_fit addr (omega arith)))
        refl refl

  pub lhu : addr % 2 ≡ 0 → Goal Opcode.lhu
  unfolding load_code Load.lhu
  lhu even = loads (λ p. fetch Width.two (read_u8 s.mem) p) (half even) refl refl

  pub lw : addr % 4 ≡ 0 → Goal Opcode.lw
  unfolding load_code Load.lw
  lw aligned =
      loads (λ p. fetch Width.four (read_u8 s.mem) p)
        (word-read_u32 s.mem ok.bytes_fit addr (omega arith) aligned) refl refl
