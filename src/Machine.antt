-- ===== src/Machine.antt =====
-- The state that an instruction works on, and the state monad in which the instructions are
-- written: where the source passes `&mut Cpu`, `&mut Memory` and `&mut Tracer`, the model passes
-- one record of the three. The traced accesses are those of crates/runner/src/cpu.rs and memory.rs.
use stark_v.Base.{ℕ, ◌==◌, if◌then◌else◌, clear_low, ◌∷◌, [], ◌++◌}
use stark_v.Cpu.{Cpu, reg, set_reg}
use stark_v.Cpu
use stark_v.Memory.{Memory, read_u32, write_u8, write_u16, write_u32}
use stark_v.Trace.{Access, Tracer, TraceRow, trace_reg_access, trace_mem_access}

pub record Machine : Type 0 where
  pub cpu : Cpu
  pub mem : Memory
  pub tracer : Tracer

abbrev pub M : Type 0 → Type 0
M A = Machine → A × Machine

infixl 5 ◌>>=◌ ◌>>◌
abbrev pub ◌>>=◌ : {A B : Type 0} → M A → (A → M B) → M B
◌>>=◌ m f s = f (m s).0 (m s).1

abbrev pub ◌>>◌ : {B : Type 0} → M (Unit {0}) → M B → M B
◌>>◌ m k s = k (m s).1

-- `cpu.pc`, and an assignment to it.
unfoldable pub get_pc : M ℕ
get_pc s = (s.cpu.pc, s)

unfoldable pub set_pc : ℕ → M (Unit {0})
set_pc pc s = (tt, record s { cpu = record (s.cpu) { pc = pc } })

unfoldable pub advance_pc : M (Unit {0})
advance_pc s = (tt, record s { cpu = Cpu.advance_pc s.cpu })

unfoldable pub read_reg : ℕ → M Access
read_reg idx s =
    let value = reg s.cpu idx in
    let (access, tracer) = trace_reg_access s.tracer idx value value in
    (access, record s { tracer = tracer })

unfoldable pub write_reg : ℕ → ℕ → M Access
write_reg idx val s =
    let prev = reg s.cpu idx in
    let next : ℕ = if idx == 0 then 0 else val in
    let (access, tracer) = trace_reg_access s.tracer idx prev next in
    (access, record s { cpu = set_reg idx val s.cpu; tracer = tracer })

unfoldable pub read_aligned_word_traced : ℕ → M Access
read_aligned_word_traced addr s =
    let aligned = clear_low addr 2 in
    let word = read_u32 s.mem aligned in
    let (access, tracer) = trace_mem_access s.tracer aligned word word in
    (access, record s { tracer = tracer })

unfoldable pub read_u8_traced : ℕ → M Access
unfolding read_aligned_word_traced
read_u8_traced addr = read_aligned_word_traced addr

unfoldable pub read_u16_traced : ℕ → M Access
unfolding read_aligned_word_traced
read_u16_traced addr = read_aligned_word_traced addr

unfoldable pub read_u32_traced : ℕ → M Access
unfolding read_aligned_word_traced
read_u32_traced addr = read_aligned_word_traced addr

unfoldable pub write_u8_traced : ℕ → ℕ → M Access
write_u8_traced addr val s =
    let aligned = clear_low addr 2 in
    let prev_word = read_u32 s.mem aligned in
    let mem = write_u8 addr val s.mem in
    let next_word = read_u32 mem aligned in
    let (access, tracer) = trace_mem_access s.tracer addr prev_word next_word in
    (access, record s { mem = mem; tracer = tracer })

unfoldable pub write_u16_traced : ℕ → ℕ → M Access
write_u16_traced addr val s =
    let aligned = clear_low addr 2 in
    let prev_word = read_u32 s.mem aligned in
    let mem = write_u16 addr val s.mem in
    let next_word = read_u32 mem aligned in
    let (access, tracer) = trace_mem_access s.tracer addr prev_word next_word in
    (access, record s { mem = mem; tracer = tracer })

unfoldable pub write_u32_traced : ℕ → ℕ → M Access
write_u32_traced addr val s =
    let prev_value = read_u32 s.mem addr in
    let mem = write_u32 addr val s.mem in
    let (access, tracer) = trace_mem_access s.tracer addr prev_value val in
    (access, record s { mem = mem; tracer = tracer })

-- `trace_op!`: a row of an opcode table, which begins with the clock.
unfoldable pub trace_op : (ℕ → TraceRow) → M (Unit {0})
trace_op row s =
    let t = s.tracer in (tt, record s { tracer = record t { rows = t.rows ++ row t.clock ∷ [] } })
