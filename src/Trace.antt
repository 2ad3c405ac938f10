-- ===== src/Trace.antt =====
-- The tracer: crates/air/src/trace.rs, and the struct `Tracer` that
-- crates/stwo-macros/src/trace_tables.rs generates. The opcode tables are one list, in the order
-- of execution: the table of an opcode family is the sublist of its constructor. A vector is
-- pushed at its end. The tables that no instruction writes (poseidon2, memory, merkle, program)
-- are left out here.
mod Rows
pub mod Gap
pub mod Kept
pub mod Initial
pub mod Counts
pub mod Accesses
pub use Rows.*
use stark_v.Base.{wrapping_add}
use stark_v.Base.{ℕ, zero, suc, ◌+◌, ◌-◌, ◌^◌, List, [], ◌∷◌, ◌++◌, ltb, ◌==◌, if◌then◌else◌}
use stark_v.Base.{Dict, lookup_or, insert, or_insert, get_or, set, replicate, clear_low}
use stark_v.Base.{saturating_add}

-- One row of `ClockGapTable`, a synthetic access that advances a clock and keeps the value.
pub record ClockGapRow : Type 0 where
  pub addr_space : ℕ
  pub addr : ℕ
  pub value : ℕ
  pub clock_prev : ℕ

pub record Tracer : Type 0 where
  pub clock : ℕ
  pub max_clock_diff : ℕ
  pub reg_clock : List ℕ
  pub mem_clock : Dict ℕ
  pub mem_initial : Dict ℕ
  pub program_reads : Dict ℕ
  pub clock_update : List ClockGapRow
  pub rows : List TraceRow

-- 2 ^ 20 - 1, which the relation `range_check_20` of the schema bounds.
abbrev pub default_max_clock_diff : ℕ
default_max_clock_diff = 2 ^ 20 - 1

unfoldable pub with_max_clock_diff : ℕ → Tracer
with_max_clock_diff max_clock_diff = record {
  clock = 0;
  max_clock_diff = max_clock_diff;
  reg_clock = replicate 32 0;
  mem_clock = [];
  mem_initial = [];
  program_reads = [];
  clock_update = [];
  rows = [];
}

unfoldable pub default : Tracer
default = with_max_clock_diff default_max_clock_diff

pub data GapTable : Type 0 where
  reg mem : GapTable

unfoldable pub gap_addr_space : GapTable → ℕ
gap_addr_space GapTable.reg = 0
gap_addr_space GapTable.mem = 1

-- `ClockGapTable::push`; both values of the access are `value`.
unfoldable pub push_gap : ClockGapRow → Tracer → Tracer
push_gap row t = record t { clock_update = t.clock_update ++ row ∷ [] }

-- The `while` loop of `fill_gap`, with fuel. `saturating_sub` is the `-` of ℕ.
unfoldable pub fill_gap_loop : ℕ → GapTable → ℕ → ℕ → ℕ → ℕ → Tracer → ℕ × Tracer
fill_gap_loop zero table addr value current_clock target_clock t = (current_clock, t)
fill_gap_loop (suc fuel) table addr value current_clock target_clock t =
    let row : ClockGapRow = record {
      addr_space = gap_addr_space table;
      addr = addr;
      value = value;
      clock_prev = current_clock;
    } in
    let next_clock = saturating_add current_clock t.max_clock_diff in
    let rest = fill_gap_loop fuel table addr value next_clock target_clock (push_gap row t) in
    if ltb t.max_clock_diff (target_clock - current_clock) then rest else (current_clock, t)

-- Each round moves the clock on by `max_clock_diff`, at least 1, so that the distance to the
-- target is enough fuel.
unfoldable pub fill_gap : GapTable → ℕ → ℕ → ℕ → ℕ → Tracer → ℕ × Tracer
unfolding fill_gap_loop
fill_gap table addr value clock_prev target_clock =
    fill_gap_loop (target_clock - clock_prev) table addr value clock_prev target_clock

unfoldable pub trace_reg_access : Tracer → ℕ → ℕ → ℕ → Access × Tracer
trace_reg_access tracer idx prev next =
    let clock_prev = get_or tracer.reg_clock idx 0 in
    let (final_clock_prev, t) = fill_gap GapTable.reg idx prev clock_prev tracer.clock tracer in
    let filled =
      if final_clock_prev == clock_prev
      then t
      else record t { reg_clock = set t.reg_clock idx final_clock_prev } in
    (
      record { addr = idx; prev = prev; clock_prev = final_clock_prev; next = next },
      record filled { reg_clock = set filled.reg_clock idx filled.clock },
    )

unfoldable pub trace_mem_access : Tracer → ℕ → ℕ → ℕ → Access × Tracer
trace_mem_access tracer addr prev next =
    let aligned_addr = clear_low addr 2 in
    let opened = record tracer { mem_initial = or_insert aligned_addr prev tracer.mem_initial } in
    let clock_prev = lookup_or aligned_addr 0 opened.mem_clock in
    let (final_clock_prev, t) =
      fill_gap GapTable.mem aligned_addr prev clock_prev opened.clock opened in
    let filled =
      if final_clock_prev == clock_prev
      then t
      else record t { mem_clock = insert aligned_addr final_clock_prev t.mem_clock } in
    (
      record { addr = aligned_addr; prev = prev; clock_prev = final_clock_prev; next = next },
      record filled { mem_clock = insert aligned_addr filled.clock filled.mem_clock },
    )

unfoldable pub trace_instr_access : ℕ → Tracer → Tracer
trace_instr_access pc t = record t {
  program_reads = insert pc (wrapping_add (lookup_or pc 0 t.program_reads) 1) t.program_reads;
}
