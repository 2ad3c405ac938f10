-- ===== src/Commitment/Layout.antt =====
-- `MemoryLayout` of crates/runner/src/commitment.rs.
use stark_v.Base.{
  ℕ, min, max, Bool, true, false, not, ◌&&◌, ◌||◌, ltb, ◌==◌, if◌then◌else◌, clear_low,
  wrapping_add, saturating_add,
}
use stark_v.Run.{LoadedElf}

pub record MemoryLayout : Type 0 where
  pub program_base : ℕ
  pub program_end : ℕ
  pub data_base : ℕ
  pub data_end : ℕ
  pub stack_bottom : ℕ
  pub stack_top : ℕ
  pub io_base : ℕ
  pub io_end : ℕ
  pub input_base : ℕ
  pub input_end : ℕ
  pub output_len_addr : ℕ
  pub output_data_addr : ℕ
  pub output_base : ℕ
  pub output_end : ℕ

unfoldable pub from_loaded : LoadedElf → MemoryLayout
from_loaded loaded =
    let io_base = min (min loaded.halt_flag_addr loaded.output_len_addr) loaded.output_data_addr in
    let io_end =
      saturating_add
        (max (max (max loaded.output_end_addr loaded.output_data_addr) loaded.output_len_addr)
          loaded.halt_flag_addr)
        1 in
    let has_input = ltb loaded.input_start_addr loaded.input_end_addr in
    record {
      program_base = loaded.text_base;
      program_end = loaded.text_end;
      data_base = loaded.data_base;
      data_end = loaded.data_end;
      stack_bottom = loaded.stack_bottom;
      stack_top = loaded.sp;
      io_base = if has_input then min io_base loaded.input_start_addr else io_base;
      io_end = if has_input then max io_end loaded.input_end_addr else io_end;
      input_base = loaded.input_start_addr;
      input_end = loaded.input_end_addr;
      output_len_addr = loaded.output_len_addr;
      output_data_addr = loaded.output_data_addr;
      output_base = loaded.output_len_addr;
      output_end = loaded.output_end_addr;
    }

-- `addr >= base && addr < end`.
abbrev pub in_range : ℕ → ℕ → ℕ → Bool
in_range base end addr = not (ltb addr base) && ltb addr end

unfoldable pub is_input_addr : MemoryLayout → ℕ → Bool
is_input_addr layout addr = in_range layout.input_base layout.input_end addr

unfoldable pub is_public_output_addr : MemoryLayout → ℕ → ℕ → Bool
is_public_output_addr layout addr output_len =
    let start = clear_low layout.output_data_addr 2 in
    let end = wrapping_add layout.output_data_addr output_len in
    let end_aligned = clear_low (wrapping_add end 3) 2 in
    if addr == clear_low layout.output_len_addr 2
    then true
    else if output_len == 0
    then false
    else in_range start end_aligned addr

unfoldable pub is_rw_addr : MemoryLayout → ℕ → Bool
is_rw_addr layout addr =
    in_range layout.data_base layout.data_end addr
    || in_range layout.stack_bottom layout.stack_top addr
    || in_range layout.io_base layout.io_end addr
