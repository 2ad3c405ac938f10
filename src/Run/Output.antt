-- ===== src/Run/Output.antt =====
-- The output region of the guest: crates/runner/src/io.rs, and `make_run_result` and
-- `collect_output_words` of crates/runner/src/lib.rs.
use stark_v.Base.{ℕ, zero, suc, ◌-◌, Option, none, some, List, [], ◌∷◌, ◌||◌}
use stark_v.Base.{ltb, ◌==◌, if◌then◌else◌, wrapping_add, clear_low}
use stark_v.Memory.{Memory, read_u8, read_u32}
use stark_v.Trace.{Tracer}
use stark_v.Run.State.{IoWord, RunResult, Run}

-- `n` bytes from index `i` of the output on.
unfoldable pub read_bytes : ℕ → ℕ → ℕ → Memory → List ℕ
read_bytes zero i data_addr mem = []
read_bytes (suc n) i data_addr mem =
    read_u8 mem (wrapping_add data_addr i) ∷ read_bytes n (suc i) data_addr mem

unfoldable pub read_output : Memory → ℕ → ℕ → ℕ → Option (List ℕ)
read_output mem len_addr data_addr end_addr =
    let len = read_u32 mem len_addr in
    let max_len = end_addr - data_addr in
    if len == 0 || ltb max_len len then none else some (read_bytes len 0 data_addr mem)

-- The `while` loop of `collect_output_words`, with fuel.
unfoldable pub collect_words : ℕ → ℕ → ℕ → Memory → List IoWord
collect_words zero addr end_aligned mem = []
collect_words (suc fuel) addr end_aligned mem =
    let rest = collect_words fuel (wrapping_add addr 4) end_aligned mem in
    if ltb addr end_aligned then record { addr = addr; value = read_u32 mem addr } ∷ rest else []

-- Each round moves a word on, so that the length of the region is enough fuel.
unfoldable pub collect_output_words : Memory → ℕ → ℕ → ℕ → List IoWord
collect_output_words mem output_len_addr output_data_addr output_len =
    let len_addr = clear_low output_len_addr 2 in
    let start = clear_low output_data_addr 2 in
    let end = wrapping_add output_data_addr output_len in
    let end_aligned = clear_low (wrapping_add end 3) 2 in
    record { addr = len_addr; value = read_u32 mem len_addr }
    ∷ (if output_len == 0 then [] else collect_words (end_aligned - start) start end_aligned mem)

unfoldable pub make_run_result : Tracer → ℕ → ℕ → List ℕ → List ℕ → Run → Memory → RunResult
make_run_result tracer initial_pc final_pc initial_regs final_regs run mem =
    let elf = run.loaded in
    let output_len = read_u32 mem elf.output_len_addr in
    record {
      cycles = tracer.clock;
      initial_pc = initial_pc;
      final_pc = final_pc;
      initial_regs = initial_regs;
      final_regs = final_regs;
      output = read_output mem elf.output_len_addr elf.output_data_addr elf.output_end_addr;
      input = run.input;
      input_start = elf.input_start_addr;
      input_end = elf.input_end_addr;
      output_len = output_len;
      output_len_addr = elf.output_len_addr;
      output_data_addr = elf.output_data_addr;
      output_end_addr = elf.output_end_addr;
      output_words = collect_output_words mem elf.output_len_addr elf.output_data_addr output_len;
      tracer = tracer;
    }
