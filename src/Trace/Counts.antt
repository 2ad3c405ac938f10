-- ===== src/Trace/Counts.antt =====
-- The pc of a row, and how many rows have one.
use stark_v.Base.{ℕ, ◌+◌, ◌≡◌, arith, List, [], ◌∷◌, ◌++◌, ◌==◌, bit_of, ◌≤◌, length}
use stark_v.Trace.{TraceRow}

abbrev pub row_pc : TraceRow → ℕ
row_pc (TraceRow.base_alu_reg r) = r.pc
row_pc (TraceRow.base_alu_imm r) = r.pc
row_pc (TraceRow.shifts_reg r) = r.pc
row_pc (TraceRow.shifts_imm r) = r.pc
row_pc (TraceRow.lt_reg r) = r.pc
row_pc (TraceRow.lt_imm r) = r.pc
row_pc (TraceRow.branch_eq r) = r.pc
row_pc (TraceRow.branch_lt r) = r.pc
row_pc (TraceRow.lui r) = r.pc
row_pc (TraceRow.auipc r) = r.pc
row_pc (TraceRow.jalr r) = r.pc
row_pc (TraceRow.jal r) = r.pc
row_pc (TraceRow.load_store r) = r.pc
row_pc (TraceRow.mul r) = r.pc
row_pc (TraceRow.mulh r) = r.pc
row_pc (TraceRow.div r) = r.pc

abbrev pub count_rows : ℕ → List TraceRow → ℕ
count_rows p [] = 0
count_rows p (row ∷ rows) = bit_of (row_pc row == p) + count_rows p rows

pub count_rows-append :
    (p : ℕ) (rows : List TraceRow) (row : TraceRow)
    → count_rows p (rows ++ row ∷ []) ≡ count_rows p rows + bit_of (row_pc row == p)
count_rows-append p [] row = omega arith
count_rows-append p (r ∷ rows) row = omega (arith, count_rows-append p rows row)

pub count_rows-length : (p : ℕ) (rows : List TraceRow) → count_rows p rows ≤ length rows
count_rows-length p [] = omega arith
count_rows-length p (row ∷ rows) = ground (arith, count_rows-length p rows)
