-- ===== src/Preprocessed.antt =====
-- The preprocessed lookup tables, crates/air/src/preprocessed/: the row of a table at each index,
-- and the index at which a tuple is counted. `Columns` has the loops that fill the columns, in
-- which a column is the function from its indices to its cells.
pub mod Columns
pub mod Ranges
pub mod Bitwise
pub mod Complete
