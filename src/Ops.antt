-- ===== src/Ops.antt =====
-- The handlers of the opcodes, crates/runner/src/ops: a module for each of its files.
pub mod Utils
pub mod Alu
pub mod AluImm
pub mod Branch
pub mod Jump
pub mod Load
pub mod Store
pub mod Upper
pub mod Muldiv
