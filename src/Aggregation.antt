-- ===== src/Aggregation.antt =====
-- The chaining of segment proofs, crates/prover/src/recursion/segments.rs and aggregate.rs, and
-- crates/recursion/src/aggregate.rs. The verification of one proof is a parameter.
pub mod Roots
pub mod Tree
pub mod Accepts
mod Public
mod Verify
unfoldable pub use Public.*
unfoldable pub use Verify.*
