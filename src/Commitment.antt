-- ===== src/Commitment.antt =====
-- The program and memory commitments of a segment, crates/runner/src/commitment.rs: the layout of
-- the memory, the leaves, the partial Merkle trees and the tables that they fill.
pub mod Root
pub mod Chain
pub mod Errors
mod Layout
mod Tree
mod Leaves
mod Tables
unfoldable pub use Layout.*
unfoldable pub use Tree.*
unfoldable pub use Leaves.*
unfoldable pub use Tables.*
