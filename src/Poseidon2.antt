-- ===== src/Poseidon2.antt =====
-- The Poseidon2 permutation over the field of 2 ^ 31 - 1 elements: crates/air/src/poseidon2.rs.
-- `Permutation` has the plain functions, `Felt` the functions from which `define_air_fns!` derives
-- the table and its row fill.
mod Field
mod Constants
mod Permutation
mod Felt
pub mod Arith
pub mod Matrix
pub mod Hash
pub use Field.*
unfoldable pub use Constants.*
unfoldable pub use Permutation.*
unfoldable pub use Felt.*
