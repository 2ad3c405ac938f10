-- ===== src/Poseidon2/Field.antt =====
-- The field operations of the stwo crate's `M31`, which crates/air/src/poseidon2.rs calls. An
-- element is the `u32` that it holds (`.0`), below the prime.
use stark_v.Base.{ℕ, ◌+◌, ◌*◌, ◌%◌, ◌^◌, ◌<◌, ◌≡◌}
use stark_v.Ops.Utils.{m31_p}

-- `M31::from`, `+` and `*`, as stwo documents them: reduction, and arithmetic modulo the prime.
pub record M31 : Type 0 where
  pub reduce : ℕ → ℕ
  pub add : ℕ → ℕ → ℕ
  pub mul : ℕ → ℕ → ℕ
  pub reduce_mod : (x : ℕ) → x < 2 ^ 32 → reduce x ≡ x % m31_p
  pub add_mod : (a b : ℕ) → a < m31_p → b < m31_p → add a b ≡ (a + b) % m31_p
  pub mul_mod : (a b : ℕ) → a < m31_p → b < m31_p → mul a b ≡ a * b % m31_p
