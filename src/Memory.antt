-- ===== src/Memory.antt =====
-- The sparse byte memory, crates/runner/src/memory.rs. Its traced accesses are in Machine. The
-- alignment checks are `debug_assert`s: the model is the release build, which has none.
pub mod Laws
use stark_v.Base.{ℕ, ◌*◌, ◌^◌, Dict, [], lookup_or, insert, bit_or, wrapping_add, u8, shr}

pub record Memory : Type 0 where
  pub bytes : Dict ℕ

unfoldable pub new : Memory
new = record { bytes = [] }

unfoldable pub read_u8 : Memory → ℕ → ℕ
read_u8 mem addr = lookup_or addr 0 mem.bytes

unfoldable pub read_u16 : Memory → ℕ → ℕ
read_u16 mem addr =
    let lo = read_u8 mem addr in
    let hi = read_u8 mem (wrapping_add addr 1) in bit_or lo (hi * 2 ^ 8)

unfoldable pub read_u32 : Memory → ℕ → ℕ
read_u32 mem addr =
    let b0 = read_u8 mem addr in
    let b1 = read_u8 mem (wrapping_add addr 1) in
    let b2 = read_u8 mem (wrapping_add addr 2) in
    let b3 = read_u8 mem (wrapping_add addr 3) in
    bit_or (bit_or (bit_or b0 (b1 * 2 ^ 8)) (b2 * 2 ^ 16)) (b3 * 2 ^ 24)

unfoldable pub write_u8 : ℕ → ℕ → Memory → Memory
write_u8 addr val mem = record mem { bytes = insert addr val mem.bytes }

unfoldable pub write_u16 : ℕ → ℕ → Memory → Memory
write_u16 addr val mem =
    write_u8 (wrapping_add addr 1) (u8 (shr val 8)) (write_u8 addr (u8 val) mem)

unfoldable pub write_u32 : ℕ → ℕ → Memory → Memory
write_u32 addr val mem = write_u8 (wrapping_add addr 3) (u8 (shr val 24)) (
    write_u8 (wrapping_add addr 2) (u8 (shr val 16))
      (write_u8 (wrapping_add addr 1) (u8 (shr val 8)) (write_u8 addr (u8 val) mem)))
