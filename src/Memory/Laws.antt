-- ===== src/Memory/Laws.antt =====
-- Loads after stores.
use stark_v.Base.{ℕ, ◌+◌, ◌*◌, ◌^◌, ◌<◌, ◌≡◌, arith, ◌==◌, if◌then◌else◌}
use stark_v.Base.{lookup-insert, wrapping_add, IsU8, u8, shr}
use stark_v.Base.Bits.{bit_or-shifted}
use stark_v.Memory.{Memory, read_u8, read_u16, read_u32, write_u8, write_u16, write_u32}

pub read_u8-write_u8 :
    (mem : Memory) (a b v : ℕ)
    → read_u8 (write_u8 a v mem) b ≡ (if a == b then v else read_u8 mem b)
unfolding read_u8 write_u8
read_u8-write_u8 mem a b v = ground (arith, lookup-insert a b v mem.bytes)

-- Every byte that the memory holds is one.
abbrev pub HoldsBytes : Memory → Type 0
HoldsBytes mem = (a : ℕ) → IsU8 (read_u8 mem a)

-- A word is the sum of its bytes.
pub read_u32_sum :
    (mem : Memory)
    → HoldsBytes mem
    → (a : ℕ)
    → read_u32 mem a
      ≡ read_u8 mem a
        + read_u8 mem (wrapping_add a 1) * 2 ^ 8
        + read_u8 mem (wrapping_add a 2) * 2 ^ 16
        + read_u8 mem (wrapping_add a 3) * 2 ^ 24
unfolding read_u32
read_u32_sum mem h a =
    let h0 = h a in
    let h1 = h (wrapping_add a 1) in
    let h2 = h (wrapping_add a 2) in
    rw
      (
        bit_or-shifted 8 (read_u8 mem a) (read_u8 mem (wrapping_add a 1)) (omega arith),
        bit_or-shifted 16 (read_u8 mem a + read_u8 mem (wrapping_add a 1) * 2 ^ 8)
            (read_u8 mem (wrapping_add a 2)) (omega arith),
      )
      (bit_or-shifted 24
        (read_u8 mem a
          + read_u8 mem (wrapping_add a 1) * 2 ^ 8
          + read_u8 mem (wrapping_add a 2) * 2 ^ 16)
        (read_u8 mem (wrapping_add a 3)) (omega arith))

pub read_u16_sum :
    (mem : Memory)
    → HoldsBytes mem
    → (a : ℕ) → read_u16 mem a ≡ read_u8 mem a + read_u8 mem (wrapping_add a 1) * 2 ^ 8
unfolding read_u16
read_u16_sum mem h a = bit_or-shifted 8 (read_u8 mem a) (read_u8 mem (wrapping_add a 1)) (h a)

pub write_u8-HoldsBytes :
    (mem : Memory) (a v : ℕ) → IsU8 v → HoldsBytes mem → HoldsBytes (write_u8 a v mem)
write_u8-HoldsBytes mem a v hv h b = ground (arith, read_u8-write_u8 mem a b v, h b)

pub write_u16-HoldsBytes :
    (mem : Memory) (a v : ℕ) → HoldsBytes mem → HoldsBytes (write_u16 a v mem)
unfolding write_u16
write_u16-HoldsBytes mem a v h =
    write_u8-HoldsBytes _ _ _ (omega arith) (write_u8-HoldsBytes _ _ _ (omega arith) h)

pub write_u32-HoldsBytes :
    (mem : Memory) (a v : ℕ) → HoldsBytes mem → HoldsBytes (write_u32 a v mem)
unfolding write_u32
write_u32-HoldsBytes mem a v h = write_u8-HoldsBytes _ _ _ (omega arith) (
    write_u8-HoldsBytes _ _ _ (omega arith)
      (write_u8-HoldsBytes _ _ _ (omega arith) (write_u8-HoldsBytes _ _ _ (omega arith) h)))

-- What a byte reads after a half-word or a word is written.
pub read_u8-write_u16 :
    (mem : Memory) (a b v : ℕ)
    → read_u8 (write_u16 a v mem) b
      ≡ (if wrapping_add a 1 == b then u8 (shr v 8) else if a == b then u8 v else read_u8 mem b)
unfolding write_u16
read_u8-write_u16 mem a b v = rw (read_u8-write_u8, read_u8-write_u8)

pub read_u8-write_u32 :
    (mem : Memory) (a b v : ℕ)
    → read_u8 (write_u32 a v mem) b ≡ (
        if wrapping_add a 3 == b
        then u8 (shr v 24)
        else if wrapping_add a 2 == b
        then u8 (shr v 16)
        else if wrapping_add a 1 == b
        then u8 (shr v 8)
        else if a == b
        then u8 v
        else read_u8 mem b)
unfolding write_u32
read_u8-write_u32 mem a b v =
    rw (read_u8-write_u8, read_u8-write_u8, read_u8-write_u8, read_u8-write_u8)

-- A word that is written reads back, at every address, the last ones of the address space
-- included, where it wraps round.
pub read_u32-write_u32 :
    (mem : Memory) (a v : ℕ)
    → HoldsBytes mem
    → a < 2 ^ 32
    → v < 2 ^ 32
    → read_u32 (write_u32 a v mem) a ≡ v
read_u32-write_u32 mem a v h ha hv =
    let m = write_u32 a v mem in
    ground (
      arith,
      read_u32_sum m (write_u32-HoldsBytes mem a v h) a,
      read_u8-write_u32 mem a a v,
      read_u8-write_u32 mem a (wrapping_add a 1) v,
      read_u8-write_u32 mem a (wrapping_add a 2) v,
      read_u8-write_u32 mem a (wrapping_add a 3) v,
    )
