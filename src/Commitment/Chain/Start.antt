-- ===== src/Commitment/Chain/Start.antt =====
-- While a segment runs, the tracer knows the word that each aligned address held at its start.
use stark_v.Base.{
  ℕ, ◌%◌, ◌^◌, ◌<◌, ◌≡◌, ◌≢◌, refl, sym, ap, arith, ◌∙◌, inl, inr, Bool-cases, Option-cases, none,
  some, ◌==◌, ==_iff, if◌then◌else◌, clear_low, wrapping_add, Dict, lookup, lookup_or,
  lookup-insert, or_insert,
}
use stark_v.Memory.{Memory, read_u8, read_u32, write_u8, write_u16, write_u32}
use stark_v.Memory.Laws.{read_u8-write_u8, read_u8-write_u16, read_u8-write_u32}
use stark_v.Trace.{Tracer, trace_reg_access, trace_mem_access}
use stark_v.Trace.Initial.{reg-mem_initial, mem-mem_initial}

-- An aligned address.
pub record IsWordAddr (w : ℕ) : Type 0 where
  pub aligned : w % 4 ≡ 0
  pub fits : w < 2 ^ 32

-- What `mem_initial` has for a word, or what memory has if it is not there, is what memory had.
abbrev pub Anchored : Memory → Memory → Dict ℕ → Type 0
Anchored start mem initial =
    (w : ℕ) → IsWordAddr w → lookup_or w (read_u32 mem w) initial ≡ read_u32 start w

-- Memory changes at most in one word.
abbrev pub SameBut : ℕ → Memory → Memory → Type 0
SameBut a mem mem' = (w : ℕ) → IsWordAddr w → w ≢ a → read_u32 mem' w ≡ read_u32 mem w

lookup-or_insert :
    (a v q : ℕ) (m : Dict ℕ)
    → lookup a m ≡ none
    → lookup q (or_insert a v m) ≡ (if a == q then some v else lookup q m)
unfolding or_insert
lookup-or_insert a v q m missing = rw (missing, or_insert) (lookup-insert a q v m)

present : (a v x : ℕ) (m : Dict ℕ) → lookup a m ≡ some x → or_insert a v m ≡ m
unfolding or_insert
present a v x m found = rw (found, or_insert) refl

-- The first access to a word notes what memory has, and no later one changes it.
pub Anchored-access :
    (start mem mem' : Memory) (initial : Dict ℕ) (a : ℕ)
    → IsWordAddr a
    → SameBut a mem mem'
    → Anchored start mem initial
    → Anchored start mem' (or_insert a (read_u32 mem a) initial)
Anchored-access start mem mem' initial a ok same h w is = elim (Option-cases (lookup a initial)) [
  | inr (x, found) ↦
      let kept = present a (read_u32 mem a) x initial found in
      elim (Bool-cases (w == a)) [
        | inl e ↦
            let at_w : lookup w initial ≡ some x =
              ap (λ z. lookup z initial) ((==_iff w a).0 e) ∙ found in
            let before = rw at_w at (h w is) in rw (kept, at_w) before
        | inr ne ↦ rw (kept, same w is (λ e. ground arith)) (h w is)
      ]
  | inl missing ↦ elim (Bool-cases (a == w)) [
    | inl e ↦
        let before = rw missing at (h a ok) in
        rw (lookup-or_insert a (read_u32 mem a) w initial missing, e)
          (before ∙ ap (λ z. read_u32 start z) ((==_iff a w).0 e))
    | inr ne ↦
        rw
          (lookup-or_insert a (read_u32 mem a) w initial missing, ne, same w is (λ e. ground arith))
          (h w is)
  ]
]

abbrev pub word_of : ℕ → ℕ
word_of addr = clear_low addr 2

pub word_of-IsWordAddr : (addr : ℕ) → addr < 2 ^ 32 → IsWordAddr (word_of addr)
word_of-IsWordAddr addr h = record { aligned = omega arith; fits = omega arith }

module _ (start mem : Memory) (t : Tracer) (h : Anchored start mem t.mem_initial) where
  pub reg-Anchored :
      (idx prev next : ℕ) → Anchored start mem (trace_reg_access t idx prev next).1.mem_initial
  reg-Anchored idx prev next = rw (reg-mem_initial t idx prev next) h

  pub read-Anchored :
      (addr next : ℕ)
      → addr < 2 ^ 32
      → Anchored start mem
          (trace_mem_access t (word_of addr) (read_u32 mem (word_of addr)) next).1.mem_initial
  read-Anchored addr next fits =
      let same : clear_low (word_of addr) 2 ≡ word_of addr = omega arith in
      rw (mem-mem_initial t (word_of addr) (read_u32 mem (word_of addr)) next, same)
        (Anchored-access start mem mem t.mem_initial (word_of addr) (word_of-IsWordAddr addr fits)
          (λ w is ne. refl) h)

  pub write-Anchored :
      (addr next : ℕ) (mem' : Memory)
      → addr < 2 ^ 32
      → SameBut (word_of addr) mem mem'
      → Anchored start mem'
          (trace_mem_access t addr (read_u32 mem (word_of addr)) next).1.mem_initial
  write-Anchored addr next mem' fits same =
      rw (mem-mem_initial t addr (read_u32 mem (word_of addr)) next) (
        Anchored-access start mem mem' t.mem_initial (word_of addr) (word_of-IsWordAddr addr fits)
          same h)

-- Bytes outside a word stay.
abbrev SameBytesBut : ℕ → Memory → Memory → Type 0
SameBytesBut a mem mem' = (b : ℕ) → word_of b ≢ a → read_u8 mem' b ≡ read_u8 mem b

SameBut-of : (a : ℕ) (mem mem' : Memory) → SameBytesBut a mem mem' → SameBut a mem mem'
unfolding read_u32
SameBut-of a mem mem' h w is ne =
    let at = λ (b : ℕ) (e : word_of b ≡ w). h b (λ same. ne (sym e ∙ same)) in
    let aligned = is.aligned in
    let fits = is.fits in
    rw
      (
        at w (omega arith),
        at (wrapping_add w 1) (omega arith),
        at (wrapping_add w 2) (omega arith),
        at (wrapping_add w 3) (omega arith),
      )
      refl

-- A store within a word changes only this word.
module _ (mem : Memory) (addr v : ℕ) (fits : addr < 2 ^ 32) where
  pub write_u8-SameBut : SameBut (word_of addr) mem (write_u8 addr v mem)
  write_u8-SameBut =
      SameBut-of (word_of addr) mem (write_u8 addr v mem)
        (λ b ne. ground (arith, read_u8-write_u8 mem addr b v))

  pub write_u16-SameBut : addr % 2 ≡ 0 → SameBut (word_of addr) mem (write_u16 addr v mem)
  write_u16-SameBut even =
      SameBut-of (word_of addr) mem (write_u16 addr v mem)
        (λ b ne. ground (arith, read_u8-write_u16 mem addr b v))

  pub write_u32-SameBut : addr % 4 ≡ 0 → SameBut (word_of addr) mem (write_u32 addr v mem)
  write_u32-SameBut aligned =
      SameBut-of (word_of addr) mem (write_u32 addr v mem)
        (λ b ne. ground (arith, read_u8-write_u32 mem addr b v))
