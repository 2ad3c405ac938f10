-- ===== src/Commitment/Chain.antt =====
-- Consecutive segments meet in one read-write root.
pub mod Start
pub mod Steps
pub mod Words
pub mod Collected
pub mod Roots
use mathlib.Core.Option.{none-ne-some}
use native.Mathlib.Nat.{zero-div}
use stark_v.Base.{
  if_both, ℕ, zero, suc, ◌+◌, ◌*◌, ◌%◌, ◌/◌, ◌^◌, ◌<◌, ◌≡◌, ◌≢◌, refl, sym, ap, arith, ◌∙◌, ◌⊎◌,
  inl, inr, Bool-cases, Option-cases, Option, none, some, List, [], ◌∷◌, All, ◌&&◌, ◌==◌,
  if◌then◌else◌, Bool, true, false, not, ltb, for_each, Dict, lookup, lookup_or, insert,
  wrapping_add, clear_low, byte_of, IsU32,
}
use stark_v.Memory.{Memory, read_u8, read_u32}
use stark_v.Decode.{DecodedInst}
use stark_v.Trace.{Tracer, trace_instr_access}
use stark_v.Machine.{Machine}
use stark_v.Execute.{execute}
use stark_v.Poseidon2.{M31, Poseidon2Row}
use stark_v.Poseidon2.Hash.{matrix_hash}
use stark_v.Commitment.{
  MemoryLayout, is_rw_addr, is_input_addr, SegmentRole, MerkleValue, contains, keys, value_at,
  leaf_depth, rw_addrs, entry_of, collect_memory_commitment, insert_word_leaves,
  build_partial_merkle_tree,
}
use stark_v.Commitment.Root.{tree_value, HasWords, AreInTree, build_partial_merkle_tree-IsTree}
use Start.{IsWordAddr, Anchored, word_of}
use Steps.{IsAlignedFor, address, Grounded, Grows, execute-Grounded}
use Words.{leaf_of, insert_words, All-insert, contains-All}
use Roots.{InTree, All-map, one_root}
use Collected.{IsRwWord, rw_addrs-All, rw_addrs-contains, finals, initials}

-- What a segment does to the machine: fetches are counted, the clock ticks, and instructions are
-- executed whose stores stay within a word.
pub data Goes (s : Machine) : Machine → Type 0 where
  stays : Goes s s
  fetches :
      (m : Machine) → Goes s m → Goes s (record m { tracer = trace_instr_access m.cpu.pc m.tracer })
  ticks :
      (m : Machine)
      → Goes s m
      → Goes s (record m { tracer = record (m.tracer) { clock = wrapping_add m.tracer.clock 1 } })
  executes :
      (m : Machine) (inst : DecodedInst)
      → IsAlignedFor inst.opcode (address inst m)
      → Goes s m
      → Goes s (execute inst m).1

Goes-Grounded : (s m : Machine) → s.tracer.mem_initial ≡ [] → Goes s m → Grounded s.mem m
unfolding trace_instr_access lookup
Goes-Grounded s m e Goes.stays = record {
  anchored = λ w is. rw e refl;
  grows = λ b missing. missing;
}
Goes-Grounded s _ e (Goes.fetches m h) =
    let k = Goes-Grounded s m e h in record { anchored = k.anchored; grows = k.grows }
Goes-Grounded s _ e (Goes.ticks m h) =
    let k = Goes-Grounded s m e h in record { anchored = k.anchored; grows = k.grows }
Goes-Grounded s _ e (Goes.executes m inst aligned h) =
    execute-Grounded s.mem inst m (Goes-Grounded s m e h) aligned

-- A word that memory does not hold reads 0.
zero_word :
    (m : Memory) (w : ℕ)
    → IsWordAddr w
    → ((b : ℕ) → word_of b ≡ w → lookup b m.bytes ≡ none)
    → read_u32 m w ≡ 0
unfolding read_u32 read_u8
zero_word m w is missing =
    let aligned = is.aligned in
    let fits = is.fits in
    rw
      (
        missing w (omega arith),
        missing (wrapping_add w 1) (omega arith),
        missing (wrapping_add w 2) (omega arith),
        missing (wrapping_add w 3) (omega arith),
      )
      refl

-- The read-write region lies within the tree, and memory holds no byte outside the region in a word
-- that is partly within it.
pub record Fits (layout : MemoryLayout) (m : Memory) : Type 0 where
  pub below : (j : ℕ) → is_rw_addr layout j ≡ true → j < 2 ^ 30
  pub whole :
      (i j : ℕ)
      → word_of i ≡ word_of j
      → is_rw_addr layout j ≡ true
      → lookup i m.bytes ≢ none
      → is_rw_addr layout i ≡ true

-- A word that a segment commits to when it ends: no input word of the first segment that it has not
-- accessed.
abbrev pub IsCommitted : Tracer → MemoryLayout → SegmentRole → ℕ → Type 0
IsCommitted t layout role w =
    ((role.is_first && is_input_addr layout w) ≡ false) ⊎ (0 < lookup_or w 0 t.mem_clock)

module _ (layout : MemoryLayout) (m : Memory) (fits : Fits layout m) where
  rw_words-InTree : (w : ℕ) → IsRwWord layout w → InTree w
  rw_words-InTree w (j, r, e) =
      let small = fits.below j r in
      (record { aligned = omega arith; fits = omega arith }, omega arith)

  -- A read-write word that is not collected reads 0.
  left_out :
      (ws : List ℕ) (w : ℕ)
      → ((b : ℕ)
          → lookup b m.bytes ≢ none
          → is_rw_addr layout b ≡ true
          → contains (word_of b) ws ≡ true)
      → IsRwWord layout w
      → contains w ws ≡ false
      → read_u32 m w ≡ 0
  left_out ws w collected (j, r, e) out = zero_word m w (rw_words-InTree w (j, r, e)).0 (λ b same.
      elim (Option-cases (lookup b m.bytes)) [
        | inl missing ↦ missing
        | inr (v, found) ↦
            let held : lookup b m.bytes ≢ none =
              λ none_there. none-ne-some _ (sym none_there ∙ found) in
            let inside = collected b held (fits.whole b j (same ∙ sym e) r held) in
            let inside' = rw same at inside in absurd (ground arith)
      ])

byte_zero : (k : ℕ) → byte_of 0 k ≡ 0
byte_zero k = ap (λ z. z % 2 ^ 8) (zero-div (2 ^ (8 * k)))

-- Two collections of words from one memory have the same bytes.
same_bytes :
    (layout : MemoryLayout) (m : Memory) (fits : Fits layout m) (g' : ℕ → ℕ) (ws ws' : List ℕ)
    → ((w : ℕ) → IsWordAddr w → g' w ≡ read_u32 m w)
    → ((b : ℕ)
        → lookup b m.bytes ≢ none
        → is_rw_addr layout b ≡ true
        → contains (word_of b) ws ≡ true)
    → ((b : ℕ)
        → lookup b m.bytes ≢ none
        → is_rw_addr layout b ≡ true
        → contains (word_of b) ws' ≡ true)
    → All (IsRwWord layout) ws
    → All (IsRwWord layout) ws'
    → (i : ℕ)
    → (if contains (word_of i) ws then byte_of (read_u32 m (word_of i)) (i % 4) else 0)
      ≡ (if contains (word_of i) ws' then byte_of (g' (word_of i)) (i % 4) else 0)
same_bytes layout m fits g' ws ws' known has has' are are' i =
    let w = word_of i in
    let byte = λ (x : ℕ). byte_of x (i % 4) in
    elim (Bool-cases (contains w ws)) [
      | inl in_ws ↦
          let is = contains-All (IsRwWord layout) w ws are in_ws in
          elim (Bool-cases (contains w ws')) [
            | inl in_ws' ↦
                rw (in_ws, in_ws') (sym (ap byte (known w (rw_words-InTree layout m fits w is).0)))
            | inr out ↦
                rw (in_ws, out)
                  (ap byte (left_out layout m fits ws' w has' is out) ∙ byte_zero (i % 4))
          ]
      | inr out ↦ elim (Bool-cases (contains w ws')) [
        | inl in_ws' ↦
            let is = contains-All (IsRwWord layout) w ws' are' in_ws' in
            rw (out, in_ws')
              (sym (
                ap byte (
                  known w (rw_words-InTree layout m fits w is).0
                  ∙ left_out layout m fits ws w has is out)
                ∙ byte_zero (i % 4)))
        | inr out' ↦ rw (out, out') refl
      ]
    ]

opened :
    (t : Tracer) (m : Memory) (layout : MemoryLayout) (role : SegmentRole)
    → role.is_first ≡ false
    → (ws : List ℕ) → All (λ w. (entry_of t m layout role w).include_initial ≡ true) ws
unfolding entry_of
opened t m layout role h [] = tt
opened t m layout role h (w ∷ ws) = (rw h refl, opened t m layout role h ws)

included :
    (t : Tracer) (m : Memory) (layout : MemoryLayout) (role : SegmentRole)
    → role.is_last ≡ false
    → (w : ℕ) → IsCommitted t layout role w
    → (entry_of t m layout role w).include_final ≡ true
unfolding entry_of
included t m layout role not_last w (inl other) = rw (other, not_last) refl
included t m layout role not_last w (inr accessed) =
    let test : ltb 0 (lookup_or w 0 t.mem_clock) ≡ true = ground arith in
    rw (test, not_last)
      (if_both (λ (b : Bool). b ≡ true) (role.is_first && is_input_addr layout w) refl refl)

-- Let a segment end with some memory, not as the last one, and with each input word accessed if it is
-- the first; and let the next segment, which is not the first, go on from this memory with a new
-- tracer, with stores that stay within a word. If the read-write region fits, then the root of the
-- final read-write leaves of the one is the root of the initial read-write leaves of the other.
pub final_root-initial_root :
    (f : M31) (layout : MemoryLayout) (t : Tracer) (s e : Machine) (role next : SegmentRole)
    (table table' : List Poseidon2Row)
    → Fits layout s.mem
    → role.is_last ≡ false
    → All (IsCommitted t layout role) (rw_addrs t s.mem layout)
    → next.is_first ≡ false
    → s.tracer.mem_initial ≡ []
    → Goes s e
    → (build_partial_merkle_tree f
        (collect_memory_commitment t s.mem layout role).rw_final_leaves
        table).1
      ≡ (build_partial_merkle_tree f
          (collect_memory_commitment e.tracer e.mem layout next).rw_initial_leaves
          table').1
unfolding collect_memory_commitment
final_root-initial_root f layout t s e role next table table' fits not_last committed not_first
      fresh goes =
    let known = Goes-Grounded s e fresh goes in
    let ws = rw_addrs t s.mem layout in
    let ws' = rw_addrs e.tracer e.mem layout in
    let are = rw_addrs-All layout t s.mem in
    let are' = rw_addrs-All layout e.tracer e.mem in
    let in_tree = λ (w : ℕ) (h : IsRwWord layout w). rw_words-InTree layout s.mem fits w h in
    let g' = λ (a : ℕ). lookup_or a (read_u32 e.mem a) e.tracer.mem_initial in
    ap (λ l. (build_partial_merkle_tree f l table).1)
      (finals t s.mem layout role ws _
        (All-map _ _ (included t s.mem layout role not_last) ws committed))
    ∙ one_root f (read_u32 s.mem) g' ws ws' table table' (All-map _ _ in_tree ws are)
        (All-map _ _ in_tree ws' are')
        (same_bytes layout s.mem fits g' ws ws' known.anchored (rw_addrs-contains layout t s.mem)
          (λ b held.
            rw_addrs-contains layout e.tracer e.mem b (λ missing. held (known.grows b missing)))
          are are')
    ∙ sym (
        ap (λ l. (build_partial_merkle_tree f l table').1)
          (initials e.tracer e.mem layout next ws' _
            (opened e.tracer e.mem layout next not_first ws')))
