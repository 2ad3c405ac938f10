-- ===== src/Commitment/Chain/Collected.antt =====
-- What `collect_memory_commitment` collects: which words, and their leaves.
use stark_v.Base.{
  ℕ, ◌≡◌, ◌≢◌, refl, ap, arith, ◌∙◌, inl, inr, Bool-cases, Option-cases, if_both, none, List, [],
  ◌∷◌, All, ◌==◌, ==_iff, true, for_each, Dict, lookup, lookup_or, insert, clear_low,
}
use stark_v.Memory.{Memory, read_u32}
use stark_v.Trace.{Tracer}
use stark_v.Commitment.{
  MemoryLayout, is_rw_addr, SegmentRole, Collected, contains, keys, insert_rw_addrs, rw_addrs,
  entry_of, collect_entry, insert_word_leaves,
}
use stark_v.Commitment.Root.{lookup-contains}
use stark_v.Commitment.Chain.Start.{word_of}
use stark_v.Commitment.Chain.Words.{contains-insert, All-insert}

-- A word with a read-write byte.
abbrev pub IsRwWord : MemoryLayout → ℕ → Type 0
IsRwWord layout w = (j : ℕ) × (is_rw_addr layout j ≡ true) × (word_of j ≡ w)

module _ (layout : MemoryLayout) where
  insert_rw-All :
      (addrs : List ℕ) (set : Dict {0} Unit)
      → All (IsRwWord layout) (keys set)
      → All (IsRwWord layout) (keys (insert_rw_addrs layout addrs set))
  unfolding insert_rw_addrs
  insert_rw-All [] set h = h
  insert_rw-All (a ∷ addrs) set h = elim (Bool-cases (is_rw_addr layout a)) [
    | inl rw_byte ↦ rw rw_byte (
        insert_rw-All addrs (insert (clear_low a 2) tt set)
          (All-insert (IsRwWord layout) (clear_low a 2) tt set (a, rw_byte, refl) h))
    | inr other ↦ rw other (insert_rw-All addrs set h)
  ]

  insert_rw-kept :
      (addrs : List ℕ) (set : Dict {0} Unit) (q : ℕ)
      → contains q (keys set) ≡ true
      → contains q (keys (insert_rw_addrs layout addrs set)) ≡ true
  unfolding insert_rw_addrs
  insert_rw-kept [] set q h = h
  insert_rw-kept (a ∷ addrs) set q h = elim (Bool-cases (is_rw_addr layout a)) [
    | inl rw_byte ↦
        let step = contains-insert q (clear_low a 2) tt set in
        rw rw_byte (insert_rw-kept addrs (insert (clear_low a 2) tt set) q (ground (arith, step)))
    | inr other ↦ rw other (insert_rw-kept addrs set q h)
  ]

  insert_rw-contains :
      (addrs : List ℕ) (set : Dict {0} Unit) (b : ℕ)
      → contains b addrs ≡ true
      → is_rw_addr layout b ≡ true
      → contains (word_of b) (keys (insert_rw_addrs layout addrs set)) ≡ true
  unfolding insert_rw_addrs
  insert_rw-contains [] set b h r = absurd (ground arith)
  insert_rw-contains (a ∷ addrs) set b h r = elim (Bool-cases (a == b)) [
    | inl e ↦
        let same : a ≡ b = (==_iff a b).0 e in
        let rw_a : is_rw_addr layout a ≡ true = ap (λ z. is_rw_addr layout z) same ∙ r in
        let step = contains-insert (word_of b) (clear_low a 2) tt set in
        rw rw_a
          (insert_rw-kept addrs (insert (clear_low a 2) tt set) (word_of b) (ground (arith, step)))
    | inr ne ↦
        let later : contains b addrs ≡ true = ground arith in
        if_both
          (λ (s : Dict {0} Unit).
            contains (word_of b) (keys (insert_rw_addrs layout addrs s)) ≡ true)
          (is_rw_addr layout a) (insert_rw-contains addrs (insert (clear_low a 2) tt set) b later r)
          (insert_rw-contains addrs set b later r)
  ]

  pub rw_addrs-All : (t : Tracer) (m : Memory) → All (IsRwWord layout) (rw_addrs t m layout)
  unfolding rw_addrs
  rw_addrs-All t m = insert_rw-All (keys t.mem_clock) _ (insert_rw-All (keys m.bytes) [] tt)

  -- Every read-write byte that memory holds is in one of the words.
  pub rw_addrs-contains :
      (t : Tracer) (m : Memory) (b : ℕ)
      → lookup b m.bytes ≢ none
      → is_rw_addr layout b ≡ true
      → contains (word_of b) (rw_addrs t m layout) ≡ true
  unfolding rw_addrs
  rw_addrs-contains t m b held r = elim (Option-cases (lookup b m.bytes)) [
    | inl missing ↦ absurd (held missing)
    | inr (v, found) ↦
        insert_rw-kept (keys t.mem_clock) _ (word_of b)
          (insert_rw-contains (keys m.bytes) [] b (lookup-contains b v m.bytes found) r)
  ]

-- The leaves before and after, if every word is included.
module _ (t : Tracer) (m : Memory) (layout : MemoryLayout) (role : SegmentRole) where
  abbrev entries_loop : List ℕ → Collected → Collected
  entries_loop ws c = for_each ws (λ addr c. collect_entry (entry_of t m layout role addr) c) c

  final_of :
      (a : ℕ) (c : Collected)
      → (entry_of t m layout role a).include_final ≡ true
      → (collect_entry (entry_of t m layout role a) c).rw_final_leaves
        ≡ insert_word_leaves c.rw_final_leaves a (read_u32 m a)
  unfolding collect_entry entry_of
  final_of a c h = rw h refl

  initial_of :
      (a : ℕ) (c : Collected)
      → (entry_of t m layout role a).include_initial ≡ true
      → (collect_entry (entry_of t m layout role a) c).rw_initial_leaves
        ≡ insert_word_leaves c.rw_initial_leaves a (lookup_or a (read_u32 m a) t.mem_initial)
  unfolding collect_entry entry_of
  initial_of a c h = rw h refl

  pub finals :
      (ws : List ℕ) (c : Collected)
      → All (λ a. (entry_of t m layout role a).include_final ≡ true) ws
      → (entries_loop ws c).rw_final_leaves
        ≡ for_each ws (λ a l. insert_word_leaves l a (read_u32 m a)) c.rw_final_leaves
  finals [] c h = refl
  finals (a ∷ ws) c h =
      finals ws (collect_entry (entry_of t m layout role a) c) h.1
      ∙ ap (λ l. for_each ws (λ a l. insert_word_leaves l a (read_u32 m a)) l) (final_of a c h.0)

  pub initials :
      (ws : List ℕ) (c : Collected)
      → All (λ a. (entry_of t m layout role a).include_initial ≡ true) ws
      → (entries_loop ws c).rw_initial_leaves
        ≡ for_each ws
            (λ a l. insert_word_leaves l a (lookup_or a (read_u32 m a) t.mem_initial))
            c.rw_initial_leaves
  initials [] c h = refl
  initials (a ∷ ws) c h =
      initials ws (collect_entry (entry_of t m layout role a) c) h.1
      ∙ ap
          (λ l.
            for_each ws (λ a l. insert_word_leaves l a (lookup_or a (read_u32 m a) t.mem_initial))
              l)
          (initial_of a c h.0)
