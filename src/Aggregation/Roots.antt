-- ===== src/Aggregation/Roots.antt =====
-- The roots in the public data of a segment, PublicData::new of crates/prover/src/public_data.rs.
use stark_v.Base.{ℕ, ◌-◌, ◌≡◌, refl, ap, arith, ◌==◌, if◌then◌else◌}
use stark_v.Base.{
  Option, none, some, List, [], ◌∷◌, ◌++◌, Bool, true, false, ◌&&◌, ◌||◌, for_each, All, All-append,
  ==_iff,
}
use stark_v.Base.{Bool-cases, inl, inr, sym, ◌∙◌}
use stark_v.Ops.Utils.{m31_p}
use stark_v.Commitment.{MemoryTableRow, MemoryCommitmentEntry, push_entry, push_memory_rows}

abbrev pub is_some : Option ℕ → Bool
is_some none = false
is_some (some a) = true

-- `found`, or else the root of the row if it has the multiplicity.
unfoldable pub found_or : Option ℕ → ℕ → MemoryTableRow → Option ℕ
found_or (some root) multiplicity row = some root
found_or none multiplicity row = if row.multiplicity == multiplicity then some row.root else none

-- The loop over the rows of the memory table, with its `break`.
unfoldable pub find_roots : Option ℕ → Option ℕ → List MemoryTableRow → Option ℕ × Option ℕ
find_roots initial final [] = (initial, final)
find_roots initial final (row ∷ rest) =
    let initial = found_or initial 1 row in
    let final = found_or final (m31_p - 1) row in
    let found = find_roots initial final rest in
    if is_some initial && is_some final then (initial, final) else found

-- `root`, if the test holds.
abbrev pub when : Bool → ℕ → Option ℕ
when true root = some root
when false root = none

-- Some row has the multiplicity.
abbrev pub has : ℕ → List MemoryTableRow → Bool
has multiplicity [] = false
has multiplicity (row ∷ rest) = row.multiplicity == multiplicity || has multiplicity rest

-- The roots that the rows of the two multiplicities have.
record HasRoot (initial final : ℕ) (row : MemoryTableRow) : Type 0 where
  opens : row.multiplicity ≡ 1 → row.root ≡ initial
  closes : row.multiplicity ≡ m31_p - 1 → row.root ≡ final

found_or-when :
    (s : Bool) (root multiplicity : ℕ) (row : MemoryTableRow)
    → (row.multiplicity ≡ multiplicity → row.root ≡ root)
    → found_or (when s root) multiplicity row ≡ when (s || row.multiplicity == multiplicity) root
unfolding found_or
found_or-when true root multiplicity row h = refl
found_or-when false root multiplicity row h = elim (Bool-cases (row.multiplicity == multiplicity)) [
  | inr e ↦ rw e refl
  | inl e ↦ rw (e, h ((==_iff row.multiplicity multiplicity).0 e)) refl
]

or_assoc : (a b c : Bool) → ((a || b) || c) ≡ (a || (b || c))
or_assoc true b c = refl
or_assoc false b c = refl

or_false : (a : Bool) → (a || false) ≡ a
or_false true = refl
or_false false = refl

-- After the `break`, the rows that are left change nothing.
break-same :
    (p q x y : Bool) (i f : ℕ) (later : Option ℕ × Option ℕ)
    → later ≡ (when (p || x) i, when (q || y) f)
    → (if is_some (when p i) && is_some (when q f) then (when p i, when q f) else later)
      ≡ (when (p || x) i, when (q || y) f)
break-same true true x y i f later h = refl
break-same true false x y i f later h = h
break-same false q x y i f later h = h

-- What the loop has found once it is through, with or without `break`.
find_roots-when :
    (initial final : ℕ) (s u : Bool) (rows : List MemoryTableRow)
    → All (HasRoot initial final) rows
    → find_roots (when s initial) (when u final) rows
      ≡ (when (s || has 1 rows) initial, when (u || has (m31_p - 1) rows) final)
unfolding find_roots
find_roots-when initial final s u [] h = rw (or_false s, or_false u) refl
find_roots-when initial final s u (row ∷ rest) h =
    let opens = row.multiplicity == 1 in
    let closes = row.multiplicity == m31_p - 1 in
    let later = find_roots-when initial final (s || opens) (u || closes) rest h.1 in
    let first = found_or-when s initial 1 row (h.0).opens in
    let second = found_or-when u final (m31_p - 1) row (h.0).closes in
    let step =
      break-same (s || opens) (u || closes) (has 1 rest) (has (m31_p - 1) rest) initial final _
        later in
    let step =
      rw (or_assoc s opens (has 1 rest), or_assoc u closes (has (m31_p - 1) rest)) at step in
    rw (first, second) step

has-append : (m : ℕ) (xs ys : List MemoryTableRow) → has m (xs ++ ys) ≡ (has m xs || has m ys)
has-append m [] ys = refl
has-append m (x ∷ xs) ys =
    ap (λ b. x.multiplicity == m || b) (has-append m xs ys)
    ∙ sym (or_assoc (x.multiplicity == m) (has m xs) (has m ys))

abbrev Pushed : Bool → Bool → ℕ → ℕ → List MemoryTableRow → Type 0
Pushed s u initial final rows =
    All (HasRoot initial final) rows × (has 1 rows ≡ s) × (has (m31_p - 1) rows ≡ u)

push-Pushed :
    (s u o c : Bool) (initial final : ℕ) (rows : List MemoryTableRow) (row : MemoryTableRow)
    → Pushed s u initial final rows
    → HasRoot initial final row
    → (row.multiplicity == 1) ≡ o
    → (row.multiplicity == m31_p - 1) ≡ c
    → Pushed (s || o) (u || c) initial final (rows ++ row ∷ [])
push-Pushed s u o c initial final rows row (all, opens, closes) h one last = (
  All-append (HasRoot initial final) rows (row ∷ []) all (h, tt),
  has-append 1 rows (row ∷ []) ∙ rw (opens, one, or_false o) refl,
  has-append (m31_p - 1) rows (row ∷ []) ∙ rw (closes, last, or_false c) refl,
)

push-opening :
    (s u b : Bool) (initial final : ℕ) (rows : List MemoryTableRow) (row : MemoryTableRow)
    → Pushed s u initial final rows
    → row.multiplicity ≡ 1
    → row.root ≡ initial
    → Pushed (s || b) u initial final (if b then rows ++ row ∷ [] else rows)
push-opening s u false initial final rows row h one is = rw (or_false s) h
push-opening s u true initial final rows row h one is =
    let pushed =
      push-Pushed s u true false initial final rows row h
        (record { opens = λ e. is; closes = λ e. absurd (omega (arith, e, one)) }) (rw one refl)
        (rw one refl) in
    let pushed = rw (or_false u) at pushed in pushed

push-closing :
    (s u b : Bool) (initial final : ℕ) (rows : List MemoryTableRow) (row : MemoryTableRow)
    → Pushed s u initial final rows
    → row.multiplicity ≡ m31_p - 1
    → row.root ≡ final
    → Pushed s (u || b) initial final (if b then rows ++ row ∷ [] else rows)
push-closing s u false initial final rows row h last is = rw (or_false u) h
push-closing s u true initial final rows row h last is =
    let pushed =
      push-Pushed s u false true initial final rows row h
        (record { opens = λ e. absurd (omega (arith, e, last)); closes = λ e. is }) (rw last refl)
        (rw last refl) in
    let pushed = rw (or_false s) at pushed in pushed

push_entry-Pushed :
    (s u : Bool) (initial final : ℕ) (entry : MemoryCommitmentEntry) (rows : List MemoryTableRow)
    → Pushed s u initial final rows
    → Pushed
        (s || entry.include_initial)
        (u || entry.include_final)
        initial
        final
        (push_entry initial final entry rows)
unfolding push_entry
push_entry-Pushed s u initial final entry rows h =
    push-closing (s || entry.include_initial) u entry.include_final initial final _ _
      (push-opening s u entry.include_initial initial final rows _ h refl refl) refl refl

-- Some entry is included.
abbrev pub any_entry : (MemoryCommitmentEntry → Bool) → List MemoryCommitmentEntry → Bool
any_entry f [] = false
any_entry f (entry ∷ entries) = f entry || any_entry f entries

for_each-Pushed :
    (s u : Bool) (initial final : ℕ) (entries : List MemoryCommitmentEntry)
    (rows : List MemoryTableRow)
    → Pushed s u initial final rows
    → Pushed
        (s || any_entry (λ e. e.include_initial) entries)
        (u || any_entry (λ e. e.include_final) entries)
        initial
        final
        (for_each entries (push_entry initial final) rows)
for_each-Pushed s u initial final [] rows h = rw (or_false s, or_false u) h
for_each-Pushed s u initial final (entry ∷ entries) rows h =
    let pushed = push_entry-Pushed s u initial final entry rows h in
    let rest =
      for_each-Pushed (s || entry.include_initial) (u || entry.include_final) initial final entries
        (push_entry initial final entry rows) pushed in
    let rest =
      rw
        (
          or_assoc s entry.include_initial (any_entry (λ e. e.include_initial) entries),
          or_assoc u entry.include_final (any_entry (λ e. e.include_final) entries),
        )
        at rest in
    rest

-- In the table of a segment, `PublicData::new` finds the root of the initial tree if an entry has an
-- initial word, and the root of the final tree if an entry has a final word; else `None`.
pub find_roots-push_memory_rows :
    (entries : List MemoryCommitmentEntry) (initial final : ℕ)
    → find_roots none none (push_memory_rows [] entries initial final) ≡ (
      when (any_entry (λ e. e.include_initial) entries) initial,
      when (any_entry (λ e. e.include_final) entries) final,
    )
unfolding push_memory_rows
find_roots-push_memory_rows entries initial final =
    let (all, opens, closes) =
      for_each-Pushed false false initial final entries [] (tt, refl, refl) in
    let rows = for_each entries (push_entry initial final) [] in
    let found = find_roots-when initial final false false rows all in
    let found = rw (opens, closes) at found in found
