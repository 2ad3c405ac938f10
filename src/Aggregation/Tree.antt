-- ===== src/Aggregation/Tree.antt =====
-- The tree over segments accepts the sequences that chain, and exposes their outer boundary.
use stark_v.Base.{ℕ, zero, suc, ◌*◌, ◌≤◌, ◌<◌, ◌≡◌, refl, ap, ◌⊎◌, inl, inr, arith}
use stark_v.Base.{Option, none, some, List, [], ◌∷◌, Result, length, ◌==◌, ==_iff}
use stark_v.Base.{Bool, true, false, ◌&&◌, Bool-cases}
use stark_v.Aggregation.{
  Boundary, Mismatch, VerificationError, regs_eq, root_eq, chain, chain_pair, pair_up, fold_levels,
}

-- The right boundary begins where the left one ends, in the same program.
unfoldable pub fits : Boundary → Boundary → Bool
fits left right =
    left.exit_pc == right.entry_pc
    && (regs_eq left.exit_regs right.entry_regs
        && (root_eq left.exit_rw_root right.entry_rw_root
            && root_eq left.program_root right.program_root))

-- From the entry of the left boundary to the exit of the right one.
abbrev pub join : Boundary → Boundary → Boundary
join left right = record {
  entry_pc = left.entry_pc;
  exit_pc = right.exit_pc;
  entry_regs = left.entry_regs;
  exit_regs = right.exit_regs;
  entry_rw_root = left.entry_rw_root;
  exit_rw_root = right.exit_rw_root;
  program_root = left.program_root;
}

-- Each boundary fits the one before it.
unfoldable pub linked : Boundary → List Boundary → Bool
linked first [] = true
linked first (next ∷ rest) = fits first next && linked next rest

abbrev pub last : Boundary → List Boundary → Boundary
last first [] = first
last first (next ∷ rest) = last next rest

-- From the entry of the first boundary to the exit of the last one.
abbrev pub span : Boundary → List Boundary → Boundary
span first rest = join first (last first rest)

root_eq→≡ : (a b : Option ℕ) → root_eq a b ≡ true → a ≡ b
unfolding root_eq
root_eq→≡ none none h = refl
root_eq→≡ none (some b) h = ground arith
root_eq→≡ (some a) none h = ground arith
root_eq→≡ (some a) (some b) h = ap some ((==_iff a b).0 h)

abbrev Chains : Boundary → Boundary → Result Mismatch Boundary → Type 0
Chains a b r =
    ((fits a b ≡ true) × (r ≡ Result.ok (join a b)))
    ⊎ ((fits a b ≡ false) × ((what : Mismatch) × (r ≡ Result.err what)))

chain-cases : (a b : Boundary) → Chains a b (chain a b)
unfolding chain fits
chain-cases a b = elim (Bool-cases (a.exit_pc == b.entry_pc)) [
  | inr e ↦ rw e (inr (refl, (Mismatch.pc, refl)))
  | inl e ↦ elim (Bool-cases (regs_eq a.exit_regs b.entry_regs)) [
    | inr f ↦ rw (e, f) (inr (refl, (Mismatch.regs, refl)))
    | inl f ↦ elim (Bool-cases (root_eq a.exit_rw_root b.entry_rw_root)) [
      | inr g ↦ rw (e, f, g) (inr (refl, (Mismatch.rw_root, refl)))
      | inl g ↦ elim (Bool-cases (root_eq a.program_root b.program_root)) [
        | inr h ↦ rw (e, f, g, h) (inr (refl, (Mismatch.program_root, refl)))
        | inl h ↦ rw (e, f, g, h) (inl (refl, refl))
      ]
    ]
  ]
]

fits-program : (a b : Boundary) → fits a b ≡ true → a.program_root ≡ b.program_root
unfolding fits
fits-program a b h = root_eq→≡ a.program_root b.program_root (ground arith)

-- What follows the right boundary follows the two together.
fits-join : (a b c : Boundary) → fits a b ≡ true → fits (join a b) c ≡ fits b c
unfolding fits
fits-join a b c h = rw (fits-program a b h) refl

fits-entry : (x a b : Boundary) → fits x (join a b) ≡ fits x a
unfolding fits
fits-entry x a b = refl

-- A level and the next one: the same links and the same span, in about half the nodes.
record Halves (first : Boundary) (rest : List Boundary) (node : Boundary) (next : List Boundary)
    : Type 0 where
  links : linked node next ≡ linked first rest
  spans : span node next ≡ span first rest
  entry : (x : Boundary) → fits x node ≡ fits x first
  short : length next * 2 ≤ length rest

module _ {E : Type 0} where
  abbrev Pairs : Boundary → List Boundary → Result (VerificationError E) (List Boundary) → Type 0
  Pairs first rest r =
      ((node : Boundary) × (next : List Boundary) × (r ≡ Result.ok (node ∷ next))
        × Halves first rest node next)
      ⊎ ((e : VerificationError E) × (r ≡ Result.err e) × (linked first rest ≡ false))

  pair_up-Pairs :
      (mismatch : ℕ → Mismatch → VerificationError E) (index : ℕ) (first : Boundary)
      (rest : List Boundary)
      → Pairs first rest (pair_up mismatch index (first ∷ rest))
  unfolding pair_up chain_pair linked
  pair_up-Pairs mismatch index first [] = inl (
    first,
    [],
    refl,
    record { links = refl; spans = refl; entry = λ x. refl; short = omega arith },
  )
  pair_up-Pairs mismatch index first (right ∷ []) = elim (chain-cases first right) [
    | inr (gap, (what, is)) ↦
        inr (mismatch index what, rw (is, chain_pair, pair_up) refl, rw gap refl)
    | inl (fit, is) ↦ inl (
      join first right,
      [],
      rw (is, chain_pair, pair_up) refl,
      record {
        links = rw fit refl;
        spans = refl;
        entry = λ x. fits-entry x first right;
        short = omega arith;
      },
    )
  ]
  pair_up-Pairs mismatch index first (right ∷ third ∷ rest) = elim (chain-cases first right) [
    | inr (gap, (what, is)) ↦
        inr (mismatch index what, rw (is, chain_pair, pair_up) refl, rw gap refl)
    | inl (fit, is) ↦ elim (pair_up-Pairs mismatch (suc index) third rest) [
      | inr (e, fails, gap) ↦
          inr (e, rw (is, fails, chain_pair, pair_up) refl, rw (gap, fit) (ground arith))
      | inl (node, next, found, h) ↦ inl (
        join first right,
        node ∷ next,
        rw (is, found, chain_pair, pair_up) refl,
        record {
          links =
              rw (h.entry (join first right), fits-join first right third fit, fit, h.links) refl;
          spans = ap (join first) h.spans;
          entry = λ x. fits-entry x first right;
          short = omega (arith, h.short);
        },
      )
    ]
  ]

  abbrev pub Folds :
      Boundary → List Boundary → Option (Result (VerificationError E) Boundary) → Type 0
  Folds first rest r =
      ((linked first rest ≡ true) × (r ≡ some (Result.ok (span first rest))))
      ⊎ ((linked first rest ≡ false) × ((e : VerificationError E) × (r ≡ some (Result.err e))))

  -- As much fuel as there are nodes is enough.
  pub fold_levels-Folds :
      (mismatch : ℕ → ℕ → Mismatch → VerificationError E) (fuel depth : ℕ) (first : Boundary)
      (rest : List Boundary)
      → length rest < fuel
      → Folds first rest (fold_levels mismatch fuel depth (first ∷ rest))
  unfolding fold_levels linked
  fold_levels-Folds mismatch zero depth first rest enough = ground arith
  fold_levels-Folds mismatch (suc fuel) depth first [] enough = inl (refl, refl)
  fold_levels-Folds mismatch (suc fuel) depth first (right ∷ rest) enough =
      elim (pair_up-Pairs (mismatch depth) 0 first (right ∷ rest)) [
        | inr (e, fails, gap) ↦ inr (gap, (e, rw (fails, fold_levels) refl))
        | inl (node, next, found, h) ↦
            let shorter = h.short in
            let folded =
              fold_levels-Folds mismatch fuel (suc depth) node next
                (omega (arith, shorter, enough)) in
            let folded = rw (h.links, h.spans) at folded in rw (found, fold_levels) folded
      ]
