-- ===== src/Preprocessed/Columns.antt =====
-- The loops that fill a column.
use stark_v.Base.{
  ℕ, zero, suc, ◌<◌, ◌≡◌, ◌≢◌, refl, ap, arith, ◌∙◌, inl, inr, Bool-cases, eq→==, ==_iff, ◌==◌,
  if◌then◌else◌,
}

-- `for i in 0..n`.
unfoldable pub for_range {ℓ} : {S : Type ℓ} → ℕ → (ℕ → S → S) → S → S
for_range zero body s = s
for_range (suc n) body s = body n (for_range n body s)

-- `columns[i] = cell`.
abbrev pub write {ℓ} : {A : Type ℓ} → ℕ → A → (ℕ → A) → ℕ → A
write i cell columns j = if i == j then cell else columns j

module _ {ℓ} {A : Type ℓ} where
  pub write_same : (i : ℕ) (cell : A) (columns : ℕ → A) → write i cell columns i ≡ cell
  write_same i cell columns = rw (eq→== i i refl) refl

  pub write_other :
      (i j : ℕ) (cell : A) (columns : ℕ → A) → i ≢ j → write i cell columns j ≡ columns j
  write_other i j cell columns n = elim (Bool-cases (i == j)) [
    | inl e ↦ absurd (n ((==_iff i j).0 e))
    | inr e ↦ rw e refl
  ]

  module _ (body : ℕ → (ℕ → A) → ℕ → A) (j : ℕ) where
    -- No round changes the cell.
    pub loop_keeps :
        (n : ℕ) (columns : ℕ → A)
        → ((i : ℕ) → i < n → (v : ℕ → A) → body i v j ≡ v j)
        → for_range n body columns j ≡ columns j
    unfolding for_range
    loop_keeps zero columns h = refl
    loop_keeps (suc n) columns h =
        h n (omega arith) (for_range n body columns)
        ∙ loop_keeps n columns (λ i small. h i (omega (arith, small)))

    -- One round sets the cell, and the others leave it.
    pub loop_sets :
        (n k : ℕ) (cell : A) (columns : ℕ → A)
        → k < n
        → ((i : ℕ) → i < n → i ≢ k → (v : ℕ → A) → body i v j ≡ v j)
        → ((v : ℕ → A) → body k v j ≡ cell)
        → for_range n body columns j ≡ cell
    unfolding for_range
    loop_sets zero k cell columns small keeps sets = absurd (omega (arith, small))
    loop_sets (suc n) k cell columns small keeps sets = elim (Bool-cases (n == k)) [
      | inl e ↦
          ap (λ i. body i (for_range n body columns) j) ((==_iff n k).0 e)
          ∙ sets (for_range n body columns)
      | inr e ↦
          let other : n ≢ k = λ same. ground arith in
          keeps n (omega arith) other (for_range n body columns)
          ∙ loop_sets n k cell columns (ground arith)
              (λ i i_small. keeps i (omega (arith, i_small))) sets
    ]

-- A loop that writes each cell once.
pub filled {ℓ} :
    {A : Type ℓ} (row : ℕ → A) (n j : ℕ) (columns : ℕ → A)
    → j < n
    → for_range n (λ i v. write i (row i) v) columns j ≡ row j
filled row n j columns small =
    loop_sets (λ i v. write i (row i) v) j n j (row j) columns small
      (λ i i_small other v. write_other i j (row i) v other) (λ v. write_same j (row j) v)
