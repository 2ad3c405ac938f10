-- ===== src/Base/Assoc.antt =====
-- `BTreeMap<u32, V>` and `FxHashMap<u32, V>` as association lists, in the order of the keys.
use Prim.Native.Nat.{ℕ}
use mathlib.Core.Path.{◌≡◌, refl}
use mathlib.Core.List.{List, [], ◌∷◌}
use mathlib.Core.Option.{Option, none, some}
use mathlib.Core.Option
use native.Mathlib.Omega.{arith}
use stark_v.Base.Tests.{◌==◌, ltb, if◌then◌else◌}

abbrev pub Dict {ℓ} : Type ℓ → Type ℓ
Dict V = List (ℕ × V)

module _ {ℓ} {V : Type ℓ} where
  unfoldable pub lookup : ℕ → Dict V → Option V
  lookup k [] = none
  lookup k ((j, v) ∷ m) = if j == k then some v else lookup k m

  unfoldable pub insert : ℕ → V → Dict V → Dict V
  insert k v [] = (k, v) ∷ []
  insert k v ((j, w) ∷ m) =
      if j == k then (k, v) ∷ m else if ltb k j then (k, v) ∷ (j, w) ∷ m else (j, w) ∷ insert k v m

  -- `m.get(&k).copied().unwrap_or(d)`.
  abbrev pub lookup_or : ℕ → V → Dict V → V
  lookup_or k d m = Option.get_or (lookup k m) d

  -- `m.entry(k).or_insert(v)`.
  unfoldable pub or_insert : ℕ → V → Dict V → Dict V
  or_insert k v m = elim (lookup k m) [ some w ↦ m | none ↦ insert k v m ]

  pub lookup-insert :
      (k q : ℕ) (v : V) (dict : Dict V)
      → lookup q (insert k v dict) ≡ (if k == q then some v else lookup q dict)
  unfolding lookup insert
  lookup-insert k q v [] = refl
  lookup-insert k q v ((i, held) ∷ dict) =
      let rest = lookup-insert k q v dict in ground (arith, rest)
