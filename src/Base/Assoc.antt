-- ===== src/Base/Assoc.antt =====
-- `QMap` and `QHash` keyed by texts, as association lists without an order.
use mathlib.Core.Path.{◌≡◌, refl, subst}
use mathlib.Core.Logic.{inl, inr}
use mathlib.Core.Bool.{Bool}
use mathlib.Core.Option.{Option, none, some}
use native.Mathlib.Omega.{arith}
use mathlib.Core.List.{List, [], ◌∷◌}
use native.Mathlib.Omega.{arith}
use everest_ui.Base.Tests.{if◌then◌else◌, is_some, Bool-cases}
use everest_ui.Base.Lists.{All}
use everest_ui.Base.Text.{Text, eqb, eqb_iff}

module _ {ℓ} {V : Type ℓ} where
  unfoldable pub lookup : Text → List (Text × V) → Option V
  lookup k [] = none
  lookup k ((j, v) ∷ m) = if eqb j k then some v else lookup k m

  unfoldable pub insert : Text → V → List (Text × V) → List (Text × V)
  insert k v [] = (k, v) ∷ []
  insert k v ((j, w) ∷ m) = if eqb j k then (k, v) ∷ m else (j, w) ∷ insert k v m

  unfoldable pub remove : Text → List (Text × V) → List (Text × V)
  remove k [] = []
  remove k ((j, w) ∷ m) = if eqb j k then remove k m else (j, w) ∷ remove k m

  abbrev pub has_key : Text → List (Text × V) → Bool
  has_key k m = is_some (lookup k m)

  pub lookup-insert :
      (k j : Text) (v : V) (m : List (Text × V))
      → lookup j (insert k v m) ≡ (if eqb k j then some v else lookup j m)
  unfolding lookup insert
  lookup-insert k j v [] = refl
  lookup-insert k j v ((i, w) ∷ m) =
      ground (arith, eqb_iff k j, eqb_iff i k, eqb_iff i j, lookup-insert k j v m)

  pub lookup-remove :
      (k j : Text) (m : List (Text × V))
      → lookup j (remove k m) ≡ (if eqb k j then none else lookup j m)
  unfolding lookup remove
  lookup-remove k j [] = ground arith
  lookup-remove k j ((i, w) ∷ m) =
      ground (arith, eqb_iff k j, eqb_iff i k, eqb_iff i j, lookup-remove k j m)

  -- A predicate on the values survives both operations.
  pub All-insert {κ} :
      (P : V → Type κ) (k : Text) (v : V) (m : List (Text × V))
      → P v
      → All (λ e. P e.1) m
      → All (λ e. P e.1) (insert k v m)
  unfolding insert
  All-insert P k v [] p h = (p, tt)
  All-insert P k v ((j, w) ∷ m) p h = elim (Bool-cases (eqb j k)) [
    | inl same ↦ rw same (p, h.1)
    | inr other ↦ rw other (h.0, All-insert P k v m p h.1)
  ]

  pub All-remove {κ} :
      (P : V → Type κ) (k : Text) (m : List (Text × V))
      → All (λ e. P e.1) m
      → All (λ e. P e.1) (remove k m)
  unfolding remove
  All-remove P k [] h = tt
  All-remove P k ((j, w) ∷ m) h = elim (Bool-cases (eqb j k)) [
    | inl same ↦ rw same (All-remove P k m h.1)
    | inr other ↦ rw other (h.0, All-remove P k m h.1)
  ]

  pub All-lookup {κ} :
      (P : V → Type κ) (k : Text) (m : List (Text × V)) {v : V}
      → All (λ e. P e.1) m
      → lookup k m ≡ some v
      → P v
  unfolding lookup
  All-lookup P k [] h e = absurd (unsome e)
    where
      unsome : {v : V} → none ≡ some v → ⊥
      unsome e = cc
  All-lookup P k ((j, w) ∷ m) {v} h e = elim (Bool-cases (eqb j k)) [
    | inl same ↦ let found : w ≡ v = ground arith in subst P found h.0
    | inr other ↦ All-lookup P k m h.1 (rw other at e)
  ]
