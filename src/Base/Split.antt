-- ===== src/Base/Split.antt =====
-- Splitting and joining texts at a separator.
use Prim.Native.Nat.{ℕ}
use mathlib.Core.Path.{◌≡◌, refl, ap, ◌∙◌}
use mathlib.Core.Logic.{inl, inr}
use mathlib.Core.Bool.{true, false}
use mathlib.Core.List.{List, [], ◌∷◌, ◌++◌}
use native.Mathlib.Omega.{arith}
use everest_ui.Base.Tests.{◌==◌, ==_iff, Bool-cases}
use everest_ui.Base.Lists.{All}
use everest_ui.Base.Text.{Text, split, cons_first, contains, join, ends}

module _ (c : ℕ) where
  split-nonempty : (s : Text) → (p : Text) × (ps : List Text) × (split c s ≡ p ∷ ps)
  unfolding split
  split-nonempty [] = ([], [], refl)
  split-nonempty (x ∷ s) = elim (Bool-cases (x == c)) [
    | inl sep ↦ ([], split c s, rw sep)
    | inr other ↦ let (p, ps, e) = split-nonempty s in (x ∷ p, ps, rw (other, e))
  ]

  cons_first-append :
      (x : ℕ) (s : Text) (ts : List Text)
      → cons_first x (split c s ++ ts) ≡ cons_first x (split c s) ++ ts
  cons_first-append x s ts = let (p, ps, e) = split-nonempty s in rw e

  pub split-append_sep : (xs ys : Text) → split c (xs ++ (c ∷ ys)) ≡ split c xs ++ split c ys
  unfolding split
  split-append_sep [] ys = rw ((==_iff c c).1 refl)
  split-append_sep (x ∷ xs) ys = elim (Bool-cases (x == c)) [
    | inl sep ↦ rw (sep, split-append_sep xs ys)
    | inr other ↦ rw (other, split-append_sep xs ys) (cons_first-append x xs (split c ys))
  ]

  pub split-no_sep : (s : Text) → contains c s ≡ false → split c s ≡ s ∷ []
  unfolding split contains
  split-no_sep [] h = refl
  split-no_sep (x ∷ s) h =
      let other : (x == c) ≡ false = ground arith in rw (other, split-no_sep s (ground arith))

  cons_first-All :
      (x : ℕ) (ss : List Text)
      → (x == c) ≡ false
      → All (λ p. contains c p ≡ false) ss
      → All (λ p. contains c p ≡ false) (cons_first x ss)
  unfolding contains
  cons_first-All x [] e h = (ground arith, tt)
  cons_first-All x (s ∷ ss) e h = (ground (arith, h.0), h.1)

  -- No part holds the separator.
  pub split-All : (s : Text) → All (λ p. contains c p ≡ false) (split c s)
  unfolding split contains
  split-All [] = (refl, tt)
  split-All (x ∷ s) = elim (Bool-cases (x == c)) [
    | inl sep ↦ rw sep (refl, split-All s)
    | inr other ↦ rw other (cons_first-All x (split c s) other (split-All s))
  ]

  pub split-join :
      (l : Text) (ls : List Text)
      → All (λ p. contains c p ≡ false) (l ∷ ls)
      → split c (join c (l ∷ ls)) ≡ l ∷ ls
  unfolding join
  split-join l [] h = split-no_sep l h.0
  split-join l (k ∷ ls) h =
      split-append_sep l (join c (k ∷ ls)) ∙ rw (split-no_sep l h.0, split-join k ls h.1)

  -- A text that ends in the separator is one followed by it.
  pub ends_inv : (s : Text) → ends c s ≡ true → (t : Text) × (s ≡ t ++ (c ∷ []))
  unfolding ends
  ends_inv [] h = absurd (ground arith)
  ends_inv (x ∷ []) h = ([], ap (λ (y : ℕ). y ∷ []) ((==_iff x c).0 h))
  ends_inv (x ∷ y ∷ s) h = let (t, e) = ends_inv (y ∷ s) h in (x ∷ t, ap (◌∷◌ x) e)
