-- ===== src/Base/Trim.antt =====
-- Trimming, and the first separator of a text.
use Prim.Native.Nat.{ℕ}
use mathlib.Core.Path.{◌≡◌, refl}
use mathlib.Core.Logic.{◌⊎◌, inl, inr}
use mathlib.Core.Bool.{Bool, false, ◌&&◌}
use mathlib.Core.Option.{none, some}
use mathlib.Core.List.{[], ◌∷◌, ◌++◌}
use native.Mathlib.Omega.{arith}
use everest_ui.Base.Tests.{◌==◌, ==_iff, is_empty, Bool-cases}
use everest_ui.Base.Lists.{length}
use everest_ui.Base.Text.{Text, contains, index_of, trimmed, drop_while, drop_while_end}

module _ (p : ℕ → Bool) where
  pub drop_while_end-cons :
      (x : ℕ) (s : Text) → p x ≡ false → drop_while_end p (x ∷ s) ≡ x ∷ drop_while_end p s
  unfolding drop_while_end
  drop_while_end-cons x s h = rw h

  pub drop_while_end_idem : (s : Text) → drop_while_end p (drop_while_end p s) ≡ drop_while_end p s
  unfolding drop_while_end
  drop_while_end_idem [] = refl
  drop_while_end_idem (x ∷ s) = elim (Bool-cases (p x && is_empty (drop_while_end p s))) [
    | inl gone ↦ rw gone
    | inr kept ↦ rw kept (rw (drop_while_end_idem s, kept))
  ]

  is_empty-append : (xs : Text) (y : ℕ) (ys : Text) → is_empty (xs ++ (y ∷ ys)) ≡ false
  is_empty-append [] y ys = refl
  is_empty-append (x ∷ xs) y ys = refl

  drop_while_end-before :
      (x : ℕ) (s : Text)
      → drop_while_end p s ≡ s
      → is_empty s ≡ false
      → drop_while_end p (x ∷ s) ≡ x ∷ s
  unfolding drop_while_end
  drop_while_end-before x s e h = ground arith

  pub drop_while_end-append :
      (xs : Text) (y : ℕ) (ys : Text)
      → drop_while_end p (y ∷ ys) ≡ y ∷ ys
      → drop_while_end p (xs ++ (y ∷ ys)) ≡ xs ++ (y ∷ ys)
  drop_while_end-append [] y ys h = h
  drop_while_end-append (x ∷ xs) y ys h =
      drop_while_end-before x (xs ++ (y ∷ ys)) (drop_while_end-append xs y ys h)
        (is_empty-append xs y ys)

  drop_while_head :
      (s : Text)
      → (drop_while p s ≡ []) ⊎ ((x : ℕ) × (r : Text) × (drop_while p s ≡ x ∷ r) × (p x ≡ false))
  unfolding drop_while
  drop_while_head [] = inl refl
  drop_while_head (x ∷ s) = elim (Bool-cases (p x)) [
    | inl space ↦ rw space (drop_while_head s)
    | inr solid ↦ inr (x, s, rw solid, solid)
  ]

  pub trimmed_idem : (s : Text) → trimmed p (trimmed p s) ≡ trimmed p s
  unfolding trimmed
  trimmed_idem s = elim (drop_while_head s) [
    | inl none_left ↦ rw none_left (unfold drop_while drop_while_end in refl)
    | inr (x, r, e, solid) ↦ rw e (
        rw (drop_while_end-cons x r solid) (
          unfold drop_while in
          (rw solid
            (rw (drop_while_end-cons x (drop_while_end p r) solid) (rw (drop_while_end_idem r))))))
  ]

  contains-drop_while :
      (c : ℕ) (s : Text) → contains c s ≡ false → contains c (drop_while p s) ≡ false
  unfolding drop_while contains
  contains-drop_while c [] h = h
  contains-drop_while c (x ∷ s) h = ground (arith, contains-drop_while c s)

  contains-drop_while_end :
      (c : ℕ) (s : Text) → contains c s ≡ false → contains c (drop_while_end p s) ≡ false
  unfolding drop_while_end contains
  contains-drop_while_end c [] h = h
  contains-drop_while_end c (x ∷ s) h = ground (arith, contains-drop_while_end c s)

  -- Trimming adds nothing.
  pub contains-trimmed :
      (c : ℕ) (s : Text) → contains c s ≡ false → contains c (trimmed p s) ≡ false
  unfolding trimmed
  contains-trimmed c s h = contains-drop_while_end c (drop_while p s) (contains-drop_while c s h)

pub index_of-append :
    (c : ℕ) (xs ys : Text) → contains c xs ≡ false → index_of c (xs ++ (c ∷ ys)) ≡ some (length xs)
unfolding index_of contains
index_of-append c [] ys h = rw ((==_iff c c).1 refl)
index_of-append c (x ∷ xs) ys h =
    let other : (x == c) ≡ false = ground arith in
    rw (other, index_of-append c xs ys (ground arith))

pub index_of-none : (c : ℕ) (xs : Text) → contains c xs ≡ false → index_of c xs ≡ none
unfolding index_of contains
index_of-none c [] h = refl
index_of-none c (x ∷ xs) h =
    let other : (x == c) ≡ false = ground arith in rw (other, index_of-none c xs (ground arith))

pub drop_while-cons : (p : ℕ → Bool) (x : ℕ) (s : Text) → p x ≡ false → drop_while p (x ∷ s) ≡ x ∷ s
unfolding drop_while
drop_while-cons p x s h = rw h
