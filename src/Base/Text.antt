-- ===== src/Base/Text.antt =====
-- Texts as lists of code units, for `QString` (UTF-16 code units) and `QByteArray` (bytes), and
-- the operations on them that the code uses. `none` stands for the index -1.
use Prim.Native.Char.{code}
use Prim.Native.String.{String}
use Prim.Native.Nat.{ℕ, suc}
use mathlib.Core.Path.{◌≡◌, refl, ap, ◌∙◌, subst}
use mathlib.Core.Logic.{◌↔◌, inl, inr}
use mathlib.Core.Bool.{Bool, true, false, ◌&&◌, ◌||◌}
use mathlib.Core.Option
use mathlib.Core.Option.{Option, none, some}
use mathlib.Core.List.{List, [], ◌∷◌, ◌++◌}
use native.Mathlib.Omega.{arith}
use everest_ui.Base.Tests.{◌==◌, ==_iff, if◌then◌else◌, is_empty, Bool-cases}
use everest_ui.Base.Lists.{All}

abbrev pub Text : Type 0
Text = List ℕ

-- The code units of a literal, which is ASCII.
abbrev pub codes : String → Text
codes String.[] = []
codes (String.◌∷◌ c s) = code c ∷ codes s

unfoldable pub eqb : Text → Text → Bool
eqb [] [] = true
eqb (x ∷ xs) (y ∷ ys) = x == y && eqb xs ys
eqb _ _ = false

pub eqb_iff : (a b : Text) → (eqb a b ≡ true) ↔ (a ≡ b)
unfolding eqb
eqb_iff (x ∷ a) (y ∷ b) = ground (arith, eqb_iff a b)
eqb_iff _ _ = ground arith

pub eqb_refl : (a : Text) → eqb a a ≡ true
eqb_refl a = (eqb_iff a a).1 refl

-- `indexOf(c)`
unfoldable pub index_of : ℕ → Text → Option ℕ
index_of c [] = none
index_of c (x ∷ xs) = if x == c then some 0 else Option.map suc (index_of c xs)

-- `contains(c)`
unfoldable pub contains : ℕ → Text → Bool
contains c [] = false
contains c (x ∷ xs) = x == c || contains c xs

-- `startsWith(prefix)`
unfoldable pub starts_with : Text → Text → Bool
starts_with [] s = true
starts_with (c ∷ cs) [] = false
starts_with (c ∷ cs) (x ∷ xs) = c == x && starts_with cs xs

-- `indexOf(part)`
unfoldable pub find_text : Text → Text → Option ℕ
unfolding starts_with
find_text part [] = if is_empty part then some 0 else none
find_text part (x ∷ xs) =
    if starts_with part (x ∷ xs) then some 0 else Option.map suc (find_text part xs)

-- Puts a code unit in front of the first part.
abbrev pub cons_first : ℕ → List Text → List Text
cons_first x [] = (x ∷ []) ∷ []
cons_first x (s ∷ ss) = (x ∷ s) ∷ ss

-- `split(c)`: never empty.
unfoldable pub split : ℕ → Text → List Text
split c [] = [] ∷ []
split c (x ∷ xs) = if x == c then [] ∷ split c xs else cons_first x (split c xs)

-- `join(c)`
unfoldable pub join : ℕ → List Text → Text
join c [] = []
join c (l ∷ []) = l
join c (l ∷ k ∷ ls) = l ++ (c ∷ join c (k ∷ ls))

-- `endsWith(c)`
unfoldable pub ends : ℕ → Text → Bool
ends c [] = false
ends c (x ∷ []) = x == c
ends c (x ∷ y ∷ s) = ends c (y ∷ s)

unfoldable pub drop_while : (ℕ → Bool) → Text → Text
drop_while p [] = []
drop_while p (x ∷ xs) = if p x then drop_while p xs else x ∷ xs

unfoldable pub drop_while_end : (ℕ → Bool) → Text → Text
drop_while_end p [] = []
drop_while_end p (x ∷ xs) =
    let rest = drop_while_end p xs in if p x && is_empty rest then [] else x ∷ rest

-- `trimmed()`, for a test of white space.
unfoldable pub trimmed : (ℕ → Bool) → Text → Text
unfolding drop_while drop_while_end
trimmed p s = drop_while_end p (drop_while p s)

-- A regular expression that ends in `$` also matches before a newline at the very end.
unfoldable pub before_final_newline : Text → Text
before_final_newline [] = []
before_final_newline (c ∷ []) = if c == b'\n' then [] else c ∷ []
before_final_newline (c ∷ d ∷ s) = c ∷ before_final_newline (d ∷ s)

module _ (p : ℕ → Bool) where
  pub drop_while-All_kept : (s : Text) → All (λ c. p c ≡ false) s → drop_while p s ≡ s
  unfolding drop_while
  drop_while-All_kept [] h = refl
  drop_while-All_kept (c ∷ s) h = rw (h.0)

  drop_while_end-All_kept : (s : Text) → All (λ c. p c ≡ false) s → drop_while_end p s ≡ s
  unfolding drop_while_end
  drop_while_end-All_kept [] h = refl
  drop_while_end-All_kept (c ∷ s) h = ground (arith, drop_while_end-All_kept s h.1)

  -- A text without white space is not changed.
  pub trimmed-All_kept : (s : Text) → All (λ c. p c ≡ false) s → trimmed p s ≡ s
  unfolding trimmed
  trimmed-All_kept s h =
      ap (drop_while_end p) (drop_while-All_kept s h) ∙ drop_while_end-All_kept s h

  module _ (newline : p b'\n' ≡ true) where
    before_final_newline-cons :
        (x : ℕ) (r : Text)
        → before_final_newline r ≡ r
        → (p x && is_empty r) ≡ false
        → before_final_newline (x ∷ r) ≡ x ∷ r
    unfolding before_final_newline
    before_final_newline-cons x [] e h = elim (Bool-cases (x == b'\n')) [
      | inl nl ↦ absurd (kept (subst (λ c. (p c && true) ≡ false) ((==_iff x b'\n').0 nl) h))
      | inr other ↦ rw other
    ]
      where
        kept : (p b'\n' && true) ≡ false → ⊥
        kept h = ground (arith, newline)
    before_final_newline-cons x (d ∷ r) e h = ap (◌∷◌ x) e

    before_final_newline-drop_while_end :
        (s : Text) → before_final_newline (drop_while_end p s) ≡ drop_while_end p s
    unfolding drop_while_end
    before_final_newline-drop_while_end [] = unfold before_final_newline in refl
    before_final_newline-drop_while_end (x ∷ s) =
        elim (Bool-cases (p x && is_empty (drop_while_end p s))) [
          | inl gone ↦ rw gone (unfold before_final_newline in refl)
          | inr kept ↦ rw kept (
              before_final_newline-cons x (drop_while_end p s)
                (before_final_newline-drop_while_end s) kept)
        ]

    -- A trimmed text ends in no newline.
    pub before_final_newline-trimmed : (s : Text) → before_final_newline (trimmed p s) ≡ trimmed p s
    unfolding trimmed
    before_final_newline-trimmed s = before_final_newline-drop_while_end (drop_while p s)
