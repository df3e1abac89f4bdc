-- ===== src/Config/Update.antt =====
-- backend/config/LayeredConfig.cpp: lemmas on the verdict of the text that `writeOverlay` writes.
use everest_ui.Base.{
  Bool, true, false, ◌&&◌, not, List, [], ◌∷◌, ◌++◌, Option, none, some, ◌≡◌, ◌≢◌, refl,
  if◌then◌else◌, arith, is_empty, All, ◌∙◌, ap, sym, append_assoc, Option-cases, Bool-cases, inl,
  inr, subst, if_both,
}
use everest_ui.Base.Text.{Text, trimmed, contains, eqb, eqb_iff, split, join, ends}
use everest_ui.Base.Split.{split-append_sep, split-join, ends_inv}
use everest_ui.Qt.{Qt, QtLaws}
use everest_ui.Config.Line.{Directive, valid_key, parse_trimmed, parse_line}
use everest_ui.Config.Overlay.{Update, set, mask, inherit, keep_lines, directive_line, new_text}
use everest_ui.Config.Meaning.{Verdict, override, line_verdict, verdict}
use everest_ui.Config.Written.{parse_line-key_value, parse_line-mask, split-key_value, split-mask}

-- What the new directive says of its key.
abbrev pub written : Qt → Update → Text → Verdict
written q set value = some (some (trimmed q.is_space value))
written q mask value = some none
written q inherit value = none

override_assoc : (a b c : Verdict) → override (override a b) c ≡ override a (override b c)
override_assoc a b none = refl
override_assoc a b (some w) = refl

override-none : (a : Verdict) → override none a ≡ a
override-none none = refl
override-none (some w) = refl

module _ (q : Qt) (key : Text) where
  -- One line: it is kept if its directive has another key.
  pub keep_lines_inv :
      (l : Text) (ls : List Text) {out : List Text}
      → keep_lines q key (l ∷ ls) ≡ some out
      → (d : Directive) × (rest : List Text) × (parse_line q l ≡ some d)
        × (keep_lines q key ls ≡ some rest)
        × (out ≡ (if not (eqb d.key key) then l ∷ rest else rest))
  keep_lines_inv l ls e = elim (Option-cases (parse_line q l)) [
    | inl bad ↦ absurd (unfold keep_lines in ground arith)
    | inr (d, good) ↦ elim (Option-cases (keep_lines q key ls)) [
      | inl bad ↦ absurd (unfold keep_lines in ground arith)
      | inr (rest, kept) ↦ (d, rest, good, kept, unfold keep_lines in ground arith)
    ]
  ]

  pub keep_lines-All :
      (P : Text → Type 0) (ls out : List Text)
      → keep_lines q key ls ≡ some out
      → All P ls
      → All P out
  keep_lines-All P [] out e h =
      let done : out ≡ [] = unfold keep_lines in ground arith in subst (All P) (sym done) tt
  keep_lines-All P (l ∷ ls) out e h =
      let (d, rest, good, kept, same) = keep_lines_inv l ls e in
      let ih = keep_lines-All P ls rest kept h.1 in
      subst (All P) (sym same) (if_both (All P) (not (eqb d.key key)) (λ _. (h.0, ih)) (λ _. ih))

module _ (q : Qt) (j : Text) where
  verdict-append :
      (xs ys : List Text) → verdict q j (xs ++ ys) ≡ override (verdict q j xs) (verdict q j ys)
  unfolding verdict
  verdict-append [] ys = sym (override-none (verdict q j ys))
  verdict-append (x ∷ xs) ys =
      ap (override (line_verdict q j x)) (verdict-append xs ys)
      ∙ sym (override_assoc (line_verdict q j x) (verdict q j xs) (verdict q j ys))

  unfoldable pub text_verdict : Text → Verdict
  text_verdict text = verdict q j (split b'\n' text)

  text_verdict-newline :
      (t s : Text) → text_verdict (t ++ (b'\n' ∷ s)) ≡ override (text_verdict t) (text_verdict s)
  unfolding text_verdict
  text_verdict-newline t s =
      ap (verdict q j) (split-append_sep b'\n' t s) ∙ verdict-append (split b'\n' t) (split b'\n' s)

  module _ (named : is_empty j ≡ false) where
    text_verdict-nil : text_verdict [] ≡ none
    unfolding text_verdict split verdict line_verdict parse_line parse_trimmed trimmed
    text_verdict-nil = ground (arith, eqb_iff [] j)

    -- The verdict of the lines that are kept.
    keep_lines-verdict :
        (key : Text) (ls out : List Text)
        → keep_lines q key ls ≡ some out
        → verdict q j out ≡ (if eqb key j then none else verdict q j ls)
    unfolding verdict line_verdict
    keep_lines-verdict key [] out e =
        let done : out ≡ [] = unfold keep_lines in ground arith in rw done (ground arith)
    keep_lines-verdict key (l ∷ ls) out e =
        let (d, rest, good, kept, same) = keep_lines_inv q key l ls e in
        let ih = keep_lines-verdict key ls rest kept in
        rw (same, good)
          (elim (Bool-cases (eqb d.key key)) [
            | inl dropped ↦
                rw dropped (ground (arith, ih, eqb_iff d.key key, eqb_iff key j, eqb_iff d.key j))
            | inr stays ↦
                rw stays
                  (rw good (ground (arith, ih, eqb_iff d.key key, eqb_iff key j, eqb_iff d.key j)))
          ])

    text_verdict-join :
        (out : List Text)
        → All (λ l. contains b'\n' l ≡ false) out
        → text_verdict (join b'\n' out) ≡ verdict q j out
    text_verdict-join [] h = unfold join verdict in text_verdict-nil
    text_verdict-join (l ∷ ls) h =
        unfold text_verdict in (ap (verdict q j) (split-join b'\n' l ls h))

    text_verdict-last :
        (line : Text)
        → split b'\n' line ≡ line ∷ []
        → text_verdict (line ++ (b'\n' ∷ [])) ≡ line_verdict q j line
    text_verdict-last line one =
        text_verdict-newline line []
        ∙ ap (override (text_verdict line)) text_verdict-nil
        ∙ (unfold text_verdict verdict in (ap (verdict q j) one))

    text_verdict-behind :
        (t line : Text)
        → split b'\n' line ≡ line ∷ []
        → text_verdict (t ++ (b'\n' ∷ (line ++ (b'\n' ∷ []))))
          ≡ override (text_verdict t) (line_verdict q j line)
    text_verdict-behind t line one =
        text_verdict-newline t (line ++ (b'\n' ∷ []))
        ∙ ap (override (text_verdict t)) (text_verdict-last line one)

    -- A line behind a text: with a newline between them where the text does not end in one.
    text_verdict-line :
        (text line : Text)
        → split b'\n' line ≡ line ∷ []
        → text_verdict (
            (if not (is_empty text) && not (ends b'\n' text) then text ++ (b'\n' ∷ []) else text)
            ++ (line ++ (b'\n' ∷ [])))
          ≡ override (text_verdict text) (line_verdict q j line)
    text_verdict-line [] line one =
        text_verdict-last line one
        ∙ sym (
            ap (λ v. override v (line_verdict q j line)) text_verdict-nil
            ∙ override-none (line_verdict q j line))
    text_verdict-line (x ∷ xs) line one = elim (Bool-cases (ends b'\n' (x ∷ xs))) [
      | inl ended ↦
          let (t, e) = ends_inv b'\n' (x ∷ xs) ended in
          let same : text_verdict (x ∷ xs) ≡ text_verdict t =
            ap text_verdict e
            ∙ text_verdict-newline t []
            ∙ ap (override (text_verdict t)) text_verdict-nil in
          rw ended (
            ap (λ (s : Text). text_verdict (s ++ (line ++ (b'\n' ∷ [])))) e
            ∙ ap text_verdict (append_assoc t (b'\n' ∷ []) (line ++ (b'\n' ∷ [])))
            ∙ text_verdict-behind t line one
            ∙ ap (λ v. override v (line_verdict q j line)) (sym same))
      | inr unended ↦ rw unended (
          ap text_verdict (append_assoc (x ∷ xs) (b'\n' ∷ []) (line ++ (b'\n' ∷ [])))
          ∙ text_verdict-behind (x ∷ xs) line one)
    ]

    line_verdict-directive_line :
        (laws : QtLaws q) (update : Update) (key value : Text)
        → valid_key q key ≡ true
        → contains 0 value ≡ false
        → update ≢ inherit
        → line_verdict q j (directive_line q update key value)
          ≡ (if eqb key j then written q update value else none)
    unfolding line_verdict
    line_verdict-directive_line laws set key value good clean new =
        rw (parse_line-key_value q laws key value good clean)
    line_verdict-directive_line laws mask key value good clean new =
        rw (parse_line-mask q laws key good)
    line_verdict-directive_line laws inherit key value good clean new = absurd (new refl)

    pub split-directive_line :
        (laws : QtLaws q) (update : Update) (key value : Text)
        → valid_key q key ≡ true
        → contains b'\n' value ≡ false
        → update ≢ inherit
        → split b'\n' (directive_line q update key value) ≡ directive_line q update key value ∷ []
    split-directive_line laws set key value good clean new =
        split-key_value q laws key value good clean
    split-directive_line laws mask key value good clean new = split-mask q laws key good
    split-directive_line laws inherit key value good clean new = absurd (new refl)

    merge :
        (b : Bool) (v : Verdict) (w : Option Text)
        → override (if b then none else v) (if b then some w else none) ≡ (if b then some w else v)
    merge true v w = refl
    merge false v w = refl

    module _ (laws : QtLaws q) (key value : Text) (good : valid_key q key ≡ true)
        (one : contains b'\n' value ≡ false) (clean : contains 0 value ≡ false) (ls out : List Text)
        (flat : All (λ l. contains b'\n' l ≡ false) ls)
        (kept : keep_lines q key ls ≡ some out) where
      kept-verdict : text_verdict (join b'\n' out) ≡ (if eqb key j then none else verdict q j ls)
      kept-verdict =
          text_verdict-join out
            (keep_lines-All q key (λ l. contains b'\n' l ≡ false) ls out kept flat)
          ∙ keep_lines-verdict key ls out kept

      added-verdict :
          (update : Update) (w : Option Text)
          → update ≢ inherit
          → written q update value ≡ some w
          → let text = join b'\n' out in
            text_verdict (
              (if not (is_empty text) && not (ends b'\n' text) then text ++ (b'\n' ∷ []) else text)
              ++ (directive_line q update key value ++ (b'\n' ∷ [])))
            ≡ (if eqb key j then some w else verdict q j ls)
      added-verdict update w new e =
          let said = line_verdict-directive_line laws update key value good clean new in
          text_verdict-line (join b'\n' out) (directive_line q update key value)
            (split-directive_line laws update key value good one new)
          ∙ ap (λ v. override v (line_verdict q j (directive_line q update key value))) kept-verdict
          ∙ ap (override (if eqb key j then none else verdict q j ls)) (said ∙ rw e)
          ∙ merge (eqb key j) (verdict q j ls) w

      -- The text that is written says of the key what the update says, and of every other key
      -- what the old lines say.
      pub new_text-verdict :
          (update : Update)
          → text_verdict (new_text q update key value out)
            ≡ (if eqb key j then written q update value else verdict q j ls)
      unfolding new_text
      new_text-verdict set = added-verdict set (some (trimmed q.is_space value)) (λ e. cc) refl
      new_text-verdict mask = added-verdict mask none (λ e. cc) refl
      new_text-verdict inherit = kept-verdict
