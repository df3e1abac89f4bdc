-- ===== src/Config/Accepts.antt =====
-- backend/config/LayeredConfig.cpp: lemmas on the lines that `writeOverlay` writes and `load`
-- reads.
use everest_ui.Base.{
  ℕ, ◌+◌, Bool, true, false, ◌&&◌, not, List, [], ◌∷◌, ◌++◌, some, is_some, ◌≡◌, ◌≢◌, refl,
  if◌then◌else◌, arith, is_empty, all, All, ◌∙◌, ap, Option-cases, Bool-cases, if_both, inl, inr,
  append_assoc,
}
use everest_ui.Base.Text.{Text, contains, eqb, split, join, ends, trimmed}
use everest_ui.Base.Split.{split-append_sep, split-join, ends_inv}
use everest_ui.Qt.{Qt, QtLaws}
use everest_ui.Config.Line.{
  Directive, valid_key, parse_line, parse_trimmed, ConfigFile, contents, lines, read_file,
  strip_bom,
}
use everest_ui.Config.Layers.{
  Snapshot, empty_snapshot, is_valid, Paths, apply, load_lines, load_layer, load,
}
use everest_ui.Config.Overlay.{Update, set, mask, inherit, directive_line, keep_lines, new_text}
use everest_ui.Config.Written.{parse_line-key_value, parse_line-mask}
use everest_ui.Config.Update.{keep_lines_inv, keep_lines-All, split-directive_line}

all-append : (p : Text → Bool) (xs ys : List Text) → all p (xs ++ ys) ≡ (all p xs && all p ys)
all-append p [] ys = refl
all-append p (x ∷ xs) ys = ground (arith, all-append p xs ys)

module _ (q : Qt) where
  abbrev pub accepts : List Text → Bool
  accepts ls = all (λ l. is_some (parse_line q l)) ls

  apply_valid :
      (b : Bool) (path : Text) (n : ℕ) (d : Directive) (s : Snapshot)
      → is_valid (apply b path n d s) ≡ is_valid s
  unfolding apply
  apply_valid b path n d s = ground arith

  -- A layer whose lines are all accepted leaves a valid snapshot valid.
  load_lines_valid :
      (b : Bool) (path : Text) (n : ℕ) (ls : List Text) (s : Snapshot)
      → accepts ls ≡ true
      → is_valid (load_lines q b path n ls s) ≡ is_valid s
  unfolding load_lines
  load_lines_valid b path n [] s h = refl
  load_lines_valid b path n (l ∷ ls) s h = elim (Option-cases (parse_line q l)) [
    | inl bad ↦ absurd (ground arith)
    | inr (d, good) ↦
        rw (good, load_lines)
          (load_lines_valid b path (n + 1) ls (apply b path n d s) (ground arith)
            ∙ apply_valid b path n d s)
  ]

  load_layer_valid :
      (b : Bool) (path : Text) (ls : List Text) (s : Snapshot)
      → accepts ls ≡ true
      → is_valid (load_layer q b path (lines ls) s) ≡ is_valid s
  unfolding load_layer
  load_layer_valid b path [] s h = refl
  load_layer_valid b path (l ∷ ls) s h = load_lines_valid b path 1 (l ∷ ls) _ h

  -- A valid configuration stays valid when its overlay becomes a text of accepted lines.
  pub load_valid :
      (paths : Paths) (defaults file : ConfigFile) (text : Text)
      → accepts (split b'\n' (strip_bom text)) ≡ true
      → is_valid (load q paths defaults file) ≡ true
      → is_valid (load q paths defaults (contents text)) ≡ true
  unfolding load
  load_valid paths defaults file text h before =
      let s = load_layer q true paths.defaults (read_file paths.defaults defaults) empty_snapshot in
      elim (Bool-cases (is_valid s)) [
        | inl fine ↦ rw fine (overlay_valid paths.overlay s ∙ fine)
        | inr broken ↦ absurd (ground arith)
      ]
    where
      overlay_valid :
          (path : Text) (s : Snapshot)
          → is_valid (load_layer q false path (read_file path (contents text)) s) ≡ is_valid s
      overlay_valid [] s = unfold read_file in load_layer_valid false [] [] s refl
      overlay_valid (c ∷ path) s =
          unfold read_file in load_layer_valid false (c ∷ path) (split b'\n' (strip_bom text)) s h

  keep_lines-accepts :
      (key : Text) (ls out : List Text) → keep_lines q key ls ≡ some out → accepts out ≡ true
  keep_lines-accepts key [] out e =
      let done : out ≡ [] = unfold keep_lines in ground arith in rw done
  keep_lines-accepts key (l ∷ ls) out e =
      let (d, rest, good, kept, same) = keep_lines_inv q key l ls e in
      let ih = keep_lines-accepts key ls rest kept in
      rw same (if_both (λ xs. accepts xs ≡ true) (not (eqb d.key key)) (λ _. rw good ih) (λ _. ih))

  accepts_nil : accepts (split b'\n' []) ≡ true
  unfolding split parse_line parse_trimmed trimmed
  accepts_nil = refl

  accepts-newline :
      (t s : Text)
      → accepts (split b'\n' (t ++ (b'\n' ∷ s)))
        ≡ (accepts (split b'\n' t) && accepts (split b'\n' s))
  accepts-newline t s =
      ap accepts (split-append_sep b'\n' t s)
      ∙ all-append (λ l. is_some (parse_line q l)) (split b'\n' t) (split b'\n' s)

  accepts-join :
      (out : List Text)
      → All (λ l. contains b'\n' l ≡ false) out
      → accepts out ≡ true
      → accepts (split b'\n' (join b'\n' out)) ≡ true
  accepts-join [] flat h = unfold join in accepts_nil
  accepts-join (l ∷ ls) flat h = ap accepts (split-join b'\n' l ls flat) ∙ h

  module _ (laws : QtLaws q) (key value : Text) (good : valid_key q key ≡ true)
      (one : contains b'\n' value ≡ false) (clean : contains 0 value ≡ false) where
    accepts-directive_line :
        (update : Update)
        → update ≢ inherit
        → is_some (parse_line q (directive_line q update key value)) ≡ true
    accepts-directive_line set new = rw (parse_line-key_value q laws key value good clean)
    accepts-directive_line mask new = rw (parse_line-mask q laws key good)
    accepts-directive_line inherit new = absurd (new refl)

    directive_accepts :
        (update : Update)
        → update ≢ inherit
        → accepts (split b'\n' (directive_line q update key value ++ (b'\n' ∷ []))) ≡ true
    directive_accepts update new =
        let line = directive_line q update key value in
        let single : split b'\n' line ≡ line ∷ [] =
          split-directive_line q key (unfold valid_key in ground arith) laws update key value good
            one new in
        let said = accepts-directive_line update new in
        accepts-newline line [] ∙ (rw (single, accepts_nil) (ground arith))

    -- A line behind accepted lines, with a newline between them where there is none.
    added_accepts :
        (update : Update) (text : Text)
        → update ≢ inherit
        → accepts (split b'\n' text) ≡ true
        → accepts (
            split b'\n' (
              (if not (is_empty text) && not (ends b'\n' text) then text ++ (b'\n' ∷ []) else text)
              ++ (directive_line q update key value ++ (b'\n' ∷ []))))
          ≡ true
    added_accepts update [] new h = directive_accepts update new
    added_accepts update (x ∷ xs) new h =
        let added = directive_line q update key value ++ (b'\n' ∷ []) in
        let said = directive_accepts update new in
        elim (Bool-cases (ends b'\n' (x ∷ xs))) [
          | inl ended ↦
              let (t, e) = ends_inv b'\n' (x ∷ xs) ended in
              let parts = ap (λ s. accepts (split b'\n' s)) e ∙ accepts-newline t [] in
              let whole = append_assoc t (b'\n' ∷ []) added in
              let joined = accepts-newline t added in
              rw ended (
                ap (λ (s : Text). accepts (split b'\n' (s ++ added))) e
                ∙ ap (λ s. accepts (split b'\n' s)) whole
                ∙ joined
                ∙ (ground arith))
          | inr unended ↦ rw unended (
              ap (λ s. accepts (split b'\n' s)) (append_assoc (x ∷ xs) (b'\n' ∷ []) added)
              ∙ accepts-newline (x ∷ xs) added
              ∙ (ground arith))
        ]

    -- Every line of the new text is accepted.
    pub new_text-accepts :
        (update : Update) (ls out : List Text)
        → All (λ l. contains b'\n' l ≡ false) ls
        → keep_lines q key ls ≡ some out
        → accepts (split b'\n' (new_text q update key value out)) ≡ true
    unfolding new_text
    new_text-accepts inherit ls out flat kept =
        accepts-join out (keep_lines-All q key (λ l. contains b'\n' l ≡ false) ls out kept flat)
          (keep_lines-accepts key ls out kept)
    new_text-accepts set ls out flat kept =
        added_accepts set (join b'\n' out) (λ e. cc)
          (accepts-join out (keep_lines-All q key (λ l. contains b'\n' l ≡ false) ls out kept flat)
            (keep_lines-accepts key ls out kept))
    new_text-accepts mask ls out flat kept =
        added_accepts mask (join b'\n' out) (λ e. cc)
          (accepts-join out (keep_lines-All q key (λ l. contains b'\n' l ≡ false) ls out kept flat)
            (keep_lines-accepts key ls out kept))
