-- ===== src/Config/Meaning.antt =====
-- backend/config/LayeredConfig.cpp: the verdict of a file on a key, and theorems on `load`.
use everest_ui.Base.{
  ℕ, ◌+◌, Bool, true, false, List, [], ◌∷◌, Option, none, some, ◌≡◌, refl, if◌then◌else◌, arith,
  is_empty, Option-cases, Bool-cases, inl, inr, ◌∙◌, ap, sym, ◌>>=◌,
}
use everest_ui.Base.Text.{Text, eqb, eqb_iff, split}
use everest_ui.Base.Assoc.{lookup, lookup-insert, lookup-remove}
use everest_ui.Qt.{Qt}
use everest_ui.Config.Line.{
  Directive, parse_line, ConfigFile, contents, lines, read_file, strip_bom,
}
use everest_ui.Config.Layers.{
  Entry, Snapshot, empty_snapshot, is_valid, Paths, apply, load_lines, load_layer, load,
}
use mathlib.Core.Option

-- What a layer says of a key: nothing (`none`), that it is masked, or its value.
abbrev pub Verdict : Type 0
Verdict = Option (Option Text)

abbrev pub directive_verdict : Text → Directive → Verdict
directive_verdict j d = if eqb d.key j then some (if d.mask then none else some d.value) else none

-- A later verdict overrides an earlier one.
abbrev pub override : Verdict → Verdict → Verdict
override v none = v
override v (some w) = some w

abbrev pub settle : Verdict → Option Text → Option Text
settle none v = v
settle (some w) v = w

module _ (q : Qt) where
  unfoldable pub line_verdict : Text → Text → Verdict
  line_verdict j l = parse_line q l >>= directive_verdict j

  -- The verdict of the lines of a file.
  unfoldable pub verdict : Text → List Text → Verdict
  verdict j [] = none
  verdict j (l ∷ ls) = override (line_verdict j l) (verdict j ls)

  -- The verdict of a whole file.
  unfoldable pub file_verdict : Text → Text → ConfigFile → Verdict
  file_verdict j [] f = none
  file_verdict j (_ ∷ _) (contents text) = verdict j (split b'\n' (strip_bom text))
  file_verdict j (_ ∷ _) _ = none

-- `snapshot.value(key)`, where the key is there.
abbrev pub value_of : Text → Snapshot → Option Text
value_of j s = Option.map (λ (e : Entry). e.value) (lookup j s.entries)

apply-value_of :
    (b : Bool) (path : Text) (n : ℕ) (d : Directive) (s : Snapshot) (j : Text)
    → is_empty j ≡ false
    → value_of j (apply b path n d s) ≡ settle (directive_verdict j d) (value_of j s)
unfolding apply
apply-value_of b path n d s j named =
    let e : Entry = record { value = d.value; path = path; line = n } in
    ground
      (arith, lookup-insert d.key j e s.entries, lookup-remove d.key j s.entries, eqb_iff d.key j)

settle-override :
    (a b : Verdict) (v : Option Text) → settle (override a b) v ≡ settle b (settle a v)
settle-override a none v = refl
settle-override a (some w) v = refl

module _ (q : Qt) where
  load_lines-good :
      (b : Bool) (path : Text) (n : ℕ) (l : Text) (ls : List Text) (s : Snapshot) {d : Directive}
      → parse_line q l ≡ some d
      → load_lines q b path n (l ∷ ls) s ≡ load_lines q b path (n + 1) ls (apply b path n d s)
  unfolding load_lines
  load_lines-good b path n l ls s good = rw (good, load_lines)

  load_lines-bad :
      (b : Bool) (path : Text) (n : ℕ) (l : Text) (ls : List Text) (s : Snapshot)
      → parse_line q l ≡ none
      → is_valid (load_lines q b path n (l ∷ ls) s) ≡ false
  unfolding load_lines
  load_lines-bad b path n l ls s bad = rw (bad, load_lines)

  load_lines-value_of :
      (b : Bool) (path : Text) (n : ℕ) (ls : List Text) (s : Snapshot) (j : Text)
      → is_empty j ≡ false
      → is_valid (load_lines q b path n ls s) ≡ true
      → value_of j (load_lines q b path n ls s) ≡ settle (verdict q j ls) (value_of j s)
  unfolding verdict line_verdict
  load_lines-value_of b path n [] s j named h = unfold load_lines in refl
  load_lines-value_of b path n (l ∷ ls) s j named h = elim (Option-cases (parse_line q l)) [
    | inl bad ↦ absurd (ground (arith, load_lines-bad b path n l ls s bad))
    | inr (d, good) ↦ rw (load_lines-good b path n l ls s good) (
        load_lines-value_of b path (n + 1) ls (apply b path n d s) j named
          (rw (load_lines-good b path n l ls s good) at h)
        ∙ ap (settle (verdict q j ls)) (apply-value_of b path n d s j named)
        ∙ sym (settle-override (directive_verdict j d) (verdict q j ls) (value_of j s))
        ∙ rw good)
  ]

  load_layer-lines :
      (b : Bool) (path : Text) (ls : List Text) (s : Snapshot) (j : Text)
      → is_empty j ≡ false
      → is_valid (load_layer q b path (lines ls) s) ≡ true
      → value_of j (load_layer q b path (lines ls) s) ≡ settle (verdict q j ls) (value_of j s)
  unfolding load_layer
  load_layer-lines b path [] s j named h = unfold verdict in refl
  load_layer-lines b path (l ∷ ls) s j named h = load_lines-value_of b path 1 (l ∷ ls) _ j named h

  load_layer-value_of :
      (b : Bool) (path : Text) (f : ConfigFile) (s : Snapshot) (j : Text)
      → is_empty j ≡ false
      → is_valid (load_layer q b path (read_file path f) s) ≡ true
      → value_of j (load_layer q b path (read_file path f) s)
        ≡ settle (file_verdict q j path f) (value_of j s)
  unfolding read_file file_verdict
  load_layer-value_of b [] f s j named h = unfold load_layer in refl
  load_layer-value_of b (c ∷ path) (contents text) s j named h =
      load_layer-lines b (c ∷ path) (split b'\n' (strip_bom text)) s j named h
  load_layer-value_of b (c ∷ path) ConfigFile.missing s j named h = unfold load_layer in refl
  load_layer-value_of b (c ∷ path) _ s j named h = absurd (unfold load_layer in ground arith)

  -- In a valid configuration a key has the value that the overlay gives it; where the overlay masks
  -- it, it is absent; where the overlay does not name it, the defaults decide in the same way. In
  -- each file the last directive of the key counts.
  pub load-value_of :
      (paths : Paths) (defaults overlay : ConfigFile) (j : Text)
      → is_empty j ≡ false
      → is_valid (load q paths defaults overlay) ≡ true
      → value_of j (load q paths defaults overlay)
        ≡ settle
            (file_verdict q j paths.overlay overlay)
            (settle (file_verdict q j paths.defaults defaults) none)
  unfolding load
  load-value_of paths defaults overlay j named h =
      let s = load_layer q true paths.defaults (read_file paths.defaults defaults) empty_snapshot in
      elim (Bool-cases (is_valid s)) [
        | inl fine ↦ rw fine (
            load_layer-value_of false paths.overlay overlay s j named (rw fine at h)
            ∙ ap (settle (file_verdict q j paths.overlay overlay)) (
                load_layer-value_of true paths.defaults defaults empty_snapshot j named fine
                ∙ ap (settle (file_verdict q j paths.defaults defaults)) (unfold lookup in refl)))
        | inr broken ↦ absurd (ground arith)
      ]
