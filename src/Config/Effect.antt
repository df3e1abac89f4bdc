-- ===== src/Config/Effect.antt =====
-- backend/config/LayeredConfig.cpp: theorems on `writeOverlay` and a `load` behind it.
use everest_ui.Base.{
  ℕ, true, false, List, [], ◌∷◌, none, some, ◌≡◌, refl, if◌then◌else◌, arith, is_empty, All, ◌∙◌,
  ap, sym, Option-cases, Bool-cases, inl, inr,
}
use everest_ui.Base.Text.{Text, contains, eqb, split}
use everest_ui.Base.Split.{split-All}
use everest_ui.Qt.{Qt, QtLaws}
use everest_ui.Config.Line.{
  valid_key, begins, bom, ConfigFile, contents, missing, lines, read_file, strip_bom,
}
use everest_ui.Config.Layers.{is_valid, Paths, load}
use everest_ui.Config.Overlay.{Update, OverlayCalls, keep_lines, new_text, rewrite, write_overlay}
use everest_ui.Config.Meaning.{settle, verdict, file_verdict, value_of, load-value_of}
use everest_ui.Config.Accepts.{accepts, load_valid, new_text-accepts}
use everest_ui.Config.Update.{written, text_verdict, new_text-verdict}

-- The lines that `readFile` gives for a file, and their verdict.
abbrev lines_of : ConfigFile → List Text
lines_of (contents text) = split b'\n' (strip_bom text)
lines_of _ = []

module _ (q : Qt) (calls : OverlayCalls) (key : Text) (update : Update) (value : Text) where
  rewrite_inv :
      (file : ConfigFile) (ls : List Text) {file' : ConfigFile}
      → rewrite q calls update key value file (lines ls) ≡ (file', true)
      → (out : List Text) × (keep_lines q key ls ≡ some out)
        × (file' ≡ contents (new_text q update key value out))
  unfolding rewrite
  rewrite_inv file ls e = elim (Option-cases (keep_lines q key ls)) [
    | inl bad ↦ absurd (ground arith)
    | inr (out, kept) ↦ (out, kept, ground arith)
  ]

  read_inv :
      (c : ℕ) (overlay : Text) (file : ConfigFile) {file' : ConfigFile}
      → rewrite q calls update key value file (read_file (c ∷ overlay) file) ≡ (file', true)
      → read_file (c ∷ overlay) file ≡ lines (lines_of file)
  unfolding read_file
  read_inv c overlay (contents text) e = refl
  read_inv c overlay missing e = refl
  read_inv c overlay _ e = absurd (unfold rewrite in ground arith)

  write_overlay_guards :
      (overlay : Text) (file : ConfigFile) {file' : ConfigFile}
      → write_overlay q calls overlay key update value file ≡ (file', true)
      → (is_empty overlay ≡ false)
        × (valid_key q key ≡ true)
        × (contains b'\n' value ≡ false)
        × (contains 0 value ≡ false)
        × (rewrite q calls update key value file (read_file overlay file) ≡ (file', true))
  unfolding write_overlay
  write_overlay_guards overlay file e = ground arith

  -- What a successful write has checked, and what it wrote.
  write_overlay_inv :
      (overlay : Text) (file : ConfigFile) {file' : ConfigFile}
      → write_overlay q calls overlay key update value file ≡ (file', true)
      → (is_empty overlay ≡ false)
        × (valid_key q key ≡ true)
        × (contains b'\n' value ≡ false)
        × (contains 0 value ≡ false)
        × ((out : List Text) × (keep_lines q key (lines_of file) ≡ some out)
            × (file' ≡ contents (new_text q update key value out)))
  write_overlay_inv [] file e = absurd (ground (arith, (write_overlay_guards [] file e).0))
  write_overlay_inv (c ∷ overlay) file e =
      let (there, good, one, clean, wrote) = write_overlay_guards (c ∷ overlay) file e in
      (
        there,
        good,
        one,
        clean,
        rewrite_inv file (lines_of file) (rw (read_inv c overlay file wrote) at wrote),
      )

lines_of-All : (file : ConfigFile) → All (λ l. contains b'\n' l ≡ false) (lines_of file)
lines_of-All (contents text) = split-All b'\n' (strip_bom text)
lines_of-All missing = tt
lines_of-All _ = tt

module _ (q : Qt) (laws : QtLaws q) where
  lines_of-verdict :
      (j overlay : Text) (file : ConfigFile)
      → is_empty overlay ≡ false
      → verdict q j (lines_of file) ≡ file_verdict q j overlay file
  unfolding file_verdict
  lines_of-verdict j [] file h = absurd (ground arith)
  lines_of-verdict j (c ∷ overlay) (contents text) h = refl
  lines_of-verdict j (c ∷ overlay) missing h = unfold verdict in refl
  lines_of-verdict j (c ∷ overlay) _ h = unfold verdict in refl

  strip_bom-kept : (text : Text) → begins bom text ≡ false → strip_bom text ≡ text
  unfolding strip_bom
  strip_bom-kept [] h = refl
  strip_bom-kept (c ∷ s) h = rw h

  -- A write that succeeds leaves a file that says of its key what the update says, and of every
  -- other key what the old file says. The new text must not begin with a byte order mark, which
  -- would be cut off by the next reader.
  write_overlay-file_verdict :
      (calls : OverlayCalls) (overlay key : Text) (update : Update) (value : Text)
      (file : ConfigFile) (text j : Text)
      → is_empty j ≡ false
      → write_overlay q calls overlay key update value file ≡ (contents text, true)
      → begins bom text ≡ false
      → file_verdict q j overlay (contents text)
        ≡ (if eqb key j then written q update value else file_verdict q j overlay file)
  unfolding text_verdict
  write_overlay-file_verdict calls overlay key update value file text j named e plain =
      let (there, good, one, clean, (out, kept, wrote)) =
        write_overlay_inv q calls key update value overlay file e in
      let same : text ≡ new_text q update key value out = cc in
      let said =
        new_text-verdict q j named laws key value good one clean (lines_of file) out
          (lines_of-All file) kept update in
      sym (lines_of-verdict j overlay (contents text) there)
      ∙ ap (λ t. verdict q j (split b'\n' t)) (strip_bom-kept text plain ∙ same)
      ∙ said
      ∙ ap (λ v. if eqb key j then written q update value else v)
          (lines_of-verdict j overlay file there)

  write_overlay-accepts :
      (calls : OverlayCalls) (overlay key : Text) (update : Update) (value : Text)
      (file : ConfigFile) (text : Text)
      → write_overlay q calls overlay key update value file ≡ (contents text, true)
      → begins bom text ≡ false
      → accepts q (split b'\n' (strip_bom text)) ≡ true
  write_overlay-accepts calls overlay key update value file text e plain =
      let (there, good, one, clean, (out, kept, wrote)) =
        write_overlay_inv q calls key update value overlay file e in
      let same : text ≡ new_text q update key value out = cc in
      ap (λ t. accepts q (split b'\n' t)) (strip_bom-kept text plain ∙ same)
      ∙ new_text-accepts q laws key value good one clean update (lines_of file) out
          (lines_of-All file) kept

  -- After `writeOverlay` has succeeded on a valid configuration, the configuration is valid again; the
  -- key of the update has the trimmed value (set), no value (mask), or that of the defaults (inherit);
  -- every other key has the value that it had. The new text must not begin with a byte order mark.
  pub write_overlay-load :
      (calls : OverlayCalls) (paths : Paths) (key : Text) (update : Update) (value : Text)
      (defaults file : ConfigFile) (text : Text)
      → write_overlay q calls paths.overlay key update value file ≡ (contents text, true)
      → begins bom text ≡ false
      → is_valid (load q paths defaults file) ≡ true
      → (is_valid (load q paths defaults (contents text)) ≡ true)
        × ((j : Text)
            → is_empty j ≡ false
            → value_of j (load q paths defaults (contents text)) ≡ (
                if eqb key j
                then settle
                    (written q update value)
                    (settle (file_verdict q j paths.defaults defaults) none)
                else value_of j (load q paths defaults file)))
  write_overlay-load calls paths key update value defaults file text e plain before =
      let after =
        load_valid q paths defaults file text
          (write_overlay-accepts calls paths.overlay key update value file text e plain) before in
      (
        after,
        λ j named.
            let base = settle (file_verdict q j paths.defaults defaults) none in
            load-value_of q paths defaults (contents text) j named after
            ∙ ap (λ v. settle v base)
                (write_overlay-file_verdict calls paths.overlay key update value file text j named e
                  plain)
            ∙ (elim (Bool-cases (eqb key j)) [
              | inl same ↦ rw same
              | inr other ↦ rw other (sym (load-value_of q paths defaults file j named before))
            ]),
      )
