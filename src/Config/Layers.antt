-- ===== src/Config/Layers.antt =====
-- backend/config/LayeredConfig.{hpp,cpp}: `Snapshot` and `load`.
use everest_ui.Base.{
  ℕ, ◌+◌, Bool, true, false, ◌&&◌, ◌||◌, not, List, [], ◌∷◌, ◌++◌, Option, none, some,
  if◌then◌else◌, is_empty, is_some,
}
use everest_ui.Base.Text.{Text}
use everest_ui.Base.Assoc.{insert, remove}
use everest_ui.Qt.{Qt}
use everest_ui.Config.Line.{
  Directive, parse_line, ConfigFile, ConfigError, invalid_line, Lines, lines, failed, read_file,
}

pub record Entry : Type 0 where
  pub value : Text
  pub path : Text
  pub line : ℕ

pub record Snapshot : Type 0 where
  pub entries : List (Text × Entry)
  pub files : List Text
  pub error : Option ConfigError
  pub defaults_loaded : Bool
  pub defaults_have_directives : Bool

abbrev pub empty_snapshot : Snapshot
empty_snapshot = record {
  entries = [];
  files = [];
  error = none;
  defaults_loaded = false;
  defaults_have_directives = false;
}

abbrev pub is_valid : Snapshot → Bool
is_valid s = not (is_some s.error)

pub record Paths : Type 0 where
  pub defaults : Text
  pub overlay : Text

-- `result.error = …; result.entries.clear();`
abbrev pub with_error : ConfigError → Snapshot → Snapshot
with_error e s = record s { error = some e; entries = [] }

-- What one directive does to the snapshot.
unfoldable pub apply : (is_defaults : Bool) → Text → ℕ → Directive → Snapshot → Snapshot
apply is_defaults path number d s =
    let s' =
      if is_defaults && not (is_empty d.key)
      then record s { defaults_have_directives = true }
      else s in
    if d.mask
    then record s' { entries = remove d.key s.entries }
    else if not (is_empty d.key)
    then record s' {
      entries = insert d.key (record { value = d.value; path = path; line = number }) s.entries;
    }
    else s'

module _ (q : Qt) where
  -- The loop over the lines; `number` counts from 1.
  unfoldable pub load_lines : (is_defaults : Bool) → Text → ℕ → List Text → Snapshot → Snapshot
  load_lines is_defaults path number [] s = s
  load_lines is_defaults path number (l ∷ ls) s = elim (parse_line q l) [
    | none ↦ with_error (invalid_line is_defaults number) s
    | some d ↦ load_lines is_defaults path (number + 1) ls (apply is_defaults path number d s)
  ]

  -- One round of the loop over the layers.
  unfoldable pub load_layer : (is_defaults : Bool) → Text → Lines → Snapshot → Snapshot
  load_layer is_defaults path (failed e) s = with_error e s
  load_layer is_defaults path (lines []) s = s
  load_layer is_defaults path (lines (l ∷ ls)) s =
      load_lines is_defaults path 1 (l ∷ ls) (record s {
        files = s.files ++ (path ∷ []);
        defaults_loaded = is_defaults || s.defaults_loaded;
      })

  unfoldable pub load : Paths → (defaults overlay : ConfigFile) → Snapshot
  load paths defaults overlay =
      let s = load_layer true paths.defaults (read_file paths.defaults defaults) empty_snapshot in
      if is_valid s then load_layer false paths.overlay (read_file paths.overlay overlay) s else s
