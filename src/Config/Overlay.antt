-- ===== src/Config/Overlay.antt =====
-- backend/config/LayeredConfig.cpp: `writeOverlay`.
use everest_ui.Base.{
  Bool, true, false, ◌&&◌, ◌||◌, not, List, [], ◌∷◌, ◌++◌, Option, none, some, if◌then◌else◌,
  is_empty, ◌>>=◌,
}
use everest_ui.Base.Text.{Text, trimmed, contains, eqb, join, ends}
use everest_ui.Qt.{Qt}
use everest_ui.Config.Line.{
  valid_key, parse_line, ConfigFile, contents, Lines, lines, failed, read_file,
}

pub data Update : Type 0 where
  set mask inherit : Update

-- What the file system answers on the way.
pub record OverlayCalls : Type 0 where
  -- `noSymlinks(target)`, before the lock is taken and after it
  pub no_symlinks : Bool
  pub no_symlinks_locked : Bool
  -- the target is also the file of the defaults
  pub is_defaults : Bool
  pub directory : Bool
  pub locked : Bool
  pub opened : Bool
  pub written : Bool
  pub committed : Bool

module _ (q : Qt) where
  -- The lines of other keys; `none` if a line is refused.
  unfoldable pub keep_lines : Text → List Text → Option (List Text)
  keep_lines key [] = some []
  keep_lines key (l ∷ ls) = parse_line q l >>= λ d.
      keep_lines key ls >>= λ rest. if not (eqb d.key key) then some (l ∷ rest) else some rest

  -- The line of the new directive.
  abbrev pub directive_line : Update → Text → Text → Text
  directive_line set key value = key ++ (b'=' ∷ trimmed q.is_space value)
  directive_line mask key value = b'!' ∷ key
  directive_line inherit key value = []

  -- The text that is written.
  unfoldable pub new_text : Update → Text → Text → List Text → Text
  new_text inherit key value output = join b'\n' output
  new_text update key value output =
      let text = join b'\n' output in
      (if not (is_empty text) && not (ends b'\n' text) then text ++ (b'\n' ∷ []) else text)
      ++ (directive_line update key value ++ (b'\n' ∷ []))

  -- The lines that were read, once the lock is held.
  unfoldable pub rewrite :
      OverlayCalls → Update → Text → Text → ConfigFile → Lines → ConfigFile × Bool
  rewrite calls update key value file (failed e) = (file, false)
  rewrite calls update key value file (lines ls) = elim (keep_lines key ls) [
    | none ↦ (file, false)
    | some output ↦
        if not calls.opened || not calls.written || not calls.committed
        then (file, false)
        else (contents (new_text update key value output), true)
  ]

  -- `writeOverlay`: the file of the overlay afterwards, and whether it was written.
  unfoldable pub write_overlay :
      OverlayCalls → (overlay key : Text) → Update → Text → ConfigFile → ConfigFile × Bool
  write_overlay calls overlay key update value file =
      if is_empty overlay
        || not (valid_key q key)
        || contains b'\n' value
        || contains b'\r' value
        || contains 0 value
        || not calls.no_symlinks
        || calls.is_defaults
      then (file, false)
      else if not calls.directory
      then (file, false)
      else if not calls.locked
      then (file, false)
      else if not calls.no_symlinks_locked
      then (file, false)
      else rewrite calls update key value file (read_file overlay file)
