-- ===== src/Config/Line.antt =====
-- backend/config/LayeredConfig.cpp: one line of a configuration file, and a whole file.
use everest_ui.Base.{
  ℕ, ◌+◌, Bool, true, false, ◌&&◌, ◌||◌, not, List, [], ◌∷◌, Option, none, some, if◌then◌else◌,
  ◌==◌, is_empty, all, take, drop, is_some,
}
use everest_ui.Base.Text.{Text, trimmed, index_of, contains, split}
use everest_ui.Qt.{Qt}

pub record Directive : Type 0 where
  pub key : Text
  pub value : Text
  pub mask : Bool

-- `directive = {}`
abbrev pub no_directive : Directive
no_directive = record { key = []; value = []; mask = false }

-- `startsWith(c)`
abbrev pub begins : ℕ → Text → Bool
begins c [] = false
begins c (x ∷ xs) = x == c

-- The byte order mark.
abbrev pub bom : ℕ
bom = 0xfeff

module _ (q : Qt) where
  abbrev pub is_key_char : ℕ → Bool
  is_key_char c = not (q.is_space c) && not (c == 0) && not (c == b'=')

  unfoldable pub valid_key : Text → Bool
  valid_key key =
      not (is_empty key) && not (begins b'!' key) && not (begins b'#' key) && all is_key_char key

  -- The end of `parseLine`.
  abbrev pub checked : Directive → Option Directive
  checked d = if valid_key d.key && not (contains 0 d.value) then some d else none

  abbrev pub key_value : Text → Option ℕ → Option Directive
  key_value text none = none
  key_value text (some separator) =
      if separator == 0
      then none
      else checked (record {
        key = trimmed q.is_space (take separator text);
        value = trimmed q.is_space (drop (separator + 1) text);
        mask = false;
      })

  -- `parseLine` behind `trimmed`.
  unfoldable pub parse_trimmed : Text → Option Directive
  parse_trimmed text =
      if is_empty text || begins b'#' text
      then some no_directive
      else if begins b'!' text && not (is_some (index_of b'=' text))
      then checked (record { key = trimmed q.is_space (drop 1 text); value = []; mask = true })
      else key_value text (index_of b'=' text)

  -- `parseLine`: `none` is a refused line.
  unfoldable pub parse_line : Text → Option Directive
  parse_line line = parse_trimmed (trimmed q.is_space line)

-- What the file system says of a configuration file; the contents are decoded from UTF-8.
pub data ConfigFile : Type 0 where
  missing cannot_inspect not_regular cannot_open read_error : ConfigFile
  contents : Text → ConfigFile

pub data ConfigError : Type 0 where
  inspect_failed not_a_regular_file open_failed read_failed : ConfigError
  -- the layer, defaults or not, and the number of the line
  invalid_line : (is_defaults : Bool) (line : ℕ) → ConfigError
  defaults_missing defaults_without_directives : ConfigError

pub data Lines : Type 0 where
  lines : List Text → Lines
  failed : ConfigError → Lines

unfoldable pub strip_bom : Text → Text
strip_bom [] = []
strip_bom (c ∷ s) = if c == bom then s else c ∷ s

-- `readFile`; an empty path is no file.
unfoldable pub read_file : (path : Text) → ConfigFile → Lines
read_file [] file = lines []
read_file (_ ∷ _) missing = lines []
read_file (_ ∷ _) cannot_inspect = failed inspect_failed
read_file (_ ∷ _) not_regular = failed not_a_regular_file
read_file (_ ∷ _) cannot_open = failed open_failed
read_file (_ ∷ _) read_error = failed read_failed
read_file (_ ∷ _) (contents text) = lines (split b'\n' (strip_bom text))
