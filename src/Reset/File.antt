-- ===== src/Reset/File.antt =====
-- backend/webserver/auth/PasswordReset.cpp: `load` and `save` of the state file of the boot.
use everest_ui.Base.{
  ℕ, zero, suc, Bool, true, false, ◌&&◌, ◌||◌, not, [], ◌∷◌, Option, none, some, ◌>>=◌,
  if◌then◌else◌, leb, ltb, ◌==◌, length, is_some,
}
use everest_ui.Base.Text.{Text, codes, eqb}
use everest_ui.Base.Int.{pos}
use everest_ui.Base.Json.{
  Json, num, bool, str, obj, Fields, end, field, value, to_string, to_bool, is_bool,
}
use everest_ui.Qt.{Qt}
use everest_ui.Auth.File.{is_version_one}
use everest_ui.Reset.State.{Classification, unset, cold, warm, PasswordReset}

-- `password-reset-state.json` as `QFile` finds it.
pub data StateFile : Type 0 where
  missing unreadable : StateFile
  contents : Text → StateFile

pub data Load : Type 0 where
  missing valid invalid : Load

abbrev pub max_exact_integer : ℕ
max_exact_integer = 9007199254740991

abbrev pub is_hex : ℕ → Bool
is_hex c = leb b'0' c && leb c b'9' || leb b'a' c && leb c b'f'

-- Reads `count` hexadecimal digits.
unfoldable pub skip_hex : ℕ → Text → Option Text
skip_hex zero s = some s
skip_hex (suc count) [] = none
skip_hex (suc count) (c ∷ s) = if is_hex c then skip_hex count s else none

abbrev pub skip_dash : Text → Option Text
skip_dash [] = none
skip_dash (c ∷ s) = if c == b'-' then some s else none

-- What `$` matches: the end, or a newline before it.
abbrev pub at_end : Text → Option Text
at_end [] = some []
at_end (c ∷ []) = if c == b'\n' then some [] else none
at_end (c ∷ d ∷ s) = none

-- `^[0-9a-f]{8}(-[0-9a-f]{4}){3}-[0-9a-f]{12}$`
unfoldable pub matches_uuid : Text → Bool
matches_uuid s = is_some (
    skip_hex 8 s
    >>= skip_dash
    >>= skip_hex 4
    >>= skip_dash
    >>= skip_hex 4
    >>= skip_dash
    >>= skip_hex 4
    >>= skip_dash
    >>= skip_hex 12
    >>= at_end)

unfoldable pub classification_text : Classification → Text
classification_text unset = []
classification_text cold = codes "cold"
classification_text warm = codes "warm"
classification_text Classification.invalid = codes "invalid"

unfoldable pub read_classification : Text → Option Classification
read_classification s =
    if eqb s (codes "cold")
    then some cold
    else if eqb s (codes "warm")
    then some warm
    else if eqb s (codes "invalid")
    then some Classification.invalid
    else none

-- A double that is an integer from 0 to `max_exact_integer`.
unfoldable pub read_deadline : Json → Option ℕ
read_deadline (num (pos n)) = if leb n max_exact_integer then some n else none
read_deadline _ = none

-- The members that `load` accepts, once `classification` and `deadlineMs` are read.
unfoldable pub accept :
    Fields → Option Classification → Option ℕ → PasswordReset → PasswordReset × Load
accept o (some c) (some deadline) p =
    let id = to_string (value (codes "bootId") o) in
    if not (is_version_one (value (codes "version") o))
      || not (matches_uuid id)
      || not (is_bool (value (codes "markerClearPending") o))
      || not (is_bool (value (codes "resetAllowed") o))
    then (p, invalid)
    else if not (eqb id p.boot_id)
    then (p, missing)
    else (
      record p {
        classification = c;
        deadline = deadline;
        pending = to_bool (value (codes "markerClearPending") o);
        allowed = to_bool (value (codes "resetAllowed") o);
      },
      valid,
    )
accept o _ _ p = (p, invalid)

-- The outcomes of the calls of `QSaveFile`.
pub record SaveCalls : Type 0 where
  pub opened : Bool
  pub permitted : Bool
  pub written : Bool
  pub committed : Bool

-- The members that `save` writes.
unfoldable pub document : PasswordReset → Fields
document p = field (codes "version") (num (pos 1)) (
    field (codes "bootId") (str p.boot_id) (
      field (codes "classification") (str (classification_text p.classification)) (
        field (codes "deadlineMs") (num (pos p.deadline)) (
          field (codes "markerClearPending") (bool p.pending)
            (field (codes "resetAllowed") (bool p.allowed) end)))))

module _ (q : Qt) where
  unfoldable pub load_document : PasswordReset → Option Json → PasswordReset × Load
  unfolding accept
  load_document p (some (obj o)) =
      accept o (read_classification (to_string (value (codes "classification") o)))
        (read_deadline (value (codes "deadlineMs") o)) p
  load_document p _ = (p, invalid)

  unfoldable pub load : StateFile → PasswordReset → PasswordReset × Load
  unfolding load_document
  load missing p = (p, missing)
  load unreadable p = (p, invalid)
  load (contents bytes) p =
      if ltb 4096 (length bytes) then (p, invalid) else load_document p (q.from_json bytes)

  -- The process, the file, and whether it was written.
  unfoldable pub save : SaveCalls → StateFile → PasswordReset → PasswordReset × StateFile × Bool
  save calls file p =
      if not calls.opened || not calls.permitted || not calls.written || not calls.committed
      then (record p { process_blocked = true }, file, false)
      else (p, contents (q.to_json (document p)), true)
