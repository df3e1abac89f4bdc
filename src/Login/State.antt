-- ===== src/Login/State.antt =====
-- backend/config/LoginState.{hpp,cpp}: reading and publishing the login state.
use everest_ui.Base.{
  Bool, true, false, ◌&&◌, ◌||◌, not, [], Option, some, if◌then◌else◌, ltb, length, is_empty,
}
use everest_ui.Base.Text.{Text, codes, eqb}
use everest_ui.Base.Int.{pos}
use everest_ui.Base.Json.{
  Json, bool, num, str, obj, Fields, end, field, value, to_bool, to_string, is_bool, is_string,
}
use everest_ui.Qt.{Qt}
use everest_ui.Auth.File.{is_version_one}

pub record LoginState : Type 0 where
  pub allowed : Bool
  pub reason : Text
  pub operation : Text

-- The default of the struct: login is not allowed.
abbrev pub unavailable : LoginState
unavailable = record { allowed = false; reason = codes "login_state_unavailable"; operation = [] }

abbrev pub waiting_for_reboot : Text
waiting_for_reboot = codes "waiting_for_reboot"

-- What the runtime directory and the path of the file look like.
pub record LoginPath : Type 0 where
  pub is_absolute : Bool
  pub is_directory_link : Bool
  pub is_file_link : Bool

abbrev pub is_safe : LoginPath → Bool
is_safe path = path.is_absolute && not path.is_directory_link && not path.is_file_link

pub data LoginFile : Type 0 where
  missing unreadable : LoginFile
  contents : Text → LoginFile

-- The outcomes of the calls of `QSaveFile`.
pub record WriteCalls : Type 0 where
  pub opened : Bool
  pub permitted : Bool
  pub written : Bool
  pub committed : Bool

-- The members that `writeState` writes.
unfoldable pub document : Bool → Text → Fields
document allowed operation = field (codes "version") (num (pos 1)) (
    field (codes "loginAllowed") (bool allowed) (
      field (codes "loginDisabledReason") (str (if allowed then [] else waiting_for_reboot))
        (field (codes "rebootOperation") (str operation) end)))

abbrev pub is_reboot_operation : Text → Bool
is_reboot_operation operation =
    eqb operation (codes "factory_reset") || eqb operation (codes "reboot")

-- The last tests of `readLoginState`, on the members of the right types.
unfoldable pub accept : Bool → Text → Text → LoginState
accept allowed reason operation =
    if allowed
    then (if is_empty reason && is_empty operation
        then record { allowed = true; reason = []; operation = [] }
        else unavailable)
    else if not (eqb reason waiting_for_reboot) || not (is_reboot_operation operation)
    then unavailable
    else record { allowed = false; reason = reason; operation = operation }

unfoldable pub read_object : Fields → LoginState
read_object o =
    let allowed = value (codes "loginAllowed") o in
    let reason = value (codes "loginDisabledReason") o in
    let operation = value (codes "rebootOperation") o in
    if not (is_version_one (value (codes "version") o))
      || not (is_bool allowed)
      || not (is_string reason)
      || not (is_string operation)
    then unavailable
    else accept (to_bool allowed) (to_string reason) (to_string operation)

-- What `blockLoginForReboot` leaves: the file, its result, and whether the process exits.
pub record Blocked : Type 0 where
  pub file : LoginFile
  pub result : Bool
  pub exits : Bool

abbrev pub is_missing : LoginFile → Bool
is_missing missing = true
is_missing _ = false

-- The file is removed if it could not be written; `removed` is the result of `QFile::remove`.
unfoldable pub invalidate : (removed : Bool) → LoginFile → Blocked
invalidate removed file = record {
  file = if removed then missing else file;
  result = false;
  exits = not removed && not (is_missing file);
}

module _ (q : Qt) where
  unfoldable pub read_document : Option Json → LoginState
  read_document (some (obj o)) = read_object o
  read_document _ = unavailable

  unfoldable pub read_file : LoginFile → LoginState
  read_file missing = unavailable
  read_file unreadable = unavailable
  read_file (contents bytes) =
      if ltb 4096 (length bytes) then unavailable else read_document (q.from_json bytes)

  -- `readLoginState`
  unfoldable pub read_login_state : LoginPath → LoginFile → LoginState
  read_login_state path file = if not (is_safe path) then unavailable else read_file file

  -- `writeState`: the file, and whether it was written.
  unfoldable pub write_state : LoginPath → WriteCalls → Bool → Text → LoginFile → LoginFile × Bool
  write_state path calls allowed operation file =
      if not (is_safe path)
      then (file, false)
      else if not calls.opened || not calls.permitted || not calls.written || not calls.committed
      then (file, false)
      else (contents (q.to_json (document allowed operation)), true)

  -- `initializeLoginState`; the flags are those of `mkpath` and of the permissions.
  unfoldable pub initialize_login_state :
      LoginPath → (made secured : Bool) → WriteCalls → LoginFile → LoginFile × Bool
  initialize_login_state path made secured calls file =
      if not path.is_absolute || path.is_directory_link || not made
      then (file, false)
      else if not secured
      then (file, false)
      else write_state path calls true [] file

  unfoldable pub block_login_for_reboot :
      LoginPath → WriteCalls → (removed : Bool) → Text → LoginFile → Blocked
  block_login_for_reboot path calls removed operation file =
      let wrote = write_state path calls false operation file in
      if not (is_reboot_operation operation)
      then record { file = file; result = false; exits = false }
      else if wrote.1
      then record { file = wrote.0; result = true; exits = false }
      else invalidate removed wrote.0
