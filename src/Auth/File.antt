-- ===== src/Auth/File.antt =====
-- backend/webserver/auth/AuthManager.cpp: `load` and `save` of the account file.
use everest_ui.Base.{Bool, true, false, not, Option, none, some, if◌then◌else◌, ◌==◌}
use everest_ui.Base.Text.{Text, codes}
use everest_ui.Base.Int.{pos}
use everest_ui.Base.Json.{
  Json, undefined, null, num, str, obj, Fields, end, field, value, to_string,
}
use everest_ui.Qt.{Qt}
use everest_ui.Auth.State.{
  UserRecord, empty_user, AuthManager, AuthError, cannot_open, invalid_json, unsupported_version,
  invalid_user_object, invalid_user_fields, cannot_create_directory, cannot_write, incomplete_write,
  cannot_commit, is_user_record_valid,
}

-- The account file as `QFile` finds it.
pub data AuthFile : Type 0 where
  missing unreadable : AuthFile
  contents : Text → AuthFile

-- `value.toInt() == 1`: 0 stands for a value that is no integer.
abbrev pub is_version_one : Json → Bool
is_version_one (num (pos n)) = n == 1
is_version_one _ = false

unfoldable pub read_user : Fields → UserRecord
read_user o = record {
  username = to_string (value (codes "username") o);
  password = to_string (value (codes "password") o);
  salt = to_string (value (codes "salt") o);
  created_at = to_string (value (codes "createdAt") o);
  updated_at = to_string (value (codes "updatedAt") o);
}

unfoldable pub write_user : UserRecord → Fields
write_user u = field (codes "username") (str u.username) (
    field (codes "password") (str u.password) (
      field (codes "salt") (str u.salt) (
        field (codes "createdAt") (str u.created_at)
          (field (codes "updatedAt") (str u.updated_at) end))))

-- The outcomes of the calls of the file system that `save` makes.
pub record SaveCalls : Type 0 where
  -- the directory exists, or was made
  pub directory : Bool
  pub opened : Bool
  pub written : Bool
  pub committed : Bool

module _ (q : Qt) where
  -- The user object that was found, with the flags that `load` has reset.
  unfoldable pub load_user : AuthManager → Json → AuthManager × Option AuthError
  load_user m undefined = (record m { loaded = true }, none)
  load_user m null = (record m { loaded = true }, none)
  load_user m (obj o) =
      if is_user_record_valid q (read_user o)
      then (record m { user = read_user o; has_user = true; loaded = true }, none)
      else (m, some invalid_user_fields)
  load_user m _ = (m, some invalid_user_object)

  unfoldable pub load_document : AuthManager → Option Json → AuthManager × Option AuthError
  unfolding load_user
  load_document m (some (obj root)) =
      if is_version_one (value (codes "version") root)
      then load_user m (value (codes "user") root)
      else (m, some unsupported_version)
  load_document m _ = (m, some invalid_json)

  unfoldable pub load_file : AuthManager → AuthFile → AuthManager × Option AuthError
  unfolding load_document
  load_file m missing = (record m { loaded = true }, none)
  load_file m unreadable = (m, some cannot_open)
  load_file m (contents bytes) = load_document m (q.from_json bytes)

  unfoldable pub load : AuthManager → AuthFile → AuthManager × Option AuthError
  unfolding load_file
  load m file = load_file (record m { loaded = false; has_user = false; user = empty_user }) file

  -- The root object that `save` writes.
  unfoldable pub document : AuthManager → Fields
  unfolding write_user
  document m =
      if m.has_user
      then field (codes "version") (num (pos 1))
          (field (codes "user") (obj (write_user m.user)) end)
      else field (codes "version") (num (pos 1)) end

  -- `QSaveFile` replaces the file at `commit` alone.
  unfoldable pub save : SaveCalls → AuthManager → AuthFile → AuthFile × Option AuthError
  unfolding document
  save calls m file =
      if not calls.directory
      then (file, some cannot_create_directory)
      else if not calls.opened
      then (file, some cannot_write)
      else if not calls.written
      then (file, some incomplete_write)
      else if not calls.committed
      then (file, some cannot_commit)
      else (contents (q.to_json (document m)), none)
