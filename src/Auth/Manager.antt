-- ===== src/Auth/Manager.antt =====
-- backend/webserver/auth/AuthManager.cpp: `createUser`, `authenticate` and `resetUser`.
use everest_ui.Base.{ℕ, Bool, true, false, ◌||◌, not, [], Option, none, some, if◌then◌else◌}
use everest_ui.Base.Text.{Text, eqb}
use everest_ui.Qt.{Qt}
use everest_ui.Auth.State.{
  UserRecord, empty_user, AuthManager, AuthError, not_loaded, user_exists, invalid_username,
  invalid_password, no_user, is_username_valid, is_password_valid, account_name, hash_password,
  create_random_token, salt_bytes,
}
use everest_ui.Auth.File.{AuthFile, SaveCalls, save}

-- The manager and its file after a call, and the error that it reports.
pub record AuthResult : Type 0 where
  pub manager : AuthManager
  pub file : AuthFile
  pub error : Option AuthError

module _ (q : Qt) where
  abbrev pub new_user : Text → Text → Text → Text → UserRecord
  new_user username password salt timestamp = record {
    username = account_name q username;
    password = hash_password q password salt;
    salt = salt;
    created_at = timestamp;
    updated_at = timestamp;
  }

  -- `save` for a new account, and what is undone if it fails.
  unfoldable pub store_user : SaveCalls → UserRecord → AuthManager → AuthFile → AuthResult
  store_user calls u m file =
      let m' = record m { user = u; has_user = true } in
      let undone = record m' { user = empty_user; has_user = false } in
      let saved = save q calls m' file in
      elim saved.1 [
        | none ↦ record { manager = m'; file = saved.0; error = none }
        | some e ↦ record { manager = undone; file = saved.0; error = some e }
      ]

  -- `createUser`; `salt` is the random token, and `timestamp` is `nowUtcIso()`.
  unfoldable pub create_user :
      SaveCalls
      → (generate : ℕ → ℕ) → (at : ℕ) → (timestamp username password : Text) → AuthManager
      → AuthFile
      → AuthResult
  unfolding store_user
  create_user calls generate at timestamp username password m file =
      if not m.loaded
      then record { manager = m; file = file; error = some not_loaded }
      else if m.has_user
      then record { manager = m; file = file; error = some user_exists }
      else if not (is_username_valid q username)
      then record { manager = m; file = file; error = some invalid_username }
      else if not (is_password_valid password)
      then record { manager = m; file = file; error = some invalid_password }
      else store_user calls
          (new_user username password (create_random_token q generate at salt_bytes) timestamp) m
          file

  unfoldable pub authenticate : AuthManager → Text → Text → Bool
  authenticate m username password =
      if not m.loaded || not m.has_user
      then false
      else if not (eqb (account_name q username) m.user.username)
      then false
      else eqb (hash_password q password m.user.salt) m.user.password

  unfoldable pub reset_user : SaveCalls → AuthManager → AuthFile → AuthResult
  reset_user calls m file =
      let cleared = record m { user = empty_user; has_user = false } in
      let saved = save q calls cleared file in
      if not m.loaded || not m.has_user
      then record { manager = m; file = file; error = some no_user }
      else elim saved.1 [
        | none ↦ record { manager = record cleared { sessions = [] }; file = saved.0; error = none }
        | some e ↦ record {
          manager = record cleared { user = m.user; has_user = true };
          file = saved.0;
          error = some e;
        }
      ]
