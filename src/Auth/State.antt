-- ===== src/Auth/State.antt =====
-- backend/webserver/auth/AuthManager.{hpp,cpp}: the state, the tests of a username and a password,
-- the password hash and the random tokens.
use everest_ui.Base.{
  ℕ, suc, zero, Bool, false, ◌&&◌, not, List, [], ◌∷◌, leb, length, all, ◌+◌, ◌*◌, ◌%◌, ◌++◌,
  is_empty,
}
use everest_ui.Base.Text.{Text, trimmed, before_final_newline}
use everest_ui.Qt.{Qt, is_name_char}

pub record UserRecord : Type 0 where
  pub username : Text
  pub password : Text
  pub salt : Text
  pub created_at : Text
  pub updated_at : Text

abbrev pub empty_user : UserRecord
empty_user = record { username = []; password = []; salt = []; created_at = []; updated_at = [] }

-- Times are milliseconds.
pub record SessionRecord : Type 0 where
  pub username : Text
  pub expires_at : ℕ

pub record AuthManager : Type 0 where
  pub loaded : Bool
  pub has_user : Bool
  pub user : UserRecord
  pub sessions : List (Text × SessionRecord)

-- The constructor.
abbrev pub new_manager : AuthManager
new_manager = record { loaded = false; has_user = false; user = empty_user; sessions = [] }

pub data AuthError : Type 0 where
  not_loaded user_exists invalid_username invalid_password no_user : AuthError
  cannot_open invalid_json unsupported_version invalid_user_object invalid_user_fields : AuthError
  cannot_create_directory cannot_write incomplete_write cannot_commit : AuthError

abbrev pub setup_required : AuthManager → Bool
setup_required m = m.loaded && not m.has_user

abbrev pub logged_user : AuthManager → Bool
logged_user m = m.loaded && m.has_user

abbrev pub session_ttl_ms : ℕ
session_ttl_ms = 12 * 60 * 60 * 1000

abbrev pub salt_bytes : ℕ
salt_bytes = 16

abbrev pub session_bytes : ℕ
session_bytes = 32

-- `^[A-Za-z0-9_.-]{1,64}$`
unfoldable pub matches_username : Text → Bool
matches_username s =
    let name = before_final_newline s in
    all is_name_char name && leb 1 (length name) && leb (length name) 64

module _ (q : Qt) where
  abbrev pub is_username_valid : Text → Bool
  is_username_valid username = matches_username (trimmed q.is_space username)

  -- `username.trimmed().toLower()`
  abbrev pub account_name : Text → Text
  account_name username = q.to_lower (trimmed q.is_space username)

  abbrev pub hash_password : Text → Text → Text
  hash_password password salt = q.sha512_base64 (password ++ salt)

  unfoldable pub is_user_record_valid : UserRecord → Bool
  is_user_record_valid u =
      is_username_valid u.username
      && not (is_empty u.password)
      && not (is_empty u.salt)
      && not (is_empty u.created_at)
      && not (is_empty u.updated_at)

unfoldable pub is_password_valid : Text → Bool
is_password_valid password = leb 8 (length password) && leb (length password) 256

-- The next outputs of the random generator, cut to bytes, from position `at`.
unfoldable pub random_bytes : (ℕ → ℕ) → ℕ → ℕ → List ℕ
random_bytes generate at zero = []
random_bytes generate at (suc n) = generate at % 256 ∷ random_bytes generate (at + 1) n

abbrev pub create_random_token : Qt → (ℕ → ℕ) → ℕ → ℕ → Text
create_random_token q generate at count = q.base64_url (random_bytes generate at count)
