-- ===== src/Tests/Auth.antt =====
-- The account and its sessions, at concrete inputs.
use everest_ui.Base.{ℕ, ◌+◌, ◌*◌, true, false, not, [], ◌∷◌, none, some, ◌≡◌, refl, arith, leb}
use everest_ui.Base.Text.{
  Text, codes, eqb, trimmed, drop_while, drop_while_end, before_final_newline,
}
use everest_ui.Base.Assoc.{lookup}
use everest_ui.Qt.{is_name_char}
use everest_ui.Auth.State.{
  UserRecord, empty_user, SessionRecord, AuthManager, new_manager, cannot_commit, invalid_password,
  setup_required, account_name, hash_password, create_random_token, salt_bytes, session_ttl_ms,
  matches_username, is_password_valid, random_bytes,
}
use everest_ui.Auth.File.{missing, SaveCalls, load, save}
use everest_ui.Auth.Manager.{create_user, reset_user, authenticate}
use everest_ui.Auth.Session.{create_session, validate_session}
use everest_ui.Auth.RoundTrip.{create_user-load}
use everest_ui.Auth.Invariant.{
  IsConsistent, creates, Reachable, starts, calls, Reachable-IsConsistent,
}
use everest_ui.Auth.Failure.{create_user_failed, reset_user_failed, reset_user_lem}
use everest_ui.Auth.Lifetime.{ExpiresAt, validate_session-ExpiresAt, create_session_lem}
use everest_ui.Tests.Sample.{sample, sample-QtLaws}

abbrev pub all_saved : SaveCalls
all_saved = record { directory = true; opened = true; written = true; committed = true }

abbrev not_committed : SaveCalls
not_committed = record { directory = true; opened = true; written = true; committed = false }

abbrev generate : ℕ → ℕ
generate n = n * 7 + 3

abbrev moment : Text
moment = codes "2026-01-01T00:00:00.000Z"

abbrev empty_manager : AuthManager
empty_manager = record { loaded = true; has_user = false; user = empty_user; sessions = [] }

abbrev pub admin : UserRecord
admin = record {
  username = codes "admin";
  password = codes "#hash";
  salt = codes "salt";
  created_at = moment;
  updated_at = moment;
}

abbrev token : Text
token = codes "token"

abbrev open_session : SessionRecord
open_session = record { username = codes "admin"; expires_at = 1000 }

abbrev pub manager : AuthManager
manager = record {
  loaded = true;
  has_user = true;
  user = admin;
  sessions = (token, open_session) ∷ [];
}

created :
    (create_user sample all_saved generate 0 moment
      (codes " Admin")
      (codes "correct horse")
      empty_manager
      missing).error
    ≡ none
unfolding create_user save matches_username is_name_char trimmed drop_while drop_while_end
    before_final_newline is_password_valid
created = refl

create_user-load_example :
    let salt = create_random_token sample generate 0 salt_bytes in
    let r =
      create_user sample all_saved generate 0 moment
        (codes " Admin")
        (codes "correct horse")
        empty_manager
        missing in
    let restarted = load sample new_manager r.file in
    (restarted.1 ≡ none)
    × (restarted.0.user ≡ r.manager.user)
    × (authenticate sample restarted.0 (codes " Admin") (codes "correct horse") ≡ true)
    × ((u p : Text)
        → authenticate sample restarted.0 u p ≡ true
        → (account_name sample u ≡ account_name sample (codes " Admin"))
          × (hash_password sample p salt ≡ hash_password sample (codes "correct horse") salt))
create_user-load_example =
    create_user-load sample sample-QtLaws all_saved generate 0 moment (codes " Admin")
      (codes "correct horse") empty_manager missing refl created

reachable :
    Reachable sample
      (create_user sample all_saved generate 0 moment
        (codes " Admin")
        (codes "correct horse")
        (load sample new_manager missing).0
        missing).manager
reachable =
    calls (starts missing)
      (creates all_saved generate 0 moment (codes " Admin") (codes "correct horse") _ missing)

Reachable-IsConsistent_example :
    IsConsistent
      (create_user sample all_saved generate 0 moment
        (codes " Admin")
        (codes "correct horse")
        (load sample new_manager missing).0
        missing).manager
Reachable-IsConsistent_example = Reachable-IsConsistent sample reachable

refused :
    (create_user sample all_saved generate 0 moment
      (codes "admin")
      (codes "short")
      empty_manager
      missing).error
    ≡ some invalid_password
unfolding create_user save matches_username is_name_char trimmed drop_while drop_while_end
    before_final_newline is_password_valid
refused = refl

create_user_failed_example :
    let r =
      create_user sample all_saved generate 0 moment
        (codes "admin")
        (codes "short")
        empty_manager
        missing in
    (r.manager ≡ empty_manager) × (r.file ≡ missing)
create_user_failed_example =
    create_user_failed sample all_saved generate 0 moment (codes "admin") (codes "short")
      empty_manager missing (λ free. refl) refused

reset_user_failed_example :
    ((reset_user sample not_committed manager missing).manager ≡ manager)
    × ((reset_user sample not_committed manager missing).file ≡ missing)
reset_user_failed_example =
    reset_user_failed sample not_committed manager missing {e = cannot_commit}
      (unfold reset_user save in refl)

reset_user_example :
    let r = reset_user sample all_saved manager missing in
    ((now later : ℕ) (s : Text) → (validate_session now later s r.manager).1 ≡ false)
    × ((u p : Text) → authenticate sample r.manager u p ≡ false)
    × (setup_required r.manager ≡ true)
    × ((load sample new_manager r.file).1 ≡ none)
    × (setup_required (load sample new_manager r.file).0 ≡ true)
reset_user_example =
    reset_user_lem sample sample-QtLaws all_saved manager missing (unfold reset_user save in refl)

validate_session_example :
    let r = validate_session 999 1001 token manager in
    (r.1 ≡ not (leb 1000 999))
    × (r.1 ≡ true → ExpiresAt r.0 token (1001 + session_ttl_ms))
    × (r.1 ≡ false → lookup token r.0.sessions ≡ none)
    × ((j : Text) → eqb token j ≡ false → lookup j r.0.sessions ≡ lookup j manager.sessions)
validate_session_example =
    validate_session-ExpiresAt 999 1001 1000 token manager refl
      (open_session, (unfold lookup eqb in refl), refl)

create_session_example :
    (m' : AuthManager) × (t : Text) × (create_session sample generate 1 0 500
        (codes "Admin")
        manager
      ≡ some (m', t))
    × (lookup t manager.sessions ≡ none)
    × (lookup t m'.sessions
        ≡ some (record { username = codes "admin"; expires_at = 500 + session_ttl_ms }))
    × ((j : Text) → eqb t j ≡ false → lookup j m'.sessions ≡ lookup j manager.sessions)
create_session_example =
    create_session_lem sample generate 0 1 0 500 (codes "Admin") manager refl refl
      (unfold trimmed drop_while drop_while_end in refl) (omega arith)
      (unfold lookup eqb random_bytes in refl)
