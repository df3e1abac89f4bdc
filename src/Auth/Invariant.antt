-- ===== src/Auth/Invariant.antt =====
-- backend/webserver/auth/AuthManager.cpp: the calls on a manager as steps, and an invariant of
-- them.
use everest_ui.Base.{
  ℕ, true, false, List, [], some, ◌≡◌, refl, arith, All, Bool-cases, Option-cases, inl, inr, ◌⊎◌,
}
use everest_ui.Base.Text.{Text}
use everest_ui.Base.Assoc.{lookup, insert, remove, All-insert, All-remove, All-lookup}
use everest_ui.Qt.{Qt}
use everest_ui.Auth.State.{empty_user, SessionRecord, AuthManager, new_manager}
use everest_ui.Auth.File.{AuthFile, SaveCalls, load, load_file, load_document, load_user, save}
use everest_ui.Auth.Manager.{create_user, reset_user}
use everest_ui.Auth.Session.{
  create_session, validate_session, remove_session, invalidate_sessions, new_session_expiry,
}

abbrev IsOf : Text → SessionRecord → Type 0
IsOf name s = s.username ≡ name

-- Every session is one of this account.
pub AreOwned : Text → List (Text × SessionRecord) → Type 0
AreOwned name ss = All (λ e. IsOf name e.1) ss

AreOwned-nil : (name : Text) → AreOwned name []
unfolding AreOwned
AreOwned-nil name = tt

AreOwned-insert :
    (name id : Text) (s : SessionRecord) (ss : List (Text × SessionRecord))
    → s.username ≡ name
    → AreOwned name ss
    → AreOwned name (insert id s ss)
unfolding AreOwned
AreOwned-insert name id s ss e h = All-insert (IsOf name) id s ss e h

AreOwned-remove :
    (name id : Text) (ss : List (Text × SessionRecord))
    → AreOwned name ss
    → AreOwned name (remove id ss)
unfolding AreOwned
AreOwned-remove name id ss h = All-remove (IsOf name) id ss h

AreOwned-lookup :
    (name id : Text) (ss : List (Text × SessionRecord)) {s : SessionRecord}
    → AreOwned name ss
    → lookup id ss ≡ some s
    → s.username ≡ name
unfolding AreOwned
AreOwned-lookup name id ss h e = All-lookup (IsOf name) id ss h e

-- Every session belongs to the account; without one there is none, and the record is blank.
pub record IsConsistent (m : AuthManager) : Type 0 where
  pub owned : AreOwned m.user.username m.sessions
  pub ready : m.has_user ≡ true → m.loaded ≡ true
  pub blank : m.has_user ≡ false → m.user ≡ empty_user
  pub closed : m.has_user ≡ false → m.sessions ≡ []

module _ (q : Qt) where
  -- `initialize` in a new process, on any account file.
  load-IsConsistent : (file : AuthFile) → IsConsistent (load q new_manager file).0
  unfolding load load_file load_document load_user AreOwned
  load-IsConsistent file = ground arith

  create_user-IsConsistent :
      (calls : SaveCalls) (generate : ℕ → ℕ) (at : ℕ) (timestamp username password : Text)
      (m : AuthManager) (file : AuthFile)
      → IsConsistent m
      → IsConsistent (create_user q calls generate at timestamp username password m file).manager
  unfolding create_user save AreOwned
  create_user-IsConsistent calls generate at timestamp username password m file h =
      elim (Bool-cases m.has_user) [
        | inl had ↦ ground (arith, h.closed)
        | inr free ↦ let none_left = h.closed free in ground arith
      ]

  reset_user-IsConsistent :
      (calls : SaveCalls) (m : AuthManager) (file : AuthFile)
      → IsConsistent m
      → IsConsistent (reset_user q calls m file).manager
  unfolding reset_user save AreOwned
  reset_user-IsConsistent calls m file h = ground arith

  -- Either nothing happens, or there is an account and a session of it is added.
  create_session_inv :
      (generate : ℕ → ℕ) (fuel at now : ℕ) (username t : Text) (m m' : AuthManager)
      → create_session q generate fuel at now username m ≡ some (m', t)
      → (m' ≡ m)
        ⊎ ((m.has_user ≡ true)
            × (m' ≡ record m {
              sessions =
                  insert t
                    (record { username = m.user.username; expires_at = new_session_expiry now })
                    m.sessions;
            }))
  unfolding create_session
  create_session_inv generate fuel at now username t m m' e = ground arith

  create_session-IsConsistent :
      (generate : ℕ → ℕ) (fuel at now : ℕ) (username t : Text) (m m' : AuthManager)
      → create_session q generate fuel at now username m ≡ some (m', t)
      → IsConsistent m
      → IsConsistent m'
  create_session-IsConsistent generate fuel at now username t m m' e h =
      elim (create_session_inv generate fuel at now username t m m' e) [
        | inl same ↦ rw same h
        | inr (had, added) ↦ rw added (record {
          owned = AreOwned-insert m.user.username t _ m.sessions refl h.owned;
          ready = h.ready;
          blank = h.blank;
          closed = λ free. absurd (ground arith);
        })
      ]

used_has_user :
    (id : Text) (m : AuthManager) {s : SessionRecord}
    → IsConsistent m
    → lookup id m.sessions ≡ some s
    → m.has_user ≡ true
unfolding lookup
used_has_user id m h e = elim (Bool-cases m.has_user) [
  | inl had ↦ had
  | inr free ↦ let none_left = h.closed free in ground arith
]

validate_session-IsConsistent :
    (now later : ℕ) (id : Text) (m : AuthManager)
    → IsConsistent m
    → IsConsistent (validate_session now later id m).0
unfolding validate_session
validate_session-IsConsistent now later id m h = elim (Option-cases (lookup id m.sessions)) [
  | inl unknown ↦ ground arith
  | inr (s, found) ↦
      let had = used_has_user id m h found in
      let owner = AreOwned-lookup m.user.username id m.sessions h.owned found in
      let cut = AreOwned-remove m.user.username id m.sessions h.owned in
      let kept =
        AreOwned-insert m.user.username id (record s { expires_at = new_session_expiry later })
          m.sessions owner h.owned in
      ground arith
]

remove_session-IsConsistent :
    (id : Text) (m : AuthManager) → IsConsistent m → IsConsistent (remove_session id m)
unfolding remove_session remove
remove_session-IsConsistent id m h =
    let cut = AreOwned-remove m.user.username id m.sessions h.owned in
    elim (Bool-cases m.has_user) [
      | inl had ↦ ground arith
      | inr free ↦ let none_left = h.closed free in ground arith
    ]

-- One call on the manager, with whatever the file system, the clock and the generator give.
pub data Call (q : Qt) : AuthManager → AuthManager → Type 0 where
  creates :
      (calls : SaveCalls) (generate : ℕ → ℕ) (at : ℕ) (timestamp username password : Text)
      (m : AuthManager) (file : AuthFile)
      → Call q m (create_user q calls generate at timestamp username password m file).manager
  resets :
      (calls : SaveCalls) (m : AuthManager) (file : AuthFile)
      → Call q m (reset_user q calls m file).manager
  opens :
      (generate : ℕ → ℕ) (fuel at now : ℕ) (username t : Text) (m m' : AuthManager)
      → create_session q generate fuel at now username m ≡ some (m', t)
      → Call q m m'
  validates :
      (now later : ℕ) (id : Text) (m : AuthManager) → Call q m (validate_session now later id m).0
  removes : (id : Text) (m : AuthManager) → Call q m (remove_session id m)
  invalidates : (m : AuthManager) → Call q m (invalidate_sessions m)

pub data Reachable (q : Qt) : AuthManager → Type 0 where
  starts : (file : AuthFile) → Reachable q (load q new_manager file).0
  calls : {m m' : AuthManager} → Reachable q m → Call q m m' → Reachable q m'

Call-IsConsistent : (q : Qt) {m m' : AuthManager} → Call q m m' → IsConsistent m → IsConsistent m'
Call-IsConsistent q (creates io generate at timestamp username password m file) h =
    create_user-IsConsistent q io generate at timestamp username password m file h
Call-IsConsistent q (resets io m file) h = reset_user-IsConsistent q io m file h
Call-IsConsistent q (opens generate fuel at now username t m m' e) h =
    create_session-IsConsistent q generate fuel at now username t m m' e h
Call-IsConsistent q (validates now later id m) h = validate_session-IsConsistent now later id m h
Call-IsConsistent q (removes id m) h = remove_session-IsConsistent id m h
Call-IsConsistent q (invalidates m) h = record {
  owned = AreOwned-nil m.user.username;
  ready = h.ready;
  blank = h.blank;
  closed = λ _. refl;
}

-- From any account file and after any calls, each session in the table is one of the account that
-- the manager holds; a manager without an account has no session and a blank record, and one with
-- an account is loaded.
pub Reachable-IsConsistent : (q : Qt) {m : AuthManager} → Reachable q m → IsConsistent m
Reachable-IsConsistent q (starts file) = load-IsConsistent q file
Reachable-IsConsistent q (calls r c) = Call-IsConsistent q c (Reachable-IsConsistent q r)
