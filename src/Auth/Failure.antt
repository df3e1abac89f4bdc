-- ===== src/Auth/Failure.antt =====
-- backend/webserver/auth/AuthManager.cpp: theorems on the errors of `createUser` and on
-- `resetUser`.
use everest_ui.Base.{ℕ, true, false, [], none, some, ◌≡◌, arith}
use everest_ui.Base.Text.{Text}
use everest_ui.Base.Assoc.{lookup}
use everest_ui.Qt.{Qt, QtLaws}
use everest_ui.Auth.State.{empty_user, AuthManager, new_manager, AuthError, setup_required}
use everest_ui.Auth.File.{AuthFile, SaveCalls, load, save, contents, document}
use everest_ui.Auth.Manager.{create_user, reset_user, authenticate}
use everest_ui.Auth.Session.{validate_session}
use everest_ui.Auth.RoundTrip.{load-document}

module _ (q : Qt) where
  -- If `createUser` reports any error, the manager and the file are as before, provided that a
  -- manager without an account holds the empty user record.
  pub create_user_failed :
      (calls : SaveCalls) (generate : ℕ → ℕ) (at : ℕ) (timestamp username password : Text)
      (m : AuthManager) (file : AuthFile) {e : AuthError}
      → (m.has_user ≡ false → m.user ≡ empty_user)
      → (create_user q calls generate at timestamp username password m file).error ≡ some e
      → let r = create_user q calls generate at timestamp username password m file in
        (r.manager ≡ m) × (r.file ≡ file)
  unfolding create_user save
  create_user_failed calls generate at timestamp username password m file blank h = ground arith

  -- If `resetUser` reports any error, the manager, its sessions and the file are as before.
  pub reset_user_failed :
      (calls : SaveCalls) (m : AuthManager) (file : AuthFile) {e : AuthError}
      → (reset_user q calls m file).error ≡ some e
      → ((reset_user q calls m file).manager ≡ m) × ((reset_user q calls m file).file ≡ file)
  unfolding reset_user save
  reset_user_failed calls m file h = ground arith

  reset_user_inv :
      (calls : SaveCalls) (m : AuthManager) (file : AuthFile)
      → (reset_user q calls m file).error ≡ none
      → let cleared = record m { user = empty_user; has_user = false } in
        (m.loaded ≡ true)
        × (m.has_user ≡ true)
        × ((reset_user q calls m file).manager ≡ record cleared { sessions = [] })
        × ((reset_user q calls m file).file ≡ contents (q.to_json (document q cleared)))
  unfolding reset_user save
  reset_user_inv calls m file h = ground arith

  -- After a reset that reports no error no session is accepted and no password logs in, the setup
  -- is open, and so it is for the process that loads the file next.
  pub reset_user_lem :
      (laws : QtLaws q) (calls : SaveCalls) (m : AuthManager) (file : AuthFile)
      → (reset_user q calls m file).error ≡ none
      → let r = reset_user q calls m file in
        ((now later : ℕ) (s : Text) → (validate_session now later s r.manager).1 ≡ false)
        × ((u p : Text) → authenticate q r.manager u p ≡ false)
        × (setup_required r.manager ≡ true)
        × ((load q new_manager r.file).1 ≡ none)
        × (setup_required (load q new_manager r.file).0 ≡ true)
  reset_user_lem laws calls m file h =
      let (loaded, had, left, wrote) = reset_user_inv calls m file h in
      let cleared = record m { user = empty_user; has_user = false } in
      let found = load-document q laws cleared new_manager (λ h. absurd (no_account h)) in
      rw (left, wrote)
        (
          (λ now later s. unfold validate_session lookup in ground arith),
          (λ u p. unfold authenticate in (rw loaded)),
          rw loaded,
          rw found,
          rw found,
        )
    where
      no_account : false ≡ true → ⊥
      no_account h = cc
