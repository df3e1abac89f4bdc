-- ===== src/Reset/Allowance.antt =====
-- backend/webserver/auth/PasswordReset.cpp: theorems on `reset`.
use everest_ui.Base.{
  ℕ, ◌<◌, Bool, true, false, Option, none, some, ◌≡◌, refl, arith, subst, ◌⊎◌, inl, inr,
}
use everest_ui.Base.Text.{Text}
use everest_ui.Qt.{Qt, QtLaws}
use everest_ui.Auth.State.{AuthManager, logged_user, setup_required}
use everest_ui.Auth.File.{AuthFile, SaveCalls as AuthCalls}
use everest_ui.Auth.Manager.{reset_user}
use everest_ui.Auth.Session.{validate_session}
use everest_ui.Auth.Failure.{reset_user_lem}
use everest_ui.Reset.State.{PasswordReset, reason}
use everest_ui.Reset.File.{StateFile, Load, SaveCalls, load, save, contents, document}
use everest_ui.Reset.Calls.{reload, spend, reset}
use everest_ui.Reset.Spent.{IsSpent, reset_inv, document-IsSpent, load-boot_id}

-- `reason` is empty only for an enabled process that is not blocked, with an allowance that is not
-- pending, before its deadline, and neither after a warm start nor with an invalid marker.
reason_none :
    (now : Option ℕ) (p : PasswordReset)
    → reason now p ≡ none
    → (p.enabled ≡ true)
      × (p.process_blocked ≡ false)
      × (p.valid ≡ true)
      × (p.allowed ≡ true)
      × (p.pending ≡ false)
      × ((t : ℕ) × (now ≡ some t) × (t < p.deadline))
unfolding reason
reason_none none p h = ground arith
reason_none (some t) p h =
    (ground arith, ground arith, ground arith, ground arith, ground arith, (t, refl, ground arith))

module _ (q : Qt) where
  spend_code :
      (now : Option ℕ) (calls : SaveCalls) (auth_calls : AuthCalls) (file : StateFile)
      (m : AuthManager) (auth_file : AuthFile) (p : PasswordReset)
      → (spend q now calls auth_calls file m auth_file p).code ≡ 200
      → (reason now p ≡ none)
        × (logged_user m ≡ true)
        × ((reset_user q auth_calls m auth_file).error ≡ none)
        × ((spend q now calls auth_calls file m auth_file p).manager
            ≡ (reset_user q auth_calls m auth_file).manager)
  unfolding spend
  spend_code now calls auth_calls file m auth_file p h = ground arith

  -- A reset that answers 200 was made under the lock, by an enabled process that is not blocked,
  -- for an account; the state file gave an allowance that is not pending, and its deadline was
  -- still ahead. Then no session is accepted any more, and the setup is open.
  pub reset_allowed :
      (laws : QtLaws q) (locked : Bool) (now : Option ℕ) (calls : SaveCalls)
      (auth_calls : AuthCalls) (file : StateFile) (m : AuthManager) (auth_file : AuthFile)
      (p : PasswordReset)
      → let r = reset q locked now calls auth_calls file m auth_file p in
        let p' = (load q file p).0 in
        r.code ≡ 200
        → (locked ≡ true)
          × (p.enabled ≡ true)
          × (p.process_blocked ≡ false)
          × (logged_user m ≡ true)
          × ((load q file p).1 ≡ Load.valid)
          × (p'.allowed ≡ true)
          × (p'.pending ≡ false)
          × ((t : ℕ) × (now ≡ some t) × (t < p'.deadline))
          × (setup_required r.manager ≡ true)
          × ((from later : ℕ) (s : Text) → (validate_session from later s r.manager).1 ≡ false)
  reset_allowed laws locked now calls auth_calls file m auth_file p h =
      let (enabled, free, ready, held, loaded, same) =
        reset_inv q locked now calls auth_calls file m auth_file p h in
      let p' = (load q file p).0 in
      let (open_reason, logged, no_error, manager) =
        spend_code now calls auth_calls file m auth_file p' (rw same at h) in
      let (e, f, v, allowed, pending, time) = reason_none now p' open_reason in
      let (no_session, no_login, setup, _, _) =
        reset_user_lem q laws auth_calls m auth_file no_error in
      (
        held,
        enabled,
        free,
        logged,
        loaded,
        allowed,
        pending,
        time,
        rw (same, manager) setup,
        rw (same, manager) no_session,
      )

  spend_changed :
      (now : Option ℕ) (calls : SaveCalls) (auth_calls : AuthCalls) (file : StateFile)
      (m : AuthManager) (auth_file : AuthFile) (p : PasswordReset)
      → let r = spend q now calls auth_calls file m auth_file p in
        ((r.manager ≡ m) × (r.auth_file ≡ auth_file))
        ⊎ (r.file ≡ contents (q.to_json (document (record p { allowed = false }))))
  unfolding spend save
  spend_changed now calls auth_calls file m auth_file p = ground arith

  reset_changed :
      (locked : Bool) (now : Option ℕ) (calls : SaveCalls) (auth_calls : AuthCalls)
      (file : StateFile) (m : AuthManager) (auth_file : AuthFile) (p : PasswordReset)
      → let r = reset q locked now calls auth_calls file m auth_file p in
        ((r.manager ≡ m) × (r.auth_file ≡ auth_file))
        ⊎ (r ≡ spend q now calls auth_calls file m auth_file (load q file p).0)
  unfolding reset reload
  reset_changed locked now calls auth_calls file m auth_file p = ground arith

  -- Whatever a reset answers: if it leaves another account or another account file than it found,
  -- the state file that it leaves gives no process of this boot an allowance. So no second reset
  -- follows one that failed half way.
  pub reset_spends_first :
      (laws : QtLaws q) (locked : Bool) (now : Option ℕ) (calls : SaveCalls)
      (auth_calls : AuthCalls) (file : StateFile) (m : AuthManager) (auth_file : AuthFile)
      (p : PasswordReset)
      → let r = reset q locked now calls auth_calls file m auth_file p in
        ((r.manager ≡ m) × (r.auth_file ≡ auth_file)) ⊎ IsSpent q p.boot_id r.file
  reset_spends_first laws locked now calls auth_calls file m auth_file p =
      let p' = (load q file p).0 in
      let after = contents (q.to_json (document (record p' { allowed = false }))) in
      elim (reset_changed locked now calls auth_calls file m auth_file p) [
        | inl same ↦ inl same
        | inr spends ↦ elim (spend_changed now calls auth_calls file m auth_file p') [
          | inl same ↦ inl (rw spends same)
          | inr wrote ↦ inr (
              rw (spends, wrote)
                (subst (λ id. IsSpent q id after) (load-boot_id q file p)
                  (document-IsSpent q laws (record p' { allowed = false }) refl)))
        ]
      ]
