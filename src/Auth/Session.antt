-- ===== src/Auth/Session.antt =====
-- backend/webserver/auth/AuthManager.cpp: the sessions. Each call of the clock has its own time.
use everest_ui.Base.{
  ℕ, zero, suc, ◌+◌, Bool, true, false, ◌||◌, not, List, [], Option, none, some, if◌then◌else◌, leb,
  is_empty,
}
use everest_ui.Base.Text.{Text, eqb}
use everest_ui.Base.Assoc.{lookup, insert, remove, has_key}
use everest_ui.Qt.{Qt}
use everest_ui.Auth.State.{
  SessionRecord, AuthManager, account_name, create_random_token, session_bytes, session_ttl_ms,
}

-- `newSessionExpiry` at time `now`.
abbrev pub new_session_expiry : ℕ → ℕ
new_session_expiry now = now + session_ttl_ms

module _ (q : Qt) (generate : ℕ → ℕ) where
  -- The loop of `createSession`: draws tokens until one is not in use, or `fuel` are drawn.
  unfoldable pub fresh_token : ℕ → ℕ → List (Text × SessionRecord) → Option Text
  fresh_token zero at sessions = none
  fresh_token (suc fuel) at sessions =
      let token = create_random_token q generate at session_bytes in
      let rest = fresh_token fuel (at + session_bytes) sessions in
      if has_key token sessions then rest else some token

  -- `none` if the fuel runs out; the empty identifier is a refusal.
  unfoldable pub create_session :
      (fuel at now : ℕ) → Text → AuthManager → Option (AuthManager × Text)
  unfolding fresh_token
  create_session fuel at now username m =
      if not m.loaded || not m.has_user || not (eqb (account_name q username) m.user.username)
      then some (m, [])
      else elim (fresh_token fuel at m.sessions) [
        | none ↦ none
        | some token ↦ some (
          record m {
            sessions =
                insert token
                  (record { username = m.user.username; expires_at = new_session_expiry now })
                  m.sessions;
          },
          token,
        )
      ]

-- `validateSession`: the clock is read at `now`, and again at `later` for the new expiry.
unfoldable pub validate_session : (now later : ℕ) → Text → AuthManager → AuthManager × Bool
validate_session now later session_id m =
    if is_empty session_id then (m, false) else elim (lookup session_id m.sessions) [
      | none ↦ (m, false)
      | some s ↦
          if leb s.expires_at now
          then (record m { sessions = remove session_id m.sessions }, false)
          else (
            record m {
              sessions =
                  insert session_id (record s { expires_at = new_session_expiry later }) m.sessions;
            },
            true,
          )
    ]

unfoldable pub remove_session : Text → AuthManager → AuthManager
remove_session session_id m =
    if not (is_empty session_id) then record m { sessions = remove session_id m.sessions } else m

abbrev pub invalidate_sessions : AuthManager → AuthManager
invalidate_sessions m = record m { sessions = [] }
