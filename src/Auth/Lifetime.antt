-- ===== src/Auth/Lifetime.antt =====
-- backend/webserver/auth/AuthManager.cpp: theorems on `createSession` and `validateSession`.
use everest_ui.Base.{
  ℕ, zero, suc, ◌+◌, ◌<◌, true, false, not, List, [], none, some, ◌≡◌, refl, arith, is_empty, leb,
  Bool-cases, Option-cases, inl, inr, ◌⊎◌,
}
use everest_ui.Base.Text.{Text, eqb, eqb_refl, eqb_iff}
use everest_ui.Base.Assoc.{lookup, insert, lookup-insert, lookup-remove}
use everest_ui.Qt.{Qt}
use everest_ui.Auth.State.{
  SessionRecord, AuthManager, account_name, create_random_token, session_bytes, session_ttl_ms,
}
use everest_ui.Auth.Session.{fresh_token, create_session, validate_session, new_session_expiry}

-- Session `id` is in the table, with this time of expiry.
abbrev pub ExpiresAt : AuthManager → Text → ℕ → Type 0
ExpiresAt m id t = (s : SessionRecord) × (lookup id m.sessions ≡ some s) × (s.expires_at ≡ t)

-- A session in the table is accepted exactly before its expiry. If it is accepted its new expiry is
-- twelve hours after the second reading of the clock, and if not it is gone. No other session
-- changes in either case.
pub validate_session-ExpiresAt :
    (now later t : ℕ) (id : Text) (m : AuthManager)
    → is_empty id ≡ false
    → ExpiresAt m id t
    → let r = validate_session now later id m in
      (r.1 ≡ not (leb t now))
      × (r.1 ≡ true → ExpiresAt r.0 id (later + session_ttl_ms))
      × (r.1 ≡ false → lookup id r.0.sessions ≡ none)
      × ((j : Text) → eqb id j ≡ false → lookup j r.0.sessions ≡ lookup j m.sessions)
unfolding validate_session
validate_session-ExpiresAt now later t id m named (s, found, expiry) =
    elim (Bool-cases (leb t now)) [
      | inl over ↦
          rw (named, found)
            (rw expiry (
              rw over (
                refl,
                λ h. absurd (ground arith),
                λ _. rw (lookup-remove id id m.sessions, eqb_refl id),
                λ j h. rw (lookup-remove id j m.sessions, h),
              )))
      | inr live ↦
          rw (named, found)
            (rw expiry (
              rw live (
                refl,
                λ _. (
                  record s { expires_at = new_session_expiry later },
                  rw
                      (lookup-insert id id (record s { expires_at = new_session_expiry later })
                        m.sessions)
                      (rw (eqb_refl id)),
                  refl,
                ),
                λ h. absurd (ground arith),
                λ j h.
                    rw
                      (lookup-insert id j (record s { expires_at = new_session_expiry later })
                        m.sessions)
                      (rw h),
              )))
    ]

-- Nothing but a session of the table is accepted, and a refusal of an unknown one changes nothing.
pub validate_session_unknown :
    (now later : ℕ) (id : Text) (m : AuthManager)
    → lookup id m.sessions ≡ none
    → validate_session now later id m ≡ (m, false)
unfolding validate_session
validate_session_unknown now later id m h = ground arith

module _ (q : Qt) (generate : ℕ → ℕ) where
  -- The token of round `k` of the loop that starts at position `at`.
  abbrev pub token_at : ℕ → ℕ → Text
  token_at at zero = create_random_token q generate at session_bytes
  token_at at (suc k) = token_at (at + session_bytes) k

  pub fresh_token-unused :
      (fuel at : ℕ) (ss : List (Text × SessionRecord)) {t : Text}
      → fresh_token q generate fuel at ss ≡ some t
      → lookup t ss ≡ none
  unfolding fresh_token
  fresh_token-unused zero at ss h = absurd (ground arith)
  fresh_token-unused (suc fuel) at ss {t} h =
      elim (Option-cases (lookup (create_random_token q generate at session_bytes) ss)) [
        | inl unused ↦ ground arith
        | inr (s, used) ↦ fresh_token-unused fuel (at + session_bytes) ss (rw used at h)
      ]

  -- The loop ends at the first unused token: it needs fuel for the rounds up to that one.
  pub fresh_token_total :
      (k fuel at : ℕ) (ss : List (Text × SessionRecord))
      → k < fuel
      → lookup (token_at at k) ss ≡ none
      → (t : Text) × (fresh_token q generate fuel at ss ≡ some t)
  unfolding fresh_token
  fresh_token_total k zero at ss lt h = absurd (omega arith)
  fresh_token_total zero (suc fuel) at ss lt h = (token_at at zero, rw h)
  fresh_token_total (suc k) (suc fuel) at ss lt h =
      elim (Option-cases (lookup (token_at at zero) ss)) [
        | inl unused ↦ (token_at at zero, rw unused)
        | inr (s, used) ↦ rw used (fresh_token_total k fuel (at + session_bytes) ss (omega arith) h)
      ]

  -- With an account, its name and fuel up to some unused token, `createSession` returns a session
  -- that was not in the table, of that account, twelve hours long; no other session changes.
  pub create_session_lem :
      (k fuel at now : ℕ) (username : Text) (m : AuthManager)
      → m.loaded ≡ true
      → m.has_user ≡ true
      → account_name q username ≡ m.user.username
      → k < fuel
      → lookup (token_at at k) m.sessions ≡ none
      → (m' : AuthManager) × (t : Text) × (create_session q generate fuel at now username m
          ≡ some (m', t))
        × (lookup t m.sessions ≡ none)
        × (lookup t m'.sessions
            ≡ some (record { username = m.user.username; expires_at = now + session_ttl_ms }))
        × ((j : Text) → eqb t j ≡ false → lookup j m'.sessions ≡ lookup j m.sessions)
  unfolding create_session
  create_session_lem k fuel at now username m loaded had same lt unused =
      let (t, drawn) = fresh_token_total k fuel at m.sessions lt unused in
      let s : SessionRecord = record {
        username = m.user.username;
        expires_at = now + session_ttl_ms;
      } in
      (
        record m { sessions = insert t s m.sessions },
        t,
        ground (arith, drawn, eqb_iff (account_name q username) m.user.username),
        fresh_token-unused fuel at m.sessions drawn,
        rw (lookup-insert t t s m.sessions) (rw (eqb_refl t)),
        λ j h. rw (lookup-insert t j s m.sessions) (rw h),
      )

  -- Without an account of that name no session is made.
  pub create_session_refused :
      (fuel at now : ℕ) (username : Text) (m : AuthManager)
      → (m.loaded ≡ false)
        ⊎ ((m.has_user ≡ false) ⊎ (eqb (account_name q username) m.user.username ≡ false))
      → create_session q generate fuel at now username m ≡ some (m, [])
  unfolding create_session
  create_session_refused fuel at now username m (inl h) = rw h
  create_session_refused fuel at now username m (inr (inl h)) = ground arith
  create_session_refused fuel at now username m (inr (inr h)) = ground arith
