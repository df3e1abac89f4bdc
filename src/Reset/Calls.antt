-- ===== src/Reset/Calls.antt =====
-- backend/webserver/auth/PasswordReset.cpp: `status` and `reset`.
use everest_ui.Base.{
  ℕ, ◌+◌, ◌-◌, Bool, true, false, ◌&&◌, ◌||◌, not, Option, none, some, is_some, if◌then◌else◌,
}
use everest_ui.Qt.{Qt}
use everest_ui.Auth.State.{AuthManager, logged_user}
use everest_ui.Auth.File.{AuthFile, SaveCalls as AuthCalls}
use everest_ui.Auth.Manager.{reset_user}
use everest_ui.Reset.State.{PasswordReset, Reason, setup_required, reason}
use everest_ui.Reset.File.{StateFile, Load, SaveCalls, load, save}

-- The members of the object that `status` returns; the time left is in milliseconds.
pub record Status : Type 0 where
  pub available : Bool
  pub remaining_ms : ℕ
  pub window_seconds : ℕ
  pub why : Option Reason

abbrev pub is_valid : Load → Bool
is_valid Load.valid = true
is_valid _ = false

-- `max(0, deadline - clock())`; a failed clock reads -1.
abbrev pub time_left : Option ℕ → ℕ → ℕ
time_left none deadline = deadline + 1
time_left (some now) deadline = deadline - now

-- What the browser can see of a reset: the error code of the body.
pub data ResetError : Type 0 where
  reset_unavailable reset_temporarily_unavailable reset_failed : ResetError

pub record ResetResult : Type 0 where
  pub process : PasswordReset
  pub file : StateFile
  pub manager : AuthManager
  pub auth_file : AuthFile
  pub code : ℕ
  pub error : Option ResetError

module _ (q : Qt) where
  -- The process after the part of `status` and `reset` that reads the file again.
  unfoldable pub reload : StateFile → PasswordReset → PasswordReset × Bool
  reload file p =
      let (p', loaded) = load q file p in
      if is_valid loaded
      then (p', true)
      else (record p' { valid = false; process_blocked = true }, false)

  -- `reason` and the time left read the clock at `now` and at `later`.
  unfoldable pub status :
      (now later : Option ℕ)
      → (has_user : Bool) → StateFile
      → PasswordReset
      → PasswordReset × Status
  unfolding reload
  status now later has_user file p =
      let p' = if p.valid && not p.process_blocked then (reload file p).0 else p in
      let why = if not has_user then some setup_required else reason now p' in
      (
        p',
        record {
          available = not (is_some why);
          remaining_ms = if not (is_some why) then time_left later p'.deadline else 0;
          window_seconds = p'.window_seconds;
          why = why;
        },
      )

  -- `reset` once the file is loaded again: the allowance is spent before the account is touched.
  unfoldable pub spend :
      (now : Option ℕ)
      → SaveCalls
      → AuthCalls
      → StateFile
      → AuthManager
      → AuthFile
      → PasswordReset
      → ResetResult
  spend now calls auth_calls file m auth_file p =
      let refused = λ (p' : PasswordReset) (f : StateFile) (c : ℕ) (e : ResetError).
        let r : ResetResult = record {
          process = p';
          file = f;
          manager = m;
          auth_file = auth_file;
          code = c;
          error = some e;
        } in
        r in
      if is_some (reason now p) || not (logged_user m)
      then refused p file 403 reset_unavailable
      else let saved = save q calls file (record p { allowed = false }) in
        if not saved.2
        then refused saved.0 saved.1 500 reset_failed
        else let auth = reset_user q auth_calls m auth_file in
          record {
            process = saved.0;
            file = saved.1;
            manager = auth.manager;
            auth_file = auth.file;
            code = if is_some auth.error then 500 else 200;
            error = if is_some auth.error then some reset_failed else none;
          }

  unfoldable pub reset :
      (locked : Bool)
      → (now : Option ℕ) → SaveCalls
      → AuthCalls
      → StateFile
      → AuthManager
      → AuthFile
      → PasswordReset
      → ResetResult
  unfolding reload spend
  reset locked now calls auth_calls file m auth_file p =
      let refused = λ (p' : PasswordReset) (c : ℕ) (e : ResetError).
        let r : ResetResult = record {
          process = p';
          file = file;
          manager = m;
          auth_file = auth_file;
          code = c;
          error = some e;
        } in
        r in
      if not p.enabled || p.process_blocked || not p.valid
      then refused p 403 reset_unavailable
      else if not locked
      then refused p 503 reset_temporarily_unavailable
      else let (p', ok) = reload file p in
        if not ok
        then refused p' 403 reset_unavailable
        else spend now calls auth_calls file m auth_file p'
