-- ===== src/Server/Account.antt =====
-- backend/webserver/http/StaticServer.cpp: `parseJsonObjectBody` and `handleAuthRequest`.
use everest_ui.Base.{
  ℕ, List, Bool, false, ◌&&◌, ◌||◌, not, [], ◌∷◌, Option, none, some, if◌then◌else◌, ◌==◌, is_empty,
  ◌++◌,
}
use everest_ui.Base.Text.{Text, codes, eqb}
use everest_ui.Base.Json.{Json, Fields, bool, obj, value, to_string}
use everest_ui.Qt.{Qt}
use everest_ui.Auth.State.{AuthManager, setup_required, logged_user}
use everest_ui.Auth.Manager.{AuthResult, create_user, authenticate}
use everest_ui.Auth.Session.{create_session, remove_session}
use everest_ui.Reset.Calls as Calls
use everest_ui.Http.Headers.{ParsedRequest}
use everest_ui.Login.State.{LoginState}
use everest_ui.Server.Security.{Net, validate_auth_mutation}
use everest_ui.Server.State.{
  Server, World, report, auth_failure, reset_failure, Reply, Signal, credentials_reset, Result,
  text_reply, json_reply, error_reply, success_fields, session_cookie, clear_cookie, login_refused,
  refresh_login_state, session_id, is_authenticated,
}

unfoldable pub object_of : Option Json → Option Fields
object_of (some (obj fs)) = some fs
object_of _ = none

abbrev pub is_true : Json → Bool
is_true (bool b) = b
is_true _ = false

abbrev pub is_sensitive : Text → Bool
is_sensitive path = eqb path (codes "/auth/reset") || eqb path (codes "/auth/setup")

abbrev pub cookie_if : Bool → Option Text
cookie_if b = if b then some clear_cookie else none

-- `makeTextResponse(405, ..)`
abbrev pub wrong_method : Reply
wrong_method = text_reply 405 (codes "Method Not Allowed")

-- A request that `validateAuthMutation` refuses.
unfoldable pub mutation_refused : ℕ → Reply
mutation_refused validation =
    if validation == 500
    then error_reply 500 (codes "internal_error")
    else if validation == 415
    then error_reply 415 (codes "unsupported_media_type")
    else error_reply validation (codes "origin_forbidden")

abbrev pub answer : Server → Reply → Option Result
answer s r = some (record { server = s; reply = r; signals = [] })

module _ (q : Qt) (w : World) where
  abbrev pub parse_object : ParsedRequest → Option Fields
  parse_object r = object_of (q.from_json r.body)

  -- The report, once the login is checked.
  unfoldable pub report_status : LoginState → (authenticated : Bool) → Server → Server × Reply
  report_status login authenticated s =
      let (process, status) =
        Calls.status q w.boot_now w.boot_later (logged_user s.manager) s.reset_file
          s.password_reset in
      (
        (if login.allowed then record s { password_reset = process } else s),
        record {
          status_code = 200;
          body = report (record {
            setup_required = setup_required s.manager;
            authenticated = authenticated;
            login = login;
            ui_busy = authenticated && w.ui_busy;
            boot_id = w.boot_id;
            password_reset = if login.allowed then some status else none;
            app_title = if login.allowed then w.app_title else codes "EVerest WebUI";
          });
          cookie = cookie_if (not login.allowed);
        },
      )

  unfoldable pub handle_status : ParsedRequest → Server → Result
  handle_status r s =
      let (first, signals) = refresh_login_state w.login s in
      let ((checked, ok), more) = is_authenticated w w.login_again r first in
      let seen = if w.login.allowed then checked else first in
      let (s', reply) = report_status w.login (w.login.allowed && ok) seen in
      if not (eqb r.method (codes "GET"))
      then record { server = s; reply = wrong_method; signals = [] }
      else record {
        server = s';
        reply = reply;
        signals = if w.login.allowed then signals ++ more else signals;
      }

  -- `reset`, once it is confirmed.
  unfoldable pub reset_account : Server → Result
  reset_account s =
      let done =
        Calls.reset q w.reset_locked w.boot_now w.reset_calls w.auth_calls s.reset_file s.manager
          s.auth_file s.password_reset in
      let s' = record s {
        manager = done.manager;
        auth_file = done.auth_file;
        password_reset = done.process;
        reset_file = done.file;
      } in
      if not (done.code == 200)
      then record {
        server = s';
        reply = record { status_code = done.code; body = reset_failure done.error; cookie = none };
        signals = [];
      }
      else record {
        server = s';
        reply = record (json_reply 200 success_fields) { cookie = some clear_cookie };
        signals = credentials_reset ∷ [];
      }

  unfoldable pub handle_reset : Option Fields → Server → Result
  handle_reset none s = record {
    server = s;
    reply = error_reply 400 (codes "reset_confirmation_required");
    signals = [];
  }
  handle_reset (some body) s =
      let done = reset_account s in
      if not (is_true (value (codes "confirm") body))
      then record {
        server = s;
        reply = error_reply 400 (codes "reset_confirmation_required");
        signals = [];
      }
      else done

  unfoldable pub handle_logout : ParsedRequest → Server → Result
  handle_logout r s = record {
    server = record s { manager = remove_session (session_id r) s.manager };
    reply = record (json_reply 200 success_fields) { cookie = some clear_cookie };
    signals = [];
  }

  unfoldable pub setup_reply : AuthResult → Reply
  setup_reply made = elim made.error [
    | none ↦ json_reply 200 success_fields
    | some e ↦ record { status_code = 400; body = auth_failure e; cookie = none }
  ]

  unfoldable pub handle_setup : (username password : Text) → Server → Result
  handle_setup username password s =
      let made =
        create_user q w.auth_calls w.generate w.at w.timestamp username password s.manager
          s.auth_file in
      if not (setup_required s.manager)
      then record { server = s; reply = error_reply 409 (codes "setup_not_required"); signals = [] }
      else record {
        server = record s { manager = made.manager; auth_file = made.file };
        reply = setup_reply made;
        signals = [];
      }

  -- The answer to a login, once the session is made.
  unfoldable pub login_made : Server → AuthManager × Text → Result
  login_made s (m, id) = record {
    server = record s { manager = m };
    reply =
        if is_empty id
        then error_reply 500 (codes "session_failed")
        else record (json_reply 200 success_fields) { cookie = some (session_cookie id) };
    signals = [];
  }

  unfoldable pub made_or_none : Server → Option (AuthManager × Text) → Option Result
  made_or_none s none = none
  made_or_none s (some made) = some (login_made s made)

  -- `none` if the fuel for the new token runs out.
  unfoldable pub handle_login : (username password : Text) → Server → Option Result
  handle_login username password s =
      if not (logged_user s.manager)
      then answer s (error_reply 403 (codes "setup_required"))
      else if not (authenticate q s.manager username password)
      then answer s (error_reply 401 (codes "invalid_credentials"))
      else made_or_none s (create_session q w.generate w.fuel w.at w.now username s.manager)

  unfoldable pub handle_credentials : ParsedRequest → Option Fields → Server → Option Result
  handle_credentials r none s = answer s (error_reply 400 (codes "invalid_json"))
  handle_credentials r (some body) s =
      let username = to_string (value (codes "username") body) in
      let password = to_string (value (codes "password") body) in
      if is_empty username || is_empty password
      then answer s (error_reply 400 (codes "missing_credentials"))
      else if eqb r.normalized_path (codes "/auth/setup")
      then some (handle_setup username password s)
      else if eqb r.normalized_path (codes "/auth/login")
      then handle_login username password s
      else answer s (error_reply 404 (codes "not_found"))

  -- The part after the checks.
  unfoldable pub handle_checked : ParsedRequest → Server → Option Result
  handle_checked r s =
      if eqb r.normalized_path (codes "/auth/reset")
      then some (handle_reset (parse_object r) s)
      else if eqb r.normalized_path (codes "/auth/logout")
      then some (handle_logout r s)
      else handle_credentials r (parse_object r) s

  abbrev pub announce : Option Result → List Signal → Option Result
  announce none signals = none
  announce (some result) signals = some (record result { signals = signals ++ result.signals })

  -- The part of `POST`, with the login state and the server that `refreshLoginState` leaves.
  unfoldable pub handle_post : Net → ParsedRequest → Server → Option Result
  handle_post net r s =
      let validation = validate_auth_mutation q net r in
      if not w.login.allowed && not (eqb r.normalized_path (codes "/auth/logout"))
      then answer s (login_refused w.login)
      else if is_sensitive r.normalized_path && not (validation == 200)
      then answer s (mutation_refused validation)
      else handle_checked r s

  unfoldable pub handle_auth_request : Net → ParsedRequest → Server → Option Result
  handle_auth_request net r s =
      let (first, signals) = refresh_login_state w.login s in
      if eqb r.normalized_path (codes "/auth/status")
      then some (handle_status r s)
      else if not (eqb r.method (codes "POST"))
      then answer s wrong_method
      else announce (handle_post net r first) signals
