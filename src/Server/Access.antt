-- ===== src/Server/Access.antt =====
-- backend/webserver/http/StaticServer.cpp: who gets the private files and the connection to the API.
use everest_ui.Base.{Bool, true, false, ◌&&◌, not, List, Option, none, some, ◌≡◌, arith, refl}
use everest_ui.Base.Text.{Text, codes}
use everest_ui.Base.Assoc.{lookup}
use everest_ui.Base.Json.{Fields, value, to_string}
use everest_ui.Qt.{Qt}
use everest_ui.Auth.State.{AuthManager, logged_user}
use everest_ui.Auth.Session.{validate_session, create_session}
use everest_ui.Http.Headers.{ParsedRequest, valid, is_request_valid}
use everest_ui.Server.Security.{Net}
use everest_ui.Server.Upgrade.{is_upgrade_request}
use everest_ui.Server.State.{
  Server, Settings, World, Body, file, Signal, Result, refresh_login_state, is_authenticated,
  session_id, is_public_frontend_asset,
}
use everest_ui.Server.Account.{
  report_status, handle_status, reset_account, handle_reset, handle_logout, setup_reply,
  handle_setup, login_made, made_or_none, handle_login, handle_credentials, handle_checked,
  handle_post, handle_auth_request, mutation_refused, announce, parse_object,
}
use everest_ui.Server.Route.{
  Outcome, answers, upgrades, answers_of, host_refused, upgrade, give_file, serve, route,
  route_parsed, handle_request,
}

abbrev pub is_file : Body → Bool
is_file (file _) = true
is_file _ = false

-- The socket goes to the proxy, or the response is a file.
abbrev pub is_granted : Outcome → Bool
is_granted (upgrades _ _) = true
is_granted (answers result) = is_file result.reply.body
is_granted _ = false

-- Login is allowed at both readings, there is a user, and the cookie has a session.
unfoldable pub IsLoggedIn : World → ParsedRequest → Server → Type 0
IsLoggedIn w r s =
    (w.login.allowed ≡ true)
    × (w.login_again.allowed ≡ true)
    × (logged_user s.manager ≡ true)
    × ((validate_session w.now w.later (session_id r) s.manager).1 ≡ true)

is_authenticated_lem :
    (w : World) (r : ParsedRequest) (s : Server)
    → (is_authenticated w w.login_again r (refresh_login_state w.login s).0).0.1 ≡ true
    → IsLoggedIn w r s
unfolding IsLoggedIn is_authenticated refresh_login_state validate_session lookup
is_authenticated_lem w r s h = ground arith

module _ (q : Qt) (net : Net) (settings : Settings) (w : World) where
  upgrade_lem :
      (r : ParsedRequest) (s : Server) (signals : List Signal)
      → is_granted (upgrade q net settings w r s signals) ≡ true
      → (is_authenticated w w.login_again r s).0.1 ≡ true
  unfolding upgrade
  upgrade_lem r s signals h = ground arith

  give_file_lem :
      (r : ParsedRequest) (s : Server) (signals : List Signal)
      → is_public_frontend_asset r ≡ false
      → is_granted (give_file q net settings w r s signals) ≡ true
      → (is_authenticated w w.login_again r s).0.1 ≡ true
  unfolding give_file
  give_file_lem r s signals private h = ground arith

  serve_lem :
      (r : ParsedRequest) (s : Server)
      → is_public_frontend_asset r
          && not (
              is_upgrade_request net r settings.ws_path settings.enforce_origin
                settings.allow_origin_url)
        ≡ false
      → is_granted (serve q net settings w r s) ≡ true
      → IsLoggedIn w r s
  unfolding serve
  serve_lem r s closed h =
      let u = upgrade_lem r (refresh_login_state w.login s).0 (refresh_login_state w.login s).1 in
      let g = give_file_lem r (refresh_login_state w.login s).0 (refresh_login_state w.login s).1 in
      is_authenticated_lem w r s (ground arith)

  -- No endpoint of the login answers with a file.
  handle_status_plain :
      (r : ParsedRequest) (s : Server) → is_file (handle_status q w r s).reply.body ≡ false
  unfolding handle_status report_status
  handle_status_plain r s = ground arith

  reset_account_plain : (s : Server) → is_file (reset_account q w s).reply.body ≡ false
  unfolding reset_account
  reset_account_plain s = ground arith

  handle_reset_plain :
      (body : Option Fields) (s : Server) → is_file (handle_reset q w body s).reply.body ≡ false
  unfolding handle_reset
  handle_reset_plain none s = refl
  handle_reset_plain (some body) s = let p = reset_account_plain s in ground arith

  handle_setup_plain :
      (username password : Text) (s : Server)
      → is_file (handle_setup q w username password s).reply.body ≡ false
  unfolding handle_setup setup_reply
  handle_setup_plain username password s = ground arith

  made_or_none_plain :
      (s : Server) (made : Option (AuthManager × Text))
      → is_granted (answers_of (made_or_none q w s made)) ≡ false
  unfolding made_or_none login_made
  made_or_none_plain s none = refl
  made_or_none_plain s (some made) = ground arith

  handle_login_plain :
      (username password : Text) (s : Server)
      → is_granted (answers_of (handle_login q w username password s)) ≡ false
  unfolding handle_login
  handle_login_plain username password s =
      let made = create_session q w.generate w.fuel w.at w.now username s.manager in
      let m = made_or_none_plain s made in ground arith

  handle_credentials_plain :
      (r : ParsedRequest) (body : Option Fields) (s : Server)
      → is_granted (answers_of (handle_credentials q w r body s)) ≡ false
  unfolding handle_credentials
  handle_credentials_plain r none s = refl
  handle_credentials_plain r (some body) s =
      let username = to_string (value (codes "username") body) in
      let password = to_string (value (codes "password") body) in
      let a = handle_setup_plain username password s in
      let b = handle_login_plain username password s in ground arith

  handle_checked_plain :
      (r : ParsedRequest) (s : Server) → is_granted (answers_of (handle_checked q w r s)) ≡ false
  unfolding handle_checked handle_logout
  handle_checked_plain r s =
      let a = handle_reset_plain (parse_object q w r) s in
      let b = handle_credentials_plain r (parse_object q w r) s in ground arith

  handle_post_plain :
      (r : ParsedRequest) (s : Server) → is_granted (answers_of (handle_post q w net r s)) ≡ false
  unfolding handle_post mutation_refused
  handle_post_plain r s = let a = handle_checked_plain r s in ground arith

  announce_plain :
      (result : Option Result) (signals : List Signal)
      → is_granted (answers_of result) ≡ false
      → is_granted (answers_of (announce q w result signals)) ≡ false
  announce_plain none signals h = refl
  announce_plain (some result) signals h = h

  handle_auth_request_plain :
      (r : ParsedRequest) (s : Server)
      → is_granted (answers_of (handle_auth_request q w net r s)) ≡ false
  unfolding handle_auth_request
  handle_auth_request_plain r s =
      let (first, signals) = refresh_login_state w.login s in
      let a = handle_status_plain r s in
      let b = announce_plain (handle_post q w net r first) signals (handle_post_plain r first) in
      ground arith

  route_lem :
      (r : ParsedRequest) (s : Server)
      → is_public_frontend_asset r
          && not (
              is_upgrade_request net r settings.ws_path settings.enforce_origin
                settings.allow_origin_url)
        ≡ false
      → is_granted (route q net settings w r s) ≡ true
      → IsLoggedIn w r s
  unfolding route host_refused
  route_lem r s closed h =
      let a = handle_auth_request_plain r s in let b = serve_lem r s closed in ground arith

  -- If a request is parsed, and is either no GET of a public page or an upgrade to a WebSocket, and
  -- the answer is the response of `loadFile` or the socket goes to the proxy, then login is allowed at
  -- both readings of the login state, there is a user, and `validateSession` accepts the cookie of
  -- the request.
  pub handle_request-IsLoggedIn :
      (peek : Text) (r : ParsedRequest) (s : Server)
      → is_request_valid peek ≡ valid r
      → is_public_frontend_asset r
          && not (
              is_upgrade_request net r settings.ws_path settings.enforce_origin
                settings.allow_origin_url)
        ≡ false
      → is_granted (handle_request q net settings w peek s) ≡ true
      → IsLoggedIn w r s
  unfolding handle_request route_parsed
  handle_request-IsLoggedIn peek r s parsed closed h = let a = route_lem r s closed in ground arith
