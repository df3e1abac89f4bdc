-- ===== src/Server/Untouched.antt =====
-- backend/webserver/http/StaticServer.cpp: which requests can change the account.
use everest_ui.Base.{
  Bool, true, false, ◌&&◌, ◌==◌, List, Option, none, some, ◌≡◌, ◌⊎◌, inl, inr, arith, refl,
}
use everest_ui.Base.Text.{Text, codes, eqb, eqb_iff}
use everest_ui.Base.Json.{Fields, value, to_string}
use everest_ui.Qt.{Qt}
use everest_ui.Auth.Session.{create_session, remove_session}
use everest_ui.Http.Request.{StaticResponse}
use everest_ui.Http.Headers.{ParsedRequest, Parsed, valid, refused, is_request_valid}
use everest_ui.Server.Security.{Net, validate_host, validate_auth_mutation}
use everest_ui.Server.State.{Server, Settings, World, Signal, Result, refresh_login_state}
use everest_ui.Server.Account.{
  report_status, handle_status, handle_logout, login_made, made_or_none, handle_login,
  handle_credentials, handle_checked, handle_post, handle_auth_request, announce, parse_object,
  is_sensitive,
}
use everest_ui.Server.Route.{
  answers_of, upgrade, give_file, serve, route, route_parsed, handle_request,
}
use everest_ui.Server.Keeps.{
  server_after, Keeps, after-Keeps, refresh_login_state-Keeps, is_authenticated-Keeps,
}

-- What `/auth/setup` and `/auth/reset` ask of a request.
abbrev pub is_mutation : Qt → Net → Settings → World → ParsedRequest → Bool
is_mutation q net settings w r =
    is_sensitive r.normalized_path
    && (validate_host q net r settings.allowed_hosts == 200)
    && eqb r.method (codes "POST")
    && w.login.allowed
    && (validate_auth_mutation q net r == 200)

-- A request that does not parse is none.
unfoldable pub is_parsed_mutation : Qt → Net → Settings → World → Parsed → Bool
is_parsed_mutation q net settings w (valid r) = is_mutation q net settings w r
is_parsed_mutation q net settings w (refused _) = false

Parsed-cases :
    (p : Parsed)
    → ((r : ParsedRequest) × (p ≡ valid r)) ⊎ ((response : StaticResponse) × (p ≡ refused response))
Parsed-cases (valid r) = inl (r, refl)
Parsed-cases (refused response) = inr (response, refl)

logout_open : (path : Text) → eqb path (codes "/auth/logout") ≡ true → is_sensitive path ≡ false
unfolding eqb
logout_open path h = rw ((eqb_iff path (codes "/auth/logout")).0 h)

module _ (q : Qt) (net : Net) (settings : Settings) (w : World) where
  handle_status-Keeps : (r : ParsedRequest) (s : Server) → Keeps s (handle_status q w r s).server
  unfolding Keeps handle_status report_status
  handle_status-Keeps r s =
      let e = refresh_login_state-Keeps w.login s in
      let a = is_authenticated-Keeps w w.login_again r (refresh_login_state w.login s).0 in
      ground arith

  handle_logout-Keeps : (r : ParsedRequest) (s : Server) → Keeps s (handle_logout q w r s).server
  unfolding Keeps handle_logout remove_session
  handle_logout-Keeps r s = ground arith

  upgrade-Keeps :
      (r : ParsedRequest) (s : Server) (signals : List Signal)
      → Keeps s (server_after s (upgrade q net settings w r s signals))
  unfolding Keeps upgrade
  upgrade-Keeps r s signals = let a = is_authenticated-Keeps w w.login_again r s in ground arith

  give_file-Keeps :
      (r : ParsedRequest) (s : Server) (signals : List Signal)
      → Keeps s (server_after s (give_file q net settings w r s signals))
  unfolding Keeps give_file
  give_file-Keeps r s signals = let a = is_authenticated-Keeps w w.login_again r s in ground arith

  serve-Keeps :
      (r : ParsedRequest) (s : Server) → Keeps s (server_after s (serve q net settings w r s))
  unfolding Keeps serve
  serve-Keeps r s =
      let (s', signals) = refresh_login_state w.login s in
      let e = refresh_login_state-Keeps w.login s in
      let u = upgrade-Keeps r s' signals in let g = give_file-Keeps r s' signals in ground arith

  made_or_none-Keeps :
      (username : Text) (s : Server)
      → Keeps s (
          server_after s (
            answers_of (
              made_or_none q w s
                (create_session q w.generate w.fuel w.at w.now username s.manager))))
  unfolding Keeps made_or_none login_made create_session
  made_or_none-Keeps username s = ground arith

  handle_login-Keeps :
      (username password : Text) (s : Server)
      → Keeps s (server_after s (answers_of (handle_login q w username password s)))
  unfolding Keeps handle_login
  handle_login-Keeps username password s = let m = made_or_none-Keeps username s in ground arith

  handle_credentials-Keeps :
      (r : ParsedRequest) (body : Option Fields) (s : Server)
      → is_sensitive r.normalized_path ≡ false
      → Keeps s (server_after s (answers_of (handle_credentials q w r body s)))
  unfolding Keeps handle_credentials
  handle_credentials-Keeps r none s h = refl
  handle_credentials-Keeps r (some body) s h =
      let username = to_string (value (codes "username") body) in
      let password = to_string (value (codes "password") body) in
      let a = handle_login-Keeps username password s in ground arith

  handle_checked-Keeps :
      (r : ParsedRequest) (s : Server)
      → is_sensitive r.normalized_path ≡ false
      → Keeps s (server_after s (answers_of (handle_checked q w r s)))
  unfolding Keeps handle_checked
  handle_checked-Keeps r s h =
      let a = handle_credentials-Keeps r (parse_object q w r) s h in
      let b = handle_logout-Keeps r s in ground arith

  handle_post-Keeps :
      (r : ParsedRequest) (s : Server)
      → is_sensitive r.normalized_path && w.login.allowed && (validate_auth_mutation q net r == 200)
        ≡ false
      → Keeps s (server_after s (answers_of (handle_post q w net r s)))
  unfolding Keeps handle_post
  handle_post-Keeps r s h =
      let a = handle_checked-Keeps r s in let b = logout_open r.normalized_path in ground arith

  announce-Keeps :
      (result : Option Result) (signals : List Signal) (s : Server)
      → Keeps s (server_after s (answers_of result))
      → Keeps s (server_after s (answers_of (announce q w result signals)))
  unfolding Keeps
  announce-Keeps none signals s h = refl
  announce-Keeps (some result) signals s h = h

  handle_auth_request-Keeps :
      (r : ParsedRequest) (s : Server)
      → is_sensitive r.normalized_path
          && eqb r.method (codes "POST")
          && w.login.allowed
          && (validate_auth_mutation q net r == 200)
        ≡ false
      → Keeps s (server_after s (answers_of (handle_auth_request q w net r s)))
  unfolding Keeps handle_auth_request
  handle_auth_request-Keeps r s h =
      let (first, signals) = refresh_login_state w.login s in
      let e = refresh_login_state-Keeps w.login s in
      let a = handle_status-Keeps r s in
      let p = handle_post-Keeps r first in
      let b = announce-Keeps (handle_post q w net r first) signals first in
      let c =
        after-Keeps s first (answers_of (announce q w (handle_post q w net r first) signals)) e in
      ground arith

  route-Keeps :
      (r : ParsedRequest) (s : Server)
      → is_mutation q net settings w r ≡ false
      → Keeps s (server_after s (route q net settings w r s))
  unfolding Keeps route
  route-Keeps r s h =
      let a = handle_auth_request-Keeps r s in let b = serve-Keeps r s in ground arith

  -- A request changes neither the file with the account nor the user in the manager, unless it is
  -- parsed and is a POST to `/auth/setup` or `/auth/reset` whose host is allowed, while login is
  -- allowed, and that `validateAuthMutation` accepts.
  pub handle_request-Keeps :
      (peek : Text) (s : Server)
      → is_parsed_mutation q net settings w (is_request_valid peek) ≡ false
      → Keeps s (server_after s (handle_request q net settings w peek s))
  unfolding Keeps handle_request route_parsed is_parsed_mutation
  handle_request-Keeps peek s h = elim (Parsed-cases (is_request_valid peek)) [
    | inl (r, e) ↦ let a = route-Keeps r s in ground arith
    | inr (response, e) ↦ ground arith
  ]
