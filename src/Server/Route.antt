-- ===== src/Server/Route.antt =====
-- backend/webserver/http/StaticServer.cpp: `handleRequest`.
use everest_ui.Base.{ℕ, List, [], ◌&&◌, not, ◌++◌, Option, none, some, if◌then◌else◌, ◌==◌}
use everest_ui.Base.Text.{Text, codes}
use everest_ui.Qt.{Qt}
use everest_ui.Http.Request.{StaticResponse, is_header_complete, is_request_complete}
use everest_ui.Http.Headers.{ParsedRequest, Parsed, valid, refused, is_request_valid}
use everest_ui.Server.Security.{Net, validate_host}
use everest_ui.Server.Upgrade.{is_upgrade_request}
use everest_ui.Server.Content.{load_file, normalize_request_path}
use everest_ui.Server.State.{
  Server, Settings, World, file, Reply, Signal, Result, text_reply, error_reply, login_refused,
  refresh_login_state, is_authenticated, is_auth_endpoint, is_public_frontend_asset,
}
use everest_ui.Server.Account.{is_sensitive, handle_auth_request}

-- What becomes of the request: it stays in the socket, a response of the parser ends it, a handler
-- answers, or the socket goes to the proxy. The last is a model that ran out of fuel for a token.
pub data Outcome : Type 0 where
  waits : Outcome
  ends : StaticResponse → Outcome
  answers : Result → Outcome
  upgrades : Server → List Signal → Outcome
  runs_out : Outcome

abbrev pub answers_of : Option Result → Outcome
answers_of none = runs_out
answers_of (some result) = answers result

abbrev pub answers_with : Server → List Signal → Reply → Outcome
answers_with s signals reply = answers (record { server = s; reply = reply; signals = signals })

-- A request to a sensitive path whose host is refused.
unfoldable pub host_refused : ℕ → Reply
host_refused code =
    if code == 421
    then error_reply 421 (codes "host_not_allowed")
    else text_reply code (codes "Invalid Host")

abbrev pub file_reply : StaticResponse → Reply
file_reply response = record {
  status_code = response.status_code;
  body = file response;
  cookie = none;
}

abbrev pub unauthorized : Reply
unauthorized = text_reply 401 (codes "Unauthorized")

module _ (q : Qt) (net : Net) (settings : Settings) (w : World) where
  -- The upgrade of a socket; `w.taken` is whether the proxy takes it.
  unfoldable pub upgrade : ParsedRequest → Server → List Signal → Outcome
  upgrade r s signals =
      let ((s', ok), more) = is_authenticated w w.login_again r s in
      if not ok
      then answers_with s' (signals ++ more) unauthorized
      else if w.taken
      then upgrades s' (signals ++ more)
      else answers_with s' (signals ++ more)
          (text_reply 501 (codes "WebSocket endpoint not available yet"))

  -- The page or the file.
  unfoldable pub give_file : ParsedRequest → Server → List Signal → Outcome
  give_file r s signals =
      let ((s', ok), more) = is_authenticated w w.login_again r s in
      let page =
        file_reply
          (load_file w.disk settings.root_dir (normalize_request_path r.normalized_path)) in
      if is_public_frontend_asset r
      then answers_with s signals page
      else if not ok
      then answers_with s' (signals ++ more) unauthorized
      else answers_with s' (signals ++ more) page

  -- The part after the endpoints of the login.
  unfoldable pub serve : ParsedRequest → Server → Outcome
  serve r s =
      let (s', signals) = refresh_login_state w.login s in
      if not w.login.allowed && not (is_public_frontend_asset r)
      then answers_with s' signals (login_refused w.login)
      else if is_upgrade_request net r settings.ws_path settings.enforce_origin
          settings.allow_origin_url
      then upgrade r s' signals
      else give_file r s' signals

  -- A request that was parsed.
  unfoldable pub route : ParsedRequest → Server → Outcome
  route r s =
      let code = validate_host q net r settings.allowed_hosts in
      if is_sensitive r.normalized_path && not (code == 200)
      then answers_with s [] (host_refused code)
      else if is_auth_endpoint r.normalized_path
      then answers_of (handle_auth_request q w net r s)
      else serve r s

  unfoldable pub route_parsed : Parsed → Server → Outcome
  route_parsed (valid r) s = route r s
  route_parsed (refused response) s = ends response

  -- `peek` is what `peek` of the socket returns.
  unfoldable pub handle_request : (peek : Text) → Server → Outcome
  handle_request peek s =
      let header = is_header_complete peek settings.max_request_bytes in
      let whole = is_request_complete peek settings.max_request_bytes in
      if not header.complete
      then (if header.response.status_code == 431 then ends header.response else waits)
      else if not whole.complete
      then (if whole.response.status_code == 500 then waits else ends whole.response)
      else route_parsed (is_request_valid peek) s
