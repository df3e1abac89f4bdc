-- ===== src/Server/State.antt =====
-- backend/webserver/http/StaticServer.{hpp,cpp}: the members, the responses, and the login state. The
-- manager is the one that main.cpp gives to the server; it is never missing.
use everest_ui.Base.{
  ℕ, Bool, true, false, ◌&&◌, ◌||◌, not, List, [], ◌∷◌, ◌++◌, Option, none, some, if◌then◌else◌,
}
use everest_ui.Base.Text.{Text, codes, eqb, starts_with}
use everest_ui.Base.Json.{Fields, end, field, str, bool}
use everest_ui.Auth.State.{AuthManager, AuthError, logged_user}
use everest_ui.Auth.File.{AuthFile, SaveCalls}
use everest_ui.Auth.Session.{validate_session, invalidate_sessions}
use everest_ui.Reset.State.{PasswordReset}
use everest_ui.Reset.File.{StateFile}
use everest_ui.Reset.File as Reset
use everest_ui.Reset.Calls.{Status, ResetError}
use everest_ui.Login.State.{LoginState}
use everest_ui.Base.Assoc.{lookup}
use everest_ui.Http.Request.{StaticResponse}
use everest_ui.Server.Content.{Disk}
use everest_ui.Http.Headers.{ParsedRequest}
use everest_ui.Server.Security.{text_or_empty, Url}

-- The members, the files behind them, and the configuration.
pub record Server : Type 0 where
  pub manager : AuthManager
  pub auth_file : AuthFile
  pub password_reset : PasswordReset
  pub reset_file : StateFile
  pub login_restriction : Text

pub record Settings : Type 0 where
  pub allowed_hosts : List Text
  pub root_dir : Text
  pub ws_path : Text
  pub max_request_bytes : ℕ
  pub enforce_origin : Bool
  pub allow_origin_url : Url

-- What the calls of one request return: the login state at its two readings, the clocks, the random
-- generator, the file systems, and whether the proxy takes the socket.
pub record World : Type 0 where
  pub login : LoginState
  pub login_again : LoginState
  pub now : ℕ
  pub later : ℕ
  pub fuel : ℕ
  pub generate : ℕ → ℕ
  pub at : ℕ
  pub timestamp : Text
  pub auth_calls : SaveCalls
  pub reset_locked : Bool
  pub reset_calls : Reset.SaveCalls
  pub boot_now : Option ℕ
  pub boot_later : Option ℕ
  pub boot_id : Text
  pub app_title : Text
  pub ui_busy : Bool
  pub disk : Disk
  pub taken : Bool

-- The report of `/auth/status`; without a login there is no status of the password reset.
pub record Report : Type 0 where
  pub setup_required : Bool
  pub authenticated : Bool
  pub login : LoginState
  pub ui_busy : Bool
  pub boot_id : Text
  pub password_reset : Option Status
  pub app_title : Text

pub data Body : Type 0 where
  plain : Text → Body
  json : Fields → Body
  report : Report → Body
  -- the object with the error of `createUser`
  auth_failure : AuthError → Body
  -- the object with the error of `reset`
  reset_failure : Option ResetError → Body
  -- the response of `StaticContent::loadFile`
  file : StaticResponse → Body

pub record Reply : Type 0 where
  pub status_code : ℕ
  pub body : Body
  -- the header Set-Cookie
  pub cookie : Option Text

pub data Signal : Type 0 where
  login_restricted : Text → Signal
  credentials_reset : Signal

pub record Result : Type 0 where
  pub server : Server
  pub reply : Reply
  pub signals : List Signal

abbrev pub text_reply : ℕ → Text → Reply
text_reply code text = record { status_code = code; body = plain text; cookie = none }

abbrev pub json_reply : ℕ → Fields → Reply
json_reply code fields = record { status_code = code; body = json fields; cookie = none }

abbrev pub error_reply : ℕ → Text → Reply
error_reply code error = json_reply code (field (codes "error") (str error) end)

abbrev pub success_fields : Fields
success_fields = field (codes "success") (bool true) end

abbrev pub session_cookie_name : Text
session_cookie_name = codes "everest_ui_session"

abbrev pub session_cookie : Text → Text
session_cookie id =
    session_cookie_name ++ (b'=' ∷ (id ++ codes "; HttpOnly; SameSite=Strict; Path=/"))

abbrev pub clear_cookie : Text
clear_cookie = session_cookie_name ++ codes "=; HttpOnly; SameSite=Strict; Path=/; Max-Age=0"

abbrev pub login_refused : LoginState → Reply
login_refused login = record {
  status_code = 503;
  body = json (
      field (codes "error") (str (codes "login_not_allowed"))
        (field (codes "reason") (str login.reason) end));
  cookie = some clear_cookie;
}

-- `refreshLoginState`, with what it has read.
unfoldable pub refresh_login_state : LoginState → Server → Server × List Signal
refresh_login_state login s =
    let closed = record s { manager = invalidate_sessions s.manager } in
    if login.allowed
    then (record s { login_restriction = [] }, [])
    else if eqb s.login_restriction login.reason
    then (closed, [])
    else (record closed { login_restriction = login.reason }, login_restricted login.reason ∷ [])

abbrev pub session_id : ParsedRequest → Text
session_id r = text_or_empty (lookup session_cookie_name r.cookies)

-- `isAuthenticated`, with the login state that it reads.
unfoldable pub is_authenticated :
    World → LoginState → ParsedRequest → Server → (Server × Bool) × List Signal
is_authenticated w login r s =
    let (s', signals) = refresh_login_state login s in
    let checked = validate_session w.now w.later (session_id r) s'.manager in
    if not login.allowed
    then ((s', false), signals)
    else if not (logged_user s'.manager)
    then ((s', false), signals)
    else ((record s' { manager = checked.0 }, checked.1), signals)

abbrev pub is_auth_endpoint : Text → Bool
is_auth_endpoint path =
    eqb path (codes "/auth/status")
    || eqb path (codes "/auth/setup")
    || eqb path (codes "/auth/login")
    || eqb path (codes "/auth/logout")
    || eqb path (codes "/auth/reset")

abbrev pub is_public_frontend_asset : ParsedRequest → Bool
is_public_frontend_asset r =
    eqb r.method (codes "GET")
    && (eqb r.normalized_path (codes "/")
        || eqb r.normalized_path (codes "/index.html")
        || starts_with (codes "/js/") r.normalized_path
        || starts_with (codes "/css/") r.normalized_path
        || starts_with (codes "/assets/") r.normalized_path)
