-- ===== src/Server/Keeps.antt =====
-- backend/webserver/http/StaticServer.cpp: the checks of the login keep the account.
use everest_ui.Base.{ℕ, Bool, ◌≡◌, arith}
use everest_ui.Base.Text.{Text}
use everest_ui.Login.State.{LoginState}
use everest_ui.Auth.State.{UserRecord}
use everest_ui.Auth.File.{AuthFile}
use everest_ui.Auth.Session.{validate_session}
use everest_ui.Http.Headers.{ParsedRequest}
use everest_ui.Server.State.{Server, World, refresh_login_state, is_authenticated, session_id}
use everest_ui.Server.Route.{Outcome, answers, upgrades}

-- The file with the account, and the account that the manager has.
pub record Account : Type 0 where
  pub file : AuthFile
  pub user : UserRecord
  pub has_user : Bool
  pub loaded : Bool

abbrev pub account : Server → Account
account s = record {
  file = s.auth_file;
  user = s.manager.user;
  has_user = s.manager.has_user;
  loaded = s.manager.loaded;
}

-- The server after the request.
abbrev pub server_after : Server → Outcome → Server
server_after s (answers result) = result.server
server_after s (upgrades s' _) = s'
server_after s _ = s

-- The account is the same.
unfoldable pub Keeps : Server → Server → Type 0
Keeps s s' = account s' ≡ account s

-- The same change, counted from an earlier server.
pub after-Keeps :
    (s first : Server) (outcome : Outcome)
    → Keeps s first
    → Keeps first (server_after first outcome)
    → Keeps s (server_after s outcome)
unfolding Keeps
after-Keeps s first outcome e h = ground arith

pub refresh_login_state-Keeps :
    (login : LoginState) (s : Server) → Keeps s (refresh_login_state login s).0
unfolding Keeps refresh_login_state
refresh_login_state-Keeps login s = ground arith

pub validate_session-account :
    (now later : ℕ) (id : Text) (s : Server)
    → Keeps s (record s { manager = (validate_session now later id s.manager).0 })
unfolding Keeps validate_session
validate_session-account now later id s = ground arith

pub is_authenticated-Keeps :
    (w : World) (login : LoginState) (r : ParsedRequest) (s : Server)
    → Keeps s (is_authenticated w login r s).0.0
unfolding Keeps is_authenticated
is_authenticated-Keeps w login r s =
    let e = refresh_login_state-Keeps login s in
    let v = validate_session-account w.now w.later (session_id r) (refresh_login_state login s).0 in
    ground arith
