-- ===== src/Tests/Server.antt =====
-- Requests to the web server, at concrete inputs.
use everest_ui.Base.{◌&&◌, not, true, false, [], ◌∷◌, none, some, ◌≡◌, refl}
use everest_ui.Base.Text.{
  Text, codes, find_text, starts_with, split, index_of, eqb, trimmed, drop_while, drop_while_end,
  before_final_newline,
}
use everest_ui.Base.Assoc.{lookup, insert}
use everest_ui.Base.Int.{to_int, digits, digits_from}
use everest_ui.Login.State.{LoginState}
use everest_ui.Auth.File.{AuthFile}
use everest_ui.Auth.Session.{validate_session}
use everest_ui.Reset.File.{StateFile}
use everest_ui.Http.Request.{
  content_length, lines_length, line_length, is_header_complete, is_request_complete, check_total,
  wrap,
}
use everest_ui.Http.Headers.{
  valid, ParsedRequest, normalized_path_from, is_request_valid, with_end, with_lines, with_line,
  with_headers, with_body, collect, add_header, add_line, add_named, is_header_name, add_cookies,
  add_cookie,
}
use everest_ui.Server.Security.{Url, Net}
use everest_ui.Server.Upgrade.{is_upgrade_request}
use everest_ui.Server.Content.{
  Disk, load_file, canonical_path, leaves_root, opened, normalize_request_path,
}
use everest_ui.Server.State.{
  is_public_frontend_asset, Server, Settings, World, refresh_login_state, is_authenticated,
}
use everest_ui.Server.Route.{handle_request, route_parsed, route, serve, give_file}
use everest_ui.Server.Access.{IsLoggedIn, is_granted, handle_request-IsLoggedIn}
use everest_ui.Server.Keeps.{Keeps, server_after}
use everest_ui.Server.Untouched.{is_parsed_mutation, handle_request-Keeps}
use everest_ui.Tests.Sample.{sample}
use everest_ui.Tests.Auth.{all_saved, manager}
use everest_ui.Tests.Reset.{process, all_written}

abbrev url : Url
url = record { is_valid = true; scheme = codes "http"; host = codes "box"; port = none }

abbrev net : Net
net = record {
  set_address = λ s. none;
  strict_url = λ s. url;
  tolerant_url = λ s. url;
  is_same_word = eqb;
  match_authority = λ s. some [];
  matches_label = λ s. true;
  json_type_valid = true;
  matches_json_type = eqb (codes "application/json");
}

abbrev settings : Settings
settings = record {
  allowed_hosts = codes "box" ∷ [];
  root_dir = codes "/srv";
  ws_path = codes "/ws";
  max_request_bytes = 65536;
  enforce_origin = false;
  allow_origin_url = url;
}

abbrev disk : Disk
disk = record {
  clean_path = λ p. p;
  absolute_file_path = λ root p. codes "/srv/data.json";
  canonical_file_path = λ p. p;
  read_all = λ p. some (codes "{}");
}

abbrev login : LoginState
login = record { allowed = true; reason = []; operation = [] }

abbrev world : World
world = record {
  login = login;
  login_again = login;
  now = 500;
  later = 501;
  fuel = 1;
  generate = λ n. n;
  at = 0;
  timestamp = codes "now";
  auth_calls = all_saved;
  reset_locked = true;
  reset_calls = all_written;
  boot_now = some 1000;
  boot_later = some 1000;
  boot_id = codes "boot";
  app_title = codes "Box";
  ui_busy = false;
  disk = disk;
  taken = true;
}

abbrev server : Server
server = record {
  manager = manager;
  auth_file = AuthFile.missing;
  password_reset = process;
  reset_file = StateFile.missing;
  login_restriction = [];
}

-- A private file, with the cookie of a session.
abbrev peek : Text
peek = codes "GET /data.json HTTP/1.1\r\nCookie: everest_ui_session=token\r\n\r\n"

abbrev request : ParsedRequest
request = record {
  lines = codes "GET /data.json HTTP/1.1\r" ∷ codes "Cookie: everest_ui_session=token" ∷ [];
  method = codes "GET";
  path = codes "/data.json";
  normalized_path = codes "/data.json";
  headers = (codes "cookie", codes "everest_ui_session=token") ∷ [];
  cookies = (codes "everest_ui_session", codes "token") ∷ [];
  body = [];
}

parsed : is_request_valid peek ≡ valid request
unfolding is_request_valid with_end with_lines with_line with_headers with_body collect add_header
    add_line add_named is_header_name content_length lines_length line_length split index_of eqb
    trimmed drop_while drop_while_end to_int digits digits_from find_text starts_with lookup insert
    before_final_newline normalized_path_from add_cookies add_cookie
parsed = refl

whole : (is_request_complete peek 65536).complete ≡ true
unfolding is_request_complete check_total wrap content_length lines_length line_length split
    index_of eqb trimmed drop_while drop_while_end to_int digits digits_from find_text starts_with
whole = refl

headed : (is_header_complete peek 65536).complete ≡ true
unfolding is_header_complete find_text starts_with
headed = refl

routed : is_granted (route sample net settings world request server) ≡ true
unfolding route serve give_file refresh_login_state is_authenticated validate_session lookup
    is_upgrade_request load_file canonical_path leaves_root opened normalize_request_path
    starts_with index_of eqb
routed = refl

granted : is_granted (handle_request sample net settings world peek server) ≡ true
unfolding handle_request route_parsed
granted = rw (headed, whole, parsed) routed

closed :
    is_public_frontend_asset request
      && not (
          is_upgrade_request net request settings.ws_path settings.enforce_origin
            settings.allow_origin_url)
    ≡ false
unfolding eqb starts_with
closed = refl

handle_request-IsLoggedIn_example : IsLoggedIn world request server
handle_request-IsLoggedIn_example =
    handle_request-IsLoggedIn sample net settings world peek request server parsed closed granted

-- The same request is none that can change the account.
harmless : is_parsed_mutation sample net settings world (is_request_valid peek) ≡ false
unfolding is_parsed_mutation eqb
harmless = rw parsed

handle_request-Keeps_example :
    Keeps server (server_after server (handle_request sample net settings world peek server))
handle_request-Keeps_example = handle_request-Keeps sample net settings world peek server harmless
