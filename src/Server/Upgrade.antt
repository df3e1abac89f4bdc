-- ===== src/Server/Upgrade.antt =====
-- backend/webserver/http/RequestParsing.cpp: `isWebSocketUpgradeRequest`.
use everest_ui.Base.{
  ℕ, suc, ◌+◌, Bool, true, false, ◌&&◌, ◌||◌, not, List, [], ◌∷◌, Option, none, some, is_some,
  if◌then◌else◌, ◌==◌, take, drop, is_empty,
}
use everest_ui.Base.Text.{Text, codes, eqb, index_of, find_text}
use everest_ui.Http.Request.{trim, lower}
use everest_ui.Http.Headers.{ParsedRequest}
use everest_ui.Server.Security.{Url, Net}

-- The three tests so far.
pub record Seen : Type 0 where
  pub upgrade : Bool
  pub connection : Bool
  pub allowed_origin : Bool

module _ (net : Net) where
  abbrev pub scheme_port : Url → ℕ
  scheme_port url = if net.is_same_word url.scheme (codes "https") then 443 else 80

  unfoldable pub port_with : Option ℕ → Url → ℕ
  port_with (some (suc n)) url = suc n
  port_with _ url = scheme_port url

  unfoldable pub effective_port : Url → ℕ
  effective_port url = port_with url.port url

  unfoldable pub is_allowed_origin : Text → (enforce : Bool) → Url → Bool
  is_allowed_origin value enforce allowed =
      let url = net.tolerant_url (trim value) in
      if not enforce
      then true
      else if not url.is_valid || is_empty url.host
      then false
      else net.is_same_word url.scheme allowed.scheme
        && net.is_same_word url.host allowed.host
        && effective_port url == effective_port allowed

  -- A line with its separator.
  unfoldable pub see_named : Text → ℕ → (enforce : Bool) → Url → Seen → Seen
  see_named line separator enforce allowed s =
      let key = lower (trim (take separator line)) in
      let v = lower (trim (drop (separator + 1) line)) in
      if eqb key (codes "upgrade") && eqb v (codes "websocket")
      then record s { upgrade = true }
      else record s {
        connection =
            s.connection || eqb key (codes "connection") && is_some (find_text (codes "upgrade") v);
        allowed_origin =
            if eqb key (codes "origin")
            then is_allowed_origin (drop (separator + 1) line) enforce allowed
            else s.allowed_origin;
      }

  unfoldable pub see_line : Text → Option ℕ → (enforce : Bool) → Url → Seen → Seen
  see_line line none enforce allowed s = s
  see_line line (some separator) enforce allowed s =
      if separator == 0 then s else see_named line separator enforce allowed s

  -- The loop, which stops at an empty line.
  unfoldable pub see_lines : List Text → (enforce : Bool) → Url → Seen → Seen
  see_lines [] enforce allowed s = s
  see_lines (l ∷ ls) enforce allowed s =
      let rest =
        see_lines ls enforce allowed
          (see_line (trim l) (index_of b':' (trim l)) enforce allowed s) in
      if is_empty (trim l) then s else rest

  unfoldable pub is_upgrade_request :
      ParsedRequest → (ws_path : Text) → (enforce : Bool) → Url → Bool
  is_upgrade_request r ws_path enforce allowed =
      let s =
        see_lines (drop 1 r.lines) enforce allowed
          (record { upgrade = false; connection = false; allowed_origin = not enforce }) in
      if not (eqb r.normalized_path ws_path)
      then false
      else s.upgrade && s.connection && s.allowed_origin
