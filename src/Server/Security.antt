-- ===== src/Server/Security.antt =====
-- backend/webserver/http/RequestSecurity.cpp: the checks of host and origin.
use everest_ui.Base.{
  ℕ, Bool, true, false, ◌&&◌, ◌||◌, not, List, [], ◌∷◌, ◌++◌, Option, none, some, is_some,
  if◌then◌else◌, ◌==◌, ltb, leb, length, drop, any, all, is_empty, map,
}
use everest_ui.Base.Text.{Text, codes, eqb, split, starts_with}
use everest_ui.Base.Assoc.{lookup, has_key}
use everest_ui.Base.Int.{ℤ, pos, to_int}
use everest_ui.Qt.{Qt}
use everest_ui.Http.Headers.{ParsedRequest}

-- What the code reads of a `QUrl`; without a port it is `none`.
pub record Url : Type 0 where
  pub is_valid : Bool
  pub scheme : Text
  pub host : Text
  pub port : Option ℕ

-- Functions of Qt: `QHostAddress::setAddress`, with the text of the address and whether it is one of
-- IPv6; `QUrl`, strictly and tolerantly; `compare` without case; and the expressions of the source:
-- `syntax` with its second capture, `label`, and `jsonType` with its `isValid`.
pub record Net : Type 0 where
  pub set_address : Text → Option (Text × Bool)
  pub strict_url : Text → Url
  pub tolerant_url : Text → Url
  pub is_same_word : Text → Text → Bool
  pub match_authority : Text → Option Text
  pub matches_label : Text → Bool
  pub json_type_valid : Bool
  pub matches_json_type : Text → Bool

-- `host.endsWith('.')` and `chop(1)`
unfoldable pub chop_dot : Text → Text
chop_dot [] = []
chop_dot (c ∷ []) = if c == b'.' then [] else c ∷ []
chop_dot (c ∷ d ∷ cs) = c ∷ chop_dot (d ∷ cs)

-- `headers.value(key)`
abbrev pub text_or_empty : Option Text → Text
text_or_empty none = []
text_or_empty (some s) = s

abbrev pub header : Text → ParsedRequest → Text
header key r = text_or_empty (lookup key r.headers)

abbrev pub first_part : List Text → Text
first_part [] = []
first_part (part ∷ _) = part

abbrev pub port_or : ℕ → Option ℕ → ℕ
port_or p none = p
port_or p (some n) = n

-- The number of `toInt`, 0 if there is none, from 1 to 65535.
abbrev pub is_port : Option ℤ → Bool
is_port (some (pos n)) = leb 1 n && leb n 65535
is_port _ = false

module _ (q : Qt) (net : Net) where
  unfoldable pub normalized_with : Option (Text × Bool) → Text → Text
  normalized_with (some (address, _)) host = q.to_lower address
  normalized_with none host = chop_dot (q.to_lower host)

  unfoldable pub normalized_host : Text → Text
  normalized_host host = normalized_with (net.set_address host) host

  unfoldable pub valid_host_name : Text → Bool
  valid_host_name host =
      if is_some (net.set_address host)
      then true
      else if is_empty host || ltb 253 (length host)
      then false
      else all net.matches_label (split b'.' (normalized_host host))

  abbrev pub is_ipv6 : Option (Text × Bool) → Bool
  is_ipv6 none = false
  is_ipv6 (some (_, v6)) = v6

  unfoldable pub parse_with : Option Text → Text → Option Url
  parse_with none authority = none
  parse_with (some port) authority =
      let url = net.strict_url (codes "http://" ++ authority) in
      if not (is_empty port) && not (is_port (to_int port))
      then none
      else if not url.is_valid || not (valid_host_name url.host)
      then none
      else if starts_with (codes "[") authority && not (is_ipv6 (net.set_address url.host))
      then none
      else some url

  unfoldable pub parse_authority : Text → Option Url
  parse_authority authority = parse_with (net.match_authority authority) authority

  abbrev pub add_host : Text → List Text → List Text
  add_host host hosts = if valid_host_name host then normalized_host host ∷ hosts else hosts

  -- `allowedHosts`; `local` is the name of the machine.
  unfoldable pub allowed_hosts : (local : Text) → (configured : List Text) → Text → List Text
  allowed_hosts local configured origin_host =
      let named = add_host origin_host (map normalized_host configured) in
      codes "localhost"
      ∷ (if valid_host_name local
          then normalized_host local
            ∷ (normalized_host (first_part (split b'.' local)) ++ codes ".local")
            ∷ named
          else named)

  unfoldable pub check_host : Option Url → List Text → ℕ
  check_host none allowed = 400
  check_host (some url) allowed =
      if is_some (net.set_address url.host) || any (eqb (normalized_host url.host)) allowed
      then 200
      else 421

  unfoldable pub validate_host : ParsedRequest → List Text → ℕ
  validate_host r allowed = check_host (parse_authority (header (codes "host") r)) allowed

  unfoldable pub same_origin : Option Url → Option Url → ℕ
  same_origin (some source) (some target) =
      if not (eqb (normalized_host source.host) (normalized_host target.host))
        || not (port_or 80 source.port == port_or 80 target.port)
      then 403
      else 200
  same_origin _ _ = 403

  unfoldable pub validate_auth_mutation : ParsedRequest → ℕ
  validate_auth_mutation r =
      let origin = header (codes "origin") r in
      if not net.json_type_valid
      then 500
      else if not (net.matches_json_type (header (codes "content-type") r))
      then 415
      else if not (has_key (codes "origin") r.headers)
      then 200
      else if not (starts_with (codes "http://") origin)
      then 403
      else same_origin (parse_authority (drop 7 origin)) (parse_authority (header (codes "host") r))
