-- ===== src/Http/Headers.antt =====
-- backend/webserver/http/RequestParsing.cpp: `isRequestValid`, the request line, the headers and the
-- cookies.
use everest_ui.Base.{
  ℕ, ◌+◌, Bool, false, ◌&&◌, ◌||◌, not, List, [], ◌∷◌, Option, none, some, if◌then◌else◌, leb, ◌==◌,
  take, drop, all, is_empty,
}
use everest_ui.Base.Text.{Text, codes, eqb, index_of, split, before_final_newline}
use everest_ui.Base.Assoc.{insert, has_key}
use everest_ui.Base.Int.{ℤ, pos, negsuc}
use everest_ui.Http.Request.{
  StaticResponse, plain_response, bad_request, trim, lower, header_end_index, content_length,
}

pub record ParsedRequest : Type 0 where
  pub lines : List Text
  pub method : Text
  pub path : Text
  pub normalized_path : Text
  pub headers : List (Text × Text)
  pub cookies : List (Text × Text)
  pub body : Text

pub data Parsed : Type 0 where
  valid : ParsedRequest → Parsed
  refused : StaticResponse → Parsed

-- `normalizedPathFrom`: the part before the query.
unfoldable pub normalized_path_from : Text → Text
normalized_path_from path = elim (index_of b'?' path) [ none ↦ path | some query ↦ take query path ]

unfoldable pub add_cookie : Text → Option ℕ → List (Text × Text) → List (Text × Text)
add_cookie part none cookies = cookies
add_cookie part (some separator) cookies =
    let key = trim (take separator part) in
    if separator == 0 || is_empty key
    then cookies
    else insert key (trim (drop (separator + 1) part)) cookies

unfoldable pub add_cookies : List Text → List (Text × Text) → List (Text × Text)
add_cookies [] cookies = cookies
add_cookies (part ∷ parts) cookies =
    add_cookies parts (add_cookie part (index_of b'=' part) cookies)

-- `parseCookies`
abbrev pub parse_cookies : Text → List (Text × Text) → List (Text × Text)
parse_cookies header cookies = add_cookies (split b';' header) cookies

abbrev pub is_token_char : ℕ → Bool
is_token_char c =
    leb b'0' c && leb c b'9'
    || leb b'A' c && leb c b'Z'
    || leb b'^' c && leb c b'z'
    || leb b'#' c && leb c 39
    || c == b'!'
    || c == b'*'
    || c == b'+'
    || c == b'-'
    || c == b'.'
    || c == b'|'
    || c == b'~'

-- `^[!#$%&'*+.^_`|~0-9A-Za-z-]+$`
unfoldable pub is_header_name : Text → Bool
is_header_name s =
    let name = before_final_newline s in not (is_empty name) && all is_token_char name

abbrev pub is_single : Text → Bool
is_single key =
    eqb key (codes "host")
    || eqb key (codes "origin")
    || eqb key (codes "content-type")
    || eqb key (codes "content-length")

-- The headers and the cookies so far, or the message of a refusal.
pub data Collected : Type 0 where
  collected : (headers cookies : List (Text × Text)) → Collected
  bad : Text → Collected

-- A line that has a name.
unfoldable pub add_named : (key value : Text) → (headers cookies : List (Text × Text)) → Collected
add_named key value headers cookies =
    if is_single key && has_key key headers
    then bad (codes "Duplicate header")
    else if eqb key (codes "transfer-encoding")
    then bad (codes "Transfer-Encoding is not supported")
    else collected (insert key value headers)
        (if eqb key (codes "cookie") then parse_cookies value cookies else cookies)

unfoldable pub add_line : Text → Option ℕ → (headers cookies : List (Text × Text)) → Collected
add_line line none headers cookies = bad (codes "Invalid header name")
add_line line (some separator) headers cookies =
    if separator == 0 || not (is_header_name (take separator line))
    then bad (codes "Invalid header name")
    else add_named (lower (take separator line)) (trim (drop (separator + 1) line)) headers cookies

abbrev pub is_folded : Text → Bool
is_folded [] = false
is_folded (c ∷ _) = c == b' ' || c == b'\t'

-- One round of the loop over the lines.
unfoldable pub add_header : Text → (headers cookies : List (Text × Text)) → Collected
add_header raw headers cookies =
    if is_folded raw
    then bad (codes "Folded header is not supported")
    else if is_empty (trim raw)
    then collected headers cookies
    else add_line (trim raw) (index_of b':' (trim raw)) headers cookies

unfoldable pub collect : List Text → Collected → Collected
collect [] c = c
collect (l ∷ ls) (bad message) = bad message
collect (l ∷ ls) (collected headers cookies) = collect ls (add_header l headers cookies)

abbrev pub is_supported : Text → Bool
is_supported method = eqb method (codes "GET") || eqb method (codes "POST")

abbrev pub method_not_allowed : StaticResponse
method_not_allowed = plain_response 405 (codes "Method Not Allowed") (codes "Method Not Allowed")

-- The end of `isRequestValid`: the length of the body, behind the headers.
unfoldable pub with_body : Text → ℕ → ParsedRequest → ℤ → Parsed
with_body peek end r (negsuc n) = refused (bad_request (codes "Invalid Content-Length"))
with_body peek end r (pos n) = valid (record r { body = take n (drop (end + 4) peek) })

unfoldable pub with_headers : Text → ℕ → ParsedRequest → Collected → Parsed
with_headers peek end r (bad message) = refused (bad_request message)
with_headers peek end r (collected headers cookies) =
    with_body peek end (record r { headers = headers; cookies = cookies }) (content_length peek end)

-- The request line in its parts.
unfoldable pub with_line : Text → ℕ → List Text → List Text → Parsed
with_line peek end lines (method ∷ path ∷ _) =
    let r : ParsedRequest = record {
      lines = lines;
      method = method;
      path = path;
      normalized_path = normalized_path_from path;
      headers = [];
      cookies = [];
      body = [];
    } in
    if not (is_supported method)
    then refused method_not_allowed
    else with_headers peek end r (collect (drop 1 lines) (collected [] []))
with_line peek end lines _ = refused (bad_request (codes "Bad Request"))

unfoldable pub with_lines : Text → ℕ → List Text → Parsed
with_lines peek end [] = refused (bad_request (codes "Bad Request"))
with_lines peek end (l ∷ ls) = with_line peek end (l ∷ ls) (split b' ' (trim l))

unfoldable pub with_end : Text → Option ℕ → Parsed
with_end peek none = refused (bad_request (codes "Bad Request"))
with_end peek (some end) = with_lines peek end (split b'\n' (take end peek))

-- `isRequestValid`
unfoldable pub is_request_valid : Text → Parsed
is_request_valid peek = with_end peek (header_end_index peek)
