-- ===== src/Http/Request.antt =====
-- backend/webserver/http/RequestParsing.{hpp,cpp}: is there a whole request? `int` is written out,
-- with its wrap-around where the source adds.
use everest_ui.Base.{
  ℕ, ◌+◌, ◌-◌, ◌^◌, Bool, true, false, ◌&&◌, ◌||◌, not, List, [], ◌∷◌, Option, none, some,
  if◌then◌else◌, ltb, leb, ◌==◌, length, take, drop, map, is_some,
}
use everest_ui.Base.Text.{Text, codes, eqb, trimmed, index_of, find_text, split}
use everest_ui.Base.Int.{ℤ, pos, negsuc, to_int, int_max}
use everest_ui.Qt.{lower_char}

pub record StaticResponse : Type 0 where
  pub status_code : ℕ
  pub status_text : Text
  pub body : Text
  pub mime : Text

-- `StaticResponse{}`
abbrev pub new_response : StaticResponse
new_response = record {
  status_code = 500;
  status_text = codes "Internal Server Error";
  body = [];
  mime = codes "text/plain";
}

abbrev pub plain_response : ℕ → Text → Text → StaticResponse
plain_response code text message = record {
  status_code = code;
  status_text = text;
  body = message;
  mime = codes "text/plain";
}

-- `fillBadRequest`
abbrev pub bad_request : Text → StaticResponse
bad_request message = plain_response 400 (codes "Bad Request") message

abbrev pub too_large : StaticResponse
too_large = plain_response 413 (codes "Payload Too Large") (codes "Payload Too Large")

-- White space of ASCII, for the `trimmed` of a `QByteArray`.
abbrev pub is_ascii_space : ℕ → Bool
is_ascii_space c = c == b' ' || leb 9 c && leb c 13

abbrev pub trim : Text → Text
trim = trimmed is_ascii_space

-- `toLower` of a `QByteArray`
abbrev pub lower : Text → Text
lower = map lower_char

abbrev pub header_end : Text
header_end = b'\r' ∷ b'\n' ∷ b'\r' ∷ b'\n' ∷ []

-- `headerEndIndex`
abbrev pub header_end_index : Text → Option ℕ
header_end_index data_ = find_text header_end data_

abbrev pub length_value : Option ℤ → ℤ
length_value none = negsuc 0
length_value (some n) = n

-- What one line of the header says of the length of the body.
unfoldable pub line_length : Text → Option ℕ → Option ℤ
line_length line none = none
line_length line (some separator) =
    if separator == 0 || not (eqb (lower (trim (take separator line))) (codes "content-length"))
    then none
    else some (length_value (to_int (trim (drop (separator + 1) line))))

-- The loop of `contentLength`; the first line that names the length counts.
unfoldable pub lines_length : List Text → ℤ
lines_length [] = pos 0
lines_length (l ∷ ls) =
    let rest = lines_length ls in
    elim (line_length (trim l) (index_of b':' (trim l))) [ none ↦ rest | some n ↦ n ]

-- `contentLength`
unfoldable pub content_length : Text → ℕ → ℤ
content_length data_ end = lines_length (drop 1 (split b'\n' (take end data_)))

-- A sum of naturals below 2^32, as an `int`.
unfoldable pub wrap : ℕ → ℤ
wrap n = if leb n int_max then pos n else negsuc (2 ^ 32 - 1 - n)

abbrev pub exceeds : ℤ → ℕ → Bool
exceeds (pos n) max = ltb max n
exceeds (negsuc n) max = false

-- Whether to go on, and the response that was filled in.
pub record Progress : Type 0 where
  pub complete : Bool
  pub response : StaticResponse

-- `isHeaderComplete`
unfoldable pub is_header_complete : Text → ℕ → Progress
is_header_complete peek max =
    if is_some (header_end_index peek)
    then record { complete = true; response = new_response }
    else record {
      complete = false;
      response =
          if ltb max (length peek)
          then plain_response 431 (codes "Request Header Fields Too Large")
              (codes "Request Header Fields Too Large")
          else new_response;
    }

-- The end of `isRequestComplete`, once the header's end and the length are known.
unfoldable pub check_total : Text → ℕ → ℕ → ℤ → Progress
check_total peek max end (negsuc n) = record {
  complete = false;
  response = bad_request (codes "Invalid Content-Length");
}
check_total peek max end (pos n) =
    let total = wrap (end + 4 + n) in
    if exceeds total max
    then record { complete = false; response = too_large }
    else record { complete = not (exceeds total (length peek)); response = new_response }

-- `isRequestComplete`
unfoldable pub is_request_complete : Text → ℕ → Progress
is_request_complete peek max =
    if ltb max (length peek)
    then record { complete = false; response = too_large }
    else elim (header_end_index peek) [
      | none ↦ record { complete = false; response = new_response }
      | some end ↦ check_total peek max end (content_length peek end)
    ]
