-- ===== src/Tests/Http.antt =====
-- Requests, at concrete inputs.
use everest_ui.Base.{
  ℕ, ◌+◌, ◌≤◌, true, [], ◌∷◌, none, some, ◌≡◌, refl, sym, ap, ◌∙◌, ◌↔◌, arith, length,
}
use everest_ui.Base.Text.{
  Text, codes, find_text, starts_with, split, index_of, eqb, trimmed, drop_while, drop_while_end,
  before_final_newline,
}
use everest_ui.Base.Assoc.{lookup, insert}
use everest_ui.Base.Int.{pos, int_max, to_int, digits, digits_from}
use everest_ui.Http.Request.{
  header_end_index, content_length, lines_length, line_length, is_request_complete, check_total,
  wrap,
}
use everest_ui.Http.Headers.{
  valid, ParsedRequest, normalized_path_from, is_supported, is_request_valid, with_end, with_lines,
  with_line, with_headers, with_body, collect, add_header, add_line, add_named, is_header_name,
}
use everest_ui.Http.Body.{is_request_complete_iff, is_request_valid_body}

abbrev peek : Text
peek = codes "POST /auth/login HTTP/1.1\r\nHost: box\r\nContent-Length: 2\r\n\r\n{}"

abbrev request : ParsedRequest
request = record {
  lines =
      codes "POST /auth/login HTTP/1.1\r" ∷ codes "Host: box\r" ∷ codes "Content-Length: 2" ∷ [];
  method = codes "POST";
  path = codes "/auth/login";
  normalized_path = codes "/auth/login";
  headers = (codes "host", codes "box") ∷ (codes "content-length", codes "2") ∷ [];
  cookies = [];
  body = codes "{}";
}

found : header_end_index peek ≡ some 55
unfolding find_text starts_with
found = refl

said : content_length peek 55 ≡ pos 2
unfolding content_length lines_length line_length split index_of eqb trimmed drop_while
    drop_while_end to_int digits digits_from
said = refl

is_request_complete_iff_example :
    ((is_request_complete peek 65536).complete ≡ true)
    ↔ ((55 + 4 + 2 ≤ length peek) × (length peek ≤ 65536))
is_request_complete_iff_example = is_request_complete_iff peek 65536 55 2 found said (omega arith)

fits :
    (end n : ℕ)
    → header_end_index peek ≡ some end
    → content_length peek end ≡ pos n
    → end + 4 + n ≤ int_max
fits end n at_end size =
    let e : some 55 ≡ some end = sym found ∙ at_end in
    let same : 55 ≡ end = ground arith in
    let f : pos 2 ≡ pos n = sym said ∙ ap (content_length peek) same ∙ size in ground arith

parsed : is_request_valid peek ≡ valid request
unfolding is_request_valid with_end with_lines with_line with_headers with_body collect add_header
    add_line add_named is_header_name content_length lines_length line_length split index_of eqb
    trimmed drop_while drop_while_end to_int digits digits_from find_text starts_with lookup insert
    before_final_newline normalized_path_from
parsed = refl

complete : (is_request_complete peek 65536).complete ≡ true
complete =
    (is_request_complete_iff peek 65536 55 2 found said (omega arith)).1 (omega arith, omega arith)

is_request_valid_body_example :
    (is_supported request.method ≡ true)
    × (lookup (codes "transfer-encoding") request.headers ≡ none)
    × ((end n : ℕ) × (header_end_index peek ≡ some end)
        × (content_length peek end ≡ pos n)
        × (length request.body ≡ n)
        × (end + 4 + n ≤ 65536))
is_request_valid_body_example = is_request_valid_body peek 65536 request fits complete parsed

-- A length near 2^31 makes the sum negative, and the request counts as complete without its body.
abbrev overflowing : Text
overflowing = codes "GET / HTTP/1.1\r\nContent-Length: 2147483647\r\n\r\n"

overflowing_complete : (is_request_complete overflowing 65536).complete ≡ true
unfolding is_request_complete check_total wrap content_length lines_length line_length split
    index_of eqb trimmed drop_while drop_while_end to_int digits digits_from find_text starts_with
overflowing_complete = refl
