-- ===== src/Http/Body.antt =====
-- backend/webserver/http/RequestParsing.cpp: theorems on `isRequestComplete` and `isRequestValid`.
use everest_ui.Base.{
  ℕ, ◌+◌, ◌≤◌, true, ◌&&◌, ◌||◌, not, List, [], ◌∷◌, Option, none, some, ◌≡◌, refl, length, take,
  drop, is_empty, arith, ◌↔◌, if_both, length-take, subst, length-drop, ◌==◌,
}
use everest_ui.Base.Text.{Text, codes, eqb}
use everest_ui.Base.Assoc.{lookup, has_key, lookup-insert}
use everest_ui.Base.Int.{ℤ, pos, negsuc, int_max}
use everest_ui.Http.Request.{
  header_end_index, content_length, wrap, check_total, is_request_complete, trim,
}
use everest_ui.Http.Headers.{
  ParsedRequest, Parsed, valid, refused, Collected, collected, bad, add_named, add_line, add_header,
  collect, is_supported, is_single, is_header_name, is_folded, with_body, with_headers, with_line,
  with_lines, with_end, is_request_valid,
}

-- For a header that ends at `end` and a length `n`, as long as their sum fits an `int`: the request is
-- complete exactly if all its bytes are there and the data are no longer than the limit.
pub is_request_complete_iff :
    (peek : Text) (max end n : ℕ)
    → header_end_index peek ≡ some end
    → content_length peek end ≡ pos n
    → end + 4 + n ≤ int_max
    → ((is_request_complete peek max).complete ≡ true)
      ↔ ((end + 4 + n ≤ length peek) × (length peek ≤ max))
unfolding is_request_complete check_total wrap
is_request_complete_iff peek max end n found said fits = rw (found, said) (ground arith)

-- The headers do not have a transfer encoding.
IsPlain : Collected → Type 0
IsPlain (collected headers cookies) = lookup (codes "transfer-encoding") headers ≡ none
IsPlain (bad message) = Unit

add_named-IsPlain :
    (key value : Text) (headers cookies : List (Text × Text))
    → lookup (codes "transfer-encoding") headers ≡ none
    → IsPlain (add_named key value headers cookies)
unfolding add_named IsPlain
add_named-IsPlain key value headers cookies h =
    if_both IsPlain (is_single key && has_key key headers) (λ _. tt)
      (λ _.
        if_both IsPlain (eqb key (codes "transfer-encoding")) (λ _. tt)
          (λ other. rw (lookup-insert key (codes "transfer-encoding") value headers) (rw other h)))

add_line-IsPlain :
    (line : Text) (separator : Option ℕ) (headers cookies : List (Text × Text))
    → lookup (codes "transfer-encoding") headers ≡ none
    → IsPlain (add_line line separator headers cookies)
unfolding add_line
add_line-IsPlain line none headers cookies h = unfold IsPlain in tt
add_line-IsPlain line (some separator) headers cookies h =
    if_both IsPlain (separator == 0 || not (is_header_name (take separator line)))
      (λ _. unfold IsPlain in tt) (λ _. add_named-IsPlain _ _ headers cookies h)

add_header-IsPlain :
    (raw : Text) (headers cookies : List (Text × Text))
    → lookup (codes "transfer-encoding") headers ≡ none
    → IsPlain (add_header raw headers cookies)
unfolding add_header
add_header-IsPlain raw headers cookies h =
    if_both IsPlain (is_folded raw) (λ _. unfold IsPlain in tt)
      (λ _.
        if_both IsPlain (is_empty (trim raw)) (λ _. unfold IsPlain in h)
          (λ _. add_line-IsPlain (trim raw) _ headers cookies h))

collect-IsPlain : (ls : List Text) (c : Collected) → IsPlain c → IsPlain (collect ls c)
unfolding collect
collect-IsPlain [] c h = h
collect-IsPlain (l ∷ ls) (bad message) h = unfold IsPlain in tt
collect-IsPlain (l ∷ ls) (collected headers cookies) h =
    collect-IsPlain ls (add_header l headers cookies)
      (add_header-IsPlain l headers cookies (unfold IsPlain in h))

-- What a request that is not refused is: its method, its headers, and its body.
IsGood : Text → Parsed → Type 0
IsGood peek (refused response) = Unit
IsGood peek (valid r) =
    (end n : ℕ) × (header_end_index peek ≡ some end)
    × (content_length peek end ≡ pos n)
    × (r.body ≡ take n (drop (end + 4) peek))
    × (is_supported r.method ≡ true)
    × (lookup (codes "transfer-encoding") r.headers ≡ none)

with_body-IsGood :
    (peek : Text) (end : ℕ) (r : ParsedRequest) (size : ℤ)
    → header_end_index peek ≡ some end
    → content_length peek end ≡ size
    → is_supported r.method ≡ true
    → lookup (codes "transfer-encoding") r.headers ≡ none
    → IsGood peek (with_body peek end r size)
unfolding with_body IsGood
with_body-IsGood peek end r (negsuc n) found said supported plain = tt
with_body-IsGood peek end r (pos n) found said supported plain =
    (end, n, found, said, refl, supported, plain)

with_headers-IsGood :
    (peek : Text) (end : ℕ) (r : ParsedRequest) (c : Collected)
    → header_end_index peek ≡ some end
    → is_supported r.method ≡ true
    → IsPlain c
    → IsGood peek (with_headers peek end r c)
unfolding with_headers IsPlain
with_headers-IsGood peek end r (bad message) found supported plain = unfold IsGood in tt
with_headers-IsGood peek end r (collected headers cookies) found supported plain =
    with_body-IsGood peek end _ (content_length peek end) found refl supported plain

with_line-IsGood :
    (peek : Text) (end : ℕ) (lines parts : List Text)
    → header_end_index peek ≡ some end
    → IsGood peek (with_line peek end lines parts)
unfolding with_line
with_line-IsGood peek end lines [] found = unfold IsGood in tt
with_line-IsGood peek end lines (method ∷ []) found = unfold IsGood in tt
with_line-IsGood peek end lines (method ∷ path ∷ parts) found =
    if_both (IsGood peek) (not (is_supported method)) (λ _. unfold IsGood in tt)
      (λ supported.
        with_headers-IsGood peek end _ _ found (ground arith)
          (collect-IsPlain (drop 1 lines) (collected [] []) (unfold IsPlain lookup in refl)))

with_lines-IsGood :
    (peek : Text) (end : ℕ) (lines : List Text)
    → header_end_index peek ≡ some end
    → IsGood peek (with_lines peek end lines)
unfolding with_lines
with_lines-IsGood peek end [] found = unfold IsGood in tt
with_lines-IsGood peek end (l ∷ ls) found = with_line-IsGood peek end (l ∷ ls) _ found

with_end-IsGood :
    (peek : Text) (end : Option ℕ) → header_end_index peek ≡ end → IsGood peek (with_end peek end)
unfolding with_end
with_end-IsGood peek none nowhere = unfold IsGood in tt
with_end-IsGood peek (some end) found = with_lines-IsGood peek end _ found

is_request_valid-IsGood : (peek : Text) → IsGood peek (is_request_valid peek)
unfolding is_request_valid
is_request_valid-IsGood peek = with_end-IsGood peek (header_end_index peek) refl

-- A request that is complete and is not refused is a GET or a POST, has no transfer encoding, and its
-- body has exactly as many bytes as its header says, all of which are there. The sum of the lengths
-- of the header and of the body must fit an `int`.
pub is_request_valid_body :
    (peek : Text) (max : ℕ) (r : ParsedRequest)
    → ((end n : ℕ)
        → header_end_index peek ≡ some end
        → content_length peek end ≡ pos n
        → end + 4 + n ≤ int_max)
    → (is_request_complete peek max).complete ≡ true
    → is_request_valid peek ≡ valid r
    → (is_supported r.method ≡ true)
      × (lookup (codes "transfer-encoding") r.headers ≡ none)
      × ((end n : ℕ) × (header_end_index peek ≡ some end)
          × (content_length peek end ≡ pos n)
          × (length r.body ≡ n)
          × (end + 4 + n ≤ max))
unfolding IsGood
is_request_valid_body peek max r fits done parsed =
    let (end, n, found, said, body, supported, plain) : IsGood peek (valid r) =
      subst (IsGood peek) parsed (is_request_valid-IsGood peek) in
    let whole =
      (is_request_complete_iff peek max end n found said (fits end n found said)).0 done in
    let all_there = length-drop (end + 4) peek in
    (
      supported,
      plain,
      (
        end,
        n,
        found,
        said,
        rw body (omega (arith, whole, all_there, length-take n (drop (end + 4) peek))),
        omega (arith, whole),
      ),
    )
