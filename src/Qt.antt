-- ===== src/Qt.antt =====
-- What the code takes from Qt and cannot be read here: functions as parameters, and the documented
-- behaviour that some theorems rest on.
use everest_ui.Base.{
  ℕ, Bool, true, false, ◌&&◌, ◌||◌, List, ◌∷◌, ◌≡◌, leb, Option, some, map, ◌+◌, if◌then◌else◌, All,
  ◌==◌, is_empty,
}
use everest_ui.Base.Text.{Text}
use everest_ui.Base.Json.{Json, obj, Fields, value}

pub record Qt : Type 0 where
  -- `QChar::isSpace`
  pub is_space : ℕ → Bool
  -- `QString::toLower`
  pub to_lower : Text → Text
  -- `QCryptographicHash::hash` with Sha512 of the UTF-8 form, then `toBase64`
  pub sha512_base64 : Text → Text
  -- `toBase64` with Base64UrlEncoding and OmitTrailingEquals
  pub base64_url : List ℕ → Text
  -- `QJsonDocument::fromJson`; `none` is a parse error
  pub from_json : Text → Option Json
  -- `QJsonDocument(object).toJson`
  pub to_json : Fields → Text

-- A letter or a digit of ASCII, or one of `_`, `.`, `-`.
unfoldable pub is_name_char : ℕ → Bool
is_name_char c =
    leb b'A' c && leb c b'Z'
    || leb b'a' c && leb c b'z'
    || leb b'0' c && leb c b'9'
    || c == b'_'
    || c == b'.'
    || c == b'-'

abbrev pub lower_char : ℕ → ℕ
lower_char c = if leb b'A' c && leb c b'Z' then c + 32 else c

-- The documented behaviour of those functions on ASCII; a digest, and the base 64 form of some
-- bytes, are not empty; and the round trip of a JSON document: what is parsed has the same members,
-- in whatever order.
pub record QtLaws (q : Qt) : Type 0 where
  pub space_newline : q.is_space b'\n' ≡ true
  pub space_bang : q.is_space b'!' ≡ false
  pub space_equals : q.is_space b'=' ≡ false
  pub space_name : (c : ℕ) → is_name_char c ≡ true → q.is_space c ≡ false
  pub lower_name : (s : Text) → All (λ c. is_name_char c ≡ true) s → q.to_lower s ≡ map lower_char s
  pub hash_nonempty : (s : Text) → is_empty (q.sha512_base64 s) ≡ false
  pub base64_nonempty : (c : ℕ) (cs : List ℕ) → is_empty (q.base64_url (c ∷ cs)) ≡ false
  pub json_members :
      (fs : Fields)
      → (gs : Fields) × (q.from_json (q.to_json fs) ≡ some (obj gs))
        × ((k : Text) → value k gs ≡ value k fs)
