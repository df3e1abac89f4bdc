-- ===== src/Tests/Sample.antt =====
-- An instance of the parameters, and the proof that it has the documented behaviour.
use everest_ui.Base.{ℕ, Bool, true, false, ◌&&◌, ◌||◌, ◌∷◌, ◌≡◌, refl, leb, ◌==◌, map, arith}
use everest_ui.Qt.{Qt, QtLaws, is_name_char, lower_char}
use everest_ui.Tests.Codec.{decode, encode, decode-encode}

abbrev is_space : ℕ → Bool
is_space c = c == 32 || leb 9 c && leb c 13

abbrev pub sample : Qt
sample = record {
  is_space = is_space;
  to_lower = map lower_char;
  sha512_base64 = λ s. b'#' ∷ s;
  base64_url = λ bytes. bytes;
  from_json = decode;
  to_json = encode;
}

space_name : (c : ℕ) → is_name_char c ≡ true → is_space c ≡ false
unfolding is_name_char
space_name c h = ground arith

pub sample-QtLaws : QtLaws sample
sample-QtLaws = record {
  space_newline = ground arith;
  space_bang = ground arith;
  space_equals = ground arith;
  space_name = space_name;
  lower_name = λ s named. refl;
  hash_nonempty = λ s. refl;
  base64_nonempty = λ c cs. refl;
  json_members = λ fs. (fs, decode-encode fs, λ k. refl);
}
