-- ===== src/Config/Written.antt =====
-- backend/config/LayeredConfig.cpp: lemmas on the line that `writeOverlay` adds, and `parseLine`.
use everest_ui.Base.{
  ℕ, ◌+◌, true, false, [], ◌∷◌, ◌++◌, some, ◌≡◌, refl, arith, is_empty, all, All, ◌∙◌, ap, sym,
  length, length-append, take-append_length, drop-append_eq, append_assoc, ==_iff, drop,
}
use everest_ui.Base.Text.{
  Text, trimmed, trimmed-All_kept, drop_while, drop_while_end, contains, split,
}
use everest_ui.Base.Split.{split-no_sep}
use everest_ui.Base.Trim.{
  trimmed_idem, contains-trimmed, index_of-append, index_of-none, drop_while_end-append,
  drop_while_end-cons, drop_while_end_idem, drop_while-cons,
}
use everest_ui.Qt.{Qt, QtLaws}
use everest_ui.Config.Line.{begins, is_key_char, valid_key, parse_trimmed, parse_line}

contains-append :
    (c : ℕ) (xs ys : Text)
    → contains c xs ≡ false
    → contains c ys ≡ false
    → contains c (xs ++ ys) ≡ false
unfolding contains
contains-append c [] ys h k = k
contains-append c (x ∷ xs) ys h k = ground (arith, contains-append c xs ys)

module _ (q : Qt) where
  -- What a valid key has.
  record KeyFacts (key : Text) : Type 0 where
    nonempty : is_empty key ≡ false
    no_bang : begins b'!' key ≡ false
    no_hash : begins b'#' key ≡ false
    chars : all (is_key_char q) key ≡ true

  valid_key_facts : (key : Text) → valid_key q key ≡ true → KeyFacts key
  unfolding valid_key
  valid_key_facts key h = ground arith

  key_solid : (key : Text) → all (is_key_char q) key ≡ true → All (λ c. q.is_space c ≡ false) key
  key_solid [] h = tt
  key_solid (c ∷ key) h = (ground arith, key_solid key (ground arith))

  key_no_equals : (key : Text) → all (is_key_char q) key ≡ true → contains b'=' key ≡ false
  unfolding contains
  key_no_equals [] h = refl
  key_no_equals (c ∷ key) h = ground (arith, key_no_equals key)

  key_no_newline :
      (key : Text)
      → q.is_space b'\n' ≡ true
      → all (is_key_char q) key ≡ true
      → contains b'\n' key ≡ false
  unfolding contains
  key_no_newline [] nl h = refl
  key_no_newline (c ∷ key) nl h = ground (arith, key_no_newline key nl, ==_iff c b'\n')

  module _ (laws : QtLaws q) where
    trimmed-key_value :
        (c : ℕ) (key value : Text)
        → q.is_space c ≡ false
        → let line = c ∷ (key ++ (b'=' ∷ trimmed q.is_space value)) in
          trimmed q.is_space line ≡ line
    unfolding trimmed
    trimmed-key_value c key value solid =
        let v = drop_while_end q.is_space (drop_while q.is_space value) in
        rw (drop_while-cons q.is_space c (key ++ (b'=' ∷ v)) solid) (
          drop_while_end-append q.is_space (c ∷ key) b'=' v (
            drop_while_end-cons q.is_space b'=' v laws.space_equals
            ∙ ap (◌∷◌ b'=') (drop_while_end_idem q.is_space (drop_while q.is_space value))))

    parse_trimmed-key_value :
        (c : ℕ) (k v : Text)
        → valid_key q (c ∷ k) ≡ true
        → contains 0 v ≡ false
        → trimmed q.is_space v ≡ v
        → parse_trimmed q (c ∷ (k ++ (b'=' ∷ v)))
          ≡ some (record { key = c ∷ k; value = v; mask = false })
    unfolding parse_trimmed
    parse_trimmed-key_value c k v h clean flush =
        let f = valid_key_facts (c ∷ k) h in
        let found = index_of-append b'=' (c ∷ k) v (key_no_equals (c ∷ k) f.chars) in
        let front = take-append_length (c ∷ k) (b'=' ∷ v) in
        let whole = trimmed-All_kept q.is_space (c ∷ k) (key_solid (c ∷ k) f.chars) in
        let rest : drop (length (c ∷ k) + 1) ((c ∷ k) ++ (b'=' ∷ v)) ≡ v =
          ap (drop (length (c ∷ k) + 1)) (sym (append_assoc (c ∷ k) (b'=' ∷ []) v))
          ∙ drop-append_eq (length (c ∷ k) + 1) ((c ∷ k) ++ (b'=' ∷ [])) v
              (length-append (c ∷ k) (b'=' ∷ [])) in
        let no_hash = f.no_hash in
        let no_bang = f.no_bang in
        rw (no_hash, no_bang, found)
          (rw (front, rest) (rw (whole, flush) (rw (h, clean) (ground arith))))

    pub parse_line-key_value :
        (key value : Text)
        → valid_key q key ≡ true
        → contains 0 value ≡ false
        → parse_line q (key ++ (b'=' ∷ trimmed q.is_space value))
          ≡ some (record { key = key; value = trimmed q.is_space value; mask = false })
    unfolding parse_line
    parse_line-key_value [] value h clean = absurd (unfold valid_key in ground arith)
    parse_line-key_value (c ∷ key) value h clean =
        let f = valid_key_facts (c ∷ key) h in
        rw (trimmed-key_value c key value ((key_solid (c ∷ key) f.chars).0)) (
          parse_trimmed-key_value c key (trimmed q.is_space value) h
            (contains-trimmed q.is_space 0 value clean) (trimmed_idem q.is_space value))

    pub parse_line-mask :
        (key : Text)
        → valid_key q key ≡ true
        → parse_line q (b'!' ∷ key) ≡ some (record { key = key; value = []; mask = true })
    unfolding parse_line parse_trimmed
    parse_line-mask key h =
        let f = valid_key_facts key h in
        let no_equals = key_no_equals key f.chars in
        let missing = index_of-none b'=' (b'!' ∷ key) (unfold contains in ground arith) in
        let whole = trimmed-All_kept q.is_space key (key_solid key f.chars) in
        rw (trimmed-All_kept q.is_space (b'!' ∷ key) (laws.space_bang, key_solid key f.chars))
          (rw missing (rw whole (unfold contains in (rw h))))

    -- The new line is one line.
    pub split-key_value :
        (key value : Text)
        → valid_key q key ≡ true
        → contains b'\n' value ≡ false
        → let line = key ++ (b'=' ∷ trimmed q.is_space value) in split b'\n' line ≡ line ∷ []
    split-key_value key value h clean =
        let f = valid_key_facts key h in
        split-no_sep b'\n' _ (
          contains-append b'\n' key (b'=' ∷ trimmed q.is_space value)
            (key_no_newline key laws.space_newline f.chars)
            (unfold contains in (contains-trimmed q.is_space b'\n' value clean)))

    pub split-mask :
        (key : Text) → valid_key q key ≡ true → split b'\n' (b'!' ∷ key) ≡ (b'!' ∷ key) ∷ []
    split-mask key h =
        let f = valid_key_facts key h in
        split-no_sep b'\n' (b'!' ∷ key)
          (unfold contains in (key_no_newline key laws.space_newline f.chars))
