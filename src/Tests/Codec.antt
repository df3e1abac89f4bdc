-- ===== src/Tests/Codec.antt =====
-- A concrete encoding of JSON values as a text: a postfix program for a machine with a stack of
-- values, in pairs of an instruction and its argument.
use everest_ui.Base.{
  ℕ, Bool, true, false, List, [], ◌∷◌, Option, none, some, ◌≡◌, refl, ◌∙◌, ap, if◌then◌else◌, ◌==◌,
}
use everest_ui.Base.Text.{Text}
use everest_ui.Base.Int.{ℤ, pos, negsuc}
use everest_ui.Base.Json.{
  Json, undefined, null, bool, num, fraction, str, arr, obj, Items, nil, cons, Fields, end, field,
}

unfoldable write_text : Text → List ℕ → List ℕ
write_text [] rest = 7 ∷ 0 ∷ rest
write_text (c ∷ s) rest = write_text s (8 ∷ c ∷ rest)

unfoldable write_number : ℤ → List ℕ → List ℕ
write_number (pos n) rest = 4 ∷ n ∷ rest
write_number (negsuc n) rest = 5 ∷ n ∷ rest

unfoldable write_bool : Bool → List ℕ → List ℕ
write_bool true rest = 2 ∷ 0 ∷ rest
write_bool false rest = 3 ∷ 0 ∷ rest

unfoldable mutual
  write : Json → List ℕ → List ℕ
  write undefined rest = 0 ∷ 0 ∷ rest
  write null rest = 1 ∷ 0 ∷ rest
  write (bool b) rest = write_bool b rest
  write (num n) rest = write_number n rest
  write fraction rest = 6 ∷ 0 ∷ rest
  write (str s) rest = write_text s rest
  write (arr items) rest = write_items items rest
  write (obj fs) rest = write_fields fs rest

  write_items : Items → List ℕ → List ℕ
  write_items nil rest = 9 ∷ 0 ∷ rest
  write_items (cons v items) rest = write_items items (write v (10 ∷ 0 ∷ rest))

  write_fields : Fields → List ℕ → List ℕ
  write_fields end rest = 11 ∷ 0 ∷ rest
  write_fields (field k v fs) rest = write_fields fs (write_text k (write v (12 ∷ 0 ∷ rest)))

unfoldable push_char : ℕ → List Json → List Json
push_char c (str s ∷ stack) = str (c ∷ s) ∷ stack
push_char c _ = []

unfoldable push_item : List Json → List Json
push_item (v ∷ arr items ∷ stack) = arr (cons v items) ∷ stack
push_item _ = []

unfoldable push_field : List Json → List Json
push_field (v ∷ str k ∷ obj fs ∷ stack) = obj (field k v fs) ∷ stack
push_field _ = []

unfoldable step : ℕ → ℕ → List Json → List Json
step instruction c stack =
    if instruction == 0
    then undefined ∷ stack
    else if instruction == 1
    then null ∷ stack
    else if instruction == 2
    then bool true ∷ stack
    else if instruction == 3
    then bool false ∷ stack
    else if instruction == 4
    then num (pos c) ∷ stack
    else if instruction == 5
    then num (negsuc c) ∷ stack
    else if instruction == 6
    then fraction ∷ stack
    else if instruction == 7
    then str [] ∷ stack
    else if instruction == 8
    then push_char c stack
    else if instruction == 9
    then arr nil ∷ stack
    else if instruction == 10
    then push_item stack
    else if instruction == 11
    then obj end ∷ stack
    else push_field stack

unfoldable run : List ℕ → List Json → List Json
run [] stack = stack
run (instruction ∷ []) stack = []
run (instruction ∷ c ∷ rest) stack = run rest (step instruction c stack)

unfoldable result : List Json → Option Json
result (v ∷ []) = some v
result _ = none

unfoldable pub decode : Text → Option Json
unfolding result run step push_char push_item push_field
decode s = result (run s [])

unfoldable pub encode : Fields → Text
unfolding write write_text write_bool write_number
encode fs = write_fields fs []

run-text :
    (s : Text) (rest : List ℕ) (stack : List Json)
    → run (write_text s rest) stack ≡ run rest (str s ∷ stack)
unfolding write_text run step push_char
run-text [] rest stack = refl
run-text (c ∷ s) rest stack = run-text s (8 ∷ c ∷ rest) stack

run-bool :
    (b : Bool) (rest : List ℕ) (stack : List Json)
    → run (write_bool b rest) stack ≡ run rest (bool b ∷ stack)
unfolding write_bool run step
run-bool true rest stack = refl
run-bool false rest stack = refl

run-number :
    (n : ℤ) (rest : List ℕ) (stack : List Json)
    → run (write_number n rest) stack ≡ run rest (num n ∷ stack)
unfolding write_number run step
run-number (pos n) rest stack = refl
run-number (negsuc n) rest stack = refl

mutual
  unfolding write run step push_item push_field

  run-write :
      (v : Json) (rest : List ℕ) (stack : List Json)
      → run (write v rest) stack ≡ run rest (v ∷ stack)
  run-write undefined rest stack = refl
  run-write null rest stack = refl
  run-write (bool b) rest stack = run-bool b rest stack
  run-write (num n) rest stack = run-number n rest stack
  run-write fraction rest stack = refl
  run-write (str s) rest stack = run-text s rest stack
  run-write (arr items) rest stack = run-items items rest stack
  run-write (obj fs) rest stack = run-fields fs rest stack

  run-items :
      (items : Items) (rest : List ℕ) (stack : List Json)
      → run (write_items items rest) stack ≡ run rest (arr items ∷ stack)
  run-items nil rest stack = refl
  run-items (cons v items) rest stack =
      run-items items (write v (10 ∷ 0 ∷ rest)) stack
      ∙ run-write v (10 ∷ 0 ∷ rest) (arr items ∷ stack)

  run-fields :
      (fs : Fields) (rest : List ℕ) (stack : List Json)
      → run (write_fields fs rest) stack ≡ run rest (obj fs ∷ stack)
  run-fields end rest stack = refl
  run-fields (field k v fs) rest stack =
      run-fields fs (write_text k (write v (12 ∷ 0 ∷ rest))) stack
      ∙ run-text k (write v (12 ∷ 0 ∷ rest)) (obj fs ∷ stack)
      ∙ run-write v (12 ∷ 0 ∷ rest) (str k ∷ obj fs ∷ stack)

pub decode-encode : (fs : Fields) → decode (encode fs) ≡ some (obj fs)
unfolding decode encode result run
decode-encode fs = ap result (run-fields fs [] [])
