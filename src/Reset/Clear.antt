-- ===== src/Reset/Clear.antt =====
-- backend/webserver/auth/PasswordReset.cpp: theorems on `clearMarker`.
use everest_ui.Base.{
  ℕ, zero, suc, ◌+◌, ◌-◌, ◌≤◌, ◌<◌, Bool, true, not, leb, List, [], ◌∷◌, ◌++◌, Option, none, some,
  ◌≡◌, refl, ◌∙◌, ap, arith, take, drop, drop-append_eq, length, ◌⊎◌, inl, inr, if_both,
}
use everest_ui.Reset.State.{cold}
use everest_ui.Reset.Marker.{
  ClearCalls, read_marker, classify, clear_marker, marker_offset, zeros, up_to, write_at,
}

unfoldable pub get_elem? {ℓ} : {A : Type ℓ} → List A → ℕ → Option A
get_elem? [] i = none
get_elem? (x ∷ xs) zero = some x
get_elem? (x ∷ xs) (suc i) = get_elem? xs i

-- A byte before the place of the write stays.
get_elem?-up_to :
    (at i b : ℕ) (l rest : List ℕ)
    → i < at
    → get_elem? l i ≡ some b
    → get_elem? (up_to at l ++ rest) i ≡ some b
unfolding get_elem? up_to
get_elem?-up_to zero i b l rest lt h = absurd (omega arith)
get_elem?-up_to (suc n) i b [] rest lt h = absurd (ground arith)
get_elem?-up_to (suc n) zero b (x ∷ xs) rest lt h = h
get_elem?-up_to (suc n) (suc i) b (x ∷ xs) rest lt h = get_elem?-up_to n i b xs rest (omega arith) h

get_elem?-drop : (n k : ℕ) (l : List ℕ) → get_elem? (drop n l) k ≡ get_elem? l (n + k)
unfolding get_elem?
get_elem?-drop zero k l = let e : 0 + k ≡ k = omega arith in rw e refl
get_elem?-drop (suc n) k [] = refl
get_elem?-drop (suc n) k (x ∷ xs) =
    let e : suc n + k ≡ suc (n + k) = omega arith in rw e (get_elem?-drop n k xs)

-- A byte behind some others is counted from their end.
get_elem?-append : (xs ys : List ℕ) (i : ℕ) → get_elem? (xs ++ ys) (length xs + i) ≡ get_elem? ys i
unfolding get_elem?
get_elem?-append [] ys i = let e : 0 + i ≡ i = omega arith in rw e refl
get_elem?-append (x ∷ xs) ys i =
    let e : suc (length xs) + i ≡ suc (length xs + i) = omega arith in
    rw e (get_elem?-append xs ys i)

length-up_to : (at : ℕ) (l : List ℕ) → length (up_to at l) ≡ at
unfolding up_to
length-up_to zero l = refl
length-up_to (suc n) [] = let e = length-up_to n [] in omega arith
length-up_to (suc n) (x ∷ xs) = let e = length-up_to n xs in omega arith

-- What stands before and behind the bytes that are written stays.
write_at-get_elem? :
    (at i b : ℕ) (bytes l : List ℕ)
    → (i < at) ⊎ (at + length bytes ≤ i)
    → get_elem? l i ≡ some b
    → get_elem? (write_at at bytes l) i ≡ some b
unfolding write_at
write_at-get_elem? at i b [] l side h = h
write_at-get_elem? at i b (c ∷ cs) l (inl lt) h = get_elem?-up_to at i b l _ lt h
write_at-get_elem? at i b (c ∷ cs) l (inr le) h =
    let bytes = c ∷ cs in
    let k = i - (at + length bytes) in
    let behind = drop (at + length bytes) l in
    let place : i ≡ length (up_to at l) + (length bytes + k) = omega (arith, length-up_to at l) in
    let back : (at + length bytes) + k ≡ i = omega arith in
    ap (get_elem? (up_to at l ++ (bytes ++ behind))) place
    ∙ get_elem?-append (up_to at l) (bytes ++ behind) (length bytes + k)
    ∙ get_elem?-append bytes behind k
    ∙ get_elem?-drop (at + length bytes) k l
    ∙ ap (get_elem? l) back
    ∙ h

take-nil : (n : ℕ) → take {A = ℕ} n [] ≡ []
take-nil zero = refl
take-nil (suc n) = refl

outside :
    (n i : ℕ)
    → (i < marker_offset) ⊎ (marker_offset + 4 ≤ i)
    → (i < marker_offset) ⊎ (marker_offset + length (take n zeros) ≤ i)
outside n i (inl lt) = inl lt
outside zero i (inr le) = inr (omega arith)
outside (suc zero) i (inr le) = inr (omega arith)
outside (suc (suc zero)) i (inr le) = inr (omega arith)
outside (suc (suc (suc zero))) i (inr le) = inr (omega arith)
outside (suc (suc (suc (suc n)))) i (inr le) =
    inr (let e : length (take {A = ℕ} n []) ≡ 0 = rw (take-nil n) refl in omega arith)

zeros-cold :
    (n : ℕ) (l : List ℕ)
    → leb 4 n ≡ true
    → classify (read_marker (write_at marker_offset (take n zeros) l)) ≡ cold
unfolding write_at
zeros-cold zero l h = absurd (ground arith)
zeros-cold (suc zero) l h = absurd (ground arith)
zeros-cold (suc (suc zero)) l h = absurd (ground arith)
zeros-cold (suc (suc (suc zero))) l h = absurd (ground arith)
zeros-cold (suc (suc (suc (suc n)))) l h =
    let tail =
      take {A = ℕ} (suc (suc (suc (suc n)))) zeros
      ++ drop (marker_offset + length (take {A = ℕ} (suc (suc (suc (suc n)))) zeros)) l in
    rw (drop-append_eq marker_offset (up_to marker_offset l) tail (length-up_to marker_offset l))
      (unfold classify in refl)

abbrev IsCleared : List ℕ → List ℕ × Bool → Type 0
IsCleared register r =
    ((i byte : ℕ)
      → (i < marker_offset) ⊎ (marker_offset + 4 ≤ i)
      → get_elem? register i ≡ some byte
      → get_elem? r.0 i ≡ some byte)
    × (r.1 ≡ true → classify (read_marker r.0) ≡ cold)

-- Whatever part of the four bytes is written, and however short the register file is, every byte
-- outside the marker keeps its place and its value. After a successful clear the marker reads as a
-- cold start.
pub clear_marker_lem :
    (calls : ClearCalls) (register : List ℕ)
    → let r = clear_marker calls register in
      ((i byte : ℕ)
        → (i < marker_offset) ⊎ (marker_offset + 4 ≤ i)
        → get_elem? register i ≡ some byte
        → get_elem? r.0 i ≡ some byte)
      × (r.1 ≡ true → classify (read_marker r.0) ≡ cold)
unfolding clear_marker
clear_marker_lem calls register =
    if_both (IsCleared register) (not calls.opened)
      (λ _. ((λ i b side h. h), λ done. absurd (ground arith)))
      (λ _.
        if_both (IsCleared register) (not calls.sought)
          (λ _. ((λ i b side h. h), λ done. absurd (ground arith)))
          (λ _. (
            (λ i b side h.
                write_at-get_elem? marker_offset i b (take calls.written zeros) register
                  (outside calls.written i side) h),
            λ done. zeros-cold calls.written register (ground arith),
          )))
