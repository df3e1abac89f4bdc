-- ===== src/Factory/Coverage.antt =====
-- backend/api/modules/FactoryResetRuntime.cpp: theorems on `resolveEvseIndices`.
use everest_ui.Base.{
  ℕ, true, false, List, [], ◌∷◌, ◌++◌, none, some, if◌then◌else◌, ◌==◌, ==_iff, is_empty, All, ◌≡◌,
  sym, subst, inl, inr, arith, Option-cases, Bool-cases,
}
use everest_ui.Base.Json.{Fields}
use everest_ui.Factory.Evse.{manager_index, contains_number, collect}

contains_number-append_left :
    (n : ℕ) (xs ys : List ℕ) → contains_number n xs ≡ true → contains_number n (xs ++ ys) ≡ true
contains_number-append_left n [] ys h = absurd (ground arith)
contains_number-append_left n (x ∷ xs) ys h = elim (Bool-cases (x == n)) [
  | inl e ↦ rw e
  | inr e ↦ rw e (contains_number-append_left n xs ys (rw (← h, e)))
]

contains_number-append_last : (n : ℕ) (xs : List ℕ) → contains_number n (xs ++ (n ∷ [])) ≡ true
contains_number-append_last n [] = ground (arith, ==_iff n n)
contains_number-append_last n (x ∷ xs) = let rest = contains_number-append_last n xs in ground arith

-- What `collect` adds to the result.
abbrev added : ℕ → List ℕ → List ℕ
added n result = if contains_number n result then result else result ++ (n ∷ [])

added_keeps :
    (m n : ℕ) (result : List ℕ)
    → contains_number m result ≡ true
    → contains_number m (added n result) ≡ true
added_keeps m n result h =
    let more = contains_number-append_left m result (n ∷ []) h in ground arith

added_has : (n : ℕ) (result : List ℕ) → contains_number n (added n result) ≡ true
added_has n result = let last = contains_number-append_last n result in ground arith

-- The number of the manager is one of the list.
pub record IsCovered (k : ℕ) (indices : List ℕ) (manager : Fields) : Type 0 where
  pub number : ℕ
  pub found : manager_index k manager ≡ some number
  pub listed : contains_number number indices ≡ true

collect-none :
    (k : ℕ) (result : List ℕ) (m : Fields) (ms : List Fields)
    → manager_index k m ≡ none
    → is_empty (collect k result (m ∷ ms)) ≡ true
unfolding collect
collect-none k result m ms e = rw (e, is_empty, collect)

collect-some :
    (k n : ℕ) (result : List ℕ) (m : Fields) (ms : List Fields)
    → manager_index k m ≡ some n
    → collect k result (m ∷ ms) ≡ collect k (added n result) ms
unfolding collect
collect-some k n result m ms e = rw (e, collect)

collect_keeps :
    (k n : ℕ) (result : List ℕ) (ms : List Fields)
    → contains_number n result ≡ true
    → is_empty (collect k result ms) ≡ false
    → contains_number n (collect k result ms) ≡ true
collect_keeps k n result [] h nonempty = unfold collect in h
collect_keeps k n result (m ∷ ms) h nonempty = elim (Option-cases (manager_index k m)) [
  | inl e ↦ absurd (let gone = collect-none k result m ms e in ground arith)
  | inr (i, e) ↦ rw (collect-some k i result m ms e) (
      collect_keeps k n (added i result) ms (added_keeps n i result h)
        (rw (← collect-some k i result m ms e) nonempty))
]

pub collect_covers :
    (k : ℕ) (result : List ℕ) (ms : List Fields)
    → is_empty (collect k result ms) ≡ false
    → All (IsCovered k (collect k result ms)) ms
collect_covers k result [] nonempty = tt
collect_covers k result (m ∷ ms) nonempty = elim (Option-cases (manager_index k m)) [
  | inl e ↦ absurd (let gone = collect-none k result m ms e in ground arith)
  | inr (i, e) ↦
      let step = collect-some k i result m ms e in
      let more : is_empty (collect k (added i result) ms) ≡ false = rw (← step) nonempty in
      subst (λ r. All (IsCovered k r) (m ∷ ms)) (sym step)
        (
          record {
            number = i;
            found = e;
            listed = collect_keeps k i (added i result) ms (added_has i result) more;
          },
          collect_covers k (added i result) ms more,
        )
]
