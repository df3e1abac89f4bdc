-- ===== src/Router/Table.antt =====
-- backend/api/RequestHandler.cpp: theorems on the table of the requests that are open.
use everest_ui.Base.{
  ℕ, suc, ◌≤◌, Bool, true, false, ◌&&◌, not, [], ◌∷◌, Option, none, some, ◌==◌, ◌≡◌, refl, ap,
  subst, ltb, leb, arith, if_both, Bool-cases, inl, inr,
}
use everest_ui.Base.Int.{ℤ, pos, negsuc}
use everest_ui.Api.Types.{same_id}
use everest_ui.Router.State.{
  RequestContext, Contexts, find_context, remove_context, insert_context, Handler, is_pcap_write,
  remove_pcap_write_context, remove_write, is_positive,
}

-- A request of this connection: it is newer than the first number, not newer than the second, and
-- of the generation.
abbrev pub is_open : (since counter generation : ℕ) → ℤ → RequestContext → Bool
is_open since counter generation (pos n) c =
    ltb since n && leb n counter && c.connection_generation == generation
is_open since counter generation (negsuc n) c = false

unfoldable pub are_open : (since counter generation : ℕ) → Contexts → Bool
are_open since counter generation [] = true
are_open since counter generation ((key, c) ∷ cs) =
    is_open since counter generation key c && are_open since counter generation cs

pub are_open_none : (since counter generation : ℕ) → are_open since counter generation [] ≡ true
unfolding are_open
are_open_none since counter generation = refl

pub are_open-remove :
    (since counter generation : ℕ) (id : ℤ) (cs : Contexts)
    → are_open since counter generation cs ≡ true
    → are_open since counter generation (remove_context id cs) ≡ true
unfolding are_open remove_context
are_open-remove since counter generation id [] h = refl
are_open-remove since counter generation id ((key, c) ∷ cs) h =
    let rest = are_open-remove since counter generation id cs (ground arith) in ground arith

is_open_moved :
    (since counter generation : ℕ) (id key : ℤ) (d : RequestContext)
    → is_open since counter generation id d ≡ true
    → same_id key id ≡ true
    → is_open since counter generation key d ≡ true
unfolding same_id
is_open_moved since counter generation (pos a) (pos b) d o h = ground arith
is_open_moved since counter generation (negsuc a) key d o h = absurd (ground arith)
is_open_moved since counter generation (pos a) (negsuc b) d o h = absurd (ground arith)

pub are_open-insert :
    (since counter generation : ℕ) (id : ℤ) (d : RequestContext) (cs : Contexts)
    → is_open since counter generation id d ≡ true
    → are_open since counter generation cs ≡ true
    → are_open since counter generation (insert_context id d cs) ≡ true
unfolding are_open insert_context
are_open-insert since counter generation id d [] o h = rw o
are_open-insert since counter generation id d ((key, c) ∷ cs) o h =
    if_both (λ cs. are_open since counter generation cs ≡ true) (same_id key id)
      (λ same. let k = is_open_moved since counter generation id key d o same in ground arith)
      (λ _.
        let rest = are_open-insert since counter generation id d cs o (ground arith) in
        ground arith)

pub are_open-later :
    (since counter generation : ℕ) (cs : Contexts)
    → are_open since counter generation cs ≡ true
    → are_open since (suc counter) generation cs ≡ true
unfolding are_open
are_open-later since counter generation [] h = refl
are_open-later since counter generation ((pos n, c) ∷ cs) h =
    let rest = are_open-later since counter generation cs (ground arith) in ground arith
are_open-later since counter generation ((negsuc n, c) ∷ cs) h = absurd (ground arith)

pub are_open-find :
    (since counter generation : ℕ) (n : ℕ) (cs : Contexts)
    → are_open since counter generation cs ≡ true
    → n ≤ since
    → find_context (pos n) cs ≡ none
unfolding are_open find_context same_id
are_open-find since counter generation n [] h old = refl
are_open-find since counter generation n ((pos k, c) ∷ cs) h old =
    let rest = are_open-find since counter generation n cs (ground arith) old in ground arith
are_open-find since counter generation n ((negsuc k, c) ∷ cs) h old = absurd (ground arith)

same_id_eq : (a b : ℤ) → same_id a b ≡ true → a ≡ b
unfolding same_id
same_id_eq (pos a) (pos b) h = ap pos (ground arith)
same_id_eq (negsuc a) (negsuc b) h = ap negsuc (ground arith)
same_id_eq (pos a) (negsuc b) h = absurd (ground arith)
same_id_eq (negsuc a) (pos b) h = absurd (ground arith)

abbrev Opened : (since counter generation : ℕ) → ℤ → Option RequestContext → Type 0
Opened since counter generation key none = ⊥
Opened since counter generation key (some c) = is_open since counter generation key c ≡ true

pub are_open-find_open :
    (since counter generation : ℕ) (id : ℤ) (cs : Contexts) (c : RequestContext)
    → are_open since counter generation cs ≡ true
    → find_context id cs ≡ some c
    → is_open since counter generation id c ≡ true
unfolding are_open find_context
are_open-find_open since counter generation id [] c h e = absurd (ground arith)
are_open-find_open since counter generation id ((key, d) ∷ cs) c h e =
    elim (Bool-cases (same_id key id)) [
      | inl same ↦
          let found : some d ≡ some c = rw (← e, find_context, same) refl in
          subst (λ k. is_open since counter generation k c ≡ true) (same_id_eq key id same)
            (subst (Opened since counter generation key) found
              (let o : is_open since counter generation key d ≡ true = ground arith in o))
      | inr other ↦
          are_open-find_open since counter generation id cs c (ground arith)
            (rw (← e, find_context, other) refl)
    ]

removed_write :
    (since counter generation : ℕ) (id : ℤ) (o : Option RequestContext) (s : Handler)
    → are_open since counter generation s.request_contexts ≡ true
    → (cs : Contexts) × (remove_write id o s ≡ record s { request_contexts = cs })
      × (are_open since counter generation cs ≡ true)
unfolding remove_write
removed_write since counter generation id none s h = (s.request_contexts, refl, h)
removed_write since counter generation id (some c) s h =
    if_both P (c.connection_generation == s.connection_generation && is_pcap_write c)
      (λ _. (
        remove_context id s.request_contexts,
        refl,
        are_open-remove since counter generation id s.request_contexts h,
      ))
      (λ _. (s.request_contexts, refl, h))
  where
    P : Handler → Type 0
    P s' =
        (cs : Contexts) × (s' ≡ record s { request_contexts = cs })
        × (are_open since counter generation cs ≡ true)

-- Without a positive id, or with another context, nothing is removed.
pub remove_pcap_write_open :
    (since counter generation : ℕ) (id : ℤ) (s : Handler)
    → are_open since counter generation s.request_contexts ≡ true
    → (cs : Contexts) × (remove_pcap_write_context id s ≡ record s { request_contexts = cs })
      × (are_open since counter generation cs ≡ true)
unfolding remove_pcap_write_context
remove_pcap_write_open since counter generation id s h =
    if_both P (not (is_positive id)) (λ _. (s.request_contexts, refl, h))
      (λ _. written (find_context id s.request_contexts))
  where
    P : Handler → Type 0
    P s' =
        (cs : Contexts) × (s' ≡ record s { request_contexts = cs })
        × (are_open since counter generation cs ≡ true)

    written : (o : Option RequestContext) → P (remove_write id o s)
    written o = removed_write since counter generation id o s h
