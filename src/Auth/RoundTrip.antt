-- ===== src/Auth/RoundTrip.antt =====
-- backend/webserver/auth/AuthManager.cpp: theorems on `createUser`, with `save`, `load` and
-- `authenticate`.
use everest_ui.Base.{
  ℕ, true, false, [], ◌∷◌, none, ◌≡◌, refl, if◌then◌else◌, arith, All, all, map, length, is_empty,
  sym, ap, ◌∙◌, Bool-cases, inl, inr, ◌%◌,
}
use everest_ui.Base.Text.{
  Text, codes, eqb, eqb_refl, eqb_iff, trimmed, trimmed-All_kept, before_final_newline,
  before_final_newline-trimmed,
}
use everest_ui.Base.Int.{pos}
use everest_ui.Base.Json.{num, undefined, obj, Fields, value}
use everest_ui.Qt.{Qt, QtLaws, is_name_char, lower_char}
use everest_ui.Auth.State.{
  UserRecord, empty_user, AuthManager, new_manager, matches_username, is_username_valid,
  account_name, hash_password, is_user_record_valid, create_random_token, salt_bytes, random_bytes,
}
use everest_ui.Auth.File.{
  AuthFile, contents, SaveCalls, read_user, write_user, load_user, load_document, load_file, load,
  document, save,
}
use everest_ui.Auth.Manager.{new_user, create_user, authenticate}

all→All : (s : Text) → all is_name_char s ≡ true → All (λ c. is_name_char c ≡ true) s
all→All [] h = tt
all→All (c ∷ s) h = (ground (arith), all→All s (ground arith))

all-map_lower :
    (s : Text) → All (λ c. is_name_char c ≡ true) s → all is_name_char (map lower_char s) ≡ true
unfolding is_name_char
all-map_lower [] h = refl
all-map_lower (c ∷ s) h = ground (arith, all-map_lower s h.1)

length-map_lower : (s : Text) → length (map lower_char s) ≡ length s
length-map_lower [] = refl
length-map_lower (c ∷ s) = omega (arith, length-map_lower s)

module _ (q : Qt) (laws : QtLaws q) where
  All-kept : (s : Text) → all is_name_char s ≡ true → All (λ c. q.is_space c ≡ false) s
  All-kept [] h = tt
  All-kept (c ∷ s) h = (laws.space_name c (ground arith), All-kept s (ground arith))

  before_final_newline-name : (s : Text) → all is_name_char s ≡ true → before_final_newline s ≡ s
  before_final_newline-name s h =
      let e = trimmed-All_kept q.is_space s (All-kept s h) in
      ap before_final_newline (sym e)
      ∙ before_final_newline-trimmed q.is_space laws.space_newline s
      ∙ e

  matches-to_lower :
      (t : Text)
      → before_final_newline t ≡ t
      → matches_username t ≡ true
      → is_username_valid q (q.to_lower t) ≡ true
  unfolding matches_username
  matches-to_lower t e h =
      let named : all is_name_char t ≡ true = ground (arith, rw e at h) in
      let low = all-map_lower t (all→All t named) in
      rw (laws.lower_name t (all→All t named)) (
        rw (trimmed-All_kept q.is_space (map lower_char t) (All-kept _ low)) (
          rw (before_final_newline-name (map lower_char t) low)
            (ground (arith, low, length-map_lower t, rw e at h))))

  -- The name that is stored for a valid username is itself a valid username.
  pub account_name-IsValid :
      (username : Text)
      → is_username_valid q username ≡ true
      → is_username_valid q (account_name q username) ≡ true
  account_name-IsValid username h =
      matches-to_lower (trimmed q.is_space username)
        (before_final_newline-trimmed q.is_space laws.space_newline username) h

  read_user-write_user :
      (u : UserRecord) (fs : Fields)
      → ((k : Text) → value k fs ≡ value k (write_user u))
      → read_user fs ≡ u
  unfolding read_user write_user value eqb
  read_user-write_user u fs same = simp same

  load_user-write_user :
      (m : AuthManager) (u : UserRecord)
      → is_user_record_valid q u ≡ true
      → load_user q m (obj (write_user u))
        ≡ (record m { user = u; has_user = true; loaded = true }, none)
  unfolding load_user
  load_user-write_user m u h = rw (read_user-write_user u (write_user u) (λ k. refl), h)

  value-version : (m : AuthManager) → value (codes "version") (document q m) ≡ num (pos 1)
  unfolding document value eqb
  value-version m = ground arith

  value-user :
      (m : AuthManager)
      → value (codes "user") (document q m)
        ≡ (if m.has_user then obj (write_user m.user) else undefined)
  unfolding document value eqb
  value-user m = elim (Bool-cases m.has_user) [ inl h ↦ rw h | inr h ↦ rw h ]

  -- What `save` wrote is loaded again, with or without an account.
  pub load-document :
      (m m0 : AuthManager)
      → (m.has_user ≡ true → is_user_record_valid q m.user ≡ true)
      → load q m0 (contents (q.to_json (document q m))) ≡ (
        record m0 {
          loaded = true;
          has_user = m.has_user;
          user = if m.has_user then m.user else empty_user;
        },
        none,
      )
  unfolding load load_file load_document
  load-document m m0 valid =
      let (gs, parsed, same) = laws.json_members (document q m) in
      elim (Bool-cases m.has_user) [
        | inl h ↦
            rw (parsed, load_document)
              (rw (same (codes "version") ∙ value-version m, same (codes "user") ∙ value-user m)
                (rw h (load_user-write_user _ m.user (valid h))))
        | inr h ↦
            rw (parsed, load_document)
              (rw (same (codes "version") ∙ value-version m, same (codes "user") ∙ value-user m)
                (rw h (unfold load_user in refl)))
      ]

  -- What a successful `createUser` has checked and done.
  pub create_user_inv :
      (calls : SaveCalls) (generate : ℕ → ℕ) (at : ℕ) (timestamp username password : Text)
      (m : AuthManager) (file : AuthFile)
      → (create_user q calls generate at timestamp username password m file).error ≡ none
      → let u =
          new_user q username password (create_random_token q generate at salt_bytes) timestamp in
        let r = create_user q calls generate at timestamp username password m file in
        let m' = record m { user = u; has_user = true } in
        (m.loaded ≡ true)
        × (m.has_user ≡ false)
        × (is_username_valid q username ≡ true)
        × (r.manager ≡ m')
        × (r.file ≡ contents (q.to_json (document q m')))
  unfolding create_user save
  create_user_inv calls generate at timestamp username password m file e = ground arith

  new_user-IsValid :
      (generate : ℕ → ℕ) (at : ℕ) (timestamp username password : Text)
      → is_username_valid q username ≡ true
      → is_empty timestamp ≡ false
      → is_user_record_valid q
          (new_user q username password (create_random_token q generate at salt_bytes) timestamp)
        ≡ true
  unfolding is_user_record_valid random_bytes
  new_user-IsValid generate at timestamp username password h dated = rw (
    account_name-IsValid username h,
    laws.hash_nonempty _,
    laws.base64_nonempty (generate at % 256) _,
    dated,
  )

  -- An account that was created is found again by the next process, and there its username and
  -- password log in; any other pair logs in only if it has the same account name, and the same
  -- hash under the stored salt.
  pub create_user-load :
      (calls : SaveCalls) (generate : ℕ → ℕ) (at : ℕ) (timestamp username password : Text)
      (m : AuthManager) (file : AuthFile)
      → is_empty timestamp ≡ false
      → (create_user q calls generate at timestamp username password m file).error ≡ none
      → let salt = create_random_token q generate at salt_bytes in
        let r = create_user q calls generate at timestamp username password m file in
        let restarted = load q new_manager r.file in
        (restarted.1 ≡ none)
        × (restarted.0.user ≡ r.manager.user)
        × (authenticate q restarted.0 username password ≡ true)
        × ((u p : Text)
            → authenticate q restarted.0 u p ≡ true
            → (account_name q u ≡ account_name q username)
              × (hash_password q p salt ≡ hash_password q password salt))
  create_user-load calls generate at timestamp username password m file dated e =
      let (loaded, free, valid, made, wrote) =
        create_user_inv calls generate at timestamp username password m file e in
      let u =
        new_user q username password (create_random_token q generate at salt_bytes) timestamp in
      let found =
        load-document (record m { user = u; has_user = true }) new_manager
          (λ _. new_user-IsValid generate at timestamp username password valid dated) in
      rw (made, wrote)
        (rw found (
          refl,
          refl,
          unfold authenticate in
              (rw (eqb_refl (account_name q username))
                (eqb_refl (hash_password q password u.salt))),
          λ v p h.
              unfold authenticate in
              (
                ground (arith, eqb_iff (account_name q v) u.username),
                ground (
                  arith,
                  eqb_iff (account_name q v) u.username,
                  eqb_iff (hash_password q p u.salt) u.password,
                ),
              ),
        ))
