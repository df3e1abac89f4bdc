-- ===== src/Reset/Spent.antt =====
-- backend/webserver/auth/PasswordReset.cpp: lemmas on a state file that gives no allowance.
use everest_ui.Base.{
  ℕ, Bool, true, false, not, ◌||◌, Option, none, some, ◌≡◌, ◌≢◌, refl, ◌⊎◌, inl, inr, arith,
  Bool-cases, sym, ◌∙◌, ap, ltb, length, subst,
}
use everest_ui.Base.Text.{Text, codes, eqb, eqb_iff}
use everest_ui.Base.Json.{Json, bool, obj, Fields, value, to_string}
use everest_ui.Qt.{Qt, QtLaws}
use everest_ui.Auth.State.{AuthManager}
use everest_ui.Auth.File.{AuthFile, SaveCalls as AuthCalls}
use everest_ui.Reset.State.{Classification, PasswordReset, reason}
use everest_ui.Reset.File.{
  StateFile, contents, Load, SaveCalls, accept, document, load_document, load, save,
}
use everest_ui.Reset.Calls.{reload, spend, reset}

-- The file was refused, or gives a process no allowance.
abbrev pub IsRefused : PasswordReset × Load → Type 0
IsRefused r = (r.1 ≡ Load.invalid) ⊎ ((r.1 ≡ Load.valid) × (r.0.allowed ≡ false))

accept-IsRefused :
    (o : Fields) (c : Option Classification) (d : Option ℕ) (p : PasswordReset)
    → value (codes "resetAllowed") o ≡ bool false
    → to_string (value (codes "bootId") o) ≡ p.boot_id
    → IsRefused (accept o c d p)
unfolding accept
accept-IsRefused o none d p spent same = inl refl
accept-IsRefused o (some c) none p spent same = inl refl
accept-IsRefused o (some c) (some d) p spent same =
    ground (arith, eqb_iff (to_string (value (codes "bootId") o)) p.boot_id)

accept-boot_id :
    (o : Fields) (c : Option Classification) (d : Option ℕ) (p : PasswordReset)
    → (accept o c d p).0.boot_id ≡ p.boot_id
unfolding accept
accept-boot_id o none d p = refl
accept-boot_id o (some c) none p = refl
accept-boot_id o (some c) (some d) p = ground arith

module _ (q : Qt) where
  -- The state file gives no process of boot `id` an allowance.
  unfoldable pub IsSpent : Text → StateFile → Type 0
  IsSpent id file = (p : PasswordReset) → p.boot_id ≡ id → IsRefused (load q file p)

  load_document-boot_id :
      (p : PasswordReset) (j : Option Json) → (load_document q p j).0.boot_id ≡ p.boot_id
  unfolding load_document
  load_document-boot_id p (some (obj o)) = accept-boot_id o _ _ p
  load_document-boot_id p _ = refl

  pub load-boot_id : (file : StateFile) (p : PasswordReset) → (load q file p).0.boot_id ≡ p.boot_id
  unfolding load
  load-boot_id (contents bytes) p = ground (arith, load_document-boot_id p (q.from_json bytes))
  load-boot_id _ p = refl

  spend_refused :
      (now : Option ℕ) (calls : SaveCalls) (auth_calls : AuthCalls) (file : StateFile)
      (m : AuthManager) (auth_file : AuthFile) (p : PasswordReset)
      → p.allowed ≡ false
      → let r = spend q now calls auth_calls file m auth_file p in (r.code ≡ 403) × (r.file ≡ file)
  unfolding spend reason
  spend_refused now calls auth_calls file m auth_file p h = ground arith

  -- On a spent file a reset is refused, and the file stays as it is.
  pub reset_spent :
      (locked : Bool) (now : Option ℕ) (calls : SaveCalls) (auth_calls : AuthCalls)
      (file : StateFile) (m : AuthManager) (auth_file : AuthFile) (p : PasswordReset)
      → IsSpent p.boot_id file
      → let r = reset q locked now calls auth_calls file m auth_file p in
        (r.code ≢ 200) × (r.file ≡ file)
  unfolding reset reload IsSpent
  reset_spent locked now calls auth_calls file m auth_file p h =
      let again = h p refl in
      let refused = spend_refused now calls auth_calls file m auth_file (load q file p).0 in
      ground arith

  pub spend_inv :
      (now : Option ℕ) (calls : SaveCalls) (auth_calls : AuthCalls) (file : StateFile)
      (m : AuthManager) (auth_file : AuthFile) (p : PasswordReset)
      → (spend q now calls auth_calls file m auth_file p).code ≡ 200
      → (spend q now calls auth_calls file m auth_file p).file
        ≡ contents (q.to_json (document (record p { allowed = false })))
  unfolding spend save
  spend_inv now calls auth_calls file m auth_file p h = ground arith

  -- A reset that is not refused early goes on with what it loads.
  pub reset_inv :
      (locked : Bool) (now : Option ℕ) (calls : SaveCalls) (auth_calls : AuthCalls)
      (file : StateFile) (m : AuthManager) (auth_file : AuthFile) (p : PasswordReset)
      → (reset q locked now calls auth_calls file m auth_file p).code ≡ 200
      → (p.enabled ≡ true)
        × (p.process_blocked ≡ false)
        × (p.valid ≡ true)
        × (locked ≡ true)
        × ((load q file p).1 ≡ Load.valid)
        × (reset q locked now calls auth_calls file m auth_file p
            ≡ spend q now calls auth_calls file m auth_file (load q file p).0)
  unfolding reset reload
  reset_inv locked now calls auth_calls file m auth_file p h = ground arith

module _ (q : Qt) (laws : QtLaws q) where
  pub document-IsSpent :
      (p : PasswordReset)
      → p.allowed ≡ false
      → IsSpent q p.boot_id (contents (q.to_json (document p)))
  unfolding IsSpent load load_document
  document-IsSpent p spent r same =
      let (gs, parsed, members) = laws.json_members (document p) in
      elim (Bool-cases (ltb 4096 (length (q.to_json (document p))))) [
        | inl large ↦ rw large (inl refl)
        | inr small ↦
            rw (small, parsed)
              (unfold document value eqb in
                accept-IsRefused gs _ _ r (members (codes "resetAllowed") ∙ ap bool spent)
                  (ap to_string (members (codes "bootId")) ∙ sym same))
      ]

  -- A reset that succeeds leaves a spent file.
  pub reset-IsSpent :
      (locked : Bool) (now : Option ℕ) (calls : SaveCalls) (auth_calls : AuthCalls)
      (file : StateFile) (m : AuthManager) (auth_file : AuthFile) (p : PasswordReset)
      → (reset q locked now calls auth_calls file m auth_file p).code ≡ 200
      → IsSpent q p.boot_id (reset q locked now calls auth_calls file m auth_file p).file
  reset-IsSpent locked now calls auth_calls file m auth_file p h =
      let (enabled, free, ready, held, loaded, same) =
        reset_inv q locked now calls auth_calls file m auth_file p h in
      let p' = (load q file p).0 in
      let after = contents (q.to_json (document (record p' { allowed = false }))) in
      rw (same, spend_inv q now calls auth_calls file m auth_file p' (rw same at h))
        (subst (λ id. IsSpent q id after) (load-boot_id q file p)
          (document-IsSpent (record p' { allowed = false }) refl))

  pub save-IsSpent :
      (calls : SaveCalls) (file : StateFile) (p : PasswordReset) {id : Text}
      → p.allowed ≡ false
      → p.boot_id ≡ id
      → IsSpent q id file
      → IsSpent q id (save q calls file p).1
  unfolding save
  save-IsSpent calls file p {id} spent same h =
      elim (Bool-cases
        (not calls.opened || not calls.permitted || not calls.written || not calls.committed)) [
          | inl failed ↦ rw failed h
          | inr written ↦ rw written (
              subst (λ i. IsSpent q i (contents (q.to_json (document p)))) same
                (document-IsSpent p spent))
        ]
