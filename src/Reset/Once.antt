-- ===== src/Reset/Once.antt =====
-- backend/webserver/auth/PasswordReset.cpp: the processes of one boot as steps, and a reset behind
-- a reset.
use everest_ui.Base.{
  ℕ, Bool, false, not, ◌||◌, Option, none, some, ◌≡◌, ◌≢◌, refl, inl, inr, arith, Bool-cases,
  if_both, sym, ltb, subst, is_empty,
}
use everest_ui.Base.Text.{Text, contains, trimmed}
use everest_ui.Qt.{Qt, QtLaws}
use everest_ui.Auth.State.{AuthManager}
use everest_ui.Auth.File.{AuthFile, SaveCalls as AuthCalls}
use everest_ui.Reset.State.{PasswordReset}
use everest_ui.Reset.Marker.{ClearCalls, clear_marker}
use everest_ui.Reset.File.{StateFile, Load, SaveCalls, load, save}
use everest_ui.Reset.Process.{
  Boot, World, finish, record_boot, initialize_loaded, initialize_boot, initialize,
}
use everest_ui.Reset.Calls.{reset}
use everest_ui.Reset.Spent.{
  IsRefused, IsSpent, load-boot_id, reset_spent, save-IsSpent, reset-IsSpent,
}

module _ (q : Qt) (laws : QtLaws q) where
  finish-IsSpent :
      (clear : ClearCalls) (second : SaveCalls) (w : World) {id : Text}
      → (w.process).allowed ≡ false
      → (w.process).boot_id ≡ id
      → IsSpent q id w.file
      → IsSpent q id (finish q clear second w).file
  unfolding finish
  finish-IsSpent clear second w spent same h = elim (Bool-cases (w.process).pending) [
    | inl pending ↦ rw pending (elim (Bool-cases (clear_marker clear w.register).1) [
      | inl cleared ↦ rw cleared (save-IsSpent q laws second w.file _ spent same h)
      | inr not_cleared ↦ rw not_cleared (save-IsSpent q laws second w.file _ refl same h)
    ])
    | inr clean ↦ rw clean h
  ]

  record_boot-IsSpent :
      (first second : SaveCalls) (clear : ClearCalls) (w : World) {id : Text}
      → (w.process).allowed ≡ false
      → (w.process).boot_id ≡ id
      → IsSpent q id w.file
      → IsSpent q id (record_boot q first second clear w).file
  unfolding record_boot
  record_boot-IsSpent first second clear w spent same h =
      let kept = save-IsSpent q laws first w.file w.process spent same h in
      elim (Bool-cases (save q first w.file w.process).2) [
        | inl saved ↦ rw saved (
            finish-IsSpent clear second
              (record w {
                process = (save q first w.file w.process).0;
                file = (save q first w.file w.process).1;
              })
              (unfold save in ground arith) (unfold save in ground arith) kept)
        | inr failed ↦ rw failed kept
      ]

  initialize_loaded-IsSpent :
      (boot : Boot) (start : ℕ) (first second : SaveCalls) (clear : ClearCalls) (w : World)
      (r : PasswordReset × Load) {id : Text}
      → IsRefused r
      → r.0.boot_id ≡ id
      → IsSpent q id w.file
      → IsSpent q id (initialize_loaded q boot start first second clear w r).file
  unfolding initialize_loaded
  initialize_loaded-IsSpent boot start first second clear w (p, Load.invalid) refused same h = h
  initialize_loaded-IsSpent boot start first second clear w (p, Load.missing) refused same h =
      absurd (ground arith)
  initialize_loaded-IsSpent boot start first second clear w (p, Load.valid) {id} refused same h =
      if_both (λ (v : World). IsSpent q id v.file) p.pending
        (λ pending.
          record_boot-IsSpent first second clear
            (record w { process = record p { allowed = false } }) refl same h)
        (λ clean. finish-IsSpent clear second (record w { process = p }) (ground arith) same h)

  initialize_boot-IsSpent :
      (boot : Boot) (raw : Text) (start : Option ℕ) (first second : SaveCalls) (clear : ClearCalls)
      (w : World)
      → IsSpent q (trimmed q.is_space raw) w.file
      → IsSpent q
          (trimmed q.is_space raw)
          (initialize_boot q boot raw start first second clear w).file
  unfolding initialize_boot
  initialize_boot-IsSpent boot raw none first second clear w h = h
  initialize_boot-IsSpent boot raw (some start) first second clear w h =
      let p = record (w.process) { boot_id = trimmed q.is_space raw } in
      let P = λ (v : World). IsSpent q (trimmed q.is_space raw) v.file in
      if_both P (is_empty (trimmed q.is_space raw)) (λ _. h)
        (λ known.
          if_both P (not boot.locked) (λ _. h)
            (λ held.
              initialize_loaded-IsSpent boot start first second clear w (load q w.file p)
                (unfold IsSpent in h p refl) (load-boot_id q w.file p) h))

  -- A process of the boot that starts on a spent file leaves it spent.
  pub initialize-IsSpent :
      (boot : Boot) (raw : Text) (first second : SaveCalls) (clear : ClearCalls) (w : World)
      → boot.boot_id ≡ some raw
      → IsSpent q (trimmed q.is_space raw) w.file
      → IsSpent q (trimmed q.is_space raw) (initialize q boot first second clear w).file
  unfolding initialize
  initialize-IsSpent boot raw first second clear w booted h =
      let w' = record w {
        process = record (w.process) { enabled = ltb 0 (w.process).window_seconds };
      } in
      elim (Bool-cases (
        is_empty boot.directory
        || contains b':' boot.directory
        || not boot.is_absolute
        || not boot.is_directory)) [
          | inl unusable ↦ rw unusable h
          | inr usable ↦
              rw (usable, booted)
                (initialize_boot-IsSpent boot raw (w.process).start first second clear w' h)
        ]

-- What the processes of one boot do to the state file: they start, and they reset.
pub data Step (q : Qt) (id : Text) : StateFile → StateFile → Type 0 where
  starts :
      (boot : Boot) (raw : Text) (first second : SaveCalls) (clear : ClearCalls) (w : World)
      → boot.boot_id ≡ some raw
      → trimmed q.is_space raw ≡ id
      → Step q id w.file (initialize q boot first second clear w).file
  resets :
      (locked : Bool) (now : Option ℕ) (calls : SaveCalls) (auth_calls : AuthCalls)
      (file : StateFile) (m : AuthManager) (auth_file : AuthFile) (p : PasswordReset)
      → p.boot_id ≡ id
      → Step q id file (reset q locked now calls auth_calls file m auth_file p).file

-- Any number of these, in any order.
pub data Steps (q : Qt) (id : Text) (file : StateFile) : StateFile → Type 0 where
  here : Steps q id file file
  next : {f g : StateFile} → Steps q id file f → Step q id f g → Steps q id file g

module _ (q : Qt) (laws : QtLaws q) {id : Text} where
  Step-IsSpent : {f g : StateFile} → Step q id f g → IsSpent q id f → IsSpent q id g
  Step-IsSpent (starts boot raw first second clear w booted same) h =
      subst (λ i. IsSpent q i (initialize q boot first second clear w).file) same
        (initialize-IsSpent q laws boot raw first second clear w booted
          (subst (λ i. IsSpent q i w.file) (sym same) h))
  Step-IsSpent (resets locked now calls auth_calls file m auth_file p same) h =
      let kept =
        reset_spent q locked now calls auth_calls file m auth_file p
          (subst (λ i. IsSpent q i file) (sym same) h) in
      rw (kept.1) h

  Steps-IsSpent : {f g : StateFile} → Steps q id f g → IsSpent q id f → IsSpent q id g
  Steps-IsSpent here h = h
  Steps-IsSpent (next s t) h = Step-IsSpent t (Steps-IsSpent s h)

-- After a reset that answered 200, whatever the processes of that boot do, no later reset of a
-- process of the same boot answers 200.
pub reset_once :
    (q : Qt) (laws : QtLaws q) (locked locked' : Bool) (now now' : Option ℕ)
    (calls calls' : SaveCalls) (auth_calls auth_calls' : AuthCalls) (file later : StateFile)
    (m m' : AuthManager) (auth_file auth_file' : AuthFile) (p p' : PasswordReset)
    → (reset q locked now calls auth_calls file m auth_file p).code ≡ 200
    → Steps q p.boot_id (reset q locked now calls auth_calls file m auth_file p).file later
    → p'.boot_id ≡ p.boot_id
    → (reset q locked' now' calls' auth_calls' later m' auth_file' p').code ≢ 200
reset_once q laws locked locked' now now' calls calls' auth_calls auth_calls' file later m m'
      auth_file auth_file' p p' h steps same =
    let spent =
      Steps-IsSpent q laws steps
        (reset-IsSpent q laws locked now calls auth_calls file m auth_file p h) in
    (reset_spent q locked' now' calls' auth_calls' later m' auth_file' p'
      (subst (λ i. IsSpent q i later) (sym same) spent)).0
