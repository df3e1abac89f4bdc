-- ===== src/Reset/Cold.antt =====
-- backend/webserver/auth/PasswordReset.cpp: theorems on the first `initialize` of a boot.
use everest_ui.Base.{
  ℕ, ◌+◌, ◌*◌, ◌<◌, Bool, true, false, ◌||◌, not, List, [], Option, none, some, ◌≡◌, refl,
  if◌then◌else◌, arith, ltb, is_empty, if_both, sym, ◌∙◌, subst,
}
use everest_ui.Base.Text.{Text, contains, trimmed}
use everest_ui.Qt.{Qt}
use everest_ui.Reset.State.{
  PasswordReset, new_process, is_cold, Classification, unset, cold, warm, invalid,
}
use everest_ui.Reset.Marker.{ClearCalls, read_marker, classify}
use everest_ui.Reset.File.{StateFile, Load, SaveCalls, load, save}
use everest_ui.Reset.Process.{
  Boot, World, finish, record_boot, first_boot, initialize_loaded, initialize_boot, initialize,
}

cold_marker :
    (readable : Bool) (register : List ℕ)
    → is_cold (classify (if readable then read_marker register else [])) ≡ true
    → (readable ≡ true) × (classify (read_marker register) ≡ cold)
cold_marker true register h = (refl, only_cold (classify (read_marker register)) h)
  where
    only_cold : (c : Classification) → is_cold c ≡ true → c ≡ cold
    only_cold cold h = refl
    only_cold unset h = absurd (ground arith)
    only_cold warm h = absurd (ground arith)
    only_cold invalid h = absurd (ground arith)
cold_marker false register h = absurd (unfold classify in ground arith)

module _ (q : Qt) where
  finish_allowed :
      (clear : ClearCalls) (second : SaveCalls) (w : World)
      → (finish q clear second w).process.allowed ≡ true
      → ((w.process).allowed ≡ true)
        × ((finish q clear second w).process.deadline ≡ (w.process).deadline)
  unfolding finish save
  finish_allowed clear second w h = (ground arith, ground arith)

  save_same :
      (calls : SaveCalls) (file : StateFile) (p : PasswordReset)
      → ((save q calls file p).0.allowed ≡ p.allowed)
        × ((save q calls file p).0.deadline ≡ p.deadline)
  unfolding save
  save_same calls file p = (ground arith, ground arith)

  record_boot_allowed :
      (first second : SaveCalls) (clear : ClearCalls) (w : World)
      → (record_boot q first second clear w).process.allowed ≡ true
      → ((w.process).allowed ≡ true)
        × ((record_boot q first second clear w).process.deadline ≡ (w.process).deadline)
  unfolding record_boot
  record_boot_allowed first second clear w =
      let (allowed, deadline) = save_same first w.file w.process in
      let w' : World = record w {
        process = (save q first w.file w.process).0;
        file = (save q first w.file w.process).1;
      } in
      let P = λ (v : World).
        v.process.allowed ≡ true
        → ((w.process).allowed ≡ true) × (v.process.deadline ≡ (w.process).deadline) in
      if_both P (not (save q first w.file w.process).2) (λ _ h. (sym allowed ∙ h, deadline))
        (λ _ h. let (a, d) = finish_allowed clear second w' h in (sym allowed ∙ a, d ∙ deadline))

  -- The boot that is recorded behind a missing state file.
  initialize_missing_allowed :
      (boot : Boot) (t : ℕ) (first second : SaveCalls) (clear : ClearCalls) (w : World)
      (p : PasswordReset)
      → let v = initialize_loaded q boot t first second clear w (p, Load.missing) in
        v.process.allowed ≡ true
        → (p.enabled ≡ true)
          × (is_cold (classify (if boot.marker_readable then read_marker w.register else []))
              ≡ true)
          × (v.process.deadline ≡ t + p.window_seconds * 1000)
  unfolding initialize_loaded first_boot
  initialize_missing_allowed boot t first second clear w p h =
      let w' : World = record w { process = first_boot q boot t w.register p } in
      let (a, d) = record_boot_allowed first second clear w' h in (ground arith, ground arith, d)

  initialize_boot_allowed :
      (boot : Boot) (raw : Text) (start : Option ℕ) (first second : SaveCalls) (clear : ClearCalls)
      (w : World)
      → w.file ≡ StateFile.missing
      → (w.process).allowed ≡ false
      → let v = initialize_boot q boot raw start first second clear w in
        v.process.allowed ≡ true
        → ((w.process).enabled ≡ true)
          × (is_cold (classify (if boot.marker_readable then read_marker w.register else []))
              ≡ true)
          × (boot.locked ≡ true)
          × ((t : ℕ) × (start ≡ some t)
              × (v.process.deadline ≡ t + (w.process).window_seconds * 1000))
  unfolding initialize_boot
  initialize_boot_allowed boot raw none first second clear w gone shut = λ h. absurd (ground arith)
  initialize_boot_allowed boot raw (some t) first second clear w gone shut =
      let p = record (w.process) { boot_id = trimmed q.is_space raw } in
      let fresh : load q w.file p ≡ (p, Load.missing) = rw gone (unfold load in refl) in
      let P = λ (v : World).
        v.process.allowed ≡ true
        → ((w.process).enabled ≡ true)
          × (is_cold (classify (if boot.marker_readable then read_marker w.register else []))
              ≡ true)
          × (boot.locked ≡ true)
          × ((x : ℕ) × (some t ≡ some x)
              × (v.process.deadline ≡ x + (w.process).window_seconds * 1000)) in
      if_both P (is_empty (trimmed q.is_space raw)) (λ _ h. absurd (ground arith))
        (λ _.
          if_both P (not boot.locked) (λ _ h. absurd (ground arith))
            (λ held.
              subst (λ r. P (initialize_loaded q boot t first second clear w r)) (sym fresh)
                (λ h.
                  let (enabled, cold_start, deadline) =
                    initialize_missing_allowed boot t first second clear w p h in
                  (enabled, cold_start, ground arith, (t, refl, deadline)))))

  -- On a boot that has no state file yet, a new process gets an allowance only in a runtime directory,
  -- under the lock, with a window that is not zero, and if the marker says a cold start; and the
  -- allowance ends that window after the process has started.
  pub initialize_allowed :
      (boot : Boot) (window : ℕ) (start : Option ℕ) (first second : SaveCalls) (clear : ClearCalls)
      (register : List ℕ)
      → let w : World = record {
        process = new_process window start;
        file = StateFile.missing;
        register = register;
      } in
        let p = (initialize q boot first second clear w).process in
        p.allowed ≡ true
        → (0 < window)
          × (boot.is_directory ≡ true)
          × (boot.locked ≡ true)
          × (boot.marker_readable ≡ true)
          × (classify (read_marker register) ≡ cold)
          × ((t : ℕ) × (start ≡ some t) × (p.deadline ≡ t + window * 1000))
  unfolding initialize
  initialize_allowed boot window start first second clear register =
      if_both Earned
        (is_empty boot.directory
          || contains b':' boot.directory
          || not boot.is_absolute
          || not boot.is_directory)
        (λ _ h. absurd (ground arith)) (λ usable. known boot.boot_id (ground arith))
    where
      enabled : PasswordReset
      enabled = record (new_process window start) { enabled = ltb 0 window }

      w : World
      w = record { process = enabled; file = StateFile.missing; register = register }

      Earned : World → Type 0
      Earned v =
          v.process.allowed ≡ true
          → (0 < window)
            × (boot.is_directory ≡ true)
            × (boot.locked ≡ true)
            × (boot.marker_readable ≡ true)
            × (classify (read_marker register) ≡ cold)
            × ((t : ℕ) × (start ≡ some t) × (v.process.deadline ≡ t + window * 1000))

      known :
          (id : Option Text)
          → boot.is_directory ≡ true
          → Earned (elim id [
            | none ↦ w
            | some raw ↦ initialize_boot q boot raw start first second clear w
          ])
      known none there h = absurd (ground arith)
      known (some raw) there h =
          let (window_open, cold_start, held, time) =
            initialize_boot_allowed boot raw start first second clear w refl refl h in
          let (readable, marker) = cold_marker boot.marker_readable register cold_start in
          (ground arith, there, held, readable, marker, time)
