-- ===== src/Reset/Process.antt =====
-- backend/webserver/auth/PasswordReset.cpp: `initialize`.
use everest_ui.Base.{
  ℕ, ◌+◌, ◌*◌, Bool, true, false, ◌&&◌, ◌||◌, not, List, [], Option, none, some, if◌then◌else◌, ltb,
  is_empty,
}
use everest_ui.Base.Text.{Text, trimmed, contains}
use everest_ui.Qt.{Qt}
use everest_ui.Reset.State.{is_invalid, is_cold, PasswordReset}
use everest_ui.Reset.Marker.{ClearCalls, read_marker, classify, clear_marker}
use everest_ui.Reset.File.{StateFile, Load, SaveCalls, load, save}

-- What the process finds in the system when it starts.
pub record Boot : Type 0 where
  -- RUNTIME_DIRECTORY, and whether that is an absolute path and a directory
  pub directory : Text
  pub is_absolute : Bool
  pub is_directory : Bool
  -- the contents of /proc/sys/kernel/random/boot_id, if it can be opened
  pub boot_id : Option Text
  pub locked : Bool
  -- the marker can be opened for reading
  pub marker_readable : Bool

-- The process, the state file and the marker after a call.
pub record World : Type 0 where
  pub process : PasswordReset
  pub file : StateFile
  pub register : List ℕ

module _ (q : Qt) where
  -- The part of `initialize` behind the first `save`: the marker is cleared, and that is recorded.
  unfoldable pub finish : ClearCalls → SaveCalls → World → World
  finish clear second w =
      let p = record (w.process) { valid = true } in
      if not p.pending
      then record w { process = p }
      else let (register, cleared) = clear_marker clear w.register in
        let p' = if cleared then record p { pending = false } else record p { allowed = false } in
        let (p'', file, _) = save q second w.file p' in
        record { process = p''; file = file; register = register }

  -- The first `save`, behind which the rest is done if it succeeds.
  unfoldable pub record_boot : (first second : SaveCalls) → ClearCalls → World → World
  record_boot first second clear w =
      let (p, file, saved) = save q first w.file w.process in
      let w' = record w { process = p; file = file } in
      if not saved then w' else finish clear second w'

  -- The state of a boot that has no state file yet, from the marker.
  unfoldable pub first_boot : Boot → ℕ → List ℕ → PasswordReset → PasswordReset
  first_boot boot start register p =
      let c = classify (if boot.marker_readable then read_marker register else []) in
      record p {
        deadline = start + p.window_seconds * 1000;
        classification = c;
        allowed = p.enabled && is_cold c;
        pending = not (is_invalid c);
      }

  -- `initialize` behind the lock.
  unfoldable pub initialize_loaded :
      Boot → ℕ → (first second : SaveCalls) → ClearCalls → World → PasswordReset × Load → World
  initialize_loaded boot start first second clear w (p, Load.invalid) = record w {
    process = record p { process_blocked = true };
  }
  initialize_loaded boot start first second clear w (p, Load.missing) =
      record_boot first second clear (record w { process = first_boot boot start w.register p })
  initialize_loaded boot start first second clear w (p, Load.valid) =
      if p.pending
      then record_boot first second clear (record w { process = record p { allowed = false } })
      else finish clear second (record w { process = p })

  unfoldable pub initialize_boot :
      Boot → Text → Option ℕ → (first second : SaveCalls) → ClearCalls → World → World
  initialize_boot boot id none first second clear w = w
  initialize_boot boot id (some start) first second clear w =
      let id' = trimmed q.is_space id in
      let p = record (w.process) { boot_id = id' } in
      if is_empty id'
      then record w { process = p }
      else if not boot.locked
      then record w { process = record p { process_blocked = true } }
      else initialize_loaded boot start first second clear w (load q w.file p)

  unfoldable pub initialize : Boot → (first second : SaveCalls) → ClearCalls → World → World
  initialize boot first second clear w =
      if is_empty boot.directory
        || contains b':' boot.directory
        || not boot.is_absolute
        || not boot.is_directory
      then w
      else let p = record (w.process) { enabled = ltb 0 (w.process).window_seconds } in
        let w' = record w { process = p } in
        elim boot.boot_id [
          | none ↦ w'
          | some id ↦ initialize_boot boot id p.start first second clear w'
        ]
