-- ===== src/Tests/Reset.antt =====
-- The password reset, at concrete inputs.
use everest_ui.Base.{
  ◌*◌, ℕ, ◌+◌, ◌<◌, true, false, List, [], ◌∷◌, ◌++◌, some, ◌≡◌, ◌≤◌, ◌≢◌, refl, ◌⊎◌, take,
}
use everest_ui.Base.Text.{contains, Text, codes, eqb, trimmed, drop_while, drop_while_end}
use everest_ui.Base.Json.{value}
use everest_ui.Auth.State.{logged_user, setup_required}
use everest_ui.Auth.File.{AuthFile, save as save_user}
use everest_ui.Auth.Manager.{reset_user}
use everest_ui.Auth.Session.{validate_session}
use everest_ui.Reset.State.{new_process, PasswordReset, reason, cold}
use everest_ui.Reset.Marker.{
  write_at, up_to, ClearCalls, clear_marker, marker_offset, read_marker, classify,
}
use everest_ui.Reset.File.{
  StateFile, contents, Load, SaveCalls, document, load, save, accept, read_classification,
  classification_text, read_deadline, matches_uuid, skip_hex,
}
use everest_ui.Reset.Process.{
  Boot, World, initialize, initialize_boot, initialize_loaded, first_boot, record_boot, finish,
}
use everest_ui.Reset.Cold.{initialize_allowed}
use everest_ui.Reset.Calls.{reset, spend, reload}
use everest_ui.Reset.Spent.{IsSpent}
use everest_ui.Reset.Once.{starts, Steps, here, next, reset_once}
use everest_ui.Reset.Allowance.{reset_allowed, reset_spends_first}
use everest_ui.Reset.Clear.{get_elem?, clear_marker_lem}
use everest_ui.Tests.Codec.{decode, encode}
use everest_ui.Tests.Sample.{sample, sample-QtLaws}
use everest_ui.Tests.Auth.{all_saved, manager}

abbrev pub all_written : SaveCalls
all_written = record { opened = true; permitted = true; written = true; committed = true }

abbrev uuid : Text
uuid = codes "01234567-89ab-cdef-0123-456789abcdef"

-- A process with an allowance until time 600000.
abbrev pub process : PasswordReset
process = record {
  window_seconds = 600;
  start = some 0;
  boot_id = uuid;
  deadline = 600000;
  classification = cold;
  pending = false;
  allowed = true;
  enabled = true;
  valid = true;
  process_blocked = false;
}

abbrev file : StateFile
file = contents (encode (document process))

loaded : load sample file process ≡ (process, Load.valid)
unfolding load accept document value eqb encode decode read_classification classification_text
    read_deadline matches_uuid skip_hex
loaded = refl

spent_once :
    (spend sample (some 1000) all_written all_saved file manager AuthFile.missing process).code
    ≡ 200
unfolding spend reason save reset_user save_user
spent_once = refl

accepted :
    (reset sample true (some 1000) all_written all_saved file manager AuthFile.missing process).code
    ≡ 200
unfolding reset reload
accepted = rw loaded spent_once

abbrev boot : Boot
boot = record {
  directory = codes "/run/everest-ui";
  is_absolute = true;
  is_directory = true;
  boot_id = some (uuid ++ (b'\n' ∷ []));
  locked = true;
  marker_readable = true;
}

abbrev all_cleared : ClearCalls
all_cleared = record { opened = true; sought = true; written = 4; flushed = true }

abbrev after : StateFile
after =
    (reset sample true (some 1000) all_written all_saved file manager AuthFile.missing process).file

abbrev world : World
world = record { process = process; file = after; register = [] }

-- The process starts again after the reset.
restarts :
    Steps sample uuid after (initialize sample boot all_written all_written all_cleared world).file
restarts = next here (
    starts boot (uuid ++ (b'\n' ∷ [])) all_written all_written all_cleared world refl
      (unfold trimmed drop_while drop_while_end in refl))

reset_once_example :
    (reset sample true
      (some 2000)
      all_written
      all_saved
      (initialize sample boot all_written all_written all_cleared world).file
      manager
      AuthFile.missing
      process).code
    ≢ 200
reset_once_example =
    reset_once sample sample-QtLaws true true (some 1000) (some 2000) all_written all_written
      all_saved all_saved file
      (initialize sample boot all_written all_written all_cleared world).file manager manager
      AuthFile.missing AuthFile.missing process process accepted restarts refl

reset_allowed_example :
    let r =
      reset sample true (some 1000) all_written all_saved file manager AuthFile.missing process in
    let p' = (load sample file process).0 in
    (true ≡ true)
    × (process.enabled ≡ true)
    × (process.process_blocked ≡ false)
    × (logged_user manager ≡ true)
    × ((load sample file process).1 ≡ Load.valid)
    × (p'.allowed ≡ true)
    × (p'.pending ≡ false)
    × ((t : ℕ) × (some 1000 ≡ some t) × (t < p'.deadline))
    × (setup_required r.manager ≡ true)
    × ((from later : ℕ) (s : Text) → (validate_session from later s r.manager).1 ≡ false)
reset_allowed_example =
    reset_allowed sample sample-QtLaws true (some 1000) all_written all_saved file manager
      AuthFile.missing process accepted

reset_spends_first_example :
    let r =
      reset sample true (some 1000) all_written all_saved file manager AuthFile.missing process in
    ((r.manager ≡ manager) × (r.auth_file ≡ AuthFile.missing)) ⊎ IsSpent sample uuid r.file
reset_spends_first_example =
    reset_spends_first sample sample-QtLaws true (some 1000) all_written all_saved file manager
      AuthFile.missing process

abbrev cold_register : List ℕ
cold_register =
    1 ∷ 2 ∷ 3 ∷ 4 ∷ 5 ∷ 6 ∷ 7 ∷ 8 ∷ 9 ∷ 10 ∷ 11 ∷ 12 ∷ 13 ∷ 14 ∷ 15 ∷ 16 ∷ 17 ∷ 18 ∷ 19 ∷ 20 ∷ 21
    ∷ 22 ∷ 23 ∷ 24 ∷ 25 ∷ 26 ∷ 27 ∷ 28 ∷ 0 ∷ 0 ∷ 0 ∷ 0 ∷ 33 ∷ []

abbrev cold_world : World
cold_world = record {
  process = new_process 600 (some 9);
  file = StateFile.missing;
  register = cold_register;
}

allowed_first :
    (initialize sample boot all_written all_written all_cleared cold_world).process.allowed ≡ true
unfolding initialize initialize_boot initialize_loaded first_boot record_boot finish load save
    clear_marker write_at up_to classify contains trimmed drop_while drop_while_end
allowed_first = refl

initialize_allowed_example :
    let p = (initialize sample boot all_written all_written all_cleared cold_world).process in
    (0 < 600)
    × (boot.is_directory ≡ true)
    × (boot.locked ≡ true)
    × (boot.marker_readable ≡ true)
    × (classify (read_marker cold_register) ≡ cold)
    × ((t : ℕ) × (some 9 ≡ some t) × (p.deadline ≡ t + 600 * 1000))
initialize_allowed_example =
    initialize_allowed sample boot 600 (some 9) all_written all_written all_cleared cold_register
      allowed_first

abbrev register : List ℕ
register =
    1 ∷ 2 ∷ 3 ∷ 4 ∷ 5 ∷ 6 ∷ 7 ∷ 8 ∷ 9 ∷ 10 ∷ 11 ∷ 12 ∷ 13 ∷ 14 ∷ 15 ∷ 16 ∷ 17 ∷ 18 ∷ 19 ∷ 20 ∷ 21
    ∷ 22 ∷ 23 ∷ 24 ∷ 25 ∷ 26 ∷ 27 ∷ 28 ∷ 0x4d ∷ 0x52 ∷ 0x41 ∷ 0x57 ∷ 33 ∷ []

-- Two of the four bytes are written, to a file that ends inside the marker.
abbrev torn : ClearCalls
torn = record { opened = true; sought = true; written = 2; flushed = false }

clear_marker_lem_example :
    let r = clear_marker torn (take 30 register) in
    ((i byte : ℕ)
      → (i < marker_offset) ⊎ (marker_offset + 4 ≤ i)
      → get_elem? (take 30 register) i ≡ some byte
      → get_elem? r.0 i ≡ some byte)
    × (r.1 ≡ true → classify (read_marker r.0) ≡ cold)
clear_marker_lem_example = clear_marker_lem torn (take 30 register)
