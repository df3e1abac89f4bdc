-- ===== src/Tests/Login.antt =====
-- The login state, at concrete inputs.
use everest_ui.Base.{◌≤◌, true, false, [], some, ◌≡◌, refl, ◌⊎◌, length, arith}
use everest_ui.Base.Text.{Text, codes, eqb}
use everest_ui.Base.Json.{obj, Fields, value}
use everest_ui.Login.State.{
  LoginPath, is_safe, LoginFile, contents, WriteCalls, document, accept, read_object, read_document,
  read_file, read_login_state, write_state, block_login_for_reboot, waiting_for_reboot,
}
use everest_ui.Login.Laws.{
  block_login_for_reboot-closed, block_login_for_reboot-read, Opens, read_login_state_allowed,
}
use everest_ui.Tests.Codec.{decode, encode}
use everest_ui.Tests.Sample.{sample, sample-QtLaws}

abbrev pub path : LoginPath
path = record { is_absolute = true; is_directory_link = false; is_file_link = false }

abbrev pub all_written : WriteCalls
all_written = record { opened = true; permitted = true; written = true; committed = true }

abbrev not_opened : WriteCalls
not_opened = record { opened = false; permitted = true; written = true; committed = true }

abbrev reboot : Text
reboot = codes "reboot"

abbrev allowed_bytes : Text
allowed_bytes = encode (document true [])

block_login_for_reboot-closed_example :
    let r = block_login_for_reboot sample path not_opened true reboot (contents allowed_bytes) in
    (r.exits ≡ true) ⊎ ((read_login_state sample path r.file).allowed ≡ false)
block_login_for_reboot-closed_example =
    block_login_for_reboot-closed sample sample-QtLaws path not_opened true reboot
      (contents allowed_bytes) (unfold eqb in refl)

block_login_for_reboot-read_example :
    read_login_state sample path
      (block_login_for_reboot sample path all_written true reboot LoginFile.missing).file
    ≡ record { allowed = false; reason = waiting_for_reboot; operation = reboot }
block_login_for_reboot-read_example =
    block_login_for_reboot-read sample sample-QtLaws path all_written true reboot LoginFile.missing
      (unfold document encode in omega arith)
      (unfold block_login_for_reboot write_state eqb in refl)

opens : (read_login_state sample path (contents allowed_bytes)).allowed ≡ true
unfolding read_login_state read_file read_document read_object accept document value eqb encode
    decode
opens = refl

read_login_state_allowed_example :
    (is_safe path ≡ true)
    × ((bytes : Text) × (o : Fields) × (contents allowed_bytes ≡ contents bytes)
        × (length bytes ≤ 4096)
        × (decode bytes ≡ some (obj o))
        × Opens o)
read_login_state_allowed_example =
    read_login_state_allowed sample path (contents allowed_bytes) opens
