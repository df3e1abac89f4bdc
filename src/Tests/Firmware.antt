-- ===== src/Tests/Firmware.antt =====
-- The firmware update, at concrete inputs.
use everest_ui.Base.{true, false, List, [], ◌∷◌, ◌++◌, Option, none, ◌≡◌, ◌⊎◌, refl}
use everest_ui.Base.Text.{Text, codes, eqb, trimmed, drop_while, drop_while_end}
use everest_ui.Base.Int.{ℤ, pos}
use everest_ui.Base.Json.{Json, Fields, field, end, num, str, obj, value}
use everest_ui.Api.Types.{ModuleRequest, firmware_update}
use everest_ui.Login.State.{LoginFile, read_login_state, block_login_for_reboot, write_state}
use everest_ui.Firmware.State.{Firmware, World, found, enough, new_firmware, reset_upload_state}
use everest_ui.Firmware.Upload.{
  announced, announced_with, open_upload, check_space, clean_images, find_dir, start_announced,
  write_chunk, chunk_at, finish_with, handle_upload_start, handle_upload_chunk,
  handle_upload_finish,
}
use everest_ui.Firmware.Install.{
  handle_update, handle_reboot, handle_streaming_finished, flush_stdout_remainder,
}
use everest_ui.Firmware.Runs.{call, upload_start, upload_chunk, Runs, begins, calls}
use everest_ui.Firmware.Complete.{IsCounted}
use everest_ui.Firmware.Life.{
  Runs-IsCounted, IsComplete, requested_digest, handle_upload_finish-IsComplete,
  handle_reboot_closed,
}
use everest_ui.Firmware.Verdict.{
  Slot, prints, disconnected, output, take_slots, IsAnswered, handle_streaming_finished_answers,
}
use everest_ui.Tests.Login.{path, all_written}
use everest_ui.Tests.Sample.{sample, sample-QtLaws}

abbrev integer : Json → ℤ
integer (num n) = n
integer _ = pos 0

abbrev world : World
world = record {
  file_name = λ name. name;
  file_path = λ directory name. name;
  to_long_long = integer;
  from_base64 = λ text. text;
  sha256_hex = λ contents. contents;
  image_dir = found (codes "/images");
  cleanup_error = none;
  space = λ size. enough;
  opened = true;
  write_complete = true;
  flushed = true;
  readable = true;
  hashed = true;
  uploaded_readable = true;
  started = true;
  reboot_command = [];
  path = path;
  calls = all_written;
  removed = true;
}

abbrev no_progress : Text → Option (Text × Text)
no_progress line = none

abbrev request : (action : Text) → (image : Fields) → ModuleRequest
request action image = record {
  request_id = pos 1;
  group = firmware_update;
  action = action;
  parameters = field (codes "image") (obj image) end;
}

abbrev start : ModuleRequest
start = request (codes "upload_image.start") (
    field (codes "file_name") (str (codes "f")) (
      field (codes "size_bytes") (num (pos 2)) (
        field (codes "chunk_count") (num (pos 1))
          (field (codes "chunk_size_bytes") (num (pos 2)) end))))

abbrev chunk : ModuleRequest
chunk =
    request (codes "upload_image.chunk")
      (field (codes "chunk_index") (num (pos 0)) (field (codes "dataB64") (str (codes "ab")) end))

abbrev finish : ModuleRequest
finish = request (codes "upload_image.finish") (field (codes "sha256") (str (codes "ab")) end)

abbrev fresh : Firmware
fresh = new_firmware LoginFile.missing

abbrev uploaded : Firmware
uploaded =
    call sample no_progress (upload_chunk world chunk)
      (call sample no_progress (upload_start world start) fresh)

uploaded_run : Runs sample no_progress uploaded
uploaded_run =
    calls (upload_chunk world chunk) (call sample no_progress (upload_start world start) fresh)
      (calls (upload_start world start) fresh (begins LoginFile.missing))

Runs-IsCounted_example : IsCounted uploaded
Runs-IsCounted_example = Runs-IsCounted sample no_progress uploaded uploaded_run

succeeds : (handle_upload_finish sample world finish uploaded).response.success ≡ true
unfolding handle_upload_finish finish_with call handle_upload_start announced announced_with
    start_announced find_dir clean_images check_space open_upload handle_upload_chunk chunk_at
    write_chunk reset_upload_state value eqb trimmed drop_while drop_while_end
succeeds = refl

handle_upload_finish-IsComplete_example :
    IsComplete world
      (requested_digest sample finish)
      uploaded
      (handle_upload_finish sample world finish uploaded).firmware
handle_upload_finish-IsComplete_example =
    handle_upload_finish-IsComplete sample no_progress world finish uploaded uploaded_run succeeds

abbrev installed : Firmware
installed = record fresh { reboot_required = true }

abbrev reboot_request : ModuleRequest
reboot_request = request (codes "reboot") end

reboots : (handle_reboot sample world reboot_request installed).response.success ≡ true
unfolding handle_reboot block_login_for_reboot write_state eqb
reboots = refl

handle_reboot_closed_example :
    (true ≡ true)
    × (false ≡ false)
    × (((handle_reboot sample world reboot_request installed).firmware.exited ≡ true)
        ⊎ ((read_login_state sample path
              (handle_reboot sample world reboot_request installed).firmware.login).allowed
            ≡ false))
handle_reboot_closed_example =
    handle_reboot_closed sample sample-QtLaws world reboot_request installed reboots

-- An upload that the last response of an installation starts is accepted, and forgotten when the
-- installation is put away.
abbrev installing : Firmware
installing = record fresh { update_running = true; success_seen = true }

starts : (handle_upload_start sample world start installing).response.success ≡ true
unfolding handle_upload_start announced announced_with start_announced find_dir clean_images
    check_space open_upload reset_upload_state value eqb trimmed drop_while drop_while_end
starts = refl

forgotten :
    (handle_streaming_finished sample no_progress 0
      (λ s. (handle_upload_start sample world start s).firmware)
      installing).firmware.upload_running
    ≡ false
unfolding handle_streaming_finished flush_stdout_remainder reset_upload_state
forgotten = refl

-- An installation whose last line comes in two chunks, without an end, and whose client disconnects.
abbrev update_request : ModuleRequest
update_request = record {
  request_id = pos 7;
  group = firmware_update;
  action = codes "update_image";
  parameters = end;
}

abbrev ready : Firmware
ready = record fresh { upload_finished = true; upload_path = codes "/images/image" }

abbrev slots : List Slot
slots = prints (codes "Installing\nIt suc") ∷ disconnected ∷ prints (codes "ceeded ") ∷ []

installs : (handle_update world update_request ready).response.success ≡ true
unfolding handle_update
installs = refl

handle_streaming_finished_answers_example :
    let e =
      take_slots sample no_progress slots (handle_update world update_request ready).firmware in
    let f = handle_streaming_finished sample no_progress 0 (λ s. s) e.firmware in
    IsAnswered sample update_request 0 (output slots) (e.responses ++ f.responses)
    × (f.firmware.update_running ≡ false)
handle_streaming_finished_answers_example =
    handle_streaming_finished_answers sample no_progress world update_request ready slots 0 (λ s. s)
      installs
