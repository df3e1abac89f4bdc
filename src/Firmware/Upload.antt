-- ===== src/Firmware/Upload.antt =====
-- backend/api/modules/FirmwareUpdateRuntime.cpp: the three requests of an upload, and its end when the
-- browser goes.
use everest_ui.Base.{
  ℕ, ◌+◌, Bool, true, false, ◌||◌, not, [], ◌++◌, Option, none, some, if◌then◌else◌, ◌==◌, ltb, leb,
  length, is_empty,
}
use everest_ui.Base.Text.{Text, codes, eqb, trimmed}
use everest_ui.Base.Int.{ℤ, pos, negsuc}
use everest_ui.Base.Json.{num, str, Fields, end, field, value, to_string}
use everest_ui.Qt.{Qt}
use everest_ui.Api.Types.{ModuleRequest, ModuleResponse, error_fields}
use everest_ui.Firmware.State.{
  Firmware, World, ImageDir, found, refused, Space, enough, lacking, to_int_or, image_object,
  response, reset_upload_state, abort_upload,
}

pub record Result : Type 0 where
  pub firmware : Firmware
  pub response : ModuleResponse

abbrev pub refuse : ModuleRequest → Text → Firmware → Result
refuse r error s = record { firmware = s; response = response r false (error_fields error) }

abbrev pub accept : ModuleRequest → Firmware → Result
accept r s = record { firmware = s; response = response r true end }

-- What `upload_image.start` names.
pub record Announced : Type 0 where
  pub file_name : Text
  pub size : ℕ
  pub chunk_count : ℕ
  pub chunk_size : ℕ

abbrev pub positive : ℤ → Option ℕ
positive (pos n) = if ltb 0 n then some n else none
positive (negsuc n) = none

-- The tests on the parameters; `none` is `invalid_params`.
unfoldable pub announced_with : Text → (size chunk_count chunk_size : Option ℕ) → Option Announced
announced_with name (some size) (some count) (some chunk) =
    if is_empty name
    then none
    else some (record { file_name = name; size = size; chunk_count = count; chunk_size = chunk })
announced_with name _ _ _ = none

abbrev pub space_fields : Text → (available required : ℤ) → Fields
space_fields error available required =
    if eqb error (codes "firmware_image_dir_insufficient_space")
    then field (codes "error") (str error) (
        field (codes "available_bytes") (num available)
          (field (codes "required_bytes") (num required) end))
    else error_fields error

-- The file is opened and emptied.
unfoldable pub open_upload : World → ModuleRequest → Text → Announced → Firmware → Result
open_upload w r directory a s =
    let target = w.file_path directory a.file_name in
    if not w.opened
    then refuse r (codes "firmware_upload_start_failed") (reset_upload_state s)
    else accept r (record s {
      upload_open = true;
      upload_running = true;
      reboot_required = false;
      upload_path = target;
      upload_name = a.file_name;
      expected_size = a.size;
      written_size = 0;
      expected_chunk_count = a.chunk_count;
      expected_chunk_size = a.chunk_size;
      next_chunk_index = 0;
      upload_finished = false;
      image = some [];
    })

unfoldable pub check_space : World → ModuleRequest → Text → Announced → Space → Firmware → Result
check_space w r directory a enough s = open_upload w r directory a s
check_space w r directory a (lacking error available required) s = record {
  firmware = s;
  response = response r false (space_fields error available required);
}

unfoldable pub clean_images :
    World → ModuleRequest → Text → Announced → Option Text → Firmware → Result
clean_images w r directory a (some error) s = refuse r error s
clean_images w r directory a none s = check_space w r directory a (w.space (pos a.size)) s

unfoldable pub find_dir : World → ModuleRequest → Announced → ImageDir → Firmware → Result
find_dir w r a (refused error) s = refuse r error s
find_dir w r a (found directory) s = clean_images w r directory a w.cleanup_error s

unfoldable pub start_announced : World → ModuleRequest → Option Announced → Firmware → Result
start_announced w r none s = refuse r (codes "invalid_params") s
start_announced w r (some a) s = find_dir w r a w.image_dir s

-- `!m_uploadRunning || !m_uploadFile.isOpen() || m_uploadFinished`
abbrev pub is_not_started : Firmware → Bool
is_not_started s = not s.upload_running || not s.upload_open || s.upload_finished

abbrev pub appended : Text → Option Text → Option Text
appended chunk none = none
appended chunk (some old) = some (old ++ chunk)

-- `handleUploadChunkRequest` behind the tests on the index.
unfoldable pub write_chunk : World → ModuleRequest → Text → Firmware → Result
write_chunk w r chunk s =
    if is_empty chunk
    then refuse r (codes "invalid_chunk") s
    else if not (leb (length chunk) s.expected_chunk_size)
    then refuse r (codes "invalid_chunk") s
    else if not (leb (s.written_size + length chunk) s.expected_size)
    then refuse r (codes "upload_size_exceeded") (abort_upload s)
    else if not w.write_complete
    then refuse r (codes "firmware_upload_chunk_write_failed") (abort_upload s)
    else accept r (record s {
      written_size = s.written_size + length chunk;
      next_chunk_index = s.next_chunk_index + 1;
      image = appended chunk s.image;
    })

unfoldable pub chunk_at : World → ModuleRequest → ℤ → Text → Firmware → Result
chunk_at w r (negsuc n) text s = refuse r (codes "invalid_params") s
chunk_at w r (pos n) text s =
    if is_empty text
    then refuse r (codes "invalid_params") s
    else if not (n == s.next_chunk_index) || leb s.expected_chunk_count n
    then refuse r (codes "chunk_out_of_order") s
    else write_chunk w r (w.from_base64 text) s

-- The digest of the file that is read again.
abbrev pub digest : World → Option Text → Text
digest w none = w.sha256_hex []
digest w (some image) = w.sha256_hex image

-- `handleUploadFinishRequest` behind the test on the digest.
unfoldable pub finish_with : World → ModuleRequest → Text → Firmware → Result
finish_with w r expected s =
    let closed = record s { upload_open = false } in
    if is_empty expected
    then refuse r (codes "invalid_params") s
    else if not (s.next_chunk_index == s.expected_chunk_count)
        || not (s.written_size == s.expected_size)
    then refuse r (codes "upload_incomplete") (abort_upload s)
    else if not w.flushed
    then refuse r (codes "firmware_upload_finish_failed") (abort_upload s)
    else if not w.readable || not w.hashed
    then refuse r (codes "firmware_upload_finish_failed") (abort_upload closed)
    else if not (eqb (digest w s.image) expected)
    then refuse r (codes "checksum_mismatch") (abort_upload closed)
    else accept r (record closed { upload_running = false; upload_finished = true })

-- `handleClientDisconnected`
unfoldable pub handle_client_disconnected : Firmware → Firmware
handle_client_disconnected s = if not s.upload_running then s else abort_upload s

module _ (q : Qt) where
  unfoldable pub announced : World → Fields → Option Announced
  announced w image =
      announced_with
        (w.file_name (trimmed q.is_space (to_string (value (codes "file_name") image))))
        (positive (w.to_long_long (value (codes "size_bytes") image)))
        (positive (to_int_or (value (codes "chunk_count") image)))
        (positive (to_int_or (value (codes "chunk_size_bytes") image)))

  unfoldable pub handle_upload_start : World → ModuleRequest → Firmware → Result
  handle_upload_start w r s =
      if s.upload_running
      then refuse r (codes "upload_in_progress") s
      else start_announced w r (announced w (image_object r)) (reset_upload_state s)

  unfoldable pub handle_upload_chunk : World → ModuleRequest → Firmware → Result
  handle_upload_chunk w r s =
      if is_not_started s
      then refuse r (codes "upload_not_started") s
      else chunk_at w r (to_int_or (value (codes "chunk_index") (image_object r)))
          (trimmed q.is_space (to_string (value (codes "dataB64") (image_object r)))) s

  unfoldable pub handle_upload_finish : World → ModuleRequest → Firmware → Result
  handle_upload_finish w r s =
      let text = to_string (value (codes "sha256") (image_object r)) in
      if is_not_started s
      then refuse r (codes "upload_not_started") s
      else finish_with w r (q.to_lower (trimmed q.is_space text)) s
