-- ===== src/Firmware/State.antt =====
-- backend/api/modules/FirmwareUpdateRuntime.{hpp,cpp}: the members, and what the calls of other
-- code return.
use everest_ui.Base.{ℕ, Bool, true, false, ◌||◌, [], Option, none, if◌then◌else◌, leb}
use everest_ui.Base.Text.{Text, codes}
use everest_ui.Base.Int.{ℤ, pos, negsuc, int_max}
use everest_ui.Base.Json.{Json, num, Fields, value, to_object}
use everest_ui.Api.Types.{ModuleRequest, ModuleResponse}
use everest_ui.Login.State.{LoginFile, LoginPath, WriteCalls}

-- The members. `image` is the contents of the file at `upload_path`, if there is one; `login` and
-- `exited` are as in Factory/State.
pub record Firmware : Type 0 where
  pub update_running : Bool
  pub upload_running : Bool
  pub current_request_id : ℤ
  pub current_action : Text
  pub stdout_line_buffer : Text
  pub ack_sent : Bool
  pub success_seen : Bool
  pub failure_seen : Bool
  pub upload_open : Bool
  pub upload_path : Text
  pub upload_name : Text
  pub expected_size : ℕ
  pub written_size : ℕ
  pub expected_chunk_count : ℕ
  pub expected_chunk_size : ℕ
  pub next_chunk_index : ℕ
  pub upload_finished : Bool
  pub reboot_required : Bool
  pub reboot_pending : Bool
  pub image : Option Text
  pub login : LoginFile
  pub exited : Bool

abbrev pub new_firmware : LoginFile → Firmware
new_firmware login = record {
  update_running = false;
  upload_running = false;
  current_request_id = pos 0;
  current_action = [];
  stdout_line_buffer = [];
  ack_sent = false;
  success_seen = false;
  failure_seen = false;
  upload_open = false;
  upload_path = [];
  upload_name = [];
  expected_size = 0;
  written_size = 0;
  expected_chunk_count = 0;
  expected_chunk_size = 0;
  next_chunk_index = 0;
  upload_finished = false;
  reboot_required = false;
  reboot_pending = false;
  image = none;
  login = login;
  exited = false;
}

-- `isBusy`
abbrev pub is_busy : Firmware → Bool
is_busy s = s.update_running || s.upload_running || s.reboot_pending

-- `loadFirmwareImageDir`: the path, or the error.
pub data ImageDir : Type 0 where
  found refused : Text → ImageDir

-- `checkFirmwareImageSpace`
pub data Space : Type 0 where
  enough : Space
  lacking : (error : Text) → (available required : ℤ) → Space

-- Functions of Qt, and what the calls of Qt, of FirmwareUpdate.cpp and of the console return.
pub record World : Type 0 where
  -- `QFileInfo(name).fileName()` and `QDir(path).filePath(name)`
  pub file_name : Text → Text
  pub file_path : Text → Text → Text
  -- `toVariant().toLongLong()`
  pub to_long_long : Json → ℤ
  pub from_base64 : Text → Text
  -- the hexadecimal digits of SHA-256, in lower case
  pub sha256_hex : Text → Text
  pub image_dir : ImageDir
  -- the error of `cleanOldFirmwareImages`, if it fails
  pub cleanup_error : Option Text
  pub space : ℤ → Space
  -- the outcomes of `open`, `write`, `flush`, the second `open` and `addData`
  pub opened : Bool
  pub write_complete : Bool
  pub flushed : Bool
  pub readable : Bool
  pub hashed : Bool
  -- the file is there, is a file, and can be read
  pub uploaded_readable : Bool
  pub started : Bool
  pub reboot_command : Text
  pub path : LoginPath
  pub calls : WriteCalls
  pub removed : Bool

-- `toInt(-1)`
abbrev pub to_int_or : Json → ℤ
to_int_or (num (pos n)) = if leb n int_max then pos n else negsuc 0
to_int_or (num (negsuc n)) = if leb n int_max then negsuc n else negsuc 0
to_int_or _ = negsuc 0

abbrev pub image_object : ModuleRequest → Fields
image_object r = to_object (value (codes "image") r.parameters)

abbrev pub response : ModuleRequest → Bool → Fields → ModuleResponse
response r success parameters = record {
  request_id = r.request_id;
  group = codes "firmware";
  action = r.action;
  parameters = parameters;
  success = success;
  final = true;
}

-- `resetUploadState`
unfoldable pub reset_upload_state : Firmware → Firmware
reset_upload_state s = record s {
  upload_open = false;
  upload_running = false;
  upload_path = [];
  upload_name = [];
  expected_size = 0;
  written_size = 0;
  expected_chunk_count = 0;
  expected_chunk_size = 0;
  next_chunk_index = 0;
  upload_finished = false;
  image = none;
}

-- `abortUploadAndRemovePartialFile`; the file that it removes is one that no member names any more.
unfoldable pub abort_upload : Firmware → Firmware
abort_upload s = reset_upload_state s
