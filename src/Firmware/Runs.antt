-- ===== src/Firmware/Runs.antt =====
-- backend/api/modules/FirmwareUpdateRuntime.cpp: the life of the object, and the chunks of the upload
-- that it holds.
use everest_ui.Base.{ℕ, Option}
use everest_ui.Base.Text.{Text}
use everest_ui.Qt.{Qt}
use everest_ui.Api.Types.{ModuleRequest}
use everest_ui.Login.State.{LoginFile}
use everest_ui.Firmware.State.{Firmware, World, new_firmware}
use everest_ui.Firmware.Upload.{
  handle_upload_start, handle_upload_chunk, handle_upload_finish, handle_client_disconnected,
}
use everest_ui.Firmware.Install.{
  handle_update, handle_reboot, process_stdout_chunk, handle_streaming_finished,
}

-- The calls of the object.
pub data Call : Type 0 where
  upload_start upload_chunk upload_finish update reboot : World → ModuleRequest → Call
  client_disconnected : Call
  stdout_received : Text → Call

module _ (q : Qt) (match_progress : Text → Option (Text × Text)) where
  unfoldable pub call : Call → Firmware → Firmware
  call (upload_start w r) s = (handle_upload_start q w r s).firmware
  call (upload_chunk w r) s = (handle_upload_chunk q w r s).firmware
  call (upload_finish w r) s = (handle_upload_finish q w r s).firmware
  call (update w r) s = (handle_update w r s).firmware
  call (reboot w r) s = (handle_reboot q w r s).firmware
  call client_disconnected s = handle_client_disconnected s
  call (stdout_received chunk) s = (process_stdout_chunk q match_progress chunk s).firmware

  -- Any life: calls, and the end of the installation with the calls that its last response causes.
  pub data Runs : Firmware → Type 0 where
    begins : (login : LoginFile) → Runs (new_firmware login)
    calls : (c : Call) (s : Firmware) → Runs s → Runs (call c s)
    finishes :
        (exit_code : ℕ) (reenter : Firmware → Firmware) (s : Firmware)
        → Runs s
        → Runs (handle_streaming_finished q match_progress exit_code reenter s).firmware
