-- ===== src/Firmware/Install.antt =====
-- backend/api/modules/FirmwareUpdateRuntime.cpp: the installation, its output, and the reboot.
use everest_ui.Base.{
  ℕ, Bool, true, false, ◌&&◌, ◌||◌, not, List, [], ◌∷◌, ◌++◌, Option, none, some, is_some,
  if◌then◌else◌, ◌==◌, is_empty,
}
use everest_ui.Base.Text.{Text, codes, eqb, trimmed, starts_with, find_text}
use everest_ui.Base.Int.{ℤ, pos, to_int}
use everest_ui.Base.Json.{Fields, end, field, bool, num, str}
use everest_ui.Qt.{Qt}
use everest_ui.Api.Types.{ModuleRequest, ModuleResponse, error_fields}
use everest_ui.Login.State.{block_login_for_reboot}
use everest_ui.Firmware.State.{Firmware, World, is_busy, reset_upload_state}
use everest_ui.Firmware.Upload.{Result, refuse, accept}

-- `hasFinishedUpload`
abbrev pub has_finished_upload : World → Firmware → Bool
has_finished_upload w s =
    not s.upload_running && s.upload_finished && not (is_empty s.upload_path) && w.uploaded_readable

unfoldable pub handle_update : World → ModuleRequest → Firmware → Result
handle_update w r s =
    if s.update_running
    then refuse r (codes "update_in_progress") s
    else if not (has_finished_upload w s)
    then refuse r (codes "upload_not_ready") s
    else if not w.started
    then refuse r (codes "firmware_update_start_failed") s
    else accept r (record s {
      update_running = true;
      current_request_id = r.request_id;
      current_action = r.action;
      stdout_line_buffer = [];
      ack_sent = false;
      success_seen = false;
      failure_seen = false;
      reboot_required = false;
    })

-- The lines that have ended, and what is left in the buffer.
abbrev pub push : ℕ → List Text × Text → List Text × Text
push c ([], rest) = ([], c ∷ rest)
push c (l ∷ ls, rest) = ((c ∷ l) ∷ ls, rest)

unfoldable pub cut_lines : Text → List Text × Text
cut_lines [] = ([], [])
cut_lines (c ∷ cs) =
    let more = cut_lines cs in if c == b'\n' then ([] ∷ more.0, more.1) else push c more

-- `endsWith('\r')` and `chop(1)`
unfoldable pub chop_return : Text → Text
chop_return [] = []
chop_return (c ∷ []) = if c == b'\r' then [] else c ∷ []
chop_return (c ∷ d ∷ cs) = c ∷ chop_return (d ∷ cs)

-- `endsWith(suffix)`
unfoldable pub ends_with : Text → Text → Bool
ends_with suffix [] = is_empty suffix
ends_with suffix (c ∷ cs) = eqb (c ∷ cs) suffix || ends_with suffix cs

abbrev pub firmware_response :
    Firmware → (action : Text) → Fields → (success final : Bool) → ModuleResponse
firmware_response s action parameters success final = record {
  request_id = s.current_request_id;
  group = codes "firmware";
  action = action;
  parameters = parameters;
  success = success;
  final = final;
}

-- The state and the responses that are emitted.
pub record Emitted : Type 0 where
  pub firmware : Firmware
  pub responses : List ModuleResponse

-- The two captures of a progress line, and its effect.
unfoldable pub report : (progress : ℤ) → (stage : Text) → Firmware → Emitted
report progress stage s =
    let first =
      firmware_response s (s.current_action ++ codes ".progress")
        (field (codes "progress") (num progress) (field (codes "stage") (str stage) end)) true
        false in
    if not s.ack_sent
      && starts_with (codes "Checking slot ") stage
      && ends_with (codes " done.") stage
    then record {
      firmware = record s { ack_sent = true };
      responses = first ∷ firmware_response s s.current_action end true false ∷ [];
    }
    else record { firmware = s; responses = first ∷ [] }

module _ (q : Qt) (match_progress : Text → Option (Text × Text)) where
  unfoldable pub report_match : Option (Text × Text) → Firmware → Emitted
  report_match none s = record { firmware = s; responses = [] }
  report_match (some (number, stage)) s = elim (to_int number) [
    | none ↦ record { firmware = s; responses = [] }
    | some progress ↦ report progress (trimmed q.is_space stage) s
  ]

  -- The marks of the end of the installation.
  unfoldable pub mark_line : Text → Firmware → Firmware
  mark_line line s = record s {
    success_seen = s.success_seen || ends_with (codes "succeeded") line;
    failure_seen = s.failure_seen || is_some (find_text (codes "failed") (q.to_lower line));
  }

  unfoldable pub handle_stdout_line : Text → Firmware → Emitted
  handle_stdout_line line s =
      let e = report_match (match_progress line) s in
      if not s.update_running || is_empty (trimmed q.is_space line)
      then record { firmware = s; responses = [] }
      else record {
        firmware = mark_line (trimmed q.is_space line) e.firmware;
        responses = e.responses;
      }

  unfoldable pub handle_lines : List Text → Firmware → Emitted
  handle_lines [] s = record { firmware = s; responses = [] }
  handle_lines (line ∷ lines) s =
      let e = handle_stdout_line (chop_return line) s in
      let more = handle_lines lines e.firmware in
      record { firmware = more.firmware; responses = e.responses ++ more.responses }

  unfoldable pub process_stdout_chunk : Text → Firmware → Emitted
  process_stdout_chunk chunk s =
      let cut = cut_lines (s.stdout_line_buffer ++ chunk) in
      handle_lines cut.0 (record s { stdout_line_buffer = cut.1 })

  unfoldable pub flush_stdout_remainder : Firmware → Emitted
  flush_stdout_remainder s =
      if is_empty s.stdout_line_buffer
      then record { firmware = s; responses = [] }
      else handle_stdout_line (chop_return s.stdout_line_buffer)
          (record s { stdout_line_buffer = [] })

  -- The last response, and whether a reboot is required.
  abbrev pub verdict : (succeeded : Bool) → Firmware → Emitted
  verdict succeeded s = record {
    firmware = record s { reboot_required = succeeded };
    responses =
        firmware_response s s.current_action
          (if succeeded
            then field (codes "restart_required") (bool true) end
            else error_fields (codes "flash_failed"))
          succeeded true
        ∷ [];
  }

  abbrev pub settled : Firmware → Firmware
  settled s = record (reset_upload_state s) {
    update_running = false;
    current_request_id = pos 0;
    current_action = [];
    stdout_line_buffer = [];
    ack_sent = false;
    success_seen = false;
    failure_seen = false;
  }

  -- `reenter` is what the receiver of the last response does to this object before it returns.
  unfoldable pub handle_streaming_finished :
      (exit_code : ℕ) → (reenter : Firmware → Firmware) → Firmware → Emitted
  handle_streaming_finished exit_code reenter s =
      let flushed = flush_stdout_remainder s in
      let v = verdict (exit_code == 0 && flushed.firmware.success_seen) flushed.firmware in
      if not flushed.firmware.update_running then flushed else record {
        firmware = settled (reenter v.firmware);
        responses = flushed.responses ++ v.responses;
      }

module _ (q : Qt) where
  unfoldable pub handle_reboot : World → ModuleRequest → Firmware → Result
  handle_reboot w r s =
      let blocked = block_login_for_reboot q w.path w.calls w.removed (codes "reboot") s.login in
      let s' = record s { login = blocked.file; exited = blocked.exits } in
      if is_busy s || not s.reboot_required
      then refuse r (codes "not_allowed") s
      else if not blocked.result
      then refuse r (codes "login_state_unavailable") s'
      else accept r (record s' { reboot_required = false; reboot_pending = true })
