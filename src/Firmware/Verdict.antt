-- ===== src/Firmware/Verdict.antt =====
-- backend/api/modules/FirmwareUpdateRuntime.cpp: theorems on the responses to an installation.
use everest_ui.Base.{
  ℕ, true, false, ◌&&◌, ◌||◌, not, List, [], ◌∷◌, ◌++◌, Option, ◌==◌, ◌≡◌, refl, any, append_assoc,
  append-nil, if_both, ◌∙◌, sym, ap, arith,
}
use everest_ui.Base.Text.{Text, split}
use everest_ui.Qt.{Qt}
use everest_ui.Api.Types.{ModuleRequest, ModuleResponse}
use everest_ui.Firmware.State.{Firmware, World, abort_upload, reset_upload_state}
use everest_ui.Firmware.Upload.{Result, handle_client_disconnected}
use everest_ui.Firmware.Install.{
  has_finished_upload, Emitted, cut_lines, handle_update, process_stdout_chunk,
  flush_stdout_remainder, handle_streaming_finished,
}
use everest_ui.Firmware.Lines.{
  are_early, are_early-append, says_success, cut_lines-append, cut_lines-split, any-append,
  lines-IsProgress, flush-IsProgress,
}

-- What comes between the start of the installation and its end: a chunk of the output, or the end of
-- the connection to the client.
pub data Slot : Type 0 where
  prints : Text → Slot
  disconnected : Slot

-- The whole output.
unfoldable pub output : List Slot → Text
output [] = []
output (prints t ∷ slots) = t ++ output slots
output (disconnected ∷ slots) = output slots

-- The answer to an installation: the responses end in one last one, behind early ones. It answers
-- the request, and it is a success exactly if the process has succeeded and a line of the output
-- says so.
pub record IsAnswered (q : Qt) (r : ModuleRequest) (exit_code : ℕ) (output : Text)
    (responses : List ModuleResponse) : Type 0 where
  pub before : List ModuleResponse
  pub last : ModuleResponse
  pub emitted : responses ≡ before ++ (last ∷ [])
  pub early : are_early before ≡ true
  pub final : last.final ≡ true
  pub request : last.request_id ≡ r.request_id
  pub action : last.action ≡ r.action
  pub success : last.success ≡ (exit_code == 0 && any (says_success q) (split b'\n' output))

-- The installation of a request, after some output.
record IsRunning (q : Qt) (r : ModuleRequest) (seen : Text) (s : Firmware) : Type 0 where
  running : s.update_running ≡ true
  request : s.current_request_id ≡ r.request_id
  action : s.current_action ≡ r.action
  rest : s.stdout_line_buffer ≡ (cut_lines seen).1
  success : s.success_seen ≡ any (says_success q) (cut_lines seen).0

disconnect-IsRunning :
    (q : Qt) (r : ModuleRequest) (seen : Text) (s : Firmware)
    → IsRunning q r seen s
    → IsRunning q r seen (handle_client_disconnected s)
unfolding handle_client_disconnected abort_upload reset_upload_state
disconnect-IsRunning q r seen s h =
    if_both (IsRunning q r seen) (not s.upload_running) (λ _. h)
      (λ _. record {
        running = h.running;
        request = h.request;
        action = h.action;
        rest = h.rest;
        success = h.success;
      })

module _ (q : Qt) (match_progress : Text → Option (Text × Text)) where
  unfoldable pub take_slot : Slot → Firmware → Emitted
  take_slot (prints t) s = process_stdout_chunk q match_progress t s
  take_slot disconnected s = record { firmware = handle_client_disconnected s; responses = [] }

  unfoldable pub take_slots : List Slot → Firmware → Emitted
  take_slots [] s = record { firmware = s; responses = [] }
  take_slots (slot ∷ slots) s =
      let e = take_slot slot s in
      let more = take_slots slots e.firmware in
      record { firmware = more.firmware; responses = e.responses ++ more.responses }

  chunk-IsRunning :
      (r : ModuleRequest) (seen t : Text) (s : Firmware)
      → IsRunning q r seen s
      → (are_early (take_slot (prints t) s).responses ≡ true)
        × IsRunning q r (seen ++ t) (take_slot (prints t) s).firmware
  unfolding take_slot process_stdout_chunk
  chunk-IsRunning r seen t s h =
      let cut = cut_lines (s.stdout_line_buffer ++ t) in
      let p =
        lines-IsProgress q match_progress cut.0 (record s { stdout_line_buffer = cut.1 })
          h.running in
      let e : cut_lines (seen ++ t) ≡ ((cut_lines seen).0 ++ cut.0, cut.1) =
        cut_lines-append seen t
        ∙ ap (λ b. ((cut_lines seen).0 ++ (cut_lines (b ++ t)).0, (cut_lines (b ++ t)).1))
            (sym h.rest) in
      (
        p.early,
        record {
          running = p.running ∙ h.running;
          request = p.request ∙ h.request;
          action = p.action ∙ h.action;
          rest = p.rest ∙ sym (ap (λ x. x.1) e);
          success =
              p.seen
              ∙ ap (λ b. b || any (says_success q) cut.0) h.success
              ∙ sym (any-append (says_success q) (cut_lines seen).0 cut.0)
              ∙ sym (ap (λ x. any (says_success q) x.0) e);
        },
      )

  slots-IsRunning :
      (r : ModuleRequest) (seen : Text) (slots : List Slot) (s : Firmware)
      → IsRunning q r seen s
      → (are_early (take_slots slots s).responses ≡ true)
        × IsRunning q r (seen ++ output slots) (take_slots slots s).firmware
  unfolding take_slots take_slot output
  slots-IsRunning r seen [] s h = rw (append-nil seen) (refl, h)
  slots-IsRunning r seen (prints t ∷ slots) s h =
      let e = take_slot (prints t) s in
      let (x, g) = chunk-IsRunning r seen t s h in
      let (y, k) = slots-IsRunning r (seen ++ t) slots e.firmware g in
      let all = are_early-append e.responses (take_slots slots e.firmware).responses in
      (ground arith, rw (sym (append_assoc seen t (output slots))) k)
  slots-IsRunning r seen (disconnected ∷ slots) s h =
      let e = take_slot disconnected s in
      let g : IsRunning q r seen e.firmware = disconnect-IsRunning q r seen s h in
      let (y, k) = slots-IsRunning r seen slots e.firmware g in (y, k)

  update-IsRunning :
      (w : World) (r : ModuleRequest) (s : Firmware)
      → (handle_update w r s).response.success ≡ true
      → IsRunning q r [] (handle_update w r s).firmware
  unfolding handle_update cut_lines
  update-IsRunning w r s =
      if_both P s.update_running (λ _. λ no_success. absurd (ground arith))
        (λ _.
          if_both P (not (has_finished_upload w s)) (λ _. λ no_success. absurd (ground arith))
            (λ _.
              if_both P (not w.started) (λ _. λ no_success. absurd (ground arith))
                (λ _. λ _. record {
                  running = refl;
                  request = refl;
                  action = refl;
                  rest = refl;
                  success = refl;
                })))
    where
      P : Result → Type 0
      P a = a.response.success ≡ true → IsRunning q r [] a.firmware

  -- The mark of success after the rest of the output.
  marked :
      (r : ModuleRequest) (seen : Text) (s : Firmware)
      → IsRunning q r seen s
      → s.success_seen || says_success q s.stdout_line_buffer
        ≡ any (says_success q) (split b'\n' seen)
  marked r seen s h =
      let lines = any-append (says_success q) (cut_lines seen).0 ((cut_lines seen).1 ∷ []) in
      rw (h.success, h.rest, sym (cut_lines-split seen), lines) (ground arith)

  finish-IsAnswered :
      (r : ModuleRequest) (seen : Text) (exit_code : ℕ) (reenter : Firmware → Firmware)
      (before : List ModuleResponse) (s : Firmware)
      → IsRunning q r seen s
      → are_early before ≡ true
      → let f = handle_streaming_finished q match_progress exit_code reenter s in
        IsAnswered q r exit_code seen (before ++ f.responses) × (f.firmware.update_running ≡ false)
  unfolding handle_streaming_finished
  finish-IsAnswered r seen exit_code reenter before s h early =
      let flushed = flush_stdout_remainder q match_progress s in
      let (quiet, up, request, action, mark) = flush-IsProgress q match_progress s h.running in
      let all = are_early-append before flushed.responses in
      if_both P (not flushed.firmware.update_running) (λ stop. absurd (ground arith))
        (λ _. (
          record {
            before = before ++ flushed.responses;
            last = _;
            emitted = sym (append_assoc before flushed.responses _);
            early = ground arith;
            final = refl;
            request = request ∙ h.request;
            action = action ∙ h.action;
            success = ap (λ b. exit_code == 0 && b) (mark ∙ marked r seen s h);
          },
          refl,
        ))
    where
      P : Emitted → Type 0
      P e =
          IsAnswered q r exit_code seen (before ++ e.responses)
          × (e.firmware.update_running ≡ false)

  -- Once an installation is accepted, it gets exactly one last response when its process ends,
  -- behind early ones, however the output is cut into chunks, whenever the client disconnects, and
  -- whatever the receiver of the response does to the object meanwhile. The last response answers
  -- the request, and it is a success exactly if the exit code is 0 and a line of the whole output,
  -- trimmed, ends in `succeeded`. Afterwards no installation runs.
  pub handle_streaming_finished_answers :
      (w : World) (r : ModuleRequest) (s : Firmware) (slots : List Slot) (exit_code : ℕ)
      (reenter : Firmware → Firmware)
      → (handle_update w r s).response.success ≡ true
      → let e = take_slots slots (handle_update w r s).firmware in
        let f = handle_streaming_finished q match_progress exit_code reenter e.firmware in
        IsAnswered q r exit_code (output slots) (e.responses ++ f.responses)
        × (f.firmware.update_running ≡ false)
  handle_streaming_finished_answers w r s slots exit_code reenter accepted =
      let start = (handle_update w r s).firmware in
      let (early, h) = slots-IsRunning r [] slots start (update-IsRunning w r s accepted) in
      finish-IsAnswered r (output slots) exit_code reenter (take_slots slots start).responses
        (take_slots slots start).firmware h early
