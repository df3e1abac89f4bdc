-- ===== src/Factory/Speaks.antt =====
-- backend/api/modules/FactoryResetRuntime.cpp: theorems on what one slot emits.
use everest_ui.Base.{
  ◌==◌, Bool, true, false, ◌&&◌, not, List, [], ◌∷◌, ◌≡◌, refl, sym, subst, arith, if_both,
  if◌then◌else◌, is_empty, Bool-cases, inl, inr,
}
use everest_ui.Base.Text.{Text, codes}
use everest_ui.Qt.{Qt}
use everest_ui.Api.Types.{ModuleRequest, ModuleResponse}
use everest_ui.Factory.Evse.{eligible}
use everest_ui.Factory.State.{
  Factory, rebooting, failed, idle, started, not_running, safety_check, stop_everest,
}
use everest_ui.Factory.Events.{
  Output, respond, World, Event, Result, start_fires, timeout_fires, kill_fires, keepalive_fires,
  process_started, failed_to_start, process_finished, output_ready, is_not_running, answer, handle,
  start, start_parsed, start_checked, finish, stop, on_started, drain_output,
}
use everest_ui.Factory.Invariant.{finish_reaches}
use everest_ui.Factory.Answers.{finish_idle}

-- The responses among the outputs.
abbrev pub responses : List Output → List ModuleResponse
responses [] = []
responses (respond r ∷ out) = r ∷ responses out
responses (_ ∷ out) = responses out

-- What a slot makes of a reset: it emits nothing and the reset goes on or is over, or it emits one
-- response to the request, and with a last one the reset is over.
pub data Speaks (request : ModuleRequest) (running : Bool) (t : Factory)
    : List ModuleResponse → Type 0 where
  silent :
      t.request ≡ request → (t.is_running ≡ true → running ≡ true) → Speaks request running t []
  says :
      (r : ModuleResponse)
      → t.request ≡ request
      → (t.is_running ≡ true → (running ≡ true) × (r.final ≡ false))
      → r.request_id ≡ request.request_id
      → (r.group ≡ codes "factory_reset") × (r.action ≡ request.action)
      → Speaks request running t (r ∷ [])

abbrev pub SpeaksResult : Factory → Result → Type 0
SpeaksResult s r = Speaks s.request s.is_running r.factory (responses r.out)

module _ (q : Qt) (w : World) where
  finish_speaks :
      (success attempted : Bool) (s : Factory) → SpeaksResult s (finish q w success attempted s)
  finish_speaks success attempted s = elim (Bool-cases s.is_running) [
    | inl h ↦
        finish_reaches (SpeaksResult s) q w success attempted s h
          λ out err. answer_speaks success attempted out err
    | inr h ↦
        subst (SpeaksResult s) (sym (finish_idle q w success attempted s h)) (silent refl (λ h. h))
  ]
    where
      over : false ≡ true → (s.is_running ≡ true) × (true ≡ false)
      over h = absurd (ground arith)

      answer_speaks :
          (success attempted : Bool) (out err : Text)
          → SpeaksResult s (
              answer q w success attempted (record s {
                timeout = false;
                kill_timer = false;
                keepalive = false;
                is_running = false;
                stdout = out;
                stderr = err;
                status = if attempted then (if success then rebooting else failed) else idle;
                reboot_expected = if attempted then success else s.reboot_expected;
              }))
      answer_speaks true attempted out err = says _ refl over refl (refl, refl)
      answer_speaks false attempted out err = says _ refl over refl (refl, refl)

  start_checked_speaks :
      (program : Text) (arguments : List Text) (s : Factory)
      → SpeaksResult s (start_checked q w program arguments s)
  unfolding start_checked
  start_checked_speaks program arguments s =
      if_both (SpeaksResult s) (not (eligible q w.actions s.checking s.reboot_expected))
        (λ _. finish_speaks false false (record s { phase = safety_check }))
        (λ _.
          if_both (SpeaksResult s) (not w.actions.stop_everest)
            (λ _. finish_speaks false true (record s { phase = stop_everest }))
            (λ _. silent refl (λ h. h)))

  parsed_speaks : (parts : List Text) (s : Factory) → SpeaksResult s (start_parsed q w parts s)
  unfolding start_parsed
  parsed_speaks [] s = finish_speaks false true s
  parsed_speaks (program ∷ arguments) s =
      if_both (SpeaksResult s) (is_empty program) (λ _. finish_speaks false true s)
        (λ _. start_checked_speaks program arguments s)

  stop_speaks : (s : Factory) → SpeaksResult s (stop q w s)
  unfolding stop
  stop_speaks s =
      if_both (SpeaksResult s) (is_not_running s.process)
        (λ _. finish_speaks false true (record s { timed_out = true })) (λ _. silent refl (λ h. h))

  pub handle_speaks : (e : Event) (s : Factory) → SpeaksResult s (handle q w e s)
  unfolding handle start on_started drain_output
  handle_speaks start_fires s = parsed_speaks (w.split_command _) _
  handle_speaks timeout_fires s = stop_speaks (record s { timeout = false })
  handle_speaks kill_fires s = silent refl (λ h. h)
  handle_speaks keepalive_fires s = says _ refl (λ h. (h, refl)) refl (refl, refl)
  handle_speaks output_ready s = silent refl (λ h. h)
  handle_speaks process_started s =
      if_both (SpeaksResult s) s.timed_out (λ _. stop_speaks (record s { process = started }))
        (λ _. silent refl (λ h. h))
  handle_speaks failed_to_start s = finish_speaks false true (record s { process = not_running })
  handle_speaks (process_finished code normal_exit) s =
      finish_speaks (not s.timed_out && normal_exit && code == 0) true
        (record s { process = not_running })
