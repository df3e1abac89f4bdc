-- ===== src/Factory/Answers.antt =====
-- backend/api/modules/FactoryResetRuntime.cpp: theorems on the responses to the accepted resets.
use everest_ui.Base.{
  ◌==◌, Bool, true, false, ◌&&◌, ◌||◌, not, List, [], ◌∷◌, ◌++◌, map, ◌≡◌, refl, sym, ap, ◌∙◌,
  arith, Bool-cases, inl, inr, subst, if_both, if◌then◌else◌, is_empty, append_assoc, append-nil,
}
use everest_ui.Base.Text.{Text, codes, eqb}
use everest_ui.Base.Int.{ℤ}
use everest_ui.Base.Json.{value}
use everest_ui.Qt.{Qt}
use everest_ui.Api.Types.{ModuleRequest, ModuleResponse}
use everest_ui.Login.State.{LoginPath}
use everest_ui.Factory.Evse.{Actions, eligible}
use everest_ui.Factory.State.{
  Factory, is_true, handle_request, started, not_running, safety_check, stop_everest,
}
use everest_ui.Factory.Events.{
  World, Event, Result, start_fires, timeout_fires, kill_fires, keepalive_fires, process_started,
  failed_to_start, process_finished, output_ready, is_not_running, answer, handle, start,
  start_parsed, start_checked, finish, stop, on_started, drain_output,
}
use everest_ui.Factory.Runs.{Runs, begins, requests, slots, accepted, answers}
use everest_ui.Factory.Invariant.{finish_reaches}

-- The reset that runs, if one does.
abbrev pub unanswered : Factory → List ℤ
unanswered s = if s.is_running then s.request.request_id ∷ [] else []

abbrev pub response_ids : List ModuleResponse → List ℤ
response_ids = map (λ r. r.request_id)

abbrev pub reset_ids : List ModuleRequest → List ℤ
reset_ids = map (λ r. r.request_id)

-- What was open before is answered or still open.
abbrev Settles : Factory → Result → Type 0
Settles s r = response_ids (answers r.out) ++ unanswered r.factory ≡ unanswered s

module _ (q : Qt) (w : World) where
  pub finish_idle :
      (success attempted : Bool) (s : Factory)
      → s.is_running ≡ false
      → finish q w success attempted s ≡ record { factory = s; out = [] }
  unfolding finish
  finish_idle success attempted s h = rw h

  -- Either answer is one last response to the request.
  answer_settles :
      (success attempted : Bool) (s : Factory)
      → s.is_running ≡ false
      → response_ids (answers (answer q w success attempted s).out)
          ++ unanswered (answer q w success attempted s).factory
        ≡ s.request.request_id ∷ []
  answer_settles true attempted s h = rw h
  answer_settles false attempted s h = rw h

  finish-Settles :
      (success attempted : Bool) (s : Factory) → Settles s (finish q w success attempted s)
  finish-Settles success attempted s = elim (Bool-cases s.is_running) [
    | inl h ↦
        finish_reaches (Settles s) q w success attempted s h
          λ out err. rw h (answer_settles success attempted _ refl)
    | inr h ↦ subst (Settles s) (sym (finish_idle success attempted s h)) refl
  ]

  start_checked-Settles :
      (program : Text) (arguments : List Text) (s : Factory)
      → Settles s (start_checked q w program arguments s)
  unfolding start_checked
  start_checked-Settles program arguments s =
      if_both (Settles s) (not (eligible q w.actions s.checking s.reboot_expected))
        (λ _. finish-Settles false false (record s { phase = safety_check }))
        (λ _.
          if_both (Settles s) (not w.actions.stop_everest)
            (λ _. finish-Settles false true (record s { phase = stop_everest })) (λ _. refl))

  parsed-Settles : (parts : List Text) (s : Factory) → Settles s (start_parsed q w parts s)
  unfolding start_parsed
  parsed-Settles [] s = finish-Settles false true s
  parsed-Settles (program ∷ arguments) s =
      if_both (Settles s) (is_empty program) (λ _. finish-Settles false true s)
        (λ _. start_checked-Settles program arguments s)

  stop-Settles : (s : Factory) → Settles s (stop q w s)
  unfolding stop
  stop-Settles s =
      if_both (Settles s) (is_not_running s.process)
        (λ _. finish-Settles false true (record s { timed_out = true })) (λ _. refl)

  handle-Settles : (e : Event) (s : Factory) → Settles s (handle q w e s)
  unfolding handle start on_started drain_output
  handle-Settles start_fires s = parsed-Settles (w.split_command _) _
  handle-Settles timeout_fires s = stop-Settles (record s { timeout = false })
  handle-Settles kill_fires s = refl
  handle-Settles keepalive_fires s = refl
  handle-Settles output_ready s = refl
  handle-Settles process_started s =
      if_both (Settles s) s.timed_out (λ _. stop-Settles (record s { process = started }))
        (λ _. refl)
  handle-Settles failed_to_start s = finish-Settles false true (record s { process = not_running })
  handle-Settles (process_finished code normal_exit) s =
      finish-Settles (not s.timed_out && normal_exit && code == 0) true
        (record s { process = not_running })

request_settles :
    (q : Qt) (actions : Actions) (r : ModuleRequest) (busy : Bool) (s : Factory)
    → unanswered (handle_request q actions r busy s).0
      ≡ unanswered s ++ reset_ids (accepted r (handle_request q actions r busy s).1)
unfolding handle_request
request_settles q actions r busy s =
    if_both P (eqb r.action (codes "read_status")) (λ _. same)
      (λ _.
        if_both P (not (eqb r.action (codes "reset"))) (λ _. same)
          (λ _.
            if_both P (s.is_running || busy || s.reboot_expected) (λ _. same)
              (λ free.
                if_both P (not (is_true (value (codes "confirm") r.parameters))) (λ _. same)
                  (λ _. let idle : s.is_running ≡ false = ground arith in rw idle refl))))
  where
    P : Factory × ModuleResponse → Type 0
    P a = unanswered a.0 ≡ unanswered s ++ reset_ids (accepted r a.1)

    same : unanswered s ≡ unanswered s ++ []
    same = sym (append-nil (unanswered s))

map-append : {A B : Type 0} (f : A → B) (xs ys : List A) → map f (xs ++ ys) ≡ map f xs ++ map f ys
map-append f [] ys = refl
map-append f (x ∷ xs) ys = ap (◌∷◌ (f x)) (map-append f xs ys)

-- The last responses that are emitted answer exactly the accepted resets, each once and in order,
-- but for the one that still runs.
pub Runs-answered :
    (q : Qt) (path : LoginPath) (s : Factory) (resets : List ModuleRequest)
    (answered : List ModuleResponse)
    → Runs q path s resets answered
    → reset_ids resets ≡ response_ids answered ++ unanswered s
Runs-answered q path _ _ _ (begins login) = refl
Runs-answered q path _ _ _ (requests actions r busy s resets answered run) =
    map-append (λ r. r.request_id) resets _
    ∙ ap (λ ids. ids ++ reset_ids (accepted r (handle_request q actions r busy s).1))
        (Runs-answered q path s resets answered run)
    ∙ append_assoc (response_ids answered) (unanswered s) _
    ∙ ap (◌++◌ (response_ids answered)) (sym (request_settles q actions r busy s))
Runs-answered q path _ _ _ (slots w e s resets answered run h same) =
    Runs-answered q path s resets answered run
    ∙ ap (◌++◌ (response_ids answered)) (sym (handle-Settles q w e s))
    ∙ sym (append_assoc (response_ids answered) _ _)
    ∙ ap (λ ids. ids ++ unanswered (handle q w e s).factory)
        (sym (map-append (λ r. r.request_id) answered (answers (handle q w e s).out)))
