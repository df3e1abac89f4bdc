-- ===== src/Control/Fifo.antt =====
-- backend/api/SystemControlHandler.cpp: theorems on the order of the requests over a whole life.
use everest_ui.Base.{
  not, List, [], ◌∷◌, ◌++◌, Option, none, some, ◌≡◌, refl, sym, ap, ◌∙◌, subst, append_assoc,
  append-nil, if_both, ◌>>=◌,
}
use everest_ui.Qt.{Qt}
use everest_ui.Api.Types.{ModuleRequest}
use everest_ui.Factory.Events as Factory
use everest_ui.Control.State.{Control, Modules, is_safety_write}
use everest_ui.Control.Queue.{Output, Result, after, process_queue, handle_module_response}
use everest_ui.Control.Events.{
  Verdict, queued, dropped, answered, judge, enqueue_judged, enqueue_request, keepalive_with,
  handle_safety_write_keep_alive, handle_emitted, handle_factory,
}
use everest_ui.Control.Order.{
  left, held, pending_list, Keeps, process_queue-Keeps, handle_module_response-Keeps,
  handle_async_firmware_response-Keeps,
}
use everest_ui.Control.Runs.{
  Event, enqueue, safety_finished, firmware_responded, keepalive_fires, factory, step, entered_as,
  entered, Runs, begins, steps,
}

left-append : (os us : List Output) → left (os ++ us) ≡ left os ++ left us
left-append [] us = refl
left-append (Output.emitted r ∷ os) us = left-append os us
left-append (Output.completed r ∷ os) us = ap (◌∷◌ r) (left-append os us)
left-append (Output.cleared rs ∷ os) us =
    ap (◌++◌ rs) (left-append os us) ∙ sym (append_assoc rs (left os) (left us))

Keeps-after :
    (rs : List ModuleRequest) (r : Result) (o : Option Result)
    → rs ≡ left r.out ++ held r.control
    → Keeps (held r.control) o
    → Keeps rs (after r.out o)
Keeps-after rs r none e h = tt
Keeps-after rs r (some r') e h =
    e
    ∙ ap (◌++◌ (left r.out)) h
    ∙ sym (append_assoc (left r.out) (left r'.out) (held r'.control))
    ∙ ap (λ os. os ++ held r'.control) (sym (left-append r.out r'.out))

module _ (q : Qt) (m : Modules) where
  emitted_then :
      (rs : List ModuleRequest) (out : List Factory.Output) (o : Option Result)
      → ((s : Control) → Keeps (held s) (handle_emitted q m out s))
      → Keeps rs o
      → Keeps rs (o >>= λ r. after r.out (handle_emitted q m out r.control))
  emitted_then rs out none k h = tt
  emitted_then rs out (some r) k h = Keeps-after rs r _ h (k r.control)

  handle_emitted-Keeps :
      (out : List Factory.Output) (s : Control) → Keeps (held s) (handle_emitted q m out s)
  unfolding handle_emitted
  handle_emitted-Keeps [] s = refl
  handle_emitted-Keeps (Factory.respond response ∷ out) s =
      emitted_then (held s) out (handle_module_response q m response s) (handle_emitted-Keeps out)
        (handle_module_response-Keeps q m response s)
  handle_emitted-Keeps (Factory.everest_stopped ∷ out) s = handle_emitted-Keeps out s
  handle_emitted-Keeps (Factory.terminate ∷ out) s = handle_emitted-Keeps out s
  handle_emitted-Keeps (Factory.kill ∷ out) s = handle_emitted-Keeps out s
  handle_emitted-Keeps (Factory.run program arguments ∷ out) s = handle_emitted-Keeps out s

  enqueue_judged-Keeps :
      (v : Verdict) (r : ModuleRequest) (s : Control)
      → Keeps (held s ++ entered_as r v) (enqueue_judged q m v r s)
  unfolding enqueue_judged
  enqueue_judged-Keeps dropped r s = append-nil (held s)
  enqueue_judged-Keeps (answered response) r s = append-nil (held s)
  enqueue_judged-Keeps queued r s =
      let longer : Control = record s { queue = s.queue ++ (r ∷ []) } in
      subst (λ rs. Keeps rs (process_queue q m longer))
        (sym (append_assoc (pending_list s.pending) s.queue (r ∷ [])))
        (process_queue-Keeps q m longer)

  keepalive-Keeps :
      (o : Option ModuleRequest) (s : Control) → Keeps (held s) (some (keepalive_with o s))
  unfolding keepalive_with
  keepalive-Keeps none s = refl
  keepalive-Keeps (some p) s =
      if_both (λ r. Keeps (held s) (some r)) (not (is_safety_write p)) (λ _. refl) (λ _. refl)

  closed : (rs : List ModuleRequest) (o : Option Result) → Keeps rs o → Keeps (rs ++ []) o
  closed rs o h = subst (λ rs. Keeps rs o) (sym (append-nil rs)) h

  step-Keeps : (e : Event) (s : Control) → Keeps (held s ++ entered q m e s) (step q m e s)
  unfolding step enqueue_request handle_safety_write_keep_alive handle_factory
  step-Keeps (enqueue r) s = enqueue_judged-Keeps (judge q m r s) r s
  step-Keeps (safety_finished response) s =
      closed (held s) _ (handle_module_response-Keeps q m response s)
  step-Keeps (firmware_responded response) s =
      closed (held s) _ (handle_async_firmware_response-Keeps q m response s)
  step-Keeps keepalive_fires s =
      closed (held s) (some (keepalive_with s.pending s)) (keepalive-Keeps s.pending s)
  step-Keeps (factory w e) s = closed (held s) _ (handle_emitted-Keeps _ _)

-- The requests that have entered the queue are, in this order: those that are completed or have
-- been cleared, the pending one if there is one, and those that wait. So no request is lost,
-- doubled or overtaken, whatever the modules answer.
pub Runs-fifo :
    (q : Qt) (s : Control) (ins outs : List ModuleRequest)
    → Runs q s ins outs
    → ins ≡ outs ++ (pending_list s.pending ++ s.queue)
Runs-fifo q _ _ _ (begins login) = refl
Runs-fifo q _ _ _ (steps m e s ins outs r run c h) =
    ap (λ rs. rs ++ entered q m e s) (Runs-fifo q s ins outs run)
    ∙ append_assoc outs (held s) (entered q m e s)
    ∙ ap (◌++◌ outs) (subst (Keeps (held s ++ entered q m e s)) h (step-Keeps q m e s))
    ∙ sym (append_assoc outs (left r.out) (held r.control))
