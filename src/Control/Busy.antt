-- ===== src/Control/Busy.antt =====
-- backend/api/SystemControlHandler.cpp: theorems on the members between two events.
use everest_ui.Base.{
  true, false, not, List, [], ◌∷◌, ◌++◌, Option, none, some, ◌≡◌, refl, sym, ap, ◌∙◌, subst,
  if_both, Bool-cases, inl, inr, arith, ◌>>=◌, drop,
}
use everest_ui.Base.Text.{codes, eqb, eqb_iff}
use everest_ui.Qt.{Qt}
use everest_ui.Api.Types.{
  ModuleGroup, pcap, everest_config, safety_controller, ocpp_config, firmware_update, system_logs,
  network, ssh_configuration, system, factory_reset, unknown, ModuleRequest, ModuleResponse,
  same_group, control_group,
}
use everest_ui.Factory.State.{Factory}
use everest_ui.Factory.Events as Factory
use everest_ui.Factory.Speaks.{Speaks, silent, says, responses, handle_speaks}
use everest_ui.Control.State.{
  Control, Modules, is_safety_write, matches_pending_request, is_matching_async_firmware_response,
  is_final_async_firmware_response,
}
use everest_ui.Control.Queue.{
  emitted, completed, Result, after, process, process_queue, handle_module_response, firmware_with,
  handle_async_firmware_response,
}
use everest_ui.Control.Events.{
  Verdict, queued, dropped, answered, judge, enqueue_judged, enqueue_request, keepalive_with,
  handle_safety_write_keep_alive, handle_emitted, handle_factory,
}
use everest_ui.Control.Runs.{
  Event, enqueue, safety_finished, firmware_responded, keepalive_fires, factory, step, comes, Runs,
  begins, steps,
}
use everest_ui.Control.Sound.{IsSound, Sound, Sound-after, IsFree, is_pending_write}
use everest_ui.Control.Exclusive.{drain_sound, process_queue_free, handle_module_response-Sound}

same_group_eq : (a b : ModuleGroup) → same_group a b ≡ true → a ≡ b
unfolding same_group
same_group_eq pcap pcap h = refl
same_group_eq everest_config everest_config h = refl
same_group_eq safety_controller safety_controller h = refl
same_group_eq ocpp_config ocpp_config h = refl
same_group_eq firmware_update firmware_update h = refl
same_group_eq system_logs system_logs h = refl
same_group_eq network network h = refl
same_group_eq ssh_configuration ssh_configuration h = refl
same_group_eq system system h = refl
same_group_eq factory_reset factory_reset h = refl
same_group_eq unknown unknown h = refl
same_group_eq _ _ h = absurd (ground arith)

-- Without a pending request nothing of one is left.
IsFree-if_idle : (s : Control) → IsSound s → s.pending ≡ none → IsFree s
IsFree-if_idle s h e =
    let off : s.safety_write_in_progress ≡ false = h.flag ∙ ap is_pending_write e in
    let t = h.timer in
    record {
      pending = e;
      flag = off;
      timer = ground arith;
      reset = elim (Bool-cases s.factory.is_running) [
        | inl r ↦ absurd (let p = (h.reset r).0 in ground arith)
        | inr r ↦ r
      ];
    }

module _ (q : Qt) (m : Modules) where
  queued-Sound :
      (o : Option ModuleRequest) (r : ModuleRequest) (s : Control)
      → IsSound s
      → s.pending ≡ o
      → Sound (process q m o (record s { queue = s.queue ++ (r ∷ []) }))
  unfolding process
  queued-Sound none r s h e =
      let free = IsFree-if_idle s h e in
      drain_sound q m (s.queue ++ (r ∷ [])) (record s { queue = s.queue ++ (r ∷ []) })
        (record {
          pending = free.pending;
          flag = free.flag;
          timer = free.timer;
          reset = free.reset;
        })
        refl
  queued-Sound (some p) r s h e = record {
    settled = λ n. absurd (ground arith);
    flag = h.flag;
    timer = h.timer;
    reset = h.reset;
  }

  enqueue-Sound :
      (v : Verdict) (r : ModuleRequest) (s : Control) → IsSound s → Sound (enqueue_judged q m v r s)
  unfolding enqueue_judged process_queue
  enqueue-Sound dropped r s h = h
  enqueue-Sound (answered response) r s h = h
  enqueue-Sound queued r s h = queued-Sound s.pending r s h refl

  keepalive-Sound :
      (o : Option ModuleRequest) (s : Control) → IsSound s → Sound (some (keepalive_with o s))
  unfolding keepalive_with
  keepalive-Sound none s h = record {
    settled = h.settled;
    flag = h.flag;
    timer = λ b. absurd (ground arith);
    reset = h.reset;
  }
  keepalive-Sound (some p) s h =
      if_both (λ r. Sound (some r)) (not (is_safety_write p))
        (λ _. record {
          settled = h.settled;
          flag = h.flag;
          timer = λ b. absurd (ground arith);
          reset = h.reset;
        })
        (λ _. h)

  -- The group of the pending request, while a factory reset runs.
  reset_group :
      (s : Control) (p : ModuleRequest)
      → IsSound s
      → s.pending ≡ some p
      → s.factory.is_running ≡ true
      → p.group ≡ factory_reset
  reset_group s p h e r =
      let (same, g) = h.reset r in subst (λ o. group_of o ≡ factory_reset) e (rw (same, g) refl)
    where
      group_of : Option ModuleRequest → ModuleGroup
      group_of none = unknown
      group_of (some p) = p.group

  other_idle :
      (s : Control) (p : ModuleRequest) (g : ModuleGroup)
      → IsSound s
      → s.pending ≡ some p
      → p.group ≡ g
      → same_group g factory_reset ≡ false
      → s.factory.is_running ≡ false
  unfolding same_group
  other_idle s p g h e eg differs = elim (Bool-cases s.factory.is_running) [
    | inl r ↦ absurd (
        let same : g ≡ factory_reset = sym eg ∙ reset_group s p h e r in
        let yes : same_group g factory_reset ≡ true = rw same refl in ground arith)
    | inr r ↦ r
  ]

  safety_group :
      (response : ModuleResponse)
      → eqb response.group (codes "safety") ≡ true
      → control_group response.group ≡ safety_controller
  unfolding control_group eqb
  safety_group response h =
      subst (λ g. control_group g ≡ safety_controller)
        (sym ((eqb_iff response.group (codes "safety")).0 h)) refl

  safety-Sound :
      (response : ModuleResponse) (s : Control)
      → IsSound s
      → eqb response.group (codes "safety") ≡ true
      → Sound (handle_module_response q m response s)
  unfolding matches_pending_request same_group
  safety-Sound response s h c = handle_module_response-Sound q m response s h λ p e match final.
      let same : same_group (control_group response.group) p.group ≡ true = ground arith in
      let g : p.group ≡ safety_controller =
        sym (same_group_eq _ _ same) ∙ safety_group response c in
      other_idle s p safety_controller h e g refl

  firmware-Sound :
      (response : ModuleResponse) (o : Option ModuleRequest) (s : Control)
      → IsSound s
      → s.pending ≡ o
      → Sound (firmware_with q m response o s)
  unfolding firmware_with is_matching_async_firmware_response same_group
  firmware-Sound response none s h e = tt
  firmware-Sound response (some p) s h e =
      if_both Sound (not (is_matching_async_firmware_response response p)) (λ _. tt)
        (λ match.
          if_both Sound (not (is_final_async_firmware_response response p)) (λ _. h)
            (λ _.
              let yes : same_group p.group firmware_update ≡ true = ground arith in
              let g = same_group_eq p.group firmware_update yes in
              let off : s.safety_write_in_progress ≡ false =
                h.flag ∙ ap is_pending_write e ∙ rw g refl in
              let t = h.timer in
              Sound-after (emitted response ∷ completed p ∷ []) _ (
                process_queue_free q m (record s { pending = none })
                  (record {
                    pending = refl;
                    flag = off;
                    timer = ground arith;
                    reset = other_idle s p firmware_update h e g refl;
                  }))))

  emitted_none :
      (out : List Factory.Output) (s : Control)
      → responses out ≡ []
      → IsSound s
      → Sound (handle_emitted q m out s)
  unfolding handle_emitted
  emitted_none [] s e h = h
  emitted_none (Factory.respond response ∷ out) s e h = absurd (ground arith)
  emitted_none (Factory.everest_stopped ∷ out) s e h = emitted_none out s e h
  emitted_none (Factory.terminate ∷ out) s e h = emitted_none out s e h
  emitted_none (Factory.kill ∷ out) s e h = emitted_none out s e h
  emitted_none (Factory.run program arguments ∷ out) s e h = emitted_none out s e h

  emitted_rest :
      (out : List Factory.Output) (o : Option Result)
      → responses out ≡ []
      → Sound o
      → Sound (o >>= λ r. after r.out (handle_emitted q m out r.control))
  emitted_rest out none e h = tt
  emitted_rest out (some r) e h = Sound-after r.out _ (emitted_none out r.control e h)

  abbrev first : ModuleResponse → List ModuleResponse → ModuleResponse
  first other [] = other
  first other (r ∷ rs) = r

  emitted_one :
      (out : List Factory.Output) (x : ModuleResponse) (s : Control)
      → responses out ≡ x ∷ []
      → Sound (handle_module_response q m x s)
      → Sound (handle_emitted q m out s)
  unfolding handle_emitted
  emitted_one [] x s e h = absurd (ground arith)
  emitted_one (Factory.respond y ∷ out) x s e h =
      emitted_rest out (handle_module_response q m y s) (ap (drop 1) e)
        (subst (λ x. Sound (handle_module_response q m x s)) (sym (ap (first x) e)) h)
  emitted_one (Factory.everest_stopped ∷ out) x s e h = emitted_one out x s e h
  emitted_one (Factory.terminate ∷ out) x s e h = emitted_one out x s e h
  emitted_one (Factory.kill ∷ out) x s e h = emitted_one out x s e h
  emitted_one (Factory.run program arguments ∷ out) x s e h = emitted_one out x s e h

  with_factory :
      (f : Factory) (s : Control)
      → IsSound s
      → f.request ≡ s.factory.request
      → (f.is_running ≡ true → s.factory.is_running ≡ true)
      → IsSound (record s { factory = f })
  with_factory f s h same runs = record {
    settled = h.settled;
    flag = h.flag;
    timer = h.timer;
    reset = λ r.
        let (p, g) = h.reset (runs r) in
        (p ∙ ap some (sym same), ap (λ (r : ModuleRequest). r.group) same ∙ g);
  }

  spoken-Sound :
      (f : Factory) (out : List Factory.Output) (rs : List ModuleResponse) (s : Control)
      → IsSound s
      → responses out ≡ rs
      → Speaks s.factory.request s.factory.is_running f rs
      → Sound (handle_emitted q m out (record s { factory = f }))
  spoken-Sound f out _ s h e (silent same runs) =
      emitted_none out (record s { factory = f }) e (with_factory f s h same runs)
  spoken-Sound f out _ s h e (says x same runs id action) =
      emitted_one out x (record s { factory = f }) e
        (handle_module_response-Sound q m x (record s { factory = f })
          (with_factory f s h same (λ r. (runs r).0))
          (λ p pe match final. elim (Bool-cases f.is_running) [
            | inl r ↦ absurd (let n = (runs r).1 in ground arith)
            | inr r ↦ r
          ]))

  factory-Sound :
      (w : Factory.World) (e : Factory.Event) (s : Control)
      → IsSound s
      → Sound (handle_factory q m w e s)
  unfolding handle_factory
  factory-Sound w e s h =
      spoken-Sound (Factory.handle q w e s.factory).factory (Factory.handle q w e s.factory).out _ s
        h refl (handle_speaks q w e s.factory)

  step-Sound : (e : Event) (s : Control) → IsSound s → comes e s ≡ true → Sound (step q m e s)
  unfolding step comes enqueue_request handle_safety_write_keep_alive handle_async_firmware_response
  step-Sound (enqueue r) s h c = enqueue-Sound (judge q m r s) r s h
  step-Sound (safety_finished response) s h c = safety-Sound response s h c
  step-Sound (firmware_responded response) s h c = firmware-Sound response s.pending s h refl
  step-Sound keepalive_fires s h c = keepalive-Sound s.pending s h
  step-Sound (factory w e) s h c = factory-Sound w e s h

-- Between two events of any life: no request waits while none is pending, `m_safetyWriteInProgress`
-- is set exactly while a write of the safety controller is pending and the keep-alive timer runs
-- only then, and a factory reset that runs is the pending request.
pub Runs-IsSound :
    (q : Qt) (s : Control) (ins outs : List ModuleRequest) → Runs q s ins outs → IsSound s
Runs-IsSound q _ _ _ (begins login) = record {
  settled = λ _. refl;
  flag = refl;
  timer = λ b. absurd (ground arith);
  reset = λ b. absurd (ground arith);
}
Runs-IsSound q _ _ _ (steps m e s ins outs r run c h) =
    subst Sound h (step-Sound q m e s (Runs-IsSound q s ins outs run) c)
