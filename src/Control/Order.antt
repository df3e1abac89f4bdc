-- ===== src/Control/Order.antt =====
-- backend/api/SystemControlHandler.cpp: theorems on the order in which the requests of the queue are
-- served.
use everest_ui.Base.{
  not, List, [], ◌∷◌, ◌++◌, Option, none, some, ◌≡◌, refl, sym, ap, ◌∙◌, subst, append-nil, if_both,
}
use everest_ui.Base.Text.{codes, eqb}
use everest_ui.Qt.{Qt}
use everest_ui.Api.Types.{
  ModuleGroup, pcap, everest_config, safety_controller, ocpp_config, firmware_update, system_logs,
  network, ssh_configuration, system, factory_reset, unknown, ModuleRequest, ModuleResponse,
}
use everest_ui.Control.State.{
  Control, Modules, is_safety_write, matches_pending_request, Started, responded, waits, ignored,
  start_with_both, responded, start_group, start_factory, start_firmware, start_safety_write,
  is_matching_async_firmware_response, is_final_async_firmware_response,
  is_firmware_update_start_accepted,
}
use everest_ui.Control.Queue.{
  Output, emitted, completed, cleared, Result, after, finish_pending, respond_with, continue_with,
  drain, process, process_queue, handle_module_response, firmware_with,
  handle_async_firmware_response,
}

-- The requests that an event takes from the queue for good, in order.
abbrev pub left : List Output → List ModuleRequest
left [] = []
left (emitted r ∷ out) = left out
left (completed r ∷ out) = r ∷ left out
left (cleared rs ∷ out) = rs ++ left out

abbrev pub pending_list : Option ModuleRequest → List ModuleRequest
pending_list none = []
pending_list (some p) = p ∷ []

-- The requests that are not done.
abbrev pub held : Control → List ModuleRequest
held s = pending_list s.pending ++ s.queue

-- The result accounts for the requests: they have left, in order, or are held, in order.
abbrev pub Keeps : List ModuleRequest → Option Result → Type 0
Keeps rs none = Unit
Keeps rs (some r) = rs ≡ left r.out ++ held r.control

Keeps-after_completed :
    (response : ModuleResponse) (p : ModuleRequest) (rs : List ModuleRequest) (o : Option Result)
    → Keeps rs o
    → Keeps (p ∷ rs) (after (emitted response ∷ completed p ∷ []) o)
Keeps-after_completed response p rs none h = tt
Keeps-after_completed response p rs (some r) h = ap (◌∷◌ p) h

Keeps-after_ignored :
    (p : ModuleRequest) (rs : List ModuleRequest) (o : Option Result)
    → Keeps rs o
    → Keeps (p ∷ rs) (after (completed p ∷ []) o)
Keeps-after_ignored p rs none h = tt
Keeps-after_ignored p rs (some r) h = ap (◌∷◌ p) h

-- The next call of `processQueue` accounts for the queue that it finds.
abbrev pub KeepsQueue : List ModuleRequest → (Control → Option Result) → Type 0
KeepsQueue rest next = (s : Control) → s.pending ≡ none → s.queue ≡ rest → Keeps rest (next s)

finish_pending_lem :
    (p : ModuleRequest) (s : Control)
    → ((finish_pending p s).pending ≡ none) × ((finish_pending p s).queue ≡ s.queue)
unfolding finish_pending
finish_pending_lem p s =
    if_both (λ (s' : Control). (s'.pending ≡ none) × (s'.queue ≡ s.queue)) (is_safety_write p)
      (λ _. (refl, refl)) (λ _. (refl, refl))

respond_with-Keeps :
    (next : Control → Option Result) (response : ModuleResponse) (o : Option ModuleRequest)
    (s : Control)
    → KeepsQueue s.queue next
    → s.pending ≡ o
    → Keeps (pending_list o ++ s.queue) (respond_with next response o s)
unfolding respond_with
respond_with-Keeps next response none s k e = tt
respond_with-Keeps next response (some p) s k e =
    let (idle, same) = finish_pending_lem p s in
    if_both (Keeps (p ∷ s.queue)) (not (matches_pending_request response p)) (λ _. tt)
      (λ _.
        if_both (Keeps (p ∷ s.queue)) (not response.final)
          (λ _. ap (λ o. pending_list o ++ s.queue) (sym e))
          (λ _. Keeps-after_completed response p s.queue _ (k (finish_pending p s) idle same)))

-- What `startRequest` has made of the members: the request is pending in front of the queue.
abbrev HoldsStarted : ModuleRequest → List ModuleRequest → Option Started → Type 0
HoldsStarted r rest none = Unit
HoldsStarted r rest (some (responded s response)) = (s.pending ≡ some r) × (s.queue ≡ rest)
HoldsStarted r rest (some (waits s)) = (s.pending ≡ some r) × (s.queue ≡ rest)
HoldsStarted r rest (some (ignored s)) = (s.pending ≡ some r) × (s.queue ≡ rest)

held-started :
    (r : ModuleRequest) (rest : List ModuleRequest) (s : Control)
    → s.pending ≡ some r
    → s.queue ≡ rest
    → held s ≡ r ∷ rest
held-started r rest s e same = rw (e, same) refl

continue_with-Keeps :
    (next : Control → Option Result) (r : ModuleRequest) (rest : List ModuleRequest)
    (o : Option Started)
    → KeepsQueue rest next
    → HoldsStarted r rest o
    → Keeps (r ∷ rest) (continue_with next r o)
unfolding continue_with
continue_with-Keeps next r rest none k h = tt
continue_with-Keeps next r rest (some (responded s response)) k (e, same) =
    subst (λ rs. Keeps rs (respond_with next response s.pending s)) (held-started r rest s e same)
      (respond_with-Keeps next response s.pending s (subst (λ rs. KeepsQueue rs next) (sym same) k)
        refl)
continue_with-Keeps next r rest (some (waits s)) k (e, same) = sym (held-started r rest s e same)
continue_with-Keeps next r rest (some (ignored s)) k (e, same) =
    Keeps-after_ignored r rest _ (k (record s { pending = none }) refl same)

cleared_keeps :
    (rs : List ModuleRequest) (o : Option ModuleRequest)
    → o ≡ none
    → rs ≡ (rs ++ []) ++ (pending_list o ++ [])
cleared_keeps rs o e =
    subst (λ o. rs ≡ (rs ++ []) ++ (pending_list o ++ [])) (sym e)
      (sym (append-nil (rs ++ []) ∙ append-nil rs))

module _ (q : Qt) (m : Modules) where
  start_group_holds :
      (g : ModuleGroup) (r : ModuleRequest) (rest : List ModuleRequest) (s : Control)
      → s.pending ≡ some r
      → s.queue ≡ rest
      → HoldsStarted r rest (start_group q m g r s)
  unfolding start_group start_factory start_firmware start_safety_write
  start_group_holds factory_reset r rest s e same = (e, same)
  start_group_holds everest_config r rest s e same =
      start_with_both (HoldsStarted r rest) (responded s) (m.everest r) tt (λ _. (e, same))
  start_group_holds safety_controller r rest s e same =
      if_both (HoldsStarted r rest) (eqb r.action (codes "write_settings"))
        (λ _.
          start_with_both (HoldsStarted r rest) (λ a. start_safety_write a s) (m.start_write r) tt
            (λ _. (e, same)))
        (λ _. start_with_both (HoldsStarted r rest) (responded s) (m.safety r) tt (λ _. (e, same)))
  start_group_holds ocpp_config r rest s e same =
      start_with_both (HoldsStarted r rest) (responded s) (m.ocpp r) tt (λ _. (e, same))
  start_group_holds firmware_update r rest s e same =
      start_with_both (HoldsStarted r rest) (λ a. start_firmware a s) (m.firmware r) tt
        (λ a.
          if_both (λ t. HoldsStarted r rest (some t)) (is_firmware_update_start_accepted a)
            (λ _. (e, same)) (λ _. (e, same)))
  start_group_holds system_logs r rest s e same =
      start_with_both (HoldsStarted r rest) (responded s) (m.logs r) tt (λ _. (e, same))
  start_group_holds network r rest s e same =
      start_with_both (HoldsStarted r rest) (responded s) (m.network r) tt (λ _. (e, same))
  start_group_holds ssh_configuration r rest s e same =
      start_with_both (HoldsStarted r rest) (responded s) (m.ssh r) tt (λ _. (e, same))
  start_group_holds system r rest s e same = (e, same)
  start_group_holds unknown r rest s e same = (e, same)
  start_group_holds pcap r rest s e same = tt

  drain-Keeps :
      (rs : List ModuleRequest) (s : Control)
      → s.pending ≡ none
      → s.queue ≡ rs
      → Keeps rs (drain q m rs s)
  unfolding drain
  drain-Keeps [] s e same = rw (e, same) refl
  drain-Keeps (r ∷ rest) s e same =
      if_both (Keeps (r ∷ rest)) (not (m.login_allowed (r ∷ rest)))
        (λ _. cleared_keeps (r ∷ rest) s.pending e)
        (λ _.
          continue_with-Keeps (λ s'. drain q m rest s') r rest _
            (λ s' e' same'. drain-Keeps rest s' e' same')
            (start_group_holds r.group r rest (record s { queue = rest; pending = some r }) refl
              refl))

  process-Keeps :
      (o : Option ModuleRequest) (s : Control) → s.pending ≡ o → Keeps (held s) (process q m o s)
  unfolding process
  process-Keeps none s e =
      subst (λ rs. Keeps rs (drain q m s.queue s)) (sym (ap (λ o. pending_list o ++ s.queue) e))
        (drain-Keeps s.queue s e refl)
  process-Keeps (some p) s e = refl

  pub process_queue-Keeps : (s : Control) → Keeps (held s) (process_queue q m s)
  unfolding process_queue
  process_queue-Keeps s = process-Keeps s.pending s refl

  keeps_queue : (rest : List ModuleRequest) → KeepsQueue rest (λ s. process_queue q m s)
  keeps_queue rest s e same =
      subst (λ rs. Keeps rs (process_queue q m s)) (rw (e, same) refl) (process_queue-Keeps s)

  pub handle_module_response-Keeps :
      (response : ModuleResponse) (s : Control)
      → Keeps (held s) (handle_module_response q m response s)
  unfolding handle_module_response
  handle_module_response-Keeps response s =
      respond_with-Keeps (λ s'. process_queue q m s') response s.pending s (keeps_queue s.queue)
        refl

  firmware_with-Keeps :
      (response : ModuleResponse) (o : Option ModuleRequest) (s : Control)
      → s.pending ≡ o
      → Keeps (held s) (firmware_with q m response o s)
  unfolding firmware_with
  firmware_with-Keeps response none s e = tt
  firmware_with-Keeps response (some p) s e =
      if_both (Keeps (held s)) (not (is_matching_async_firmware_response response p)) (λ _. tt)
        (λ _.
          if_both (Keeps (held s)) (not (is_final_async_firmware_response response p)) (λ _. refl)
            (λ _. rw e (
              Keeps-after_completed response p s.queue _
                (keeps_queue s.queue (record s { pending = none }) refl refl))))

  pub handle_async_firmware_response-Keeps :
      (response : ModuleResponse) (s : Control)
      → Keeps (held s) (handle_async_firmware_response q m response s)
  unfolding handle_async_firmware_response
  handle_async_firmware_response-Keeps response s = firmware_with-Keeps response s.pending s refl
