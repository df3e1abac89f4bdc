-- ===== src/Control/Exclusive.antt =====
-- backend/api/SystemControlHandler.cpp: theorems on the members while requests are started.
use everest_ui.Base.{
  Bool, true, false, ◌||◌, not, List, [], ◌∷◌, Option, none, some, ◌≡◌, refl, sym, ap, ◌∙◌, if_both,
  arith,
}
use everest_ui.Base.Text.{codes, eqb}
use everest_ui.Base.Json.{value}
use everest_ui.Qt.{Qt}
use everest_ui.Api.Types.{
  ModuleGroup, pcap, everest_config, safety_controller, ocpp_config, firmware_update, system_logs,
  network, ssh_configuration, system, factory_reset, unknown, ModuleRequest, ModuleResponse,
  same_group,
}
use everest_ui.Factory.Evse.{Actions}
use everest_ui.Factory.State.{Factory, is_true, handle_request}
use everest_ui.Control.State.{
  Control, Modules, is_safety_write, matches_pending_request, start_with, start_with_both,
  responded, start_group, start_factory, start_firmware, start_safety_write,
  is_firmware_update_start_accepted,
}
use everest_ui.Control.Queue.{drain, process, process_queue, handle_module_response}
use everest_ui.Control.Sound.{
  IsSound, Sound, IsFree, SoundQueue, StartsSound, IsStarted-plainly, continue_with-Sound,
  respond_with-Sound, is_pending_write,
}

-- A request leaves the factory reset idle, or it is the reset that now runs, without a last answer.
pub handle_request_runs :
    (q : Qt) (actions : Actions) (r : ModuleRequest) (busy : Bool) (s : Factory)
    → s.is_running ≡ false
    → (handle_request q actions r busy s).0.is_running ≡ true
    → ((handle_request q actions r busy s).0.request ≡ r)
      × ((handle_request q actions r busy s).1.final ≡ false)
unfolding handle_request
handle_request_runs q actions r busy s idle =
    if_both P (eqb r.action (codes "read_status")) (λ _ h. absurd (ground arith))
      (λ _.
        if_both P (not (eqb r.action (codes "reset"))) (λ _ h. absurd (ground arith))
          (λ _.
            if_both P (s.is_running || busy || s.reboot_expected) (λ _ h. absurd (ground arith))
              (λ _.
                if_both P (not (is_true (value (codes "confirm") r.parameters)))
                  (λ _ h. absurd (ground arith)) (λ _ _. (refl, refl)))))
  where
    P : Factory × ModuleResponse → Type 0
    P a = a.0.is_running ≡ true → (a.0.request ≡ r) × (a.1.final ≡ false)

not_write :
    (r : ModuleRequest) (g : ModuleGroup)
    → r.group ≡ g
    → same_group g safety_controller ≡ false
    → is_safety_write r ≡ false
not_write r g e h = rw (e, h) refl

start_plainly :
    (r : ModuleRequest) (rest : List ModuleRequest) (s : Control) (o : Option ModuleResponse)
    → IsFree s
    → is_safety_write r ≡ false
    → StartsSound r rest (start_with (responded (record s { queue = rest; pending = some r })) o)
start_plainly r rest s o free n =
    start_with_both (StartsSound r rest) (responded (record s { queue = rest; pending = some r })) o
      tt (λ a. IsStarted-plainly r rest s a.final free n)

module _ (q : Qt) (m : Modules) where
  ends : (running final : Bool) → (running ≡ true → final ≡ false) → final ≡ true → running ≡ false
  ends running final h e = ground arith

  start_factory_sound :
      (r : ModuleRequest) (rest : List ModuleRequest) (s : Control)
      → r.group ≡ factory_reset
      → IsFree s
      → StartsSound r rest
          (some (start_factory q m r (record s { queue = rest; pending = some r })))
  unfolding start_factory same_group
  start_factory_sound r rest s e free =
      let (factory, response) = handle_request q m.factory_actions r m.firmware_busy s.factory in
      let runs = handle_request_runs q m.factory_actions r m.firmware_busy s.factory free.reset in
      record {
        sound = record {
          settled = λ h. absurd (ground arith);
          flag = free.flag ∙ sym (not_write r factory_reset e refl);
          timer = (let t = free.timer in λ h. absurd (ground arith));
          reset =
              λ h. (ap some (sym (runs h).0), ap (λ (r : ModuleRequest). r.group) (runs h).0 ∙ e);
        };
        pending = refl;
        queue = refl;
        idle = λ final. ends factory.is_running response.final (λ h. (runs h).1) final;
      }

  start_write_sound :
      (r : ModuleRequest) (rest : List ModuleRequest) (s : Control)
      → r.group ≡ safety_controller
      → eqb r.action (codes "write_settings") ≡ true
      → IsFree s
      → (answer : ModuleResponse)
      → StartsSound r rest
          (some (start_safety_write answer (record s { queue = rest; pending = some r })))
  unfolding start_safety_write same_group
  start_write_sound r rest s e w free answer = record {
    sound = record {
      settled = λ h. absurd (ground arith);
      flag = rw (e, w) refl;
      timer = λ _. refl;
      reset = (let n = free.reset in λ h. absurd (ground arith));
    };
    pending = refl;
    queue = refl;
    idle = λ _. free.reset;
  }

  start_safety_sound :
      (r : ModuleRequest) (rest : List ModuleRequest) (s : Control)
      → r.group ≡ safety_controller
      → IsFree s
      → StartsSound r rest
          (start_group q m safety_controller r (record s { queue = rest; pending = some r }))
  unfolding start_group same_group
  start_safety_sound r rest s e free =
      if_both (StartsSound r rest) (eqb r.action (codes "write_settings"))
        (λ w.
          start_with_both (StartsSound r rest)
            (λ a. start_safety_write a (record s { queue = rest; pending = some r }))
            (m.start_write r) tt (start_write_sound r rest s e w free))
        (λ w. start_plainly r rest s (m.safety r) free (rw (e, w) refl))

  start_group_sound :
      (g : ModuleGroup) (r : ModuleRequest) (rest : List ModuleRequest) (s : Control)
      → r.group ≡ g
      → IsFree s
      → StartsSound r rest (start_group q m g r (record s { queue = rest; pending = some r }))
  unfolding start_group start_firmware same_group
  start_group_sound factory_reset r rest s e free = start_factory_sound r rest s e free
  start_group_sound safety_controller r rest s e free = start_safety_sound r rest s e free
  start_group_sound firmware_update r rest s e free =
      start_with_both (StartsSound r rest)
        (λ a. start_firmware a (record s { queue = rest; pending = some r })) (m.firmware r) tt
        (λ a.
          if_both (λ t. StartsSound r rest (some t)) (is_firmware_update_start_accepted a)
            (λ _. IsStarted-plainly r rest s false free (not_write r firmware_update e refl))
            (λ _. IsStarted-plainly r rest s a.final free (not_write r firmware_update e refl)))
  start_group_sound everest_config r rest s e free =
      start_plainly r rest s (m.everest r) free (not_write r everest_config e refl)
  start_group_sound ocpp_config r rest s e free =
      start_plainly r rest s (m.ocpp r) free (not_write r ocpp_config e refl)
  start_group_sound system_logs r rest s e free =
      start_plainly r rest s (m.logs r) free (not_write r system_logs e refl)
  start_group_sound network r rest s e free =
      start_plainly r rest s (m.network r) free (not_write r network e refl)
  start_group_sound ssh_configuration r rest s e free =
      start_plainly r rest s (m.ssh r) free (not_write r ssh_configuration e refl)
  start_group_sound system r rest s e free =
      IsStarted-plainly r rest s _ free (not_write r system e refl)
  start_group_sound unknown r rest s e free =
      (record { pending = refl; flag = free.flag; timer = free.timer; reset = free.reset }, refl)
  start_group_sound pcap r rest s e free = tt

  pub drain_sound : (rs : List ModuleRequest) → SoundQueue rs (λ s. drain q m rs s)
  unfolding drain
  drain_sound [] s free same = record {
    settled = λ _. same;
    flag = free.flag ∙ sym (ap is_pending_write free.pending);
    timer = (let t = free.timer in λ h. absurd (ground arith));
    reset = (let n = free.reset in λ h. absurd (ground arith));
  }
  drain_sound (r ∷ rest) s free same =
      if_both Sound (not (m.login_allowed (r ∷ rest)))
        (λ _. record {
          settled = λ _. refl;
          flag = free.flag ∙ sym (ap is_pending_write free.pending);
          timer = (let t = free.timer in λ h. absurd (ground arith));
          reset = (let n = free.reset in λ h. absurd (ground arith));
        })
        (λ _.
          continue_with-Sound (λ s'. drain q m rest s') r rest _ (drain_sound rest)
            (start_group_sound r.group r rest s refl free))

  process_free :
      (o : Option ModuleRequest) (s : Control) → IsFree s → s.pending ≡ o → Sound (process q m o s)
  unfolding process
  process_free none s free e = drain_sound s.queue s free refl
  process_free (some p) s free e = absurd (let n = free.pending in ground arith)

  pub process_queue_free : (s : Control) → IsFree s → Sound (process_queue q m s)
  unfolding process_queue
  process_queue_free s free = process_free s.pending s free refl

  pub handle_module_response-Sound :
      (response : ModuleResponse) (s : Control)
      → IsSound s
      → ((p : ModuleRequest)
          → s.pending ≡ some p
          → matches_pending_request response p ≡ true
          → response.final ≡ true
          → s.factory.is_running ≡ false)
      → Sound (handle_module_response q m response s)
  unfolding handle_module_response
  handle_module_response-Sound response s h idle =
      respond_with-Sound (λ s'. process_queue q m s') response s.pending s
        (λ s' free same. process_queue_free s' free) h refl idle
