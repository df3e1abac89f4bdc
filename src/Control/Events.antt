-- ===== src/Control/Events.antt =====
-- backend/api/SystemControlHandler.cpp: `enqueueRequest`, the keep-alive of a safety write, and the
-- slots of the factory reset.
use everest_ui.Base.{
  Bool, true, false, ◌&&◌, ◌||◌, not, List, [], ◌∷◌, ◌++◌, Option, none, some, is_some, is_empty,
  if◌then◌else◌, ◌>>=◌,
}
use everest_ui.Base.Text.{Text, codes, eqb}
use everest_ui.Base.Json.{end}
use everest_ui.Qt.{Qt}
use everest_ui.Api.Types.{
  ModuleGroup, safety_controller, system, factory_reset, ModuleRequest, ModuleResponse,
  error_fields, same_group, control_group,
}
use everest_ui.Login.State.{LoginFile}
use everest_ui.Factory.State.{new_factory, handle_request}
use everest_ui.Factory.Events.{World}
use everest_ui.Factory.Events as Factory
use everest_ui.Control.State.{Control, Modules, is_safety_write, handle_system_request}
use everest_ui.Control.Queue.{emitted, Result, after, process_queue, handle_module_response}

abbrev pub new_control : LoginFile → Control
new_control login = record {
  factory = new_factory login;
  queue = [];
  pending = none;
  keepalive = false;
  safety_write_in_progress = false;
}

-- The names in the order of the loop.
abbrev pub group_names : List Text
group_names =
    codes "everest"
    ∷ codes "safety"
    ∷ codes "ocpp"
    ∷ codes "firmware"
    ∷ codes "system_logs"
    ∷ codes "network"
    ∷ codes "ssh"
    ∷ codes "system"
    ∷ codes "factory_reset"
    ∷ []

unfoldable pub find_name : ModuleGroup → List Text → Option Text
find_name group [] = none
find_name group (name ∷ names) =
    if same_group (control_group name) group then some name else find_name group names

abbrev pub error_response : ModuleRequest → (group error : Text) → ModuleResponse
error_response r group error = record {
  request_id = r.request_id;
  group = group;
  action = r.action;
  parameters = error_fields error;
  success = false;
  final = true;
}

-- What `enqueueRequest` does with a request: nothing, an answer at once, or the queue.
pub data Verdict : Type 0 where
  dropped queued : Verdict
  answered : ModuleResponse → Verdict

abbrev pub safety_busy : ModuleRequest → Verdict
safety_busy r = answered (error_response r (codes "safety") (codes "safety_controller_busy"))

-- The two tests on the safety controller.
unfoldable pub judge_safety : ModuleRequest → Control → Verdict
judge_safety r s =
    if same_group r.group safety_controller
      && eqb r.action (codes "read_settings")
      && s.safety_write_in_progress
    then safety_busy r
    else if is_safety_write r
        && (s.safety_write_in_progress || is_some s.pending || not (is_empty s.queue))
    then safety_busy r
    else queued

-- The tests behind the loop over the names.
unfoldable pub judge_named : Option Text → ModuleRequest → Control → Verdict
judge_named (some name) r s = answered (error_response r name (codes "factory_reset_busy"))
judge_named none r s = judge_safety r s

abbrev pub keepalive_response : ModuleRequest → ModuleResponse
keepalive_response r = record {
  request_id = r.request_id;
  group = codes "safety";
  action = r.action;
  parameters = end;
  success = true;
  final = false;
}

unfoldable pub keepalive_with : Option ModuleRequest → Control → Result
keepalive_with none s = record { control = record s { keepalive = false }; out = [] }
keepalive_with (some p) s =
    if not (is_safety_write p)
    then record { control = record s { keepalive = false }; out = [] }
    else record { control = s; out = emitted (keepalive_response p) ∷ [] }

unfoldable pub handle_safety_write_keep_alive : Control → Result
handle_safety_write_keep_alive s = keepalive_with s.pending s

module _ (q : Qt) (m : Modules) where
  abbrev pub is_busy : Control → Bool
  is_busy s = is_some s.pending || not (is_empty s.queue) || m.firmware_busy

  abbrev pub is_factory_busy : Control → Bool
  is_factory_busy s = s.factory.is_running || s.factory.reboot_expected

  -- A status request leaves the factory reset as it is.
  unfoldable pub judge : ModuleRequest → Control → Verdict
  judge r s =
      let named = judge_named (find_name r.group group_names) r s in
      if not m.login_on_entry
      then dropped
      else if same_group r.group system && eqb r.action (codes "read_reboot_settings")
      then answered (handle_system_request m r)
      else if same_group r.group factory_reset
          && (is_busy s || is_factory_busy s)
          && eqb r.action (codes "read_status")
      then answered (handle_request q m.factory_actions r true s.factory).1
      else if is_factory_busy s || same_group r.group factory_reset && is_busy s
      then named
      else judge_safety r s

  unfoldable pub enqueue_judged : Verdict → ModuleRequest → Control → Option Result
  enqueue_judged dropped r s = some (record { control = s; out = [] })
  enqueue_judged (answered response) r s =
      some (record { control = s; out = emitted response ∷ [] })
  enqueue_judged queued r s = process_queue q m (record s { queue = s.queue ++ (r ∷ []) })

  unfoldable pub enqueue_request : ModuleRequest → Control → Option Result
  enqueue_request r s = enqueue_judged (judge r s) r s

  -- Each response that the factory reset emits is handled like one of a module.
  unfoldable pub handle_emitted : List Factory.Output → Control → Option Result
  handle_emitted [] s = some (record { control = s; out = [] })
  handle_emitted (Factory.respond response ∷ out) s =
      handle_module_response q m response s >>= λ r. after r.out (handle_emitted out r.control)
  handle_emitted (_ ∷ out) s = handle_emitted out s

  unfoldable pub handle_factory : World → Factory.Event → Control → Option Result
  handle_factory w e s =
      let r = Factory.handle q w e s.factory in
      handle_emitted r.out (record s { factory = r.factory })
