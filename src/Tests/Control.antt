-- ===== src/Tests/Control.antt =====
-- The queue of requests, at concrete inputs.
use everest_ui.Base.{true, false, [], ◌∷◌, ◌++◌, some, none, Option, if◌then◌else◌, Bool, ◌≡◌, refl}
use everest_ui.Base.Text.{Text, codes, eqb}
use everest_ui.Base.Int.{pos}
use everest_ui.Base.Json.{end}
use everest_ui.Api.Types.{
  network, ModuleRequest, ModuleResponse, same_group, same_id, control_group, to_module_group,
}
use everest_ui.Login.State.{LoginFile}
use everest_ui.Control.State.{Control, Modules, matches_pending_request, start_group, start_with}
use everest_ui.Control.Queue.{
  Result, emitted, drain, process, process_queue, continue_with, respond_with,
}
use everest_ui.Control.Events.{new_control, judge, judge_safety, enqueue_judged, enqueue_request}
use everest_ui.Control.Order.{left}
use everest_ui.Control.Runs.{enqueue, step, comes, entered, Runs, begins, steps}
use everest_ui.Control.Fifo.{Runs-fifo}
use everest_ui.Control.Sound.{IsSound}
use everest_ui.Control.Busy.{Runs-IsSound}
use everest_ui.Control.Groups.{control_group-to_module_group}
use everest_ui.Tests.Factory.{actions}
use everest_ui.Tests.Sample.{sample}

abbrev answer_of : Text → (final : Bool) → ModuleRequest → ModuleResponse
answer_of group final r = record {
  request_id = r.request_id;
  group = group;
  action = r.action;
  parameters = end;
  success = true;
  final = final;
}

-- The network module answers later.
-- A module that knows the reading of its settings, and throws for any other action.
abbrev answer : Text → (final : Bool) → ModuleRequest → Option ModuleResponse
answer group final r =
    if eqb r.action (codes "read_settings") then some (answer_of group final r) else none

abbrev modules : Modules
modules = record {
  login_on_entry = true;
  login_allowed = λ waiting. true;
  firmware_busy = false;
  factory_actions = actions;
  everest = answer (codes "everest") true;
  safety = answer (codes "safety") true;
  start_write = answer (codes "safety") false;
  ocpp = answer (codes "ocpp") true;
  firmware = answer (codes "firmware") true;
  logs = answer (codes "system_logs") true;
  network = answer (codes "network") false;
  ssh = answer (codes "ssh") true;
  reboot_settings = end;
  app_title = [];
}

abbrev read : ModuleRequest
read = record {
  request_id = pos 1;
  group = network;
  action = codes "read_settings";
  parameters = end;
}

abbrev fresh : Control
fresh = new_control LoginFile.missing

abbrev reading : Result
reading = record {
  control = record fresh { pending = some read };
  out = emitted (answer_of (codes "network") false read) ∷ [];
}

read-step : step sample modules (enqueue read) fresh ≡ some reading
unfolding step enqueue_request judge judge_safety enqueue_judged process_queue process drain
    continue_with respond_with start_group start_with matches_pending_request same_group same_id
    control_group eqb
read-step = refl

is_call : comes (enqueue read) fresh ≡ true
unfolding comes
is_call = refl

reading_run :
    Runs sample reading.control
      ([] ++ entered sample modules (enqueue read) fresh)
      ([] ++ left reading.out)
reading_run =
    steps modules (enqueue read) fresh [] [] reading (begins LoginFile.missing) is_call read-step

Runs-fifo_example : entered sample modules (enqueue read) fresh ≡ read ∷ []
Runs-fifo_example =
    Runs-fifo sample reading.control ([] ++ entered sample modules (enqueue read) fresh)
      ([] ++ left reading.out) reading_run

Runs-IsSound_example : IsSound reading.control
Runs-IsSound_example =
    Runs-IsSound sample reading.control ([] ++ entered sample modules (enqueue read) fresh)
      ([] ++ left reading.out) reading_run

abbrev unsupported : ModuleRequest
unsupported = record read { action = codes "erase" }

control_group-to_module_group_example : control_group (codes "network") ≡ network
unfolding control_group to_module_group eqb
control_group-to_module_group_example = control_group-to_module_group (codes "network")
