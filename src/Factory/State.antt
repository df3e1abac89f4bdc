-- ===== src/Factory/State.antt =====
-- backend/api/modules/FactoryResetRuntime.{hpp,cpp}: the members, and `handleRequest`.
use everest_ui.Base.{ℕ, Bool, true, false, ◌&&◌, ◌||◌, not, [], if◌then◌else◌}
use everest_ui.Base.Text.{Text, codes, eqb}
use everest_ui.Base.Json.{Json, bool, str, Fields, field, end, value}
use everest_ui.Base.Int.{pos}
use everest_ui.Qt.{Qt}
use everest_ui.Api.Types.{ModuleRequest, ModuleResponse, error_fields, unknown}
use everest_ui.Login.State.{LoginFile}
use everest_ui.Factory.Evse.{Actions, eligible}

-- The values of `m_state`.
pub data Status : Type 0 where
  idle running failed rebooting : Status

abbrev pub status_text : Status → Text
status_text idle = codes "idle"
status_text running = codes "running"
status_text failed = codes "failed"
status_text rebooting = codes "rebooting"

-- The values of `m_phase`.
pub data Phase : Type 0 where
  none preparation safety_check stop_everest command : Phase

-- `QProcess::state()`
pub data ProcessState : Type 0 where
  not_running starting started : ProcessState

-- The members; a timer is whether it runs. `start_due` says that the call of `start` by
-- `singleShot` is still to come. `login` is the file of the login state, and `exited` whether
-- `blockLoginForReboot` has left the process.
pub record Factory : Type 0 where
  pub request : ModuleRequest
  pub process : ProcessState
  pub start_due : Bool
  pub timeout : Bool
  pub kill_timer : Bool
  pub keepalive : Bool
  pub status : Status
  pub phase : Phase
  pub stdout : Text
  pub stderr : Text
  pub is_running : Bool
  pub checking : Bool
  pub timed_out : Bool
  pub reboot_expected : Bool
  pub execution_timeout_ms : ℕ
  pub login : LoginFile
  pub exited : Bool

abbrev pub no_request : ModuleRequest
no_request = record { request_id = pos 0; group = unknown; action = []; parameters = end }

abbrev pub new_factory : LoginFile → Factory
new_factory login = record {
  request = no_request;
  process = not_running;
  start_due = false;
  timeout = false;
  kill_timer = false;
  keepalive = false;
  status = idle;
  phase = none;
  stdout = [];
  stderr = [];
  is_running = false;
  checking = false;
  timed_out = false;
  reboot_expected = false;
  execution_timeout_ms = 20000;
  login = login;
  exited = false;
}

-- `response`
abbrev pub response : ModuleRequest → Bool → Fields → (final : Bool) → ModuleResponse
response r success parameters final = record {
  request_id = r.request_id;
  group = codes "factory_reset";
  action = r.action;
  parameters = parameters;
  success = success;
  final = final;
}

abbrev pub is_true : Json → Bool
is_true (bool b) = b
is_true _ = false

abbrev pub status_fields : Factory → (can_reset : Bool) → Fields
status_fields s can_reset = field (codes "state") (str (status_text s.status)) (
    field (codes "can_reset") (bool can_reset)
      (field (codes "reboot_expected") (bool s.reboot_expected) end))

module _ (q : Qt) where
  -- The new state, and the response that is returned.
  unfoldable pub handle_request :
      Actions → ModuleRequest → (maintenance_busy : Bool) → Factory → Factory × ModuleResponse
  handle_request actions r busy s =
      if eqb r.action (codes "read_status")
      then (
        s,
        response r true
            (status_fields s
              (not s.is_running && not busy && eligible q actions s.checking s.reboot_expected))
            true,
      )
      else if not (eqb r.action (codes "reset"))
      then (s, response r false (error_fields (codes "unsupported_action")) true)
      else if s.is_running || busy || s.reboot_expected
      then (s, response r false (error_fields (codes "factory_reset_busy")) true)
      else if not (is_true (value (codes "confirm") r.parameters))
      then (s, response r false (error_fields (codes "factory_reset_confirmation_required")) true)
      else (
        record s {
          request = r;
          is_running = true;
          status = running;
          keepalive = true;
          start_due = true;
        },
        response r true end false,
      )
