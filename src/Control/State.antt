-- ===== src/Control/State.antt =====
-- backend/api/SystemControlHandler.{hpp,cpp}: the members, the tests on responses, and
-- `startRequest` up to the response of the module.
use everest_ui.Base.{
  Bool, true, false, ◌&&◌, ◌||◌, not, List, ◌++◌, Option, none, some, if◌then◌else◌,
}
use everest_ui.Base.Text.{Text, codes, eqb}
use everest_ui.Base.Json.{Fields, field, end, str}
use everest_ui.Qt.{Qt}
use everest_ui.Api.Types.{
  ModuleGroup, pcap, everest_config, safety_controller, ocpp_config, firmware_update, system_logs,
  network, ssh_configuration, system, factory_reset, unknown, ModuleRequest, ModuleResponse,
  error_fields, same_group, same_id, control_group,
}
use everest_ui.Api.Response.{has_no_member}
use everest_ui.Factory.Evse.{Actions}
use everest_ui.Factory.State.{Factory, handle_request}

-- The members; the timer is whether it runs.
pub record Control : Type 0 where
  pub factory : Factory
  pub queue : List ModuleRequest
  pub pending : Option ModuleRequest
  pub keepalive : Bool
  pub safety_write_in_progress : Bool

-- What the modules and the login state answer while one event is handled. A module that throws
-- answers `none`. The answer of a module belongs to its request, and
-- the login state is read once for each length that the queue has.
pub record Modules : Type 0 where
  pub login_on_entry : Bool
  pub login_allowed : List ModuleRequest → Bool
  pub firmware_busy : Bool
  pub factory_actions : Actions
  pub everest : ModuleRequest → Option ModuleResponse
  pub safety : ModuleRequest → Option ModuleResponse
  pub start_write : ModuleRequest → Option ModuleResponse
  pub ocpp : ModuleRequest → Option ModuleResponse
  pub firmware : ModuleRequest → Option ModuleResponse
  pub logs : ModuleRequest → Option ModuleResponse
  pub network : ModuleRequest → Option ModuleResponse
  pub ssh : ModuleRequest → Option ModuleResponse
  pub reboot_settings : Fields
  pub app_title : Text

abbrev pub is_safety_write : ModuleRequest → Bool
is_safety_write r = same_group r.group safety_controller && eqb r.action (codes "write_settings")

abbrev pub system_response : ModuleRequest → Fields → (success : Bool) → ModuleResponse
system_response r parameters success = record {
  request_id = r.request_id;
  group = codes "system";
  action = r.action;
  parameters = parameters;
  success = success;
  final = true;
}

unfoldable pub handle_system_request : Modules → ModuleRequest → ModuleResponse
handle_system_request m r =
    if eqb r.action (codes "read_reboot_settings")
    then system_response r m.reboot_settings true
    else if not (eqb r.action (codes "read_app_title"))
    then system_response r (error_fields (codes "unsupported_action")) false
    else system_response r (field (codes "appTitle") (str m.app_title) end) true

unfoldable pub is_firmware_update_start_accepted : ModuleResponse → Bool
is_firmware_update_start_accepted r =
    eqb r.group (codes "firmware")
    && eqb r.action (codes "update_image")
    && r.success
    && has_no_member r.parameters

-- The test in `handleModuleResponse`.
unfoldable pub matches_pending_request : ModuleResponse → ModuleRequest → Bool
matches_pending_request response pending =
    same_id response.request_id pending.request_id
    && same_group (control_group response.group) pending.group
    && eqb response.action pending.action

unfoldable pub is_matching_async_firmware_response : ModuleResponse → ModuleRequest → Bool
is_matching_async_firmware_response response pending =
    if not (same_group pending.group firmware_update)
    then false
    else if not (same_id response.request_id pending.request_id)
        || not (same_group (control_group response.group) pending.group)
    then false
    else eqb response.action pending.action
      || eqb response.action (pending.action ++ codes ".progress")

unfoldable pub is_final_async_firmware_response : ModuleResponse → ModuleRequest → Bool
is_final_async_firmware_response response pending =
    if not (eqb response.action pending.action)
    then false
    else if not response.success
    then true
    else not (has_no_member response.parameters)

-- What `startRequest` does with the request: it handles a response, it waits, or it ignores it.
pub data Started : Type 0 where
  responded : Control → ModuleResponse → Started
  waits ignored : Control → Started

-- The branch of a write of the safety controller.
unfoldable pub start_safety_write : ModuleResponse → Control → Started
start_safety_write response s =
    responded
      (record s {
        safety_write_in_progress = true;
        keepalive = if not response.final then true else s.keepalive;
      })
      response

unfoldable pub start_firmware : ModuleResponse → Control → Started
start_firmware response s =
    if is_firmware_update_start_accepted response then waits s else responded s response

-- What is done with the answer of a module; an exception goes on.
unfoldable pub start_with : (ModuleResponse → Started) → Option ModuleResponse → Option Started
start_with handle none = none
start_with handle (some response) = some (handle response)

-- A property of what is started, for an exception and for every answer.
pub start_with_both :
    (P : Option Started → Type 0) (handle : ModuleResponse → Started) (o : Option ModuleResponse)
    → P none
    → ((response : ModuleResponse) → P (some (handle response)))
    → P (start_with handle o)
unfolding start_with
start_with_both P handle none n h = n
start_with_both P handle (some response) n h = h response

module _ (q : Qt) where
  unfoldable pub start_factory : Modules → ModuleRequest → Control → Started
  start_factory m r s =
      let (factory, response) = handle_request q m.factory_actions r m.firmware_busy s.factory in
      responded (record s { factory = factory }) response

  -- The `switch` on the group; a request of the captures is not sent here, and the code throws.
  unfoldable pub start_group : Modules → ModuleGroup → ModuleRequest → Control → Option Started
  start_group m factory_reset r s = some (start_factory m r s)
  start_group m everest_config r s = start_with (responded s) (m.everest r)
  start_group m safety_controller r s =
      if eqb r.action (codes "write_settings")
      then start_with (λ a. start_safety_write a s) (m.start_write r)
      else start_with (responded s) (m.safety r)
  start_group m ocpp_config r s = start_with (responded s) (m.ocpp r)
  start_group m firmware_update r s = start_with (λ a. start_firmware a s) (m.firmware r)
  start_group m system_logs r s = start_with (responded s) (m.logs r)
  start_group m network r s = start_with (responded s) (m.network r)
  start_group m ssh_configuration r s = start_with (responded s) (m.ssh r)
  start_group m system r s = some (responded s (handle_system_request m r))
  start_group m unknown r s = some (ignored s)
  start_group m pcap r s = none
