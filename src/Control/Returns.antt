-- ===== src/Control/Returns.antt =====
-- backend/api/SystemControlHandler.cpp: theorems on the exceptions of `handleModuleResponse`.
use everest_ui.Base.{
  Bool, true, false, ◌||◌, ◌&&◌, if◌then◌else◌, not, List, [], ◌∷◌, Option, none, some, is_some,
  ◌≡◌,
}
use everest_ui.Base.Text.{Text, codes, eqb}
use everest_ui.Qt.{Qt}
use everest_ui.Api.Types.{
  ModuleGroup, pcap, everest_config, safety_controller, ocpp_config, firmware_update, system_logs,
  network, ssh_configuration, system, factory_reset, unknown, ModuleRequest, ModuleResponse,
}
use everest_ui.Factory.State.{Factory, response}
use everest_ui.Control.State.{Control, Modules, matches_pending_request, Started, responded}
use everest_ui.Control.Queue.{Result}

-- The response names the request: its number, its action and the name of its group.
record IsFor (name : Text) (r : ModuleRequest) (response : ModuleResponse) : Type 0 where
  request_id : response.request_id ≡ r.request_id
  group : response.group ≡ name
  action : response.action ≡ r.action

abbrev Returns : Option Result → Type 0
Returns o = is_some o ≡ true

-- What `startRequest` hands on can be handled.
abbrev CanReturn : ModuleRequest → Option Started → Type 0
CanReturn r none = ⊥
CanReturn r (some (responded s answer)) =
    (s.pending ≡ some r) × (matches_pending_request answer r ≡ true)
CanReturn r (some _) = Unit

-- The module does not throw, and what it answers is for the request.
abbrev pub is_for : ModuleRequest → Option ModuleResponse → Bool
is_for r none = false
is_for r (some answer) = matches_pending_request answer r

-- The module of the group answers the request: the captures never do.
unfoldable pub is_answered : Modules → ModuleGroup → ModuleRequest → Bool
is_answered m factory_reset r = true
is_answered m everest_config r = is_for r (m.everest r)
is_answered m safety_controller r =
    if eqb r.action (codes "write_settings")
    then is_for r (m.start_write r)
    else is_for r (m.safety r)
is_answered m ocpp_config r = is_for r (m.ocpp r)
is_answered m firmware_update r = is_for r (m.firmware r)
is_answered m system_logs r = is_for r (m.logs r)
is_answered m network r = is_for r (m.network r)
is_answered m ssh_configuration r = is_for r (m.ssh r)
is_answered m system r = true
is_answered m unknown r = true
is_answered m pcap r = false

-- There is a request that is reached while login is allowed, and that is not answered.
unfoldable pub blames : Modules → List ModuleRequest → Bool
blames m [] = false
blames m (r ∷ rest) = m.login_allowed (r ∷ rest) && not (is_answered m r.group r) || blames m rest
