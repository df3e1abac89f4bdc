-- ===== src/Api/Types.antt =====
-- backend/api/RequestResponseTypes.hpp and backend/api/ProtocolSchema.hpp: the groups, a request, a
-- response, and the group of a name as backend/api/RequestHandler.cpp and
-- backend/api/SystemControlHandler.cpp find it.
use everest_ui.Base.{Bool, true, false, [], ◌==◌, if◌then◌else◌, ◌≡◌, refl, arith}
use everest_ui.Base.Text.{Text, codes, eqb}
use everest_ui.Base.Int.{ℤ, pos, negsuc}
use everest_ui.Base.Json.{Fields, field, end, str}

pub data ModuleGroup : Type 0 where
  pcap everest_config safety_controller ocpp_config firmware_update : ModuleGroup
  system_logs network ssh_configuration system factory_reset unknown : ModuleGroup

pub record ModuleRequest : Type 0 where
  pub request_id : ℤ
  pub group : ModuleGroup
  pub action : Text
  pub parameters : Fields

pub record ModuleResponse : Type 0 where
  pub request_id : ℤ
  pub group : Text
  pub action : Text
  pub parameters : Fields
  pub success : Bool
  pub final : Bool

-- An object whose only member is `error`.
abbrev pub error_fields : Text → Fields
error_fields name = field (codes "error") (str name) end

abbrev pub group_name : ModuleGroup → Text
group_name pcap = codes "pcap"
group_name everest_config = codes "everest"
group_name safety_controller = codes "safety"
group_name ocpp_config = codes "ocpp"
group_name firmware_update = codes "firmware"
group_name system_logs = codes "system_logs"
group_name network = codes "network"
group_name ssh_configuration = codes "ssh"
group_name system = codes "system"
group_name factory_reset = codes "factory_reset"
group_name unknown = []

-- `==` of two values of the enumeration.
unfoldable pub same_group : ModuleGroup → ModuleGroup → Bool
same_group pcap pcap = true
same_group everest_config everest_config = true
same_group safety_controller safety_controller = true
same_group ocpp_config ocpp_config = true
same_group firmware_update firmware_update = true
same_group system_logs system_logs = true
same_group network network = true
same_group ssh_configuration ssh_configuration = true
same_group system system = true
same_group factory_reset factory_reset = true
same_group unknown unknown = true
same_group _ _ = false

unfoldable pub same_id : ℤ → ℤ → Bool
same_id (pos a) (pos b) = a == b
same_id (negsuc a) (negsuc b) = a == b
same_id _ _ = false

pub same_id_refl : (a : ℤ) → same_id a a ≡ true
unfolding same_id
same_id_refl (pos a) = ground arith
same_id_refl (negsuc a) = ground arith

pub same_group_refl : (g : ModuleGroup) → same_group g g ≡ true
unfolding same_group
same_group_refl pcap = refl
same_group_refl everest_config = refl
same_group_refl safety_controller = refl
same_group_refl ocpp_config = refl
same_group_refl firmware_update = refl
same_group_refl system_logs = refl
same_group_refl network = refl
same_group_refl ssh_configuration = refl
same_group_refl system = refl
same_group_refl factory_reset = refl
same_group_refl unknown = refl

-- `SystemControl::toModuleGroup`
unfoldable pub control_group : Text → ModuleGroup
control_group g =
    if eqb g (codes "factory_reset")
    then factory_reset
    else if eqb g (codes "everest")
    then everest_config
    else if eqb g (codes "safety")
    then safety_controller
    else if eqb g (codes "ocpp")
    then ocpp_config
    else if eqb g (codes "firmware")
    then firmware_update
    else if eqb g (codes "system_logs")
    then system_logs
    else if eqb g (codes "network")
    then network
    else if eqb g (codes "ssh")
    then ssh_configuration
    else if eqb g (codes "system")
    then system
    else unknown

-- `RequestHandler::toModuleGroup`
unfoldable pub to_module_group : Text → ModuleGroup
to_module_group g =
    if eqb g (codes "factory_reset")
    then factory_reset
    else if eqb g (codes "pcap")
    then pcap
    else if eqb g (codes "everest")
    then everest_config
    else if eqb g (codes "safety")
    then safety_controller
    else if eqb g (codes "ocpp")
    then ocpp_config
    else if eqb g (codes "firmware")
    then firmware_update
    else if eqb g (codes "system_logs")
    then system_logs
    else if eqb g (codes "network")
    then network
    else if eqb g (codes "ssh")
    then ssh_configuration
    else if eqb g (codes "system")
    then system
    else unknown
