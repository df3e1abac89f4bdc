-- ===== src/Api/Response.antt =====
-- backend/api/libs/ResponseBuilder.cpp: the object that the browser gets.
use everest_ui.Base.{true, false, Bool, ◌∷◌, ◌++◌, if◌then◌else◌, not}
use everest_ui.Base.Text.{Text, codes}
use everest_ui.Base.Json.{Fields, field, end, str, num, bool, obj}
use everest_ui.Api.Types.{ModuleResponse}

-- `isEmpty()` of an object
abbrev pub has_no_member : Fields → Bool
has_no_member end = true
has_no_member (field _ _ _) = false

unfoldable pub build_type_suffix : Bool → Fields → Text
build_type_suffix success parameters =
    if not success
    then codes "error"
    else if has_no_member parameters
    then codes "ack"
    else codes "result"

unfoldable pub build_type : ModuleResponse → Text
build_type r = r.group ++ (b'.' ∷ (r.action ++ (b'.' ∷ build_type_suffix r.success r.parameters)))

unfoldable pub build_response : ModuleResponse → Fields
build_response r = field (codes "ok") (bool r.success) (
    field (codes "final") (bool r.final) (
      field (codes "requestId") (num r.request_id) (
        field (codes "type") (str (build_type r))
          (field (codes "parameters") (obj r.parameters) end))))
