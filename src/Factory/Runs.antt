-- ===== src/Factory/Runs.antt =====
-- backend/api/modules/FactoryResetRuntime.cpp: the life of the object: requests and events in any
-- order, the resets that it accepts, and the last answers that it emits.
use everest_ui.Base.{Bool, true, List, [], ◌∷◌, ◌++◌, if◌then◌else◌, ◌≡◌}
use everest_ui.Qt.{Qt}
use everest_ui.Api.Types.{ModuleRequest, ModuleResponse}
use everest_ui.Login.State.{LoginFile, LoginPath}
use everest_ui.Factory.Evse.{Actions}
use everest_ui.Factory.State.{Factory, new_factory, handle_request}
use everest_ui.Factory.Events.{Output, respond, World, Event, handle, happens}

-- A request is accepted if the response is not the last one.
abbrev pub accepted : ModuleRequest → ModuleResponse → List ModuleRequest
accepted r response = if response.final then [] else r ∷ []

-- The last responses among the outputs.
abbrev pub answers : List Output → List ModuleResponse
answers [] = []
answers (respond r ∷ out) = if r.final then r ∷ answers out else answers out
answers (_ ∷ out) = answers out

-- The path of the login state does not change.
pub data Runs (q : Qt) (path : LoginPath)
    : Factory → List ModuleRequest → List ModuleResponse → Type 0 where
  begins : (login : LoginFile) → Runs q path (new_factory login) [] []
  requests :
      (actions : Actions) (r : ModuleRequest) (busy : Bool) (s : Factory)
      (resets : List ModuleRequest) (answered : List ModuleResponse)
      → Runs q path s resets answered
      → Runs q path
          (handle_request q actions r busy s).0
          (resets ++ accepted r (handle_request q actions r busy s).1)
          answered
  slots :
      (w : World) (e : Event) (s : Factory) (resets : List ModuleRequest)
      (answered : List ModuleResponse)
      → Runs q path s resets answered
      → happens e s ≡ true
      → w.path ≡ path
      → Runs q path (handle q w e s).factory resets (answered ++ answers (handle q w e s).out)
