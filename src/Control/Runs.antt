-- ===== src/Control/Runs.antt =====
-- backend/api/SystemControlHandler.cpp: the life of the object: its events in any order, the
-- requests that enter the queue, and those that leave it.
use everest_ui.Base.{Bool, true, List, [], ◌∷◌, ◌++◌, Option, some, ◌≡◌}
use everest_ui.Base.Text.{codes, eqb}
use everest_ui.Qt.{Qt}
use everest_ui.Api.Types.{ModuleRequest, ModuleResponse}
use everest_ui.Login.State.{LoginFile}
use everest_ui.Factory.Events.{World}
use everest_ui.Factory.Events as Factory
use everest_ui.Control.State.{Control, Modules}
use everest_ui.Control.Queue.{Result, handle_module_response, handle_async_firmware_response}
use everest_ui.Control.Events.{
  new_control, Verdict, queued, judge, enqueue_request, handle_safety_write_keep_alive,
  handle_factory,
}
use everest_ui.Control.Order.{left}

-- The calls of the public slot, of the slots of other objects, and of the timer.
pub data Event : Type 0 where
  enqueue : ModuleRequest → Event
  -- the callback of `startWriteRequest`
  safety_finished : ModuleResponse → Event
  firmware_responded : ModuleResponse → Event
  keepalive_fires : Event
  factory : World → Factory.Event → Event

unfoldable pub step : Qt → Modules → Event → Control → Option Result
step q m (enqueue r) s = enqueue_request q m r s
step q m (safety_finished response) s = handle_module_response q m response s
step q m (firmware_responded response) s = handle_async_firmware_response q m response s
step q m keepalive_fires s = some (handle_safety_write_keep_alive s)
step q m (factory w e) s = handle_factory q m w e s

abbrev pub entered_as : ModuleRequest → Verdict → List ModuleRequest
entered_as r queued = r ∷ []
entered_as r _ = []

-- The requests that the event appends to the queue.
abbrev pub entered : Qt → Modules → Event → Control → List ModuleRequest
entered q m (enqueue r) s = entered_as r (judge q m r s)
entered q m _ s = []

-- The callback brings a response of the safety controller, and the slots of the factory reset are
-- called when its own events happen.
unfoldable pub comes : Event → Control → Bool
comes (safety_finished response) s = eqb response.group (codes "safety")
comes (factory w e) s = Factory.happens e s.factory
comes _ s = true

pub data Runs (q : Qt) : Control → List ModuleRequest → List ModuleRequest → Type 0 where
  begins : (login : LoginFile) → Runs q (new_control login) [] []
  steps :
      (m : Modules) (e : Event) (s : Control) (ins outs : List ModuleRequest) (r : Result)
      → Runs q s ins outs
      → comes e s ≡ true
      → step q m e s ≡ some r
      → Runs q r.control (ins ++ entered q m e s) (outs ++ left r.out)
