-- ===== src/Control/Queue.antt =====
-- backend/api/SystemControlHandler.cpp: `processQueue`, `startRequest` and `handleModuleResponse`,
-- which call each other until the queue waits or is empty. `none` is the exception.
use everest_ui.Base.{false, not, List, [], ◌∷◌, ◌++◌, Option, none, some, if◌then◌else◌}
use everest_ui.Qt.{Qt}
use everest_ui.Api.Types.{ModuleRequest, ModuleResponse}
use everest_ui.Control.State.{
  Control, Modules, is_safety_write, matches_pending_request, Started, responded, waits, ignored,
  start_group, is_matching_async_firmware_response, is_final_async_firmware_response,
}

-- What an event does to the outside, and the requests that it takes from the queue for good:
-- `completed` stands for `m_pendingRequest.reset()` and `cleared` for `m_queue.clear()`.
pub data Output : Type 0 where
  emitted : ModuleResponse → Output
  completed : ModuleRequest → Output
  cleared : List ModuleRequest → Output

pub record Result : Type 0 where
  pub control : Control
  pub out : List Output

abbrev pub after : List Output → Option Result → Option Result
after out none = none
after out (some r) = some (record { control = r.control; out = out ++ r.out })

-- The request is done, and the safety write with it if it was one.
unfoldable pub finish_pending : ModuleRequest → Control → Control
finish_pending p s =
    if is_safety_write p
    then record s { keepalive = false; safety_write_in_progress = false; pending = none }
    else record s { pending = none }

-- `handleModuleResponse`; `next` is `processQueue`.
unfoldable pub respond_with :
    (next : Control → Option Result)
    → ModuleResponse
    → Option ModuleRequest
    → Control
    → Option Result
respond_with next response none s = none
respond_with next response (some p) s =
    if not (matches_pending_request response p)
    then none
    else if not response.final
    then some (record { control = s; out = emitted response ∷ [] })
    else after (emitted response ∷ completed p ∷ []) (next (finish_pending p s))

-- The end of `startRequest`.
unfoldable pub continue_with :
    (next : Control → Option Result) → ModuleRequest → Option Started → Option Result
continue_with next r none = none
continue_with next r (some (responded s response)) = respond_with next response s.pending s
continue_with next r (some (waits s)) = some (record { control = s; out = [] })
continue_with next r (some (ignored s)) =
    after (completed r ∷ []) (next (record s { pending = none }))

module _ (q : Qt) (m : Modules) where
  -- `processQueue` without a pending request, on the queue.
  unfoldable pub drain : List ModuleRequest → Control → Option Result
  drain [] s = some (record { control = s; out = [] })
  drain (r ∷ rest) s =
      if not (m.login_allowed (r ∷ rest))
      then some (record { control = record s { queue = [] }; out = cleared (r ∷ rest) ∷ [] })
      else continue_with (λ s'. drain rest s') r
          (start_group q m r.group r (record s { queue = rest; pending = some r }))

  unfoldable pub process : Option ModuleRequest → Control → Option Result
  process (some p) s = some (record { control = s; out = [] })
  process none s = drain s.queue s

  unfoldable pub process_queue : Control → Option Result
  process_queue s = process s.pending s

  unfoldable pub handle_module_response : ModuleResponse → Control → Option Result
  handle_module_response response s = respond_with (λ s'. process_queue s') response s.pending s

  unfoldable pub firmware_with : ModuleResponse → Option ModuleRequest → Control → Option Result
  firmware_with response none s = none
  firmware_with response (some p) s =
      if not (is_matching_async_firmware_response response p)
      then none
      else if not (is_final_async_firmware_response response p)
      then some (record { control = s; out = emitted response ∷ [] })
      else after (emitted response ∷ completed p ∷ []) (process_queue (record s { pending = none }))

  unfoldable pub handle_async_firmware_response : ModuleResponse → Control → Option Result
  handle_async_firmware_response response s = firmware_with response s.pending s
