-- ===== src/Tests/Router.antt =====
-- Requests and responses of the browser, at concrete inputs.
use everest_ui.Base.{ℕ, ◌≤◌, true, [], ◌∷◌, some, ◌≡◌, refl, arith}
use everest_ui.Base.Text.{Text, codes, eqb}
use everest_ui.Base.Int.{pos}
use everest_ui.Base.Json.{Fields, field, end, num, str, bool, obj, value}
use everest_ui.Api.Types.{to_module_group}
use everest_ui.Login.State.{LoginState}
use everest_ui.Router.State.{Handler, new_handler, to_id}
use everest_ui.Router.Send.{set_socket, try_send_next_response, send_first, detach}
use everest_ui.Router.Respond.{enqueue_response, frame}
use everest_ui.Router.Message.{
  is_valid_template, handle_document, handle_object, to_module_request, route_group,
}
use everest_ui.Router.Runs.{Runs, begins, connects, steps, message, step}
use everest_ui.Router.Flow.{IsFlowing}
use everest_ui.Router.Isolation.{Runs-IsFlowing, enqueue_response_isolated}
use everest_ui.Router.Frame.{IsRead, frame-IsRead}

abbrev decimal : ℕ → Text
decimal n = n ∷ []

abbrev login : LoginState
login = record { allowed = true; reason = []; operation = [] }

abbrev request : Fields
request = field (codes "requestId") (num (pos 5)) (
    field (codes "group") (str (codes "network"))
      (field (codes "action") (str (codes "read")) (field (codes "parameters") (obj end) end)))

abbrev connected : Handler
connected = (set_socket decimal (pos 0) true new_handler).handler

abbrev asked : Handler
asked = (step decimal (message (pos 0) 0 login (some (obj request))) connected).handler

has_socket : connected.has_socket ≡ true
unfolding set_socket try_send_next_response send_first detach
has_socket = refl

asked_run : Runs decimal 0 asked
asked_run =
    steps (message (pos 0) 0 login (some (obj request))) 0 connected
      (connects (pos 0) true 0 new_handler begins) has_socket

Runs-IsFlowing_example : IsFlowing decimal 0 asked
Runs-IsFlowing_example = Runs-IsFlowing decimal 0 asked asked_run

-- The browser has gone and come back, and the answer to its first request arrives.
abbrev again : Handler
again = (set_socket decimal (pos 0) true asked).handler

abbrev late : Fields
late = field (codes "ok") (bool true) (field (codes "requestId") (num (pos 1)) end)

late_id : to_id (pos 0) (value (codes "requestId") late) ≡ pos 1
unfolding value eqb
late_id = refl

older : 1 ≤ asked.server_request_id_counter
unfolding step handle_document handle_object is_valid_template to_module_request route_group
    to_module_group value eqb set_socket try_send_next_response send_first detach
older = omega arith

enqueue_response_isolated_example :
    enqueue_response decimal (pos 0) late again ≡ record { handler = again; out = [] }
enqueue_response_isolated_example =
    enqueue_response_isolated decimal asked.server_request_id_counter again (pos 0) late 1
      (connects (pos 0) true 0 asked asked_run) late_id older

frame-IsRead_example : IsRead 5 3 true (1 ∷ 2 ∷ []) (frame 5 3 true (1 ∷ 2 ∷ []))
frame-IsRead_example = frame-IsRead 5 3 true (1 ∷ 2 ∷ []) (omega arith) (omega arith)
