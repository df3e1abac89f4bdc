-- ===== src/Router/Runs.antt =====
-- backend/api/RequestHandler.cpp: the life of the object: connections, messages, responses, chunks
-- and the timer in any order.
use everest_ui.Base.{ℕ, Bool, true, Option, ◌≡◌}
use everest_ui.Base.Text.{Text}
use everest_ui.Base.Int.{ℤ}
use everest_ui.Base.Json.{Json, Fields}
use everest_ui.Login.State.{LoginState}
use everest_ui.Router.State.{Handler, new_handler}
use everest_ui.Router.Send.{Result, set_socket, resend_in_flight}
use everest_ui.Router.Respond.{enqueue_response, enqueue_pcap_chunk}
use everest_ui.Router.Message.{handle_document}

pub data Event : Type 0 where
  message : (truncated : ℤ) → (sequence : ℕ) → LoginState → Option Json → Event
  response : (truncated : ℤ) → Fields → Event
  chunk : (id : ℤ) → (sequence : ℕ) → (final : Bool) → Text → Event
  ack_due : Event

unfoldable pub step : (decimal : ℕ → Text) → Event → Handler → Result
step decimal (message truncated sequence login document) s =
    handle_document truncated decimal sequence login document s
step decimal (response truncated r) s = enqueue_response decimal truncated r s
step decimal (chunk id sequence final payload) s = enqueue_pcap_chunk id sequence final payload s
step decimal ack_due s = resend_in_flight s

-- A message comes from a socket.
abbrev pub comes : Event → Handler → Bool
comes (message truncated sequence login document) s = s.has_socket
comes _ s = true

-- The number is that of the last request before the connection.
pub data Runs (decimal : ℕ → Text) : ℕ → Handler → Type 0 where
  begins : Runs decimal 0 new_handler
  connects :
      (truncated : ℤ) (connected : Bool) (since : ℕ) (s : Handler)
      → Runs decimal since s
      → Runs decimal s.server_request_id_counter (set_socket decimal truncated connected s).handler
  steps :
      (e : Event) (since : ℕ) (s : Handler)
      → Runs decimal since s
      → comes e s ≡ true
      → Runs decimal since (step decimal e s).handler
