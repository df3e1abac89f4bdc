-- ===== src/Router/Send.antt =====
-- backend/api/RequestHandler.cpp: the response that waits for its acknowledgement, and the queue
-- behind it.
use everest_ui.Base.{
  ℕ, suc, ◌+◌, ◌%◌, ◌^◌, Bool, true, false, ◌&&◌, ◌||◌, not, List, [], ◌∷◌, ◌++◌, if◌then◌else◌,
}
use everest_ui.Base.Text.{Text, codes, eqb}
use everest_ui.Base.Int.{ℤ, negsuc}
use everest_ui.Base.Json.{str, Fields, end, value, set_value, to_string, to_object}
use everest_ui.Api.Types.{ModuleRequest}
use everest_ui.Router.State.{Handler, to_id, first_read, is_positive}

-- What the handler does: a text or a binary message, the close of the socket with its reason, and
-- its signals.
pub data Output : Type 0 where
  send_text : Fields → Output
  send_binary close_socket : Text → Output
  to_pcap to_system_control : ModuleRequest → Output
  pcap_chunk : (server_request_id : ℤ) → (sequence : ℕ) → Output

pub record Result : Type 0 where
  pub handler : Handler
  pub out : List Output

abbrev pub silent : Handler → Result
silent s = record { handler = s; out = [] }

abbrev pub cleared : Handler → Handler
cleared s = record s {
  ack_timer = false;
  has_in_flight = false;
  in_flight_id = [];
  in_flight_response = end;
  in_flight_server_request_id = negsuc 0;
}

-- `clearSession`
unfoldable pub clear_session : Handler → Handler
clear_session s = record (cleared s) { response_queue = []; request_contexts = [] }

-- A former socket is given up.
unfoldable pub detach : Handler → Handler
detach s = if s.has_socket then record (clear_session s) { has_socket = false } else s

unfoldable pub resend_in_flight : Handler → Result
resend_in_flight s =
    if not s.has_socket || not s.has_in_flight
    then silent (record s { ack_timer = false })
    else record {
      handler = record s { ack_timer = true };
      out = send_text s.in_flight_response ∷ [];
    }

-- `decimal` writes a number.
abbrev pub response_id : (decimal : ℕ → Text) → ℕ → Text
response_id decimal n = codes "r-" ++ decimal n

-- The response as it is sent, with its number.
abbrev pub numbered : (decimal : ℕ → Text) → ℕ → Fields → Fields
numbered decimal n response = set_value (codes "responseId") (str (response_id decimal n)) response

-- `truncated` is the request id of a response that is no integer.
module _ (decimal : ℕ → Text) (truncated : ℤ) where
  abbrev pub transmit : Fields → List Fields → Handler → Result
  transmit response rest s = record {
    handler = record s {
      response_queue = rest;
      response_id_counter = suc s.response_id_counter;
      in_flight_response = numbered decimal (suc s.response_id_counter) response;
      in_flight_id = response_id decimal (suc s.response_id_counter);
      in_flight_server_request_id =
          first_read s.connection_generation
            (to_id truncated
              (value (codes "requestId") (numbered decimal (suc s.response_id_counter) response)))
            s.request_contexts;
      has_in_flight = true;
      ack_timer = true;
    };
    out = send_text (numbered decimal (suc s.response_id_counter) response) ∷ [];
  }

  unfoldable pub send_first : List Fields → Handler → Result
  send_first [] s = silent s
  send_first (response ∷ rest) s = transmit response rest s

  unfoldable pub try_send_next_response : Handler → Result
  try_send_next_response s =
      if not s.has_socket || s.has_in_flight then silent s else send_first s.response_queue s

  unfoldable pub enqueue_response_object : Fields → Handler → Result
  enqueue_response_object response s =
      try_send_next_response (record s { response_queue = s.response_queue ++ (response ∷ []) })

  unfoldable pub enqueue_current_response : Fields → Handler → Result
  enqueue_current_response response s =
      if not s.has_socket then silent s else enqueue_response_object response s

  abbrev pub starts_pcap_transfer : Handler → Bool
  starts_pcap_transfer s =
      eqb
        (to_string
          (value (codes "transfer") (to_object (value (codes "parameters") s.in_flight_response))))
        (codes "binary")

  abbrev pub chunk_if : Bool → ℤ → List Output
  chunk_if wanted id = if wanted then pcap_chunk id 0 ∷ [] else []

  unfoldable pub handle_ack : Fields → Handler → Result
  handle_ack object s =
      let sent = try_send_next_response (cleared s) in
      if not s.has_in_flight
        || not (eqb (to_string (value (codes "responseId") object)) s.in_flight_id)
      then silent s
      else record {
        handler = sent.handler;
        out =
            chunk_if (starts_pcap_transfer s && is_positive s.in_flight_server_request_id)
              s.in_flight_server_request_id
            ++ sent.out;
      }

  -- `setSocket`; the generation is a `quint64`.
  unfoldable pub set_socket : (connected : Bool) → Handler → Result
  set_socket connected s =
      let gone = detach s in
      if not connected
      then silent (record (clear_session gone) { has_socket = false })
      else try_send_next_response (record gone {
        has_socket = true;
        connection_generation = (gone.connection_generation + 1) % 2 ^ 64;
      })
