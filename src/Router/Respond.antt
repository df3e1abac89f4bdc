-- ===== src/Router/Respond.antt =====
-- backend/api/RequestHandler.cpp: `enqueueResponse` and `enqueuePcapChunk`.
use everest_ui.Base.{
  ℕ, ◌-◌, ◌%◌, ◌/◌, ◌^◌, zero, suc, Bool, true, false, ◌&&◌, ◌||◌, not, [], ◌∷◌, ◌++◌, Option, none,
  some, if◌then◌else◌, ◌==◌,
}
use everest_ui.Base.Text.{Text, codes, eqb}
use everest_ui.Base.Int.{ℤ, pos, negsuc}
use everest_ui.Base.Json.{
  num, obj, Fields, value, set_value, remove_value, to_object, to_string, to_bool_or, is_double,
}
use everest_ui.Router.State.{
  Handler, RequestContext, find_context, remove_context, insert_context, is_pcap_read,
  is_pcap_write, remove_pcap_write_context, to_id,
}
use everest_ui.Router.Send.{Result, silent, enqueue_response_object, send_binary}

-- `retainContext`
unfoldable pub retain_context : Fields → RequestContext → Bool
retain_context response c =
    if not (to_bool_or true (value (codes "final") response))
    then true
    else if not (is_pcap_write c)
    then false
    else to_bool_or false (value (codes "ok") response)
      || eqb (to_string (value (codes "error") (to_object (value (codes "parameters") response))))
          (codes "pcap_limit_reached")

-- The context and the client's response, once the request of the capture is known.
pub record Adapted : Type 0 where
  pub context : RequestContext
  pub client_response : Fields
  pub handler : Handler

-- The lines on `capture_request_id`; `id` is that of the server.
unfoldable pub adapt : (truncated : ℤ) → (id : ℤ) → Fields → RequestContext → Handler → Adapted
adapt truncated id response c s =
    let client = set_value (codes "requestId") (num c.client_request_id) response in
    let capture =
      value (codes "capture_request_id") (to_object (value (codes "parameters") response)) in
    let c' = record c { related_pcap_write_request_id = to_id truncated capture } in
    let parameters =
      remove_value (codes "capture_request_id") (to_object (value (codes "parameters") client)) in
    if is_pcap_read c && is_double capture
    then record {
      context = c';
      client_response = set_value (codes "parameters") (obj parameters) client;
      handler = record s { request_contexts = insert_context id c' s.request_contexts };
    }
    else record { context = c; client_response = client; handler = s }

abbrev pub without : ℤ → Handler → Handler
without id s = record s { request_contexts = remove_context id s.request_contexts }

-- The contexts that a response leaves.
unfoldable pub settle : (id : ℤ) → Fields → RequestContext → Handler → Handler
settle id response c s =
    let final = to_bool_or true (value (codes "final") response) in
    let s' = if final && not (retain_context response c) then without id s else s in
    if final && is_pcap_read c
    then remove_pcap_write_context c.related_pcap_write_request_id s'
    else s'

module _ (decimal : ℕ → Text) (truncated : ℤ) where
  unfoldable pub respond : (id : ℤ) → Fields → Option RequestContext → Handler → Result
  respond id response none s = silent s
  respond id response (some c) s =
      let a = adapt truncated id response c s in
      if not (c.connection_generation == s.connection_generation)
      then silent (without id s)
      else enqueue_response_object decimal truncated a.client_response
          (settle id response a.context a.handler)

  unfoldable pub enqueue_response : Fields → Handler → Result
  enqueue_response response s =
      let id = to_id truncated (value (codes "requestId") response) in
      if not s.has_socket
      then silent s
      else respond id response (find_context id s.request_contexts) s

-- `n` bytes of a number, the greatest first.
unfoldable pub big_endian : ℕ → ℕ → Text
big_endian zero v = []
big_endian (suc n) v = big_endian n (v / 256) ++ (v % 256 ∷ [])

-- A `qint64` as a `quint64`.
abbrev pub to_unsigned : ℤ → ℕ
to_unsigned (pos n) = n % 2 ^ 64
to_unsigned (negsuc n) = 2 ^ 64 - 1 - n % 2 ^ 64

unfoldable pub frame : (client : ℕ) → (sequence : ℕ) → (final : Bool) → Text → Text
frame client sequence final payload =
    codes "PCAP"
    ++ ((1 ∷ (if final then 1 else 0) ∷ [])
        ++ (big_endian 2 0 ++ (big_endian 8 client ++ (big_endian 4 sequence ++ payload))))

unfoldable pub send_chunk :
    (id : ℤ) → (sequence : ℕ) → (final : Bool) → Text → Option RequestContext → Handler → Result
send_chunk id sequence final payload none s = silent s
send_chunk id sequence final payload (some c) s =
    if not (c.connection_generation == s.connection_generation) || not (is_pcap_read c)
    then silent s
    else record {
      handler =
          if final
          then remove_pcap_write_context c.related_pcap_write_request_id (without id s)
          else s;
      out = send_binary (frame (to_unsigned c.client_request_id) sequence final payload) ∷ [];
    }

unfoldable pub enqueue_pcap_chunk :
    (id : ℤ) → (sequence : ℕ) → (final : Bool) → Text → Handler → Result
enqueue_pcap_chunk id sequence final payload s =
    if not s.has_socket
    then silent s
    else send_chunk id sequence final payload (find_context id s.request_contexts) s
