-- ===== src/Router/Message.antt =====
-- backend/api/RequestHandler.cpp: `handleTextMessage`.
use everest_ui.Base.{
  ℕ, suc, ◌+◌, ◌%◌, ◌^◌, Bool, true, false, ◌&&◌, ◌||◌, not, [], ◌∷◌, Option, some, if◌then◌else◌,
}
use everest_ui.Base.Text.{Text, codes, eqb}
use everest_ui.Base.Int.{ℤ, pos}
use everest_ui.Base.Json.{
  Json, obj, Fields, value, to_object, to_string, is_double, is_string, is_object,
}
use everest_ui.Qt.{Qt}
use everest_ui.Api.Types.{
  ModuleGroup, pcap, unknown, ModuleRequest, ModuleResponse, error_fields, to_module_group,
}
use everest_ui.Api.Response.{build_response}
use everest_ui.Login.State.{LoginState}
use everest_ui.Router.State.{Handler, insert_context, find_pcap_read_context, is_positive, to_id}
use everest_ui.Router.Send.{
  to_pcap, to_system_control, close_socket, pcap_chunk, Result, silent, handle_ack,
  enqueue_current_response,
}
use everest_ui.Router.Respond.{enqueue_response}

abbrev pub is_ack : Fields → Bool
is_ack o = eqb (to_string (value (codes "type") o)) (codes "ack")

abbrev pub is_pcap_chunk_ack : Fields → Bool
is_pcap_chunk_ack o = eqb (to_string (value (codes "type") o)) (codes "pcap.chunk_ack")

unfoldable pub is_valid_template : Fields → Bool
is_valid_template o =
    is_double (value (codes "requestId") o)
    && is_string (value (codes "group") o)
    && is_string (value (codes "action") o)
    && is_object (value (codes "parameters") o)

abbrev pub request_error : (id : ℤ) → (group action error : Text) → ModuleResponse
request_error id group action error = record {
  request_id = id;
  group = group;
  action = action;
  parameters = error_fields error;
  success = false;
  final = true;
}

module _ (truncated : ℤ) where
  unfoldable pub to_module_request : Fields → ModuleRequest
  to_module_request o = record {
    request_id = to_id truncated (value (codes "requestId") o);
    group = to_module_group (to_string (value (codes "group") o));
    action = to_string (value (codes "action") o);
    parameters = to_object (value (codes "parameters") o);
  }

  -- The sequence is a `quint32`.
  unfoldable pub handle_pcap_chunk_ack : (sequence : ℕ) → Fields → Handler → Result
  handle_pcap_chunk_ack sequence o s =
      let id = find_pcap_read_context (to_id truncated (value (codes "requestId") o)) s in
      if not (is_double (value (codes "requestId") o))
        || not (is_double (value (codes "sequence") o))
      then silent s
      else if not (is_positive id)
      then silent s
      else record { handler = s; out = pcap_chunk id ((sequence + 1) % 2 ^ 32) ∷ [] }

  -- The context of a request, with the number that the server gives to it.
  abbrev pub registered : Fields → Handler → Handler
  registered o s = record s {
    server_request_id_counter = suc s.server_request_id_counter;
    request_contexts =
        insert_context (pos (suc s.server_request_id_counter))
          (record {
            client_request_id = to_id truncated (value (codes "requestId") o);
            connection_generation = s.connection_generation;
            group = to_string (value (codes "group") o);
            action = to_string (value (codes "action") o);
            related_pcap_write_request_id = pos 0;
          })
          s.request_contexts;
  }

  abbrev pub routed_request : Fields → Handler → ModuleRequest
  routed_request o s = record (to_module_request o) {
    request_id = pos (suc s.server_request_id_counter);
  }

  -- `decimal` is as in Router/Send.
  unfoldable pub route_group : (decimal : ℕ → Text) → ModuleGroup → Fields → Handler → Result
  route_group decimal unknown o s =
      let r = routed_request o s in
      enqueue_response decimal truncated
        (build_response (
          request_error r.request_id (to_string (value (codes "group") o)) r.action
            (codes "unsupported_group")))
        (registered o s)
  route_group decimal pcap o s = record {
    handler = registered o s;
    out = to_pcap (routed_request o s) ∷ [];
  }
  route_group decimal _ o s = record {
    handler = registered o s;
    out = to_system_control (routed_request o s) ∷ [];
  }

  -- `sequence` is `static_cast<quint32>` of the number of an acknowledged chunk.
  unfoldable pub handle_object :
      (decimal : ℕ → Text) → (sequence : ℕ) → LoginState → Fields → Handler → Result
  handle_object decimal sequence login o s =
      if not login.allowed && not (is_ack o)
      then record { handler = s; out = if s.has_socket then close_socket login.reason ∷ [] else [] }
      else if is_pcap_chunk_ack o
      then handle_pcap_chunk_ack sequence o s
      else if is_ack o
      then handle_ack decimal truncated o s
      else if not (is_valid_template o)
      then enqueue_current_response decimal truncated
          (build_response
            (request_error (pos 0) (codes "request") (codes "template") (codes "invalid_template")))
          s
      else route_group decimal (to_module_request o).group o s

  unfoldable pub handle_document :
      (decimal : ℕ → Text) → (sequence : ℕ) → LoginState → Option Json → Handler → Result
  handle_document decimal sequence login (some (obj o)) s = handle_object decimal sequence login o s
  handle_document decimal sequence login _ s =
      enqueue_current_response decimal truncated
        (build_response
          (request_error (pos 0) (codes "request") (codes "parse") (codes "invalid_json")))
        s

  -- `handleTextMessage`
  unfoldable pub handle_text_message :
      Qt → (decimal : ℕ → Text) → (sequence : ℕ) → LoginState → Text → Handler → Result
  handle_text_message q decimal sequence login message s =
      handle_document decimal sequence login (q.from_json message) s
