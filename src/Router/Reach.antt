-- ===== src/Router/Reach.antt =====
-- backend/api/RequestHandler.cpp: what an output of `handleTextMessage` brings to a module, and why.
use everest_ui.Base.{
  ℕ, Bool, true, ◌||◌, not, List, [], ◌∷◌, Option, some, ◌≡◌, is_empty, ◌⊎◌, ◌+◌, ◌%◌, ◌^◌,
}
use everest_ui.Base.Text.{codes, eqb}
use everest_ui.Base.Int.{ℤ}
use everest_ui.Base.Json.{Json, obj, Fields, value, to_string, to_object}
use everest_ui.Api.Types.{ModuleRequest}
use everest_ui.Login.State.{LoginState}
use everest_ui.Router.State.{Handler, is_positive, find_pcap_read_context, to_id}
use everest_ui.Router.Send.{Output, pcap_chunk, to_pcap, to_system_control, Result}
use everest_ui.Router.Message.{
  is_ack, is_pcap_chunk_ack, is_valid_template, registered, routed_request,
}

-- The requests among the outputs, which go to the modules.
abbrev pub forwarded : List Output → List ModuleRequest
forwarded [] = []
forwarded (to_pcap r ∷ out) = r ∷ forwarded out
forwarded (to_system_control r ∷ out) = r ∷ forwarded out
forwarded (_ ∷ out) = forwarded out

-- The chunks that are asked of the module of the captures: the number of the read, and the place of
-- the chunk.
abbrev pub chunks : List Output → List (ℤ × ℕ)
chunks [] = []
chunks (pcap_chunk id place ∷ out) = (id, place) ∷ chunks out
chunks (_ ∷ out) = chunks out

abbrev pub Quiet : Result → Type 0
Quiet r = (forwarded r.out ≡ []) × (chunks r.out ≡ [])

-- What is known of a request that reaches a module.
pub record IsForwarded (truncated : ℤ) (login : LoginState) (document : Option Json) (s : Handler)
    (r : Result) : Type 0 where
  pub object : Fields
  pub parsed : document ≡ some (obj object)
  pub allowed : login.allowed ≡ true
  pub template : is_valid_template object ≡ true
  pub request : forwarded r.out ≡ routed_request truncated object s ∷ []
  pub chunk : chunks r.out ≡ []
  pub context : r.handler ≡ registered truncated object s

-- What is known of an acknowledged chunk, after which the next one is asked for.
pub record IsContinued (truncated : ℤ) (sequence : ℕ) (login : LoginState) (document : Option Json)
    (s : Handler) (r : Result) : Type 0 where
  pub object : Fields
  pub parsed : document ≡ some (obj object)
  pub allowed : login.allowed ≡ true
  pub kind : is_pcap_chunk_ack object ≡ true
  pub read :
      is_positive (find_pcap_read_context (to_id truncated (value (codes "requestId") object)) s)
      ≡ true
  pub request : forwarded r.out ≡ []
  pub chunk :
      chunks r.out
      ≡ (
        find_pcap_read_context (to_id truncated (value (codes "requestId") object)) s,
        (sequence + 1) % 2 ^ 32,
      )
        ∷ []
  pub handler : r.handler ≡ s

-- What is known of the acknowledged response to a read, after which its first chunk is asked for.
pub record IsBegun (document : Option Json) (s : Handler) (r : Result) : Type 0 where
  pub object : Fields
  pub parsed : document ≡ some (obj object)
  pub kind : is_ack object ≡ true
  pub waited : s.has_in_flight ≡ true
  pub acknowledged : eqb (to_string (value (codes "responseId") object)) s.in_flight_id ≡ true
  pub transfer :
      eqb
        (to_string
          (value (codes "transfer") (to_object (value (codes "parameters") s.in_flight_response))))
        (codes "binary")
      ≡ true
  pub read : is_positive s.in_flight_server_request_id ≡ true
  pub request : forwarded r.out ≡ []
  pub chunk : chunks r.out ≡ (s.in_flight_server_request_id, 0) ∷ []

abbrev pub IsGated : ℤ → ℕ → LoginState → Option Json → Handler → Result → Type 0
IsGated truncated sequence login document s r =
    IsForwarded truncated login document s r
    ⊎ IsContinued truncated sequence login document s r
    ⊎ IsBegun document s r

abbrev pub reaches : Result → Bool
reaches r = not (is_empty (forwarded r.out)) || not (is_empty (chunks r.out))
