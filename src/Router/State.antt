-- ===== src/Router/State.antt =====
-- backend/api/RequestHandler.{hpp,cpp}: the members, the table of the requests that are open, and
-- the searches in it.
use everest_ui.Base.{
  ℕ, Bool, true, false, ◌&&◌, not, List, [], ◌∷◌, Option, none, some, if◌then◌else◌, ◌==◌, ltb,
}
use everest_ui.Base.Text.{Text, codes, eqb}
use everest_ui.Base.Int.{ℤ, pos, negsuc}
use everest_ui.Base.Json.{Json, num, fraction, Fields, end}
use everest_ui.Api.Types.{same_id}

pub record RequestContext : Type 0 where
  pub client_request_id : ℤ
  pub connection_generation : ℕ
  pub group : Text
  pub action : Text
  pub related_pcap_write_request_id : ℤ

-- The members; the socket is whether there is one, the timer is whether it runs.
pub record Handler : Type 0 where
  pub has_socket : Bool
  pub response_queue : List Fields
  pub in_flight_response : Fields
  pub in_flight_id : Text
  pub has_in_flight : Bool
  pub in_flight_server_request_id : ℤ
  pub response_id_counter : ℕ
  pub server_request_id_counter : ℕ
  pub connection_generation : ℕ
  pub request_contexts : List (ℤ × RequestContext)
  pub ack_timer : Bool

abbrev pub new_handler : Handler
new_handler = record {
  has_socket = false;
  response_queue = [];
  in_flight_response = end;
  in_flight_id = [];
  has_in_flight = false;
  in_flight_server_request_id = negsuc 0;
  response_id_counter = 0;
  server_request_id_counter = 0;
  connection_generation = 0;
  request_contexts = [];
  ack_timer = false;
}

abbrev pub Contexts : Type 0
Contexts = List (ℤ × RequestContext)

-- `constFind(key)`
unfoldable pub find_context : ℤ → Contexts → Option RequestContext
find_context id [] = none
find_context id ((key, c) ∷ cs) = if same_id key id then some c else find_context id cs

-- `remove(key)`
unfoldable pub remove_context : ℤ → Contexts → Contexts
remove_context id [] = []
remove_context id ((key, c) ∷ cs) =
    let rest = remove_context id cs in if same_id key id then rest else (key, c) ∷ rest

-- `insert(key, value)`
unfoldable pub insert_context : ℤ → RequestContext → Contexts → Contexts
insert_context id c [] = (id, c) ∷ []
insert_context id c ((key, d) ∷ cs) =
    if same_id key id then (key, c) ∷ cs else (key, d) ∷ insert_context id c cs

-- `a < b`
unfoldable pub less : ℤ → ℤ → Bool
less (pos a) (pos b) = ltb a b
less (negsuc a) (negsuc b) = ltb b a
less (pos a) (negsuc b) = false
less (negsuc a) (pos b) = true

-- The id is greater than 0.
abbrev pub is_positive : ℤ → Bool
is_positive id = less (pos 0) id

-- `static_cast<qint64>(toDouble())`; the parameter is that of a double that is no integer, and an
-- integer is one that the double holds exactly.
abbrev pub to_id : (truncated : ℤ) → Json → ℤ
to_id truncated (num n) = n
to_id truncated fraction = truncated
to_id truncated _ = pos 0

abbrev pub is_pcap_read : RequestContext → Bool
is_pcap_read c = eqb c.group (codes "pcap") && eqb c.action (codes "read")

abbrev pub is_pcap_write : RequestContext → Bool
is_pcap_write c = eqb c.group (codes "pcap") && eqb c.action (codes "write")

abbrev pub belongs : (generation : ℕ) → (client : ℤ) → RequestContext → Bool
belongs generation client c =
    c.connection_generation == generation && same_id c.client_request_id client && is_pcap_read c

-- `findPcapReadContext`, from the result so far.
unfoldable pub greatest_read : (generation : ℕ) → (client result : ℤ) → Contexts → ℤ
greatest_read generation client result [] = result
greatest_read generation client result ((key, c) ∷ cs) =
    greatest_read generation client
      (if belongs generation client c && less result key then key else result) cs

unfoldable pub find_pcap_read_context : ℤ → Handler → ℤ
find_pcap_read_context client s =
    greatest_read s.connection_generation client (negsuc 0) s.request_contexts

-- The loop of `trySendNextResponse`, which stops at the first.
unfoldable pub first_read : (generation : ℕ) → (client : ℤ) → Contexts → ℤ
first_read generation client [] = negsuc 0
first_read generation client ((key, c) ∷ cs) =
    if belongs generation client c then key else first_read generation client cs

unfoldable pub remove_write : ℤ → Option RequestContext → Handler → Handler
remove_write id none s = s
remove_write id (some c) s =
    if c.connection_generation == s.connection_generation && is_pcap_write c
    then record s { request_contexts = remove_context id s.request_contexts }
    else s

unfoldable pub remove_pcap_write_context : ℤ → Handler → Handler
remove_pcap_write_context id s =
    if not (is_positive id) then s else remove_write id (find_context id s.request_contexts) s
