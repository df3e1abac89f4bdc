-- ===== src/Proxy/Session.antt =====
-- backend/webserver/ui/UiOccupancyTracker.cpp and backend/webserver/ws/WebSocketProxySession.{hpp,cpp}:
-- the tracker, the state of a session, how it is opened, and the four ways in which it closes.
-- A session may have no tracker: that is `none`. `close` and `abort` leave a socket that is neither
-- connected nor connecting.
use everest_ui.Base.{
  ℕ, ◌+◌, ◌*◌, Bool, true, false, ◌&&◌, not, List, [], ◌∷◌, ◌++◌, Option, none, some, is_some,
  if◌then◌else◌, leb, is_empty, length,
}
use everest_ui.Base.Text.{Text, codes}
use everest_ui.Login.State.{LoginState}

-- The tracker is the address of its owner, empty for none.
abbrev pub Tracker : Type 0
Tracker = Text

abbrev pub has_owner : Tracker → Bool
has_owner owner = not (is_empty owner)

abbrev pub try_claim : Text → Tracker → Tracker × Bool
try_claim peer owner = if has_owner owner then (owner, false) else (peer, true)

abbrev pub release : Tracker → Tracker
release owner = []

-- `formatPeerAddress`; the port is its decimal digits.
unfoldable pub format_peer_address : (is_ipv6 : Bool) → (address port : Text) → Text
format_peer_address is_ipv6 address port =
    if is_ipv6 then b'[' ∷ (address ++ (b']' ∷ b':' ∷ port)) else address ++ (b':' ∷ port)

pub data Message : Type 0 where
  text binary : Text → Message

pub data Socket : Type 0 where
  idle connecting connected : Socket

abbrev pub is_connecting : Socket → Bool
is_connecting connecting = true
is_connecting _ = false

abbrev pub is_idle : Socket → Bool
is_idle idle = true
is_idle _ = false

pub data CloseCode : Type 0 where
  policy_violated too_much_data going_away bad_operation : CloseCode
  given : ℕ → CloseCode

-- What a session does to its two sockets.
pub data Output : Type 0 where
  to_backend to_client : Message → Output
  close_client : CloseCode → Text → Output
  close_backend : CloseCode → Text → Output
  abort_backend ping open_backend : Output

pub record Session : Type 0 where
  pub client_open : Bool
  pub backend : Socket
  pub owns : Bool
  pub backend_connected : Bool
  pub waiting_for_pong : Bool
  -- the two timers run
  pub heartbeat : Bool
  pub timeout : Bool
  -- the signals of the sockets reach the session
  pub attached : Bool
  -- `deleteLater` has been called
  pub closing : Bool
  pub pending_bytes : ℕ
  pub pending_text : List Text
  pub pending_binary : List Text

abbrev pub new_session : Session
new_session = record {
  client_open = true;
  backend = idle;
  owns = false;
  backend_connected = false;
  waiting_for_pong = false;
  heartbeat = false;
  timeout = false;
  attached = false;
  closing = false;
  pending_bytes = 0;
  pending_text = [];
  pending_binary = [];
}

abbrev pub max_pending_messages : ℕ
max_pending_messages = 256

abbrev pub max_pending_bytes : ℕ
max_pending_bytes = 2 * 1024 * 1024

pub record Result : Type 0 where
  pub session : Session
  pub tracker : Option Tracker
  pub out : List Output

-- `releaseOccupancy`
unfoldable pub release_occupancy : Session → Option Tracker → Session × Option Tracker
release_occupancy s none = (s, none)
release_occupancy s (some owner) =
    if not s.owns then (s, some owner) else (record s { owns = false }, some (release owner))

-- `restrictLogin`
unfoldable pub restrict_login : Text → Session → Option Tracker → Result
restrict_login reason s t =
    let cut = record s {
      attached = false;
      heartbeat = false;
      timeout = false;
      pending_text = [];
      pending_binary = [];
      backend_connected = false;
    } in
    let (freed, t') = release_occupancy cut t in
    record {
      session = record freed { backend = idle; client_open = false; closing = true };
      tracker = t';
      out = abort_backend ∷ close_client policy_violated reason ∷ [];
    }

-- The constructor; the tracker's claim is tried only if there is a tracker.
unfoldable pub claim : Text → Option Tracker → Option Tracker × Bool
claim peer none = (none, true)
claim peer (some owner) = (some (try_claim peer owner).0, (try_claim peer owner).1)

unfoldable pub open_session : LoginState → Text → Option Tracker → Result
open_session login peer t =
    let (t', claimed) = claim peer t in
    if not login.allowed
    then restrict_login login.reason new_session t
    else if not claimed
    then record {
      session = record new_session { client_open = false; closing = true };
      tracker = t';
      out = close_client policy_violated (codes "ui already in use") ∷ [];
    }
    else record {
      session = record new_session {
        owns = is_some t;
        heartbeat = true;
        attached = true;
        backend = connecting;
      };
      tracker = t';
      out = open_backend ∷ [];
    }

-- The end of `closeDueToQueueOverflow` and `closeDueToHeartbeatTimeout`.
unfoldable pub close_both : CloseCode → Text → Session → Option Tracker → Result
close_both code reason s t =
    let (freed, t') = release_occupancy s t in
    record {
      session = record freed {
        heartbeat = false;
        timeout = false;
        client_open = false;
        backend = idle;
        closing = true;
      };
      tracker = t';
      out =
          (if s.client_open then close_client code reason ∷ [] else [])
          ++ (if not (is_idle s.backend) then close_backend going_away reason ∷ [] else []);
    }

abbrev pub close_due_to_queue_overflow : Session → Option Tracker → Result
close_due_to_queue_overflow s t =
    close_both too_much_data (codes "proxy pending queue overflow") s t

abbrev pub close_due_to_heartbeat_timeout : Session → Option Tracker → Result
close_due_to_heartbeat_timeout s t = close_both going_away (codes "client heartbeat timeout") s t

abbrev pub can_queue_message : Session → ℕ → Bool
can_queue_message s bytes =
    not (leb max_pending_messages (length s.pending_text + length s.pending_binary))
    && leb (s.pending_bytes + bytes) max_pending_bytes
