-- ===== src/Proxy/Events.antt =====
-- backend/webserver/ws/WebSocketProxySession.cpp: the slots of a session, and when Qt calls them.
use everest_ui.Base.{
  ℕ, ◌+◌, Bool, true, false, ◌&&◌, ◌||◌, not, List, [], ◌∷◌, ◌++◌, map, Option, if◌then◌else◌,
  length,
}
use everest_ui.Base.Text.{Text, codes}
use everest_ui.Login.State.{LoginState}
use everest_ui.Proxy.Session.{
  Tracker, Message, text, binary, idle, connected, is_connecting, is_idle, going_away,
  bad_operation, given, Output, to_backend, to_client, close_client, close_backend, ping, Session,
  Result, release_occupancy, restrict_login, close_due_to_queue_overflow,
  close_due_to_heartbeat_timeout, can_queue_message,
}

-- A login state is what `readLoginState` returns inside the slot.
pub data Event : Type 0 where
  backend_opened : LoginState → Event
  client_message : LoginState → Message → Event
  backend_message : Message → Event
  client_disconnected : Event
  backend_disconnected : ℕ → Text → Event
  backend_error heartbeat_due timeout_due pong : Event
  -- the slot `restrictLogin`, and `invalidateCredentials` with its own reason
  restricted : Text → Event

abbrev pub invalidate_credentials : Event
invalidate_credentials = restricted (codes "credentials reset")

-- A message is appended to the queue of its kind.
abbrev pub enqueue : Message → ℕ → Session → Session
enqueue (text msg) bytes s = record s {
  pending_text = s.pending_text ++ (msg ∷ []);
  pending_bytes = s.pending_bytes + bytes;
}
enqueue (binary msg) bytes s = record s {
  pending_binary = s.pending_binary ++ (msg ∷ []);
  pending_bytes = s.pending_bytes + bytes;
}

-- The two queues as they are sent: all texts first.
abbrev pub flushed : Session → List Output
flushed s =
    map (λ m. to_backend (text m)) s.pending_text
    ++ map (λ m. to_backend (binary m)) s.pending_binary

-- The slot of `QWebSocket::connected` of the backend.
unfoldable pub on_backend_opened : LoginState → Session → Option Tracker → Result
on_backend_opened login s t =
    let s' = record s { backend = connected } in
    if not login.allowed then restrict_login login.reason s' t else record {
      session = record s' {
        backend_connected = true;
        pending_text = [];
        pending_binary = [];
        pending_bytes = 0;
      };
      tracker = t;
      out = flushed s;
    }

-- The slots of the two kinds of messages of the client, with the size of the message.
unfoldable pub on_client_message : LoginState → Message → ℕ → Session → Option Tracker → Result
on_client_message login m bytes s t =
    if not login.allowed
    then restrict_login login.reason s t
    else if s.backend_connected
    then record { session = s; tracker = t; out = to_backend m ∷ [] }
    else if not (can_queue_message s bytes)
    then close_due_to_queue_overflow s t
    else record { session = enqueue m bytes s; tracker = t; out = [] }

unfoldable pub on_client_disconnected : Session → Option Tracker → Result
on_client_disconnected s t =
    let (freed, t') = release_occupancy s t in
    record {
      session = record freed { client_open = false; backend = idle; closing = true };
      tracker = t';
      out =
          if is_idle s.backend
          then []
          else close_backend going_away (codes "client disconnected") ∷ [];
    }

unfoldable pub on_backend_disconnected : ℕ → Text → Session → Option Tracker → Result
on_backend_disconnected code reason s t =
    let (freed, t') = release_occupancy s t in
    record {
      session = record freed { client_open = false; backend = idle; closing = true };
      tracker = t';
      out = if s.client_open then close_client (given code) reason ∷ [] else [];
    }

unfoldable pub on_backend_error : Session → Option Tracker → Result
on_backend_error s t = record {
  session = record s { client_open = false };
  tracker = t;
  out =
      if s.client_open
      then close_client bad_operation (codes "backend connection error") ∷ []
      else [];
}

-- `sendHeartbeatPing`
unfoldable pub send_heartbeat_ping : Session → Option Tracker → Result
send_heartbeat_ping s t =
    if not s.client_open || s.waiting_for_pong
    then record { session = s; tracker = t; out = [] }
    else record {
      session = record s { waiting_for_pong = true; timeout = true };
      tracker = t;
      out = ping ∷ [];
    }

module _ (utf8_size : Text → ℕ) where
  -- `msg.toUtf8().size()` and `msg.size()`
  abbrev pub message_bytes : Message → ℕ
  message_bytes (text msg) = utf8_size msg
  message_bytes (binary msg) = length msg

  unfoldable pub handle : Event → Session → Option Tracker → Result
  handle (backend_opened login) s t = on_backend_opened login s t
  handle (client_message login m) s t = on_client_message login m (message_bytes m) s t
  handle (backend_message m) s t = record { session = s; tracker = t; out = to_client m ∷ [] }
  handle client_disconnected s t = on_client_disconnected s t
  handle (backend_disconnected code reason) s t = on_backend_disconnected code reason s t
  handle backend_error s t = on_backend_error s t
  handle heartbeat_due s t = send_heartbeat_ping s t
  handle timeout_due s t = close_due_to_heartbeat_timeout s t
  handle pong s t = record {
    session = record s { waiting_for_pong = false; timeout = false };
    tracker = t;
    out = [];
  }
  handle (restricted reason) s t = restrict_login reason s t

-- When Qt calls the slot: the signals are connected, the timer runs, and a socket that becomes
-- connected was connecting.
unfoldable pub happens : Event → Session → Bool
happens (backend_opened login) s = s.attached && is_connecting s.backend
happens (client_message login m) s = s.attached
happens (backend_message m) s = s.attached
happens client_disconnected s = s.attached
happens (backend_disconnected code reason) s = s.attached
happens backend_error s = s.attached
happens heartbeat_due s = s.heartbeat
happens timeout_due s = s.timeout
happens pong s = s.attached
happens (restricted reason) s = true
