-- ===== src/Proxy/Bounds.antt =====
-- backend/webserver/ws/WebSocketProxySession.cpp: bounds on the messages that wait.
use everest_ui.Base.{
  ℕ, ◌+◌, ◌≤◌, false, not, List, [], ◌∷◌, ◌++◌, Option, none, some, ◌≡◌, arith, length,
  length-append, if_both, leb,
}
use everest_ui.Base.Text.{Text}
use everest_ui.Login.State.{LoginState}
use everest_ui.Proxy.Session.{
  Tracker, try_claim, connected, Message, text, binary, Session, new_session, max_pending_messages,
  max_pending_bytes, Result, can_queue_message, release_occupancy, restrict_login, claim,
  open_session, close_both,
}
use everest_ui.Proxy.Events.{
  Event, backend_opened, client_message, backend_message, client_disconnected, backend_disconnected,
  backend_error, heartbeat_due, timeout_due, pong, restricted, enqueue, on_backend_opened,
  on_client_message, on_client_disconnected, on_backend_disconnected, on_backend_error,
  send_heartbeat_ping, handle, message_bytes,
}
use everest_ui.Proxy.Queue.{Runs, starts, events}

unfoldable pub sizes : (Text → ℕ) → List Text → ℕ
sizes size [] = 0
sizes size (m ∷ ms) = size m + sizes size ms

sizes-append :
    (size : Text → ℕ) (ms : List Text) (m : Text)
    → sizes size (ms ++ (m ∷ [])) ≡ sizes size ms + size m
unfolding sizes
sizes-append size [] m = omega arith
sizes-append size (n ∷ ms) m = omega (arith, sizes-append size ms m)

module _ (utf8_size : Text → ℕ) where
  -- The bytes of the messages that wait.
  abbrev pub waiting_bytes : Session → ℕ
  waiting_bytes s = sizes utf8_size s.pending_text + sizes length s.pending_binary

  pub record IsBounded (s : Session) : Type 0 where
    pub few : length s.pending_text + length s.pending_binary ≤ max_pending_messages
    pub small : s.pending_bytes ≤ max_pending_bytes
    pub counted : waiting_bytes s ≤ s.pending_bytes

  enqueue-IsBounded :
      (m : Message) (s : Session)
      → leb max_pending_messages (length s.pending_text + length s.pending_binary) ≡ false
      → s.pending_bytes + message_bytes utf8_size m ≤ max_pending_bytes
      → IsBounded s
      → IsBounded (enqueue m (message_bytes utf8_size m) s)
  enqueue-IsBounded (text msg) s room fits h =
      let c = h.counted in
      let n = length-append s.pending_text (msg ∷ []) in
      let k = sizes-append utf8_size s.pending_text msg in
      record { few = ground arith; small = fits; counted = omega (arith, c, k) }
  enqueue-IsBounded (binary msg) s room fits h =
      let c = h.counted in
      let n = length-append s.pending_binary (msg ∷ []) in
      let k = sizes-append length s.pending_binary msg in
      record { few = ground arith; small = fits; counted = omega (arith, c, k) }

  IsBounded-same :
      (s s' : Session)
      → s'.pending_text ≡ s.pending_text
      → s'.pending_binary ≡ s.pending_binary
      → s'.pending_bytes ≡ s.pending_bytes
      → IsBounded s
      → IsBounded s'
  IsBounded-same s s' e f g h =
      let c = h.counted in
      record { few = rw (e, f) (h.few); small = rw g (h.small); counted = rw (e, f, g) c }

  release_occupancy-IsBounded :
      (s : Session) (t : Option Tracker) → IsBounded s → IsBounded (release_occupancy s t).0
  unfolding release_occupancy
  release_occupancy-IsBounded s none h = h
  release_occupancy-IsBounded s (some owner) h =
      IsBounded-same s _ (ground arith) (ground arith) (ground arith) h

  restrict_login-IsBounded :
      (reason : Text) (s : Session) (t : Option Tracker)
      → IsBounded s
      → IsBounded (restrict_login reason s t).session
  unfolding restrict_login sizes
  restrict_login-IsBounded reason s t h =
      let freed =
        release_occupancy-IsBounded
          (record s {
            attached = false;
            heartbeat = false;
            timeout = false;
            pending_text = [];
            pending_binary = [];
            backend_connected = false;
          })
          t (record { few = omega arith; small = h.small; counted = omega arith }) in
      record { few = freed.few; small = freed.small; counted = freed.counted }

  close_both-IsBounded :
      (code : _) (reason : Text) (s : Session) (t : Option Tracker)
      → IsBounded s
      → IsBounded (close_both code reason s t).session
  unfolding close_both
  close_both-IsBounded code reason s t h =
      let freed = release_occupancy-IsBounded s t h in
      record { few = freed.few; small = freed.small; counted = freed.counted }

  on_client_message-IsBounded :
      (login : LoginState) (m : Message) (s : Session) (t : Option Tracker)
      → IsBounded s
      → IsBounded (on_client_message login m (message_bytes utf8_size m) s t).session
  unfolding on_client_message
  on_client_message-IsBounded login m s t h =
      let P = λ (r : Result). IsBounded r.session in
      if_both P (not login.allowed) (λ _. restrict_login-IsBounded login.reason s t h)
        (λ _.
          if_both P s.backend_connected (λ _. h)
            (λ _.
              if_both P (not (can_queue_message s (message_bytes utf8_size m)))
                (λ _. close_both-IsBounded _ _ s t h)
                (λ room. enqueue-IsBounded m s (ground arith) (ground arith) h)))

  on_backend_opened-IsBounded :
      (login : LoginState) (s : Session) (t : Option Tracker)
      → IsBounded s
      → IsBounded (on_backend_opened login s t).session
  unfolding on_backend_opened sizes
  on_backend_opened-IsBounded login s t h =
      let P = λ (r : Result). IsBounded r.session in
      if_both P (not login.allowed)
        (λ _.
          restrict_login-IsBounded login.reason (record s { backend = connected }) t
            (record { few = h.few; small = h.small; counted = h.counted }))
        (λ _. record { few = omega arith; small = omega arith; counted = omega arith })

  handle-IsBounded :
      (e : Event) (s : Session) (t : Option Tracker)
      → IsBounded s
      → IsBounded (handle utf8_size e s t).session
  unfolding handle on_client_disconnected on_backend_disconnected on_backend_error
      send_heartbeat_ping
  handle-IsBounded (backend_opened login) s t h = on_backend_opened-IsBounded login s t h
  handle-IsBounded (client_message login m) s t h = on_client_message-IsBounded login m s t h
  handle-IsBounded (backend_message m) s t h = h
  handle-IsBounded client_disconnected s t h =
      let freed = release_occupancy-IsBounded s t h in
      record { few = freed.few; small = freed.small; counted = freed.counted }
  handle-IsBounded (backend_disconnected code reason) s t h =
      let freed = release_occupancy-IsBounded s t h in
      record { few = freed.few; small = freed.small; counted = freed.counted }
  handle-IsBounded backend_error s t h = record {
    few = h.few;
    small = h.small;
    counted = h.counted;
  }
  handle-IsBounded heartbeat_due s t h =
      IsBounded-same s _ (ground arith) (ground arith) (ground arith) h
  handle-IsBounded timeout_due s t h = close_both-IsBounded _ _ s t h
  handle-IsBounded pong s t h = record { few = h.few; small = h.small; counted = h.counted }
  handle-IsBounded (restricted reason) s t h = restrict_login-IsBounded reason s t h

  new_session-IsBounded : IsBounded new_session
  unfolding sizes
  new_session-IsBounded = record { few = omega arith; small = omega arith; counted = omega arith }

  start-IsBounded :
      (login : LoginState) (peer : Text) (t : Option Tracker)
      → IsBounded (open_session login peer t).session
  unfolding open_session claim sizes
  start-IsBounded login peer none =
      let P = λ (r : Result). IsBounded r.session in
      if_both P (not login.allowed)
        (λ _. restrict_login-IsBounded login.reason new_session none new_session-IsBounded)
        (λ _. record { few = omega arith; small = omega arith; counted = omega arith })
  start-IsBounded login peer (some owner) =
      let P = λ (r : Result). IsBounded r.session in
      if_both P (not login.allowed)
        (λ _. restrict_login-IsBounded login.reason new_session (some owner) new_session-IsBounded)
        (λ _.
          if_both P (not (try_claim peer owner).1)
            (λ _. record { few = omega arith; small = omega arith; counted = omega arith })
            (λ _. record { few = omega arith; small = omega arith; counted = omega arith }))

  -- At any moment of a session at most 256 messages wait for the backend, and their bytes are at most
  -- two mebibytes, whatever the browser sends.
  pub Runs-IsBounded :
      {s : Session} {from to : List Message} → Runs utf8_size s from to → IsBounded s
  Runs-IsBounded (starts login peer t) = start-IsBounded login peer t
  Runs-IsBounded (events e t s from to r on) = handle-IsBounded e s t (Runs-IsBounded r)
