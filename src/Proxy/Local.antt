-- ===== src/Proxy/Local.antt =====
-- backend/webserver/ws/WebSocketProxySession.cpp: lemmas on what a slot does to the tracker.
use everest_ui.Base.{ℕ, true, false, [], Option, none, some, ◌≡◌, refl, is_some, arith, ◌⊎◌, inl}
use everest_ui.Base.Text.{Text, codes}
use everest_ui.Login.State.{LoginState}
use everest_ui.Proxy.Session.{
  Tracker, connected, Session, Message, text, binary, too_much_data, release_occupancy,
  restrict_login, close_both,
}
use everest_ui.Proxy.Events.{
  Event, backend_opened, client_message, backend_message, client_disconnected, backend_disconnected,
  backend_error, heartbeat_due, timeout_due, pong, restricted, on_backend_opened, on_client_message,
  on_client_disconnected, on_backend_disconnected, on_backend_error, send_heartbeat_ping, handle,
  enqueue, message_bytes,
}

-- A slot leaves the tracker alone, or gives up what its session holds.
abbrev pub IsLocal : Session → Option Tracker → Session → Option Tracker → Type 0
IsLocal s t s' t' =
    ((s'.owns ≡ s.owns) × (t' ≡ t))
    ⊎ ((s.owns ≡ true) × (s'.owns ≡ false) × (is_some t ≡ true) × (t' ≡ some []))

release_occupancy-IsLocal :
    (s : Session) (t : Option Tracker)
    → IsLocal s t (release_occupancy s t).0 (release_occupancy s t).1
unfolding release_occupancy
release_occupancy-IsLocal s none = inl (refl, refl)
release_occupancy-IsLocal s (some owner) = ground arith

restrict_login-IsLocal :
    (reason : Text) (s : Session) (t : Option Tracker)
    → IsLocal s t (restrict_login reason s t).session (restrict_login reason s t).tracker
unfolding restrict_login release_occupancy
restrict_login-IsLocal reason s none = inl (refl, refl)
restrict_login-IsLocal reason s (some owner) = ground arith

on_backend_opened-IsLocal :
    (login : LoginState) (s : Session) (t : Option Tracker)
    → IsLocal s t (on_backend_opened login s t).session (on_backend_opened login s t).tracker
unfolding on_backend_opened
on_backend_opened-IsLocal login s t =
    let cut = restrict_login-IsLocal login.reason (record s { backend = connected }) t in
    ground arith

close_both-IsLocal :
    (code : _) (reason : Text) (s : Session) (t : Option Tracker)
    → IsLocal s t (close_both code reason s t).session (close_both code reason s t).tracker
unfolding close_both
close_both-IsLocal code reason s t = release_occupancy-IsLocal s t

enqueue_owns : (m : Message) (bytes : ℕ) (s : Session) → (enqueue m bytes s).owns ≡ s.owns
enqueue_owns (text msg) bytes s = refl
enqueue_owns (binary msg) bytes s = refl

on_client_message-IsLocal :
    (login : LoginState) (m : Message) (bytes : ℕ) (s : Session) (t : Option Tracker)
    → IsLocal s t
        (on_client_message login m bytes s t).session
        (on_client_message login m bytes s t).tracker
unfolding on_client_message
on_client_message-IsLocal login m bytes s t =
    let cut = restrict_login-IsLocal login.reason s t in
    let full = close_both-IsLocal too_much_data (codes "proxy pending queue overflow") s t in
    let queued = enqueue_owns m bytes s in ground arith

module _ (utf8_size : Text → ℕ) where
  pub handle-IsLocal :
      (e : Event) (s : Session) (t : Option Tracker)
      → let r = handle utf8_size e s t in IsLocal s t r.session r.tracker
  unfolding handle
  handle-IsLocal (backend_opened login) s t = on_backend_opened-IsLocal login s t
  handle-IsLocal (client_message login m) s t =
      on_client_message-IsLocal login m (message_bytes utf8_size m) s t
  handle-IsLocal (backend_message m) s t = inl (refl, refl)
  handle-IsLocal client_disconnected s t =
      unfold on_client_disconnected in release_occupancy-IsLocal s t
  handle-IsLocal (backend_disconnected code reason) s t =
      unfold on_backend_disconnected in release_occupancy-IsLocal s t
  handle-IsLocal backend_error s t = unfold on_backend_error in inl (refl, refl)
  handle-IsLocal heartbeat_due s t = unfold send_heartbeat_ping in ground arith
  handle-IsLocal timeout_due s t = close_both-IsLocal _ _ s t
  handle-IsLocal pong s t = inl (refl, refl)
  handle-IsLocal (restricted reason) s t = restrict_login-IsLocal reason s t

release_occupancy_free :
    (s : Session) (t : Option Tracker)
    → (t ≡ none → s.owns ≡ false)
    → (release_occupancy s t).0.owns ≡ false
unfolding release_occupancy
release_occupancy_free s none h = h refl
release_occupancy_free s (some owner) h = ground arith

restrict_login_free :
    (reason : Text) (s : Session) (t : Option Tracker)
    → (t ≡ none → s.owns ≡ false)
    → (restrict_login reason s t).session.owns ≡ false
unfolding restrict_login
restrict_login_free reason s t absent = release_occupancy_free _ t absent

close_both_free :
    (code : _) (reason : Text) (s : Session) (t : Option Tracker)
    → (t ≡ none → s.owns ≡ false)
    → (close_both code reason s t).session.owns ≡ false
unfolding close_both
close_both_free code reason s t absent = release_occupancy_free s t absent

module _ (utf8_size : Text → ℕ) where
  -- A session that is closing has given up what it held.
  pub handle_closing :
      (e : Event) (s : Session) (t : Option Tracker)
      → (t ≡ none → s.owns ≡ false)
      → (s.closing ≡ true → s.owns ≡ false)
      → (handle utf8_size e s t).session.closing ≡ true
      → (handle utf8_size e s t).session.owns ≡ false
  unfolding handle on_backend_opened on_client_message on_client_disconnected
      on_backend_disconnected on_backend_error send_heartbeat_ping
  handle_closing (backend_opened login) s t absent kept c =
      let cut = restrict_login_free login.reason (record s { backend = connected }) t absent in
      ground arith
  handle_closing (client_message login (text m)) s t absent kept c =
      let cut = restrict_login_free login.reason s t absent in
      let full = close_both_free too_much_data (codes "proxy pending queue overflow") s t absent in
      ground arith
  handle_closing (client_message login (binary m)) s t absent kept c =
      let cut = restrict_login_free login.reason s t absent in
      let full = close_both_free too_much_data (codes "proxy pending queue overflow") s t absent in
      ground arith
  handle_closing (backend_message m) s t absent kept c = kept c
  handle_closing client_disconnected s t absent kept c = release_occupancy_free s t absent
  handle_closing (backend_disconnected code reason) s t absent kept c =
      release_occupancy_free s t absent
  handle_closing backend_error s t absent kept c = kept c
  handle_closing heartbeat_due s t absent kept c = ground arith
  handle_closing timeout_due s t absent kept c = close_both_free _ _ s t absent
  handle_closing pong s t absent kept c = kept c
  handle_closing (restricted reason) s t absent kept c = restrict_login_free reason s t absent
