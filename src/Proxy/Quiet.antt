-- ===== src/Proxy/Quiet.antt =====
-- backend/webserver/ws/WebSocketProxySession.cpp: lemmas on the slots that leave the queues alone.
use everest_ui.Base.{ℕ, ◌||◌, not, List, [], Option, ◌≡◌, refl, if_both}
use everest_ui.Base.Text.{Text}
use everest_ui.Proxy.Session.{Tracker, Output, Session, is_idle}
use everest_ui.Proxy.Events.{
  on_client_disconnected, on_backend_disconnected, on_backend_error, send_heartbeat_ping,
}
use everest_ui.Proxy.Queue.{sent}
use everest_ui.Proxy.Flow.{release_occupancy_same, pending_same, IsQuiet, and_false}

pub on_client_disconnected-IsQuiet :
    (s : Session) (t : Option Tracker) → IsQuiet s (on_client_disconnected s t)
unfolding on_client_disconnected sent
on_client_disconnected-IsQuiet s t = record {
  silent =
      if_both (λ (out : List Output). sent out ≡ []) (is_idle s.backend) (λ _. refl) (λ _. refl);
  kept =
      pending_same s (on_client_disconnected s t).session ((release_occupancy_same s t).2)
        ((release_occupancy_same s t).3);
  connected = (release_occupancy_same s t).1;
  closing = λ _. refl;
  dead = λ _. and_false _;
}

pub on_backend_disconnected-IsQuiet :
    (code : ℕ) (reason : Text) (s : Session) (t : Option Tracker)
    → IsQuiet s (on_backend_disconnected code reason s t)
unfolding on_backend_disconnected sent
on_backend_disconnected-IsQuiet code reason s t = record {
  silent = if_both (λ (out : List Output). sent out ≡ []) s.client_open (λ _. refl) (λ _. refl);
  kept =
      pending_same s (on_backend_disconnected code reason s t).session
        ((release_occupancy_same s t).2) ((release_occupancy_same s t).3);
  connected = (release_occupancy_same s t).1;
  closing = λ _. refl;
  dead = λ _. and_false _;
}

pub on_backend_error-IsQuiet : (s : Session) (t : Option Tracker) → IsQuiet s (on_backend_error s t)
unfolding on_backend_error sent
on_backend_error-IsQuiet s t = record {
  silent = if_both (λ (out : List Output). sent out ≡ []) s.client_open (λ _. refl) (λ _. refl);
  kept = pending_same s (on_backend_error s t).session refl refl;
  connected = refl;
  closing = λ h. h;
  dead = λ h. h;
}

pub send_heartbeat_ping-IsQuiet :
    (s : Session) (t : Option Tracker) → IsQuiet s (send_heartbeat_ping s t)
unfolding send_heartbeat_ping sent
send_heartbeat_ping-IsQuiet s t =
    if_both (IsQuiet s) (not s.client_open || s.waiting_for_pong)
      (λ _. record {
        silent = refl;
        kept = λ k. refl;
        connected = refl;
        closing = λ h. h;
        dead = λ h. h;
      })
      (λ _. record {
        silent = refl;
        kept = pending_same s _ refl refl;
        connected = refl;
        closing = λ h. h;
        dead = λ h. h;
      })
