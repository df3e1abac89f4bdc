-- ===== src/Proxy/Queue.antt =====
-- backend/webserver/ws/WebSocketProxySession.cpp: the life of one session, its events and messages.
use everest_ui.Base.{ℕ, true, List, [], ◌∷◌, ◌++◌, Option, ◌≡◌}
use everest_ui.Base.Text.{Text}
use everest_ui.Login.State.{LoginState}
use everest_ui.Proxy.Session.{Tracker, Message, Output, to_backend, Session, open_session}
use everest_ui.Proxy.Events.{Event, client_message, handle, happens}

abbrev pub received : Event → List Message
received (client_message login m) = m ∷ []
received _ = []

unfoldable pub sent : List Output → List Message
sent [] = []
sent (to_backend m ∷ out) = m ∷ sent out
sent (_ ∷ out) = sent out

-- One session from its start: what it has received from the browser, and what it has sent to the
-- backend. The tracker may change between two events.
pub data Runs (utf8_size : Text → ℕ) : Session → List Message → List Message → Type 0 where
  starts :
      (login : LoginState) (peer : Text) (t : Option Tracker)
      → Runs utf8_size (open_session login peer t).session [] []
  events :
      (e : Event) (t : Option Tracker) (s : Session) (from to : List Message)
      → Runs utf8_size s from to
      → happens e s ≡ true
      → Runs utf8_size
          (handle utf8_size e s t).session
          (from ++ received e)
          (to ++ sent (handle utf8_size e s t).out)
