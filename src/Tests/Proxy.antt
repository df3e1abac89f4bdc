-- ===== src/Tests/Proxy.antt =====
-- The proxy, at concrete inputs.
use everest_ui.Base.{◌≤◌, true, false, List, [], ◌∷◌, ◌++◌, some, ◌≡◌, refl, length}
use everest_ui.Base.Text.{Text, codes}
use everest_ui.Login.State.{LoginState, waiting_for_reboot}
use everest_ui.Proxy.Session.{Message, text, claim, open_session, Session, format_peer_address}
use everest_ui.Proxy.Events.{client_message, backend_opened, handle, happens, on_client_message}
use everest_ui.Proxy.Occupancy.{
  handled, owners, claims, late_owner, count, Reachable, starts, steps, opens, handles,
  Reachable_exclusive,
}
use everest_ui.Proxy.Queue.{Runs, events, sent}
use everest_ui.Proxy.Bounds.{IsBounded, Runs-IsBounded}
use everest_ui.Proxy.Order.{texts, select, pending}
use everest_ui.Proxy.Delivery.{Runs-ordered}

abbrev allowed : LoginState
allowed = record { allowed = true; reason = []; operation = [] }

abbrev blocked : LoginState
blocked = record { allowed = false; reason = waiting_for_reboot; operation = codes "reboot" }

abbrev address : Text
address = codes "192.168.1.5"

abbrev port : Text
port = codes "51000"

abbrev peer : Text
peer = format_peer_address false address port

abbrev session : Session
session = (open_session allowed peer (some [])).session

abbrev hello : Message
hello = text (codes "hello")

-- A session is opened, and then the login is blocked.
reachable :
    Reachable length
      (handled (handle length (client_message blocked hello) session (some peer)) [] [])
unfolding open_session claim
reachable = steps (steps starts (opens allowed false address port (some []) [])) (
    handles (client_message blocked hello) (some peer) [] session []
      (unfold happens open_session claim in refl))

Reachable_exclusive_example :
    let w = handled (handle length (client_message blocked hello) session (some peer)) [] [] in
    (owners w.sessions ≤ 1)
    × (owners w.sessions ≡ claims w.tracker)
    × (count late_owner w.sessions ≡ 0)
Reachable_exclusive_example = Reachable_exclusive length reachable

abbrev queued : Session
queued = (handle length (client_message allowed hello) session (some peer)).session

abbrev flushed : Session
flushed = (handle length (backend_opened allowed) queued (some peer)).session

abbrev after_queue : List Message
after_queue = [] ++ sent (handle length (client_message allowed hello) session (some peer)).out

abbrev after_flush : List Message
after_flush = after_queue ++ sent (handle length (backend_opened allowed) queued (some peer)).out

-- A text waits, and is sent when the backend is connected.
runs : Runs length flushed (hello ∷ []) after_flush
runs =
    events (backend_opened allowed) (some peer) queued (hello ∷ []) after_queue
      (events (client_message allowed hello) (some peer) session [] []
        (Runs.starts allowed peer (some [])) (unfold happens open_session claim in refl))
      (unfold happens open_session claim handle on_client_message in refl)

Runs-IsBounded_example : IsBounded length flushed
Runs-IsBounded_example = Runs-IsBounded length runs

Runs-ordered_example :
    (rest : List Text) × (select texts (hello ∷ []) ≡ select texts after_flush ++ rest)
    × (flushed.closing ≡ false → rest ≡ pending texts flushed)
Runs-ordered_example = Runs-ordered length texts runs
