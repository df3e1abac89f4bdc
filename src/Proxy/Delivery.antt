-- ===== src/Proxy/Delivery.antt =====
-- backend/webserver/ws/WebSocketProxySession.cpp: theorems on the delivery of the messages.
use everest_ui.Base.{
  ℕ, true, false, ◌&&◌, not, List, [], ◌∷◌, ◌++◌, Option, ◌≡◌, refl, arith, append_assoc,
  append-nil, inl, inr, if_both, ◌∙◌, ap, sym,
}
use everest_ui.Base.Text.{Text}
use everest_ui.Login.State.{LoginState}
use everest_ui.Proxy.Session.{
  Tracker, connected, is_connecting, Message, text, binary, Session, new_session, Result,
  restrict_login, claim, open_session, can_queue_message,
}
use everest_ui.Proxy.Events.{
  Event, backend_opened, client_message, backend_message, client_disconnected, backend_disconnected,
  backend_error, heartbeat_due, timeout_due, pong, restricted, enqueue, flushed, on_backend_opened,
  on_client_message, handle, happens, message_bytes,
}
use everest_ui.Proxy.Queue.{Runs, starts, events, received, sent}
use everest_ui.Proxy.Order.{
  Kind, texts, binaries, of_kind, select, pending, select-append, select-flushed, IsPrefix-more,
}
use everest_ui.Proxy.Flow.{
  IsOrdered, IsOrdered-prefix, release_occupancy_same, pending_same, restrict_login-cut,
  close_both-cut, close_both-IsQuiet, IsQuiet-IsOrdered,
}
use everest_ui.Proxy.Quiet.{
  on_client_disconnected-IsQuiet, on_backend_disconnected-IsQuiet, on_backend_error-IsQuiet,
  send_heartbeat_ping-IsQuiet,
}

enqueue_pending :
    (m : Message) (bytes : ℕ) (s : Session) (k : Kind)
    → pending k (enqueue m bytes s) ≡ pending k s ++ of_kind k m
enqueue_pending (text m) bytes s texts = refl
enqueue_pending (text m) bytes s binaries = sym (append-nil s.pending_binary)
enqueue_pending (binary m) bytes s texts = sym (append-nil s.pending_text)
enqueue_pending (binary m) bytes s binaries = refl

select-last :
    (k : Kind) (ms : List Message) (m : Message)
    → select k (ms ++ (m ∷ [])) ≡ select k ms ++ of_kind k m
unfolding select
select-last k ms m =
    select-append k ms (m ∷ []) ∙ ap (◌++◌ (select k ms)) (append-nil (of_kind k m))

enqueue_same :
    (m : Message) (bytes : ℕ) (s : Session)
    → let s' = enqueue m bytes s in
      (s'.closing ≡ s.closing)
      × (s'.backend_connected ≡ s.backend_connected)
      × ((s'.attached && is_connecting s'.backend) ≡ (s.attached && is_connecting s.backend))
enqueue_same (text m) bytes s = (refl, refl, refl)
enqueue_same (binary m) bytes s = (refl, refl, refl)

enqueue-IsOrdered :
    (m : Message) (bytes : ℕ) (s : Session) (from to : List Message)
    → s.backend_connected ≡ false
    → IsOrdered s from to
    → IsOrdered (enqueue m bytes s) (from ++ (m ∷ [])) (to ++ [])
enqueue-IsOrdered m bytes s from to waiting (inl h) = inl (record {
  flow = λ k. rw (append-nil to) (
      select-last k from m
      ∙ ap (λ xs. xs ++ of_kind k m) (h.flow k)
      ∙ append_assoc (select k to) (pending k s) (of_kind k m)
      ∙ ap (◌++◌ (select k to)) (sym (enqueue_pending m bytes s k)));
  empty = λ c. absurd (let same = (enqueue_same m bytes s).1 in ground arith);
})
enqueue-IsOrdered m bytes s from to waiting (inr h) =
    let (closing, apart, dead) = enqueue_same m bytes s in
    inr (record {
      closing = closing ∙ h.closing;
      apart = apart ∙ h.apart;
      dead = dead ∙ h.dead;
      begun = rw (append-nil to) (IsPrefix-more from to (m ∷ []) h.begun);
    })

forward-IsOrdered :
    (m : Message) (s : Session) (from to : List Message)
    → s.backend_connected ≡ true
    → IsOrdered s from to
    → IsOrdered s (from ++ (m ∷ [])) (to ++ (m ∷ []))
forward-IsOrdered m s from to c (inl h) = inl (record {
  flow = λ k.
      select-last k from m
      ∙ ap (λ xs. xs ++ of_kind k m)
          (h.flow k ∙ ap (◌++◌ (select k to)) (h.empty c k) ∙ append-nil (select k to))
      ∙ sym (
          ap (◌++◌ (select k (to ++ (m ∷ [])))) (h.empty c k)
          ∙ append-nil (select k (to ++ (m ∷ [])))
          ∙ select-last k to m);
  empty = h.empty;
})
forward-IsOrdered m s from to c (inr h) = let a = h.apart in absurd (ground arith)

-- A session with nothing received, sent or waiting.
fresh-IsOrdered : (s : Session) → s.pending_text ≡ [] → s.pending_binary ≡ [] → IsOrdered s [] []
unfolding select
fresh-IsOrdered s e f = inl (record { flow = λ k. sym (waits k); empty = λ _ k. waits k })
  where
    waits : (k : Kind) → pending k s ≡ []
    waits texts = e
    waits binaries = f

open_session-IsOrdered :
    (login : LoginState) (peer : Text) (t : Option Tracker)
    → IsOrdered (open_session login peer t).session [] []
unfolding open_session restrict_login
open_session-IsOrdered login peer t =
    let P = λ (r : Result). IsOrdered r.session [] [] in
    if_both P (not login.allowed)
      (λ _. let same = release_occupancy_same new_session t in fresh-IsOrdered _ (same.2) (same.3))
      (λ _.
        if_both P (not (claim peer t).1) (λ _. fresh-IsOrdered _ refl refl)
          (λ _. fresh-IsOrdered _ refl refl))

module _ (utf8_size : Text → ℕ) where
  on_client_message-IsOrdered :
      (login : LoginState) (m : Message) (bytes : ℕ) (s : Session) (t : Option Tracker)
      (from to : List Message)
      → IsOrdered s from to
      → let r = on_client_message login m bytes s t in
        IsOrdered r.session (from ++ (m ∷ [])) (to ++ sent r.out)
  unfolding on_client_message sent
  on_client_message-IsOrdered login m bytes s t from to h =
      let P = λ (r : Result). IsOrdered r.session (from ++ (m ∷ [])) (to ++ sent r.out) in
      let begun = IsOrdered-prefix s from to h in
      if_both P (not login.allowed)
        (λ _. restrict_login-cut login.reason s t from to (m ∷ []) begun)
        (λ _.
          if_both P s.backend_connected (λ c. forward-IsOrdered m s from to c h)
            (λ waiting.
              if_both P (not (can_queue_message s bytes))
                (λ _. close_both-cut _ _ s t from to (m ∷ []) waiting begun)
                (λ _. enqueue-IsOrdered m bytes s from to waiting h)))

  on_backend_opened-IsOrdered :
      (login : LoginState) (s : Session) (t : Option Tracker) (from to : List Message)
      → (s.attached && is_connecting s.backend) ≡ true
      → IsOrdered s from to
      → let r = on_backend_opened login s t in IsOrdered r.session (from ++ []) (to ++ sent r.out)
  unfolding on_backend_opened
  on_backend_opened-IsOrdered login s t from to on (inr h) = let d = h.dead in absurd (ground arith)
  on_backend_opened-IsOrdered login s t from to on (inl h) =
      let P = λ (r : Result). IsOrdered r.session (from ++ []) (to ++ sent r.out) in
      if_both P (not login.allowed)
        (λ _. restrict_login-cut login.reason _ t from to [] (IsOrdered-prefix s from to (inl h)))
        (λ _. inl (record {
          flow = λ k. rw (append-nil from) (
              h.flow k
              ∙ ap (◌++◌ (select k to)) (sym (select-flushed k s))
              ∙ sym (select-append k to (sent (flushed s)))
              ∙ sym (
                  ap (◌++◌ (select k (to ++ sent (flushed s)))) (blank k)
                  ∙ append-nil (select k (to ++ sent (flushed s)))));
          empty = λ c k. blank k;
        }))
    where
      blank :
          (k : Kind)
          → pending k (record s {
            backend = connected;
            backend_connected = true;
            pending_bytes = 0;
            pending_text = [];
            pending_binary = [];
          })
            ≡ []
      blank texts = refl
      blank binaries = refl

  handle-IsOrdered :
      (e : Event) (s : Session) (t : Option Tracker) (from to : List Message)
      → happens e s ≡ true
      → IsOrdered s from to
      → let r = handle utf8_size e s t in
        IsOrdered r.session (from ++ received e) (to ++ sent r.out)
  unfolding handle happens
  handle-IsOrdered (backend_opened login) s t from to on h =
      on_backend_opened-IsOrdered login s t from to on h
  handle-IsOrdered (client_message login m) s t from to on h =
      on_client_message-IsOrdered login m (message_bytes utf8_size m) s t from to h
  handle-IsOrdered (backend_message m) s t from to on h =
      IsQuiet-IsOrdered s (handle utf8_size (backend_message m) s t) from to
        (record {
          silent = unfold sent in refl;
          kept = λ k. refl;
          connected = refl;
          closing = λ c. c;
          dead = λ d. d;
        })
        h
  handle-IsOrdered client_disconnected s t from to on h =
      IsQuiet-IsOrdered s _ from to (on_client_disconnected-IsQuiet s t) h
  handle-IsOrdered (backend_disconnected code reason) s t from to on h =
      IsQuiet-IsOrdered s _ from to (on_backend_disconnected-IsQuiet code reason s t) h
  handle-IsOrdered backend_error s t from to on h =
      IsQuiet-IsOrdered s _ from to (on_backend_error-IsQuiet s t) h
  handle-IsOrdered heartbeat_due s t from to on h =
      IsQuiet-IsOrdered s _ from to (send_heartbeat_ping-IsQuiet s t) h
  handle-IsOrdered timeout_due s t from to on h =
      IsQuiet-IsOrdered s _ from to (close_both-IsQuiet _ _ s t) h
  handle-IsOrdered pong s t from to on h =
      IsQuiet-IsOrdered s (handle utf8_size pong s t) from to
        (record {
          silent = unfold sent in refl;
          kept = pending_same s _ refl refl;
          connected = refl;
          closing = λ c. c;
          dead = λ d. d;
        })
        h
  handle-IsOrdered (restricted reason) s t from to on h =
      restrict_login-cut reason s t from to [] (IsOrdered-prefix s from to h)

  Runs-IsOrdered :
      {s : Session} {from to : List Message} → Runs utf8_size s from to → IsOrdered s from to
  Runs-IsOrdered (starts login peer t) = open_session-IsOrdered login peer t
  Runs-IsOrdered (events e t s from to r on) = handle-IsOrdered e s t from to on (Runs-IsOrdered r)

  -- In every run of a session and for both kinds of messages: what has been sent to the backend is a
  -- beginning of what the browser has sent, in the same order, with nothing lost or repeated; and as
  -- long as the session is not closing, the rest is what waits in the queue.
  pub Runs-ordered :
      {s : Session} {from to : List Message} (k : Kind)
      → Runs utf8_size s from to
      → (rest : List Text) × (select k from ≡ select k to ++ rest)
        × (s.closing ≡ false → rest ≡ pending k s)
  Runs-ordered {s} {from} {to} k r = elim (Runs-IsOrdered r) [
    | inl h ↦ (pending k s, h.flow k, λ _. refl)
    | inr h ↦ let c = h.closing in ((h.begun k).0, (h.begun k).1, λ live. absurd (ground arith))
  ]
