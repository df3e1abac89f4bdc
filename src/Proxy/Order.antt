-- ===== src/Proxy/Order.antt =====
-- backend/webserver/ws/WebSocketProxySession.cpp: the messages of one kind in a list, and in what a
-- slot sends.
use everest_ui.Base.{List, [], ◌∷◌, ◌++◌, map, ◌≡◌, refl, append_assoc, append-nil, ◌∙◌, ap, sym}
use everest_ui.Base.Text.{Text}
use everest_ui.Proxy.Session.{
  Message, text, binary, Output, to_backend, to_client, close_client, close_backend, abort_backend,
  ping, open_backend, Session,
}
use everest_ui.Proxy.Events.{flushed}
use everest_ui.Proxy.Queue.{sent}

-- The two kinds of messages; each has its own queue.
pub data Kind : Type 0 where
  texts binaries : Kind

abbrev pub of_kind : Kind → Message → List Text
of_kind texts (text m) = m ∷ []
of_kind texts (binary m) = []
of_kind binaries (text m) = []
of_kind binaries (binary m) = m ∷ []

unfoldable pub select : Kind → List Message → List Text
select k [] = []
select k (m ∷ ms) = of_kind k m ++ select k ms

abbrev pub pending : Kind → Session → List Text
pending texts s = s.pending_text
pending binaries s = s.pending_binary

pub select-append :
    (k : Kind) (ms ns : List Message) → select k (ms ++ ns) ≡ select k ms ++ select k ns
unfolding select
select-append k [] ns = refl
select-append k (m ∷ ms) ns =
    ap (◌++◌ (of_kind k m)) (select-append k ms ns)
    ∙ sym (append_assoc (of_kind k m) (select k ms) (select k ns))

pub sent-append : (os us : List Output) → sent (os ++ us) ≡ sent os ++ sent us
unfolding sent
sent-append [] us = refl
sent-append (to_backend m ∷ os) us = ap (◌∷◌ m) (sent-append os us)
sent-append (to_client m ∷ os) us = sent-append os us
sent-append (close_client c r ∷ os) us = sent-append os us
sent-append (close_backend c r ∷ os) us = sent-append os us
sent-append (abort_backend ∷ os) us = sent-append os us
sent-append (ping ∷ os) us = sent-append os us
sent-append (open_backend ∷ os) us = sent-append os us

select-sent_texts : (ms : List Text) → select texts (sent (map (λ m. to_backend (text m)) ms)) ≡ ms
unfolding select sent
select-sent_texts [] = refl
select-sent_texts (m ∷ ms) = ap (◌∷◌ m) (select-sent_texts ms)

select-sent_binaries :
    (ms : List Text) → select binaries (sent (map (λ m. to_backend (binary m)) ms)) ≡ ms
unfolding select sent
select-sent_binaries [] = refl
select-sent_binaries (m ∷ ms) = ap (◌∷◌ m) (select-sent_binaries ms)

select-sent_other_texts :
    (ms : List Text) → select binaries (sent (map (λ m. to_backend (text m)) ms)) ≡ []
unfolding select sent
select-sent_other_texts [] = refl
select-sent_other_texts (m ∷ ms) = select-sent_other_texts ms

select-sent_other_binaries :
    (ms : List Text) → select texts (sent (map (λ m. to_backend (binary m)) ms)) ≡ []
unfolding select sent
select-sent_other_binaries [] = refl
select-sent_other_binaries (m ∷ ms) = select-sent_other_binaries ms

-- The flush sends what waits, each kind in its order.
pub select-flushed : (k : Kind) (s : Session) → select k (sent (flushed s)) ≡ pending k s
select-flushed k s =
    let ts = map (λ m. to_backend (text m)) s.pending_text in
    let bs = map (λ m. to_backend (binary m)) s.pending_binary in
    ap (select k) (sent-append ts bs) ∙ select-append k (sent ts) (sent bs) ∙ both k
  where
    both :
        (k : Kind)
        → select k (sent (map (λ m. to_backend (text m)) s.pending_text))
            ++ select k (sent (map (λ m. to_backend (binary m)) s.pending_binary))
          ≡ pending k s
    both texts =
        rw (select-sent_texts s.pending_text, select-sent_other_binaries s.pending_binary)
          (append-nil s.pending_text)
    both binaries =
        rw (select-sent_other_texts s.pending_text) (select-sent_binaries s.pending_binary)

-- What was received of a kind begins with what was sent.
abbrev pub IsPrefix : List Message → List Message → Type 0
IsPrefix from to = (k : Kind) → (rest : List Text) × (select k from ≡ select k to ++ rest)

pub IsPrefix-more : (from to ms : List Message) → IsPrefix from to → IsPrefix (from ++ ms) to
IsPrefix-more from to ms h k = (
  (h k).0 ++ select k ms,
  select-append k from ms
      ∙ ap (λ xs. xs ++ select k ms) ((h k).1)
      ∙ append_assoc (select k to) ((h k).0) (select k ms),
)
