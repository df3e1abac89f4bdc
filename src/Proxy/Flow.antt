-- ===== src/Proxy/Flow.antt =====
-- backend/webserver/ws/WebSocketProxySession.cpp: what a session has received, has sent and keeps.
use everest_ui.Base.{
  Bool, true, false, ◌&&◌, not, List, [], ◌∷◌, ◌++◌, Option, none, some, ◌≡◌, refl, if◌then◌else◌,
  arith, append-nil, ◌⊎◌, inl, inr, ◌∙◌, sym,
}
use everest_ui.Base.Text.{Text}
use everest_ui.Proxy.Session.{
  Tracker, is_connecting, Message, close_client, close_backend, Session, Result, release_occupancy,
  restrict_login, close_both, CloseCode, going_away, is_idle,
}
use everest_ui.Proxy.Queue.{sent}
use everest_ui.Proxy.Order.{Kind, texts, binaries, select, pending, IsPrefix, IsPrefix-more}

-- All that was received was sent, or waits.
pub record IsFlowing (s : Session) (from to : List Message) : Type 0 where
  pub flow : (k : Kind) → select k from ≡ select k to ++ pending k s
  pub empty : s.backend_connected ≡ true → (k : Kind) → pending k s ≡ []

-- The session is closing and sends nothing any more.
pub record IsCut (s : Session) (from to : List Message) : Type 0 where
  pub closing : s.closing ≡ true
  pub apart : s.backend_connected ≡ false
  pub dead : (s.attached && is_connecting s.backend) ≡ false
  pub begun : IsPrefix from to

abbrev pub IsOrdered : Session → List Message → List Message → Type 0
IsOrdered s from to = IsFlowing s from to ⊎ IsCut s from to

pub IsOrdered-prefix :
    (s : Session) (from to : List Message) → IsOrdered s from to → IsPrefix from to
IsOrdered-prefix s from to (inl h) = λ k. (pending k s, h.flow k)
IsOrdered-prefix s from to (inr h) = h.begun

pub release_occupancy_same :
    (s : Session) (t : Option Tracker)
    → let s' = (release_occupancy s t).0 in
      (s'.attached ≡ s.attached)
      × (s'.backend_connected ≡ s.backend_connected)
      × (s'.pending_text ≡ s.pending_text)
      × (s'.pending_binary ≡ s.pending_binary)
unfolding release_occupancy
release_occupancy_same s none = (refl, refl, refl, refl)
release_occupancy_same s (some owner) = (ground arith, ground arith, ground arith, ground arith)

-- A result that ends the session without sending.
cut :
    (r : Result) (from to ms : List Message)
    → r.session.closing ≡ true
    → r.session.backend_connected ≡ false
    → (r.session.attached && is_connecting r.session.backend) ≡ false
    → sent r.out ≡ []
    → IsPrefix from to
    → IsOrdered r.session (from ++ ms) (to ++ sent r.out)
cut r from to ms c a d quiet h = inr (record {
  closing = c;
  apart = a;
  dead = d;
  begun = rw (quiet, append-nil to) (IsPrefix-more from to ms h);
})

pub restrict_login-cut :
    (reason : Text) (s : Session) (t : Option Tracker) (from to ms : List Message)
    → IsPrefix from to
    → let r = restrict_login reason s t in IsOrdered r.session (from ++ ms) (to ++ sent r.out)
unfolding restrict_login sent
restrict_login-cut reason s t from to ms h =
    let (attached, apart, _, _) =
      release_occupancy_same
        (record s {
          attached = false;
          heartbeat = false;
          timeout = false;
          pending_text = [];
          pending_binary = [];
          backend_connected = false;
        })
        t in
    cut (restrict_login reason s t) from to ms refl apart (rw attached) refl h

pub and_false : (b : Bool) → (b && false) ≡ false
and_false true = refl
and_false false = refl

sent_closes :
    (a b : Bool) (c : CloseCode) (reason : Text)
    → sent (
        (if a then close_client c reason ∷ [] else [])
        ++ (if b then close_backend going_away reason ∷ [] else []))
      ≡ []
unfolding sent
sent_closes true true c reason = refl
sent_closes true false c reason = refl
sent_closes false true c reason = refl
sent_closes false false c reason = refl

pub close_both-cut :
    (code : _) (reason : Text) (s : Session) (t : Option Tracker) (from to ms : List Message)
    → s.backend_connected ≡ false
    → IsPrefix from to
    → let r = close_both code reason s t in IsOrdered r.session (from ++ ms) (to ++ sent r.out)
unfolding close_both sent
close_both-cut code reason s t from to ms waiting h =
    let (_, apart, _, _) = release_occupancy_same s t in
    cut (close_both code reason s t) from to ms refl (apart ∙ waiting) (and_false _)
      (sent_closes s.client_open (not (is_idle s.backend)) code reason) h

-- A slot that sends nothing to the backend and leaves the queues alone.
pub record IsQuiet (s : Session) (r : Result) : Type 0 where
  pub silent : sent r.out ≡ []
  pub kept : (k : Kind) → pending k r.session ≡ pending k s
  pub connected : r.session.backend_connected ≡ s.backend_connected
  pub closing : s.closing ≡ true → r.session.closing ≡ true
  pub dead :
      (s.attached && is_connecting s.backend) ≡ false
      → (r.session.attached && is_connecting r.session.backend) ≡ false

pub pending_same :
    (s s' : Session)
    → s'.pending_text ≡ s.pending_text
    → s'.pending_binary ≡ s.pending_binary
    → (k : Kind) → pending k s' ≡ pending k s
pending_same s s' e f texts = e
pending_same s s' e f binaries = f

pub close_both-IsQuiet :
    (code : CloseCode) (reason : Text) (s : Session) (t : Option Tracker)
    → IsQuiet s (close_both code reason s t)
unfolding close_both
close_both-IsQuiet code reason s t = record {
  silent = sent_closes s.client_open (not (is_idle s.backend)) code reason;
  kept =
      pending_same s (close_both code reason s t).session ((release_occupancy_same s t).2)
        ((release_occupancy_same s t).3);
  connected = (release_occupancy_same s t).1;
  closing = λ _. refl;
  dead = λ _. and_false _;
}

pub IsQuiet-IsOrdered :
    (s : Session) (r : Result) (from to : List Message)
    → IsQuiet s r
    → IsOrdered s from to
    → IsOrdered r.session (from ++ []) (to ++ sent r.out)
IsQuiet-IsOrdered s r from to quiet (inl h) = inl (record {
  flow = λ k. rw (quiet.silent, append-nil to, append-nil from) (rw (quiet.kept k) (h.flow k));
  empty = λ c k. quiet.kept k ∙ h.empty (sym (quiet.connected) ∙ c) k;
})
IsQuiet-IsOrdered s r from to quiet (inr h) = inr (record {
  closing = quiet.closing h.closing;
  apart = quiet.connected ∙ h.apart;
  dead = quiet.dead h.dead;
  begun = rw (quiet.silent, append-nil to, append-nil from) h.begun;
})
