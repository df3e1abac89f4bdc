-- ===== src/Proxy/Occupancy.antt =====
-- backend/webserver/ws and backend/webserver/ui: the server's sessions and their tracker as a step
-- relation.
use everest_ui.Base.{
  ℕ, ◌+◌, ◌≤◌, Bool, true, false, ◌&&◌, List, [], ◌∷◌, ◌++◌, Option, none, some, ◌≡◌, refl,
  if◌then◌else◌, arith, is_empty, inl, inr, ap,
}
use everest_ui.Base.Text.{Text}
use everest_ui.Login.State.{LoginState}
use everest_ui.Proxy.Session.{
  Tracker, has_owner, format_peer_address, Session, Result, release_occupancy, restrict_login,
  claim, open_session,
}
use everest_ui.Proxy.Events.{Event, handle, happens}
use everest_ui.Proxy.Local.{handle-IsLocal, handle_closing}

-- How many sessions pass a test.
unfoldable pub count : (Session → Bool) → List Session → ℕ
count p [] = 0
count p (s ∷ ss) = (if p s then 1 else 0) + count p ss

count-append :
    (p : Session → Bool) (ss : List Session) (s : Session) (us : List Session)
    → count p (ss ++ (s ∷ us)) ≡ (if p s then 1 else 0) + count p (ss ++ us)
unfolding count
count-append p [] s us = refl
count-append p (r ∷ ss) s us = omega (arith, count-append p ss s us)

-- How many sessions hold the user interface.
abbrev pub owners : List Session → ℕ
owners ss = count (λ s. s.owns) ss

abbrev pub late_owner : Session → Bool
late_owner s = s.closing && s.owns

-- How many sessions the tracker says.
abbrev pub claims : Option Tracker → ℕ
claims none = 0
claims (some owner) = if has_owner owner then 1 else 0

claims_le : (t : Option Tracker) → claims t ≤ 1
claims_le none = omega arith
claims_le (some owner) = ground arith

pub record World : Type 0 where
  pub tracker : Option Tracker
  pub sessions : List Session

abbrev pub opened : LoginState → Text → Option Tracker → List Session → World
opened login peer t ss =
    let r = open_session login peer t in record { tracker = r.tracker; sessions = r.session ∷ ss }

abbrev pub handled : Result → (before after : List Session) → World
handled r before after = record { tracker = r.tracker; sessions = before ++ (r.session ∷ after) }

-- The web server opens a session for an authenticated upgrade, and an event reaches one of them.
pub data Step (utf8_size : Text → ℕ) : World → World → Type 0 where
  opens :
      (login : LoginState) (is_ipv6 : Bool) (address port : Text) (t : Option Tracker)
      (ss : List Session)
      → Step utf8_size
          (record { tracker = t; sessions = ss })
          (opened login (format_peer_address is_ipv6 address port) t ss)
  handles :
      (e : Event) (t : Option Tracker) (before : List Session) (s : Session) (after : List Session)
      → happens e s ≡ true
      → Step utf8_size
          (record { tracker = t; sessions = before ++ (s ∷ after) })
          (handled (handle utf8_size e s t) before after)
  -- a session that is closing is deleted
  deletes :
      (t : Option Tracker) (before : List Session) (s : Session) (after : List Session)
      → s.closing ≡ true
      → Step utf8_size
          (record { tracker = t; sessions = before ++ (s ∷ after) })
          (record { tracker = t; sessions = before ++ after })

-- The server starts with a tracker that has no owner, or with none, and no session.
pub data Reachable (utf8_size : Text → ℕ) : World → Type 0 where
  starts : Reachable utf8_size (record { tracker = some []; sessions = [] })
  starts_without : Reachable utf8_size (record { tracker = none; sessions = [] })
  steps : {w v : World} → Reachable utf8_size w → Step utf8_size w v → Reachable utf8_size v

format_peer_address_nonempty :
    (is_ipv6 : Bool) (address port : Text)
    → is_empty (format_peer_address is_ipv6 address port) ≡ false
unfolding format_peer_address
format_peer_address_nonempty true address port = refl
format_peer_address_nonempty false [] port = refl
format_peer_address_nonempty false (c ∷ address) port = refl

-- The tracker counts the sessions that hold the user interface, and none of these is closing.
record IsAgreed (w : World) : Type 0 where
  counted : owners w.sessions ≡ claims w.tracker
  live : count late_owner w.sessions ≡ 0

open_session-IsAgreed :
    (login : LoginState) (peer : Text) (t : Option Tracker) (ss : List Session)
    → is_empty peer ≡ false
    → IsAgreed (record { tracker = t; sessions = ss })
    → IsAgreed (opened login peer t ss)
unfolding open_session claim restrict_login release_occupancy count
open_session-IsAgreed login peer none ss named h =
    let c = h.counted in let l = h.live in record { counted = ground arith; live = ground arith }
open_session-IsAgreed login peer (some owner) ss named h =
    let c = h.counted in let l = h.live in record { counted = ground arith; live = ground arith }

module _ (utf8_size : Text → ℕ) where
  handled-IsAgreed :
      (e : Event) (t : Option Tracker) (before : List Session) (s : Session) (after : List Session)
      → IsAgreed (record { tracker = t; sessions = before ++ (s ∷ after) })
      → IsAgreed (handled (handle utf8_size e s t) before after)
  handled-IsAgreed e t before s after h =
      let r = handle utf8_size e s t in
      let c = h.counted in
      let l = h.live in
      let all_before = count-append (λ s. s.owns) before s after in
      let all_after = count-append (λ s. s.owns) before r.session after in
      let late_before = count-append late_owner before s after in
      let late_after = count-append late_owner before r.session after in
      let kept : s.closing ≡ true → s.owns ≡ false = λ k. ground arith in
      let absent : t ≡ none → s.owns ≡ false =
        λ k. let nobody : claims t ≡ 0 = ap claims k in ground arith in
      let done = handle_closing utf8_size e s t absent kept in
      let few = claims_le t in
      record {
        counted = elim (handle-IsLocal utf8_size e s t) [
          | inl (same, still) ↦ rw still (ground arith)
          | inr (held, freed, there, gone) ↦ rw gone (ground arith)
        ];
        live = ground arith;
      }

  Step-IsAgreed : {w v : World} → Step utf8_size w v → IsAgreed w → IsAgreed v
  Step-IsAgreed (opens login is_ipv6 address port t ss) h =
      open_session-IsAgreed login _ t ss (format_peer_address_nonempty is_ipv6 address port) h
  Step-IsAgreed (handles e t before s after on) h = handled-IsAgreed e t before s after h
  Step-IsAgreed (deletes t before s after ended) h =
      let c = h.counted in
      let l = h.live in
      let all = count-append (λ s. s.owns) before s after in
      let late = count-append late_owner before s after in
      record { counted = ground arith; live = ground arith }

  Reachable-IsAgreed : {w : World} → Reachable utf8_size w → IsAgreed w
  unfolding count
  Reachable-IsAgreed starts = record { counted = refl; live = refl }
  Reachable-IsAgreed starts_without = record { counted = refl; live = refl }
  Reachable-IsAgreed (steps r step) = Step-IsAgreed step (Reachable-IsAgreed r)

  -- Whatever the browsers, the API process and the login state do, in whatever order: at most one
  -- session holds the user interface, the tracker has an owner exactly if one does, and no session
  -- that is closing does. So the user interface is never left occupied by a session that is gone.
  pub Reachable_exclusive :
      {w : World}
      → Reachable utf8_size w
      → (owners w.sessions ≤ 1)
        × (owners w.sessions ≡ claims w.tracker)
        × (count late_owner w.sessions ≡ 0)
  Reachable_exclusive {w} r =
      let h = Reachable-IsAgreed r in
      let few = claims_le w.tracker in let c = h.counted in (ground arith, h.counted, h.live)
