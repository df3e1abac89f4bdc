-- ===== src/Control/Sound.antt =====
-- backend/api/SystemControlHandler.cpp: theorems on the members while the queue is worked off.
use everest_ui.Base.{
  Bool, true, false, not, List, [], ◌∷◌, Option, none, some, ◌≡◌, refl, sym, ap, ◌∙◌, subst,
  if_both, arith,
}
use everest_ui.Api.Types.{factory_reset, ModuleRequest, ModuleResponse}
use everest_ui.Control.State.{
  Control, is_safety_write, matches_pending_request, Started, responded, waits, ignored,
}
use everest_ui.Control.Queue.{
  Output, emitted, completed, Result, after, finish_pending, respond_with, continue_with,
}

abbrev pub is_pending_write : Option ModuleRequest → Bool
is_pending_write none = false
is_pending_write (some p) = is_safety_write p

-- Between two events: nothing waits without a pending request, the flag of the safety write and its
-- timer belong to a pending safety write, and a factory reset that runs is the pending request.
pub record IsSound (s : Control) : Type 0 where
  pub settled : s.pending ≡ none → s.queue ≡ []
  pub flag : s.safety_write_in_progress ≡ is_pending_write s.pending
  pub timer : s.keepalive ≡ true → s.safety_write_in_progress ≡ true
  pub reset :
      s.factory.is_running ≡ true
      → (s.pending ≡ some s.factory.request) × (s.factory.request.group ≡ factory_reset)

abbrev pub Sound : Option Result → Type 0
Sound none = Unit
Sound (some r) = IsSound r.control

-- No request is pending, and nothing of one is left.
pub record IsFree (s : Control) : Type 0 where
  pub pending : s.pending ≡ none
  pub flag : s.safety_write_in_progress ≡ false
  pub timer : s.keepalive ≡ false
  pub reset : s.factory.is_running ≡ false

abbrev pub SoundQueue : List ModuleRequest → (Control → Option Result) → Type 0
SoundQueue rest next = (s : Control) → IsFree s → s.queue ≡ rest → Sound (next s)

pub Sound-after : (out : List Output) (o : Option Result) → Sound o → Sound (after out o)
Sound-after out none h = tt
Sound-after out (some r) h = record {
  settled = h.settled;
  flag = h.flag;
  timer = h.timer;
  reset = h.reset;
}

finish_pending-IsFree :
    (p : ModuleRequest) (s : Control)
    → IsSound s
    → s.pending ≡ some p
    → s.factory.is_running ≡ false
    → IsFree (finish_pending p s)
unfolding finish_pending
finish_pending-IsFree p s h e idle =
    if_both IsFree (is_safety_write p)
      (λ _. record { pending = refl; flag = refl; timer = refl; reset = idle })
      (λ w.
        let off : s.safety_write_in_progress ≡ false = h.flag ∙ ap is_pending_write e ∙ w in
        let t = h.timer in
        record { pending = refl; flag = off; timer = ground arith; reset = idle })

finish_pending-queue : (p : ModuleRequest) (s : Control) → (finish_pending p s).queue ≡ s.queue
unfolding finish_pending
finish_pending-queue p s =
    if_both (λ (s' : Control). s'.queue ≡ s.queue) (is_safety_write p) (λ _. refl) (λ _. refl)

pub respond_with-Sound :
    (next : Control → Option Result) (response : ModuleResponse) (o : Option ModuleRequest)
    (s : Control)
    → SoundQueue s.queue next
    → IsSound s
    → s.pending ≡ o
    → ((p : ModuleRequest)
        → s.pending ≡ some p
        → matches_pending_request response p ≡ true
        → response.final ≡ true
        → s.factory.is_running ≡ false)
    → Sound (respond_with next response o s)
unfolding respond_with
respond_with-Sound next response none s k h e idle = tt
respond_with-Sound next response (some p) s k h e idle =
    if_both Sound (not (matches_pending_request response p)) (λ _. tt)
      (λ same.
        if_both Sound (not response.final)
          (λ _. record { settled = h.settled; flag = h.flag; timer = h.timer; reset = h.reset })
          (λ final. Sound-after (emitted response ∷ completed p ∷ []) _ (
            k (finish_pending p s)
              (finish_pending-IsFree p s h e (idle p e (ground arith) (ground arith)))
              (finish_pending-queue p s))))

-- What `startRequest` has made of the members.
pub record IsStarted (r : ModuleRequest) (rest : List ModuleRequest) (s : Control) (final : Bool)
    : Type 0 where
  pub sound : IsSound s
  pub pending : s.pending ≡ some r
  pub queue : s.queue ≡ rest
  pub idle : final ≡ true → s.factory.is_running ≡ false

abbrev pub StartsSound : ModuleRequest → List ModuleRequest → Option Started → Type 0
StartsSound r rest none = Unit
StartsSound r rest (some (responded s response)) = IsStarted r rest s response.final
StartsSound r rest (some (waits s)) = IsStarted r rest s false
StartsSound r rest (some (ignored s)) = IsFree (record s { pending = none }) × (s.queue ≡ rest)

pub continue_with-Sound :
    (next : Control → Option Result) (r : ModuleRequest) (rest : List ModuleRequest)
    (o : Option Started)
    → SoundQueue rest next
    → StartsSound r rest o
    → Sound (continue_with next r o)
unfolding continue_with
continue_with-Sound next r rest none k h = tt
continue_with-Sound next r rest (some (responded s response)) k h =
    respond_with-Sound next response s.pending s (subst (λ rs. SoundQueue rs next) (sym h.queue) k)
      h.sound refl (λ _ _ _. h.idle)
continue_with-Sound next r rest (some (waits s)) k h = h.sound
continue_with-Sound next r rest (some (ignored s)) k (free, same) =
    Sound-after (completed r ∷ []) _ (k (record s { pending = none }) free same)

-- A group without a state of its own leaves the members as they are.
pub IsStarted-plainly :
    (r : ModuleRequest) (rest : List ModuleRequest) (s : Control) (final : Bool)
    → IsFree s
    → is_safety_write r ≡ false
    → IsStarted r rest (record s { queue = rest; pending = some r }) final
IsStarted-plainly r rest s final free w = record {
  sound = record {
    settled = λ h. absurd (ground arith);
    flag = free.flag ∙ sym w;
    timer = (let t = free.timer in λ h. absurd (ground arith));
    reset = (let n = free.reset in λ h. absurd (ground arith));
  };
  pending = refl;
  queue = refl;
  idle = λ _. free.reset;
}
