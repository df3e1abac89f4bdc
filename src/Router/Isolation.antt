-- ===== src/Router/Isolation.antt =====
-- backend/api/RequestHandler.cpp: theorems on the whole life of the object.
use everest_ui.Base.{ℕ, ◌≤◌, not, [], ◌≡◌, refl, sym, subst, arith, if_both}
use everest_ui.Base.Text.{Text, codes}
use everest_ui.Base.Int.{ℤ, pos}
use everest_ui.Base.Json.{Fields, value}
use everest_ui.Router.State.{Handler, find_context, to_id}
use everest_ui.Router.Send.{Result}
use everest_ui.Router.Respond.{respond, enqueue_response}
use everest_ui.Router.Table.{are_open, are_open-find}
use everest_ui.Router.Flow.{IsFlowing}
use everest_ui.Router.Runs.{Runs, begins, connects, steps}
use everest_ui.Router.Steps.{step-IsFlowing, connect-IsFlowing}

-- In any life of the object: without a socket nothing is kept; a response that waits for its
-- acknowledgement bears the number that was given last, and the timer of its repetition runs exactly
-- while there is one; a response waits in the queue only behind it; and every open request was
-- registered since the last change of the socket, in the present generation.
pub Runs-IsFlowing :
    (decimal : ℕ → Text) (since : ℕ) (s : Handler)
    → Runs decimal since s
    → IsFlowing decimal since s
unfolding are_open
Runs-IsFlowing decimal _ _ begins = record {
  calm = record {
    closed = λ _. (refl, refl, refl);
    timer = refl;
    number = λ f. absurd (ground arith);
    order = omega arith;
    table = refl;
  };
  waiting = λ _. refl;
}
Runs-IsFlowing decimal _ _ (connects truncated connected since s run) =
    connect-IsFlowing decimal truncated connected since s (Runs-IsFlowing decimal since s run)
Runs-IsFlowing decimal since _ (steps e _ s run c) =
    step-IsFlowing decimal since e s (Runs-IsFlowing decimal since s run) c

-- A response to a request of an earlier connection changes nothing and sends nothing, whatever it
-- says and whenever it comes: the number that it bears was given before the last change of the
-- socket.
pub enqueue_response_isolated :
    (decimal : ℕ → Text) (since : ℕ) (s : Handler) (truncated : ℤ) (r : Fields) (n : ℕ)
    → Runs decimal since s
    → to_id truncated (value (codes "requestId") r) ≡ pos n
    → n ≤ since
    → enqueue_response decimal truncated r s ≡ record { handler = s; out = [] }
unfolding enqueue_response respond
enqueue_response_isolated decimal since s truncated r n run e old =
    let h = Runs-IsFlowing decimal since s run in
    let missing =
      are_open-find since s.server_request_id_counter s.connection_generation n s.request_contexts
        h.calm.table old in
    if_both (λ (a : Result). a ≡ record { handler = s; out = [] }) (not s.has_socket) (λ _. refl)
      (λ _.
        subst
          (λ id.
            respond decimal truncated id r (find_context id s.request_contexts) s
            ≡ record { handler = s; out = [] })
          (sym e) (rw (missing, respond) refl))
