-- ===== src/Router/Flow.antt =====
-- backend/api/RequestHandler.cpp: theorems on the response that waits for its acknowledgement.
use everest_ui.Base.{
  ℕ, ◌≤◌, true, false, ◌||◌, not, List, [], ◌∷◌, ◌++◌, ◌≡◌, refl, sym, arith, if_both, Bool-cases,
  inl, inr,
}
use everest_ui.Base.Text.{Text, codes, eqb, eqb_refl}
use everest_ui.Base.Int.{ℤ}
use everest_ui.Base.Json.{Json, str, Fields, end, field, value, set_value, to_string}
use everest_ui.Router.State.{Contexts, Handler}
use everest_ui.Router.Send.{
  Result, cleared, response_id, send_first, try_send_next_response, enqueue_response_object,
  enqueue_current_response, handle_ack, resend_in_flight,
}
use everest_ui.Router.Table.{are_open}

-- Without a socket nothing is kept; a response that waits for its acknowledgement bears the number
-- that was given last and its timer runs; and the open requests are those of this connection.
pub record IsCalm (decimal : ℕ → Text) (since : ℕ) (s : Handler) : Type 0 where
  pub closed :
      s.has_socket ≡ false
      → (s.response_queue ≡ []) × (s.has_in_flight ≡ false) × (s.request_contexts ≡ [])
  pub timer : s.ack_timer ≡ s.has_in_flight
  pub number :
      s.has_in_flight ≡ true
      → (s.in_flight_id ≡ response_id decimal s.response_id_counter)
        × (value (codes "responseId") s.in_flight_response
            ≡ str (response_id decimal s.response_id_counter))
  pub order : since ≤ s.server_request_id_counter
  pub table :
      are_open since s.server_request_id_counter s.connection_generation s.request_contexts ≡ true

-- And no response waits in the queue unless one waits for its acknowledgement.
pub record IsFlowing (decimal : ℕ → Text) (since : ℕ) (s : Handler) : Type 0 where
  pub calm : IsCalm decimal since s
  pub waiting : s.has_in_flight ≡ false → s.response_queue ≡ []

pub value-set_value : (k : Text) (v : Json) (fs : Fields) → value k (set_value k v fs) ≡ v
unfolding value set_value
value-set_value k v end = rw (eqb_refl k)
value-set_value k v (field j w fs) = elim (Bool-cases (eqb j k)) [
  | inl e ↦ rw (e, e) refl
  | inr e ↦ rw (e, e) (value-set_value k v fs)
]

module _ (decimal : ℕ → Text) (since : ℕ) where
  send_first-IsFlowing :
      (truncated : ℤ) (rs : List Fields) (s : Handler)
      → IsCalm decimal since s
      → s.has_socket ≡ true
      → s.response_queue ≡ rs
      → s.has_in_flight ≡ false
      → IsFlowing decimal since (send_first decimal truncated rs s).handler
  unfolding send_first
  send_first-IsFlowing truncated [] s c up e f = record { calm = c; waiting = λ _. e }
  send_first-IsFlowing truncated (r ∷ rest) s c up e f = record {
    calm = record {
      closed = λ h. absurd (ground arith);
      timer = refl;
      number = λ _. (refl, value-set_value (codes "responseId") _ r);
      order = c.order;
      table = c.table;
    };
    waiting = λ h. absurd (ground arith);
  }

  pub try_send-IsFlowing :
      (truncated : ℤ) (s : Handler)
      → IsCalm decimal since s
      → IsFlowing decimal since (try_send_next_response decimal truncated s).handler
  unfolding try_send_next_response
  try_send-IsFlowing truncated s c =
      if_both (λ (r : Result). IsFlowing decimal since r.handler)
        (not s.has_socket || s.has_in_flight)
        (λ stop. record { calm = c; waiting = λ f. (c.closed (ground arith)).0 })
        (λ go.
          send_first-IsFlowing truncated s.response_queue s c (ground arith) refl (ground arith))

  pub enqueue_object-IsFlowing :
      (truncated : ℤ) (r : Fields) (s : Handler)
      → IsCalm decimal since s
      → s.has_socket ≡ true
      → IsFlowing decimal since (enqueue_response_object decimal truncated r s).handler
  unfolding enqueue_response_object
  enqueue_object-IsFlowing truncated r s c up =
      try_send-IsFlowing truncated (record s { response_queue = s.response_queue ++ (r ∷ []) })
        (record {
          closed = λ h. absurd (ground arith);
          timer = c.timer;
          number = c.number;
          order = c.order;
          table = c.table;
        })

  pub enqueue_current-IsFlowing :
      (truncated : ℤ) (r : Fields) (s : Handler)
      → IsFlowing decimal since s
      → IsFlowing decimal since (enqueue_current_response decimal truncated r s).handler
  unfolding enqueue_current_response
  enqueue_current-IsFlowing truncated r s h =
      if_both (λ (r : Result). IsFlowing decimal since r.handler) (not s.has_socket) (λ _. h)
        (λ up. enqueue_object-IsFlowing truncated r s h.calm (ground arith))

  cleared-IsCalm : (s : Handler) → IsCalm decimal since s → IsCalm decimal since (cleared s)
  cleared-IsCalm s c = record {
    closed = λ h. let (e, _, t) = c.closed h in (e, refl, t);
    timer = refl;
    number = λ h. absurd (ground arith);
    order = c.order;
    table = c.table;
  }

  pub handle_ack-IsFlowing :
      (truncated : ℤ) (o : Fields) (s : Handler)
      → IsFlowing decimal since s
      → IsFlowing decimal since (handle_ack decimal truncated o s).handler
  unfolding handle_ack
  handle_ack-IsFlowing truncated o s h =
      if_both (λ (r : Result). IsFlowing decimal since r.handler)
        (not s.has_in_flight || not (eqb (to_string (value (codes "responseId") o)) s.in_flight_id))
        (λ _. h) (λ _. try_send-IsFlowing truncated (cleared s) (cleared-IsCalm s h.calm))

  off_line :
      (s : Handler)
      → IsCalm decimal since s
      → (not s.has_socket || not s.has_in_flight) ≡ true
      → s.has_in_flight ≡ false
  off_line s c stop = elim (Bool-cases s.has_socket) [
    | inl e ↦ ground arith
    | inr e ↦ (c.closed e).1
  ]

  pub resend-IsFlowing :
      (s : Handler)
      → IsFlowing decimal since s
      → IsFlowing decimal since (resend_in_flight s).handler
  unfolding resend_in_flight
  resend-IsFlowing s h =
      if_both (λ (r : Result). IsFlowing decimal since r.handler)
        (not s.has_socket || not s.has_in_flight)
        (λ stop.
          let off : s.has_in_flight ≡ false = off_line s h.calm (ground arith) in
          record {
            calm = record {
              closed = h.calm.closed;
              timer = sym off;
              number = h.calm.number;
              order = h.calm.order;
              table = h.calm.table;
            };
            waiting = h.waiting;
          })
        (λ go. record {
          calm = record {
            closed = h.calm.closed;
            timer = ground arith;
            number = h.calm.number;
            order = h.calm.order;
            table = h.calm.table;
          };
          waiting = h.waiting;
        })

  pub IsCalm-table :
      (s : Handler) (cs : Contexts)
      → IsCalm decimal since s
      → (s.has_socket ≡ false → cs ≡ [])
      → are_open since s.server_request_id_counter s.connection_generation cs ≡ true
      → IsCalm decimal since (record s { request_contexts = cs })
  IsCalm-table s cs c shut h = record {
    closed = λ e. let (q, f, _) = c.closed e in (q, f, shut e);
    timer = c.timer;
    number = c.number;
    order = c.order;
    table = h;
  }
