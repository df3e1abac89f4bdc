-- ===== src/Router/Steps.antt =====
-- backend/api/RequestHandler.cpp: theorems on its single steps.
use everest_ui.Base.{
  ℕ, suc, Bool, true, false, ◌&&◌, ◌||◌, not, [], Option, none, some, ◌==◌, ◌≡◌, refl, sym, ap, ◌∙◌,
  subst, arith, if_both,
}
use everest_ui.Base.Text.{Text, codes}
use everest_ui.Base.Int.{ℤ, pos, negsuc}
use everest_ui.Base.Json.{Json, obj, Fields, value, to_object, to_bool_or, is_double}
use everest_ui.Api.Types.{ModuleGroup, pcap, unknown}
use everest_ui.Login.State.{LoginState}
use everest_ui.Router.State.{
  RequestContext, Contexts, Handler, find_context, remove_context, insert_context, to_id,
  is_pcap_read, remove_pcap_write_context, is_positive, find_pcap_read_context,
}
use everest_ui.Router.Send.{Result, clear_session, detach, set_socket, try_send_next_response}
use everest_ui.Router.Respond.{
  retain_context, Adapted, adapt, without, settle, respond, enqueue_response, send_chunk,
  enqueue_pcap_chunk,
}
use everest_ui.Router.Message.{
  is_ack, is_pcap_chunk_ack, is_valid_template, handle_pcap_chunk_ack, registered, route_group,
  handle_object, handle_document, to_module_request,
}
use everest_ui.Router.Table.{
  are_open, are_open_none, is_open, are_open-remove, are_open-insert, are_open-later,
  are_open-find_open, remove_pcap_write_open,
}
use everest_ui.Router.Flow.{
  IsCalm, IsFlowing, IsCalm-table, try_send-IsFlowing, enqueue_object-IsFlowing,
  enqueue_current-IsFlowing, handle_ack-IsFlowing, resend-IsFlowing,
}
use everest_ui.Router.Runs.{Event, comes, message, response, chunk, ack_due, step}

-- A change of the table only, to open requests.
abbrev OnlyTable : ℕ → Handler → Handler → Type 0
OnlyTable since s t =
    (cs : Contexts) × (t ≡ record s { request_contexts = cs })
    × (are_open since s.server_request_id_counter s.connection_generation cs ≡ true)

is_open_related :
    (since counter generation : ℕ) (id : ℤ) (c : RequestContext) (other : ℤ)
    → is_open since counter generation id c ≡ true
    → is_open since counter generation id (record c { related_pcap_write_request_id = other })
      ≡ true
is_open_related since counter generation (pos n) c other h = h
is_open_related since counter generation (negsuc n) c other h = h

module _ (decimal : ℕ → Text) (since : ℕ) where
  without_table : (id : ℤ) (s : Handler) → IsCalm decimal since s → OnlyTable since s (without id s)
  without_table id s c = (
    remove_context id s.request_contexts,
    refl,
    are_open-remove since s.server_request_id_counter s.connection_generation id s.request_contexts
        c.table,
  )

  settle_table :
      (id : ℤ) (r : Fields) (c : RequestContext) (s : Handler)
      → IsCalm decimal since s
      → OnlyTable since s (settle id r c s)
  unfolding settle
  settle_table id r c s calm =
      let final = to_bool_or true (value (codes "final") r) in
      if_both (OnlyTable since s) (final && is_pcap_read c)
        (λ _.
          if_both
            (λ s'. OnlyTable since s (remove_pcap_write_context c.related_pcap_write_request_id s'))
            (final && not (retain_context r c))
            (λ _.
              let kept =
                are_open-remove since s.server_request_id_counter s.connection_generation id
                  s.request_contexts calm.table in
              remove_pcap_write_open since s.server_request_id_counter s.connection_generation
                c.related_pcap_write_request_id (without id s) kept)
            (λ _.
              remove_pcap_write_open since s.server_request_id_counter s.connection_generation
                c.related_pcap_write_request_id s calm.table))
        (λ _.
          if_both (OnlyTable since s) (final && not (retain_context r c))
            (λ _. without_table id s calm) (λ _. (s.request_contexts, refl, calm.table)))

  adapt_table :
      (truncated id : ℤ) (r : Fields) (c : RequestContext) (s : Handler)
      → IsCalm decimal since s
      → is_open since s.server_request_id_counter s.connection_generation id c ≡ true
      → OnlyTable since s (adapt truncated id r c s).handler
  unfolding adapt
  adapt_table truncated id r c s calm o =
      let capture = value (codes "capture_request_id") (to_object (value (codes "parameters") r)) in
      let c' : RequestContext = record c {
        related_pcap_write_request_id = to_id truncated capture;
      } in
      if_both (λ (a : Adapted). OnlyTable since s a.handler) (is_pcap_read c && is_double capture)
        (λ _. (
          insert_context id c' s.request_contexts,
          refl,
          are_open-insert since s.server_request_id_counter s.connection_generation id c'
              s.request_contexts (is_open_related since _ _ id c (to_id truncated capture) o)
              calm.table,
        ))
        (λ _. (s.request_contexts, refl, calm.table))

  IsCalm-by :
      (s t : Handler)
      → IsCalm decimal since s
      → s.has_socket ≡ true
      → OnlyTable since s t
      → IsCalm decimal since t
  IsCalm-by s t c up (cs, e, h) =
      subst (IsCalm decimal since) (sym e)
        (IsCalm-table decimal since s cs c (λ down. absurd (ground arith)) h)

  IsFlowing-by :
      (s t : Handler)
      → IsFlowing decimal since s
      → s.has_socket ≡ true
      → OnlyTable since s t
      → IsFlowing decimal since t
  IsFlowing-by s t h up (cs, e, o) = subst (IsFlowing decimal since) (sym e) (record {
    calm = IsCalm-table decimal since s cs h.calm (λ down. absurd (ground arith)) o;
    waiting = h.waiting;
  })

  socket_by : (s t : Handler) → s.has_socket ≡ true → OnlyTable since s t → t.has_socket ≡ true
  socket_by s t up (cs, e, h) = ap (λ (t : Handler). t.has_socket) e ∙ up

  chunk_sent :
      (id : ℤ) (sequence : ℕ) (final : Bool) (payload : Text) (o : Option RequestContext)
      (s : Handler)
      → IsFlowing decimal since s
      → s.has_socket ≡ true
      → IsFlowing decimal since (send_chunk id sequence final payload o s).handler
  unfolding send_chunk
  chunk_sent id sequence final payload none s h up = h
  chunk_sent id sequence final payload (some c) s h up =
      if_both (λ (r : Result). IsFlowing decimal since r.handler)
        (not (c.connection_generation == s.connection_generation) || not (is_pcap_read c)) (λ _. h)
        (λ _.
          if_both (λ t. IsFlowing decimal since t) final
            (λ _.
              let kept =
                are_open-remove since s.server_request_id_counter s.connection_generation id
                  s.request_contexts h.calm.table in
              IsFlowing-by s _ h up (
                remove_pcap_write_open since s.server_request_id_counter s.connection_generation
                  c.related_pcap_write_request_id (without id s) kept))
            (λ _. h))

  respond-IsFlowing :
      (truncated id : ℤ) (r : Fields) (o : Option RequestContext) (s : Handler)
      → IsFlowing decimal since s
      → s.has_socket ≡ true
      → find_context id s.request_contexts ≡ o
      → IsFlowing decimal since (respond decimal truncated id r o s).handler
  unfolding respond
  respond-IsFlowing truncated id r none s h up e = h
  respond-IsFlowing truncated id r (some c) s h up e =
      let o =
        are_open-find_open since s.server_request_id_counter s.connection_generation id
          s.request_contexts c h.calm.table e in
      let adapted = (adapt truncated id r c s).handler in
      let a = IsCalm-by s adapted h.calm up (adapt_table truncated id r c s h.calm o) in
      let up' : adapted.has_socket ≡ true =
        socket_by s adapted up (adapt_table truncated id r c s h.calm o) in
      let c' = (adapt truncated id r c s).context in
      let settled = settle id r c' adapted in
      if_both (λ (r : Result). IsFlowing decimal since r.handler)
        (not (c.connection_generation == s.connection_generation))
        (λ _. record {
          calm = IsCalm-by s (without id s) h.calm up (without_table id s h.calm);
          waiting = h.waiting;
        })
        (λ _.
          enqueue_object-IsFlowing decimal since truncated
            (adapt truncated id r c s).client_response settled
            (IsCalm-by adapted settled a up' (settle_table id r c' adapted a))
            (socket_by adapted settled up' (settle_table id r c' adapted a)))

  response-IsFlowing :
      (truncated : ℤ) (r : Fields) (s : Handler)
      → IsFlowing decimal since s
      → IsFlowing decimal since (enqueue_response decimal truncated r s).handler
  unfolding enqueue_response
  response-IsFlowing truncated r s h =
      if_both (λ (r : Result). IsFlowing decimal since r.handler) (not s.has_socket) (λ _. h)
        (λ up.
          respond-IsFlowing truncated (to_id truncated (value (codes "requestId") r)) r _ s h
            (ground arith) refl)

  chunk-IsFlowing :
      (id : ℤ) (sequence : ℕ) (final : Bool) (payload : Text) (s : Handler)
      → IsFlowing decimal since s
      → IsFlowing decimal since (enqueue_pcap_chunk id sequence final payload s).handler
  unfolding enqueue_pcap_chunk
  chunk-IsFlowing id sequence final payload s h =
      if_both (λ (r : Result). IsFlowing decimal since r.handler) (not s.has_socket) (λ _. h)
        (λ up. sent (find_context id s.request_contexts) (ground arith))
    where
      sent :
          (o : Option RequestContext)
          → s.has_socket ≡ true
          → IsFlowing decimal since (send_chunk id sequence final payload o s).handler
      sent o up = chunk_sent id sequence final payload o s h up

  registered-IsFlowing :
      (truncated : ℤ) (o : Fields) (s : Handler)
      → IsFlowing decimal since s
      → s.has_socket ≡ true
      → IsFlowing decimal since (registered truncated o s)
  registered-IsFlowing truncated o s h up = record {
    calm = record {
      closed = λ down. absurd (ground arith);
      timer = h.calm.timer;
      number = h.calm.number;
      order = (let later = h.calm.order in omega arith);
      table =
          are_open-insert since (suc s.server_request_id_counter) s.connection_generation
            (pos (suc s.server_request_id_counter)) _ s.request_contexts
            (let later = h.calm.order in ground arith)
            (are_open-later since s.server_request_id_counter s.connection_generation
              s.request_contexts h.calm.table);
    };
    waiting = h.waiting;
  }

  route-IsFlowing :
      (truncated : ℤ) (g : ModuleGroup) (o : Fields) (s : Handler)
      → IsFlowing decimal since s
      → s.has_socket ≡ true
      → IsFlowing decimal since (route_group truncated decimal g o s).handler
  unfolding route_group
  route-IsFlowing truncated unknown o s h up =
      response-IsFlowing truncated _ _ (registered-IsFlowing truncated o s h up)
  route-IsFlowing truncated pcap o s h up = registered-IsFlowing truncated o s h up
  route-IsFlowing truncated _ o s h up = registered-IsFlowing truncated o s h up

  chunk_ack-IsFlowing :
      (truncated : ℤ) (sequence : ℕ) (o : Fields) (s : Handler)
      → IsFlowing decimal since s
      → IsFlowing decimal since (handle_pcap_chunk_ack truncated sequence o s).handler
  unfolding handle_pcap_chunk_ack
  chunk_ack-IsFlowing truncated sequence o s h =
      if_both P
        (not (is_double (value (codes "requestId") o))
          || not (is_double (value (codes "sequence") o)))
        (λ _. h)
        (λ _.
          if_both P
            (not (
              is_positive
                (find_pcap_read_context (to_id truncated (value (codes "requestId") o)) s)))
            (λ _. h) (λ _. h))
    where
      P : Result → Type 0
      P r = IsFlowing decimal since r.handler

  object-IsFlowing :
      (truncated : ℤ) (sequence : ℕ) (login : LoginState) (o : Fields) (s : Handler)
      → IsFlowing decimal since s
      → s.has_socket ≡ true
      → IsFlowing decimal since (handle_object truncated decimal sequence login o s).handler
  unfolding handle_object
  object-IsFlowing truncated sequence login o s h up =
      if_both P (not login.allowed && not (is_ack o)) (λ _. h)
        (λ _.
          if_both P (is_pcap_chunk_ack o) (λ _. chunk_ack-IsFlowing truncated sequence o s h)
            (λ _.
              if_both P (is_ack o) (λ _. handle_ack-IsFlowing decimal since truncated o s h)
                (λ _.
                  if_both P (not (is_valid_template o))
                    (λ _. enqueue_current-IsFlowing decimal since truncated _ s h)
                    (λ _.
                      route-IsFlowing truncated (to_module_request truncated o).group o s h up))))
    where
      P : Result → Type 0
      P r = IsFlowing decimal since r.handler

  document-IsFlowing :
      (truncated : ℤ) (sequence : ℕ) (login : LoginState) (document : Option Json) (s : Handler)
      → IsFlowing decimal since s
      → s.has_socket ≡ true
      → IsFlowing decimal since
          (handle_document truncated decimal sequence login document s).handler
  unfolding handle_document
  document-IsFlowing truncated sequence login (some (obj o)) s h up =
      object-IsFlowing truncated sequence login o s h up
  document-IsFlowing truncated sequence login _ s h up =
      enqueue_current-IsFlowing decimal since truncated _ s h

  pub step-IsFlowing :
      (e : Event) (s : Handler)
      → IsFlowing decimal since s
      → comes e s ≡ true
      → IsFlowing decimal since (step decimal e s).handler
  unfolding step
  step-IsFlowing (message truncated sequence login document) s h up =
      document-IsFlowing truncated sequence login document s h up
  step-IsFlowing (response truncated r) s h up = response-IsFlowing truncated r s h
  step-IsFlowing (chunk id sequence final payload) s h up =
      chunk-IsFlowing id sequence final payload s h
  step-IsFlowing ack_due s h up = resend-IsFlowing decimal since s h

-- Nothing of a connection is left.
record IsDetached (last : ℕ) (s : Handler) : Type 0 where
  queue : s.response_queue ≡ []
  in_flight : s.has_in_flight ≡ false
  timer : s.ack_timer ≡ false
  contexts : s.request_contexts ≡ []
  counter : s.server_request_id_counter ≡ last

detach-IsDetached :
    (decimal : ℕ → Text) (since : ℕ) (s : Handler)
    → IsFlowing decimal since s
    → IsDetached s.server_request_id_counter (detach s)
unfolding detach clear_session
detach-IsDetached decimal since s h =
    if_both (IsDetached s.server_request_id_counter) s.has_socket
      (λ _. record {
        queue = refl;
        in_flight = refl;
        timer = refl;
        contexts = refl;
        counter = refl;
      })
      (λ down.
        let (e, f, t) = h.calm.closed down in
        record { queue = e; in_flight = f; timer = h.calm.timer ∙ f; contexts = t; counter = refl })

connected-IsFlowing :
    (decimal : ℕ → Text) (truncated : ℤ) (number generation : ℕ) (t : Handler)
    → IsDetached number t
    → IsFlowing decimal number
        (try_send_next_response decimal truncated
          (record t { has_socket = true; connection_generation = generation })).handler
connected-IsFlowing decimal truncated number generation t d =
    try_send-IsFlowing decimal number truncated _ (record {
      closed = λ up. absurd (ground arith);
      timer = d.timer ∙ sym d.in_flight;
      number = λ f. absurd (let g = d.in_flight in ground arith);
      order = (let e = d.counter in omega arith);
      table =
          subst (λ cs. are_open number t.server_request_id_counter generation cs ≡ true)
            (sym d.contexts) (are_open_none number t.server_request_id_counter generation);
    })

pub connect-IsFlowing :
    (decimal : ℕ → Text) (truncated : ℤ) (connected : Bool) (since : ℕ) (s : Handler)
    → IsFlowing decimal since s
    → IsFlowing decimal s.server_request_id_counter
        (set_socket decimal truncated connected s).handler
unfolding set_socket clear_session
connect-IsFlowing decimal truncated connected since s h =
    let d = detach-IsDetached decimal since s h in
    if_both (λ (r : Result). IsFlowing decimal s.server_request_id_counter r.handler)
      (not connected)
      (λ _. record {
        calm = record {
          closed = λ _. (refl, refl, refl);
          timer = refl;
          number = λ f. absurd (ground arith);
          order = (let e = d.counter in omega arith);
          table = are_open_none _ _ _;
        };
        waiting = λ _. refl;
      })
      (λ _. connected-IsFlowing decimal truncated s.server_request_id_counter _ (detach s) d)
