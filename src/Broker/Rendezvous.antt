-- ===== src/Broker/Rendezvous.antt =====
-- A request and the event at its position meet, whichever comes first.
use auticuro.Prelude.{
  ℕ, ◌≡◌, ◌≢◌, refl, List, [], ◌∷◌, ◌++◌, none, some, arith, ◌∙◌, Option-cases, inl, inr,
}
use auticuro.Prelude.Map.{get, get-remove}
use auticuro.StateMachine.{Position, InflightEvent}
use auticuro.Broker.{
  MessageBroker, InflightRequest, receive_request, receive_event, register_inflight_request,
  register_inflight_event,
}
use auticuro.Broker.Ordered.{Position_eq, position_beq_iff, get-insert_ordered}

-- What a channel delivers.
pub data Message (P : Type 0) : Type 0 where
  request_message : InflightRequest → Message P
  event_message : InflightEvent P → Message P

module _ {P : Type 0} where
  abbrev pub position_of : Message P → Position
  position_of (request_message r) = r.position
  position_of (event_message e) = e.position

  abbrev pub receive : MessageBroker P → Message P → MessageBroker P
  receive b (request_message r) = receive_request b r
  receive b (event_message e) = receive_event b e

  unfoldable pub receive_all : MessageBroker P → List (Message P) → MessageBroker P
  receive_all b [] = b
  receive_all b (m ∷ ms) = receive_all (receive b m) ms

  -- None of the messages is for the position.
  abbrev pub AreElsewhere : Position → List (Message P) → Type 0
  AreElsewhere p [] = Unit
  AreElsewhere p (m ∷ ms) = (position_of m ≢ p) × AreElsewhere p ms

  -- A position has at most one side waiting.
  SameAt : Position → MessageBroker P → MessageBroker P → Type 0
  SameAt p b b' =
      (get b'.inflight_requests p ≡ get b.inflight_requests p)
      × (get b'.inflight_events p ≡ get b.inflight_events p)

  receive-SameAt :
      (p : Position) (b : MessageBroker P) (m : Message P)
      → position_of m ≢ p
      → SameAt p b (receive b m)
  unfolding SameAt receive_request receive_event register_inflight_request register_inflight_event
  receive-SameAt p b (request_message r) ne =
      elim (Option-cases (get b.inflight_events r.position)) [
        | inl e ↦ ground (
          arith,
          get-insert_ordered r.position p (r.send_time, r.resp_to) b.inflight_requests,
          position_beq_iff r.position p,
        )
        | inr (ev, e) ↦
            ground (arith, get-remove r.position p b.inflight_events, position_beq_iff r.position p)
      ]
  receive-SameAt p b (event_message v) ne =
      elim (Option-cases (get b.inflight_requests v.position)) [
        | inl e ↦ ground (
          arith,
          get-insert_ordered v.position p v b.inflight_events,
          position_beq_iff v.position p,
        )
        | inr (w, e) ↦
            ground
              (arith, get-remove v.position p b.inflight_requests, position_beq_iff v.position p)
      ]

  receive_all-SameAt :
      (p : Position) (ms : List (Message P)) (b : MessageBroker P)
      → AreElsewhere p ms
      → SameAt p b (receive_all b ms)
  unfolding SameAt receive_all
  receive_all-SameAt p [] b h = (refl, refl)
  receive_all-SameAt p (m ∷ ms) b (ne, h) =
      let (r, e) = receive_all-SameAt p ms (receive b m) h in
      let (r1, e1) = receive-SameAt p b m ne in (r ∙ r1, e ∙ e1)

  -- A message that finds no partner waits.
  waits_request :
      (b : MessageBroker P) (r : InflightRequest) (p : Position)
      → r.position ≡ p
      → get b.inflight_events p ≡ none
      → (get (receive_request b r).inflight_requests p ≡ some (r.send_time, r.resp_to))
        × (get (receive_request b r).inflight_events p ≡ none)
  unfolding receive_request register_inflight_request
  waits_request b r p same h = ground (
    arith,
    get-insert_ordered r.position p (r.send_time, r.resp_to) b.inflight_requests,
    position_beq_iff r.position p,
  )

  waits_event :
      (b : MessageBroker P) (e : InflightEvent P)
      → get b.inflight_requests e.position ≡ none
      → (get (receive_event b e).inflight_events e.position ≡ some e)
        × (get (receive_event b e).inflight_requests e.position ≡ none)
  unfolding receive_event register_inflight_event
  waits_event b e h = ground (
    arith,
    get-insert_ordered e.position e.position e b.inflight_events,
    position_beq_iff e.position e.position,
  )

  meets_event :
      (b : MessageBroker P) (e : InflightEvent P) (t s : ℕ)
      → get b.inflight_requests e.position ≡ some (t, s)
      → ((receive_event b e).sent ≡ b.sent ++ (s, e) ∷ [])
        × (get (receive_event b e).inflight_requests e.position ≡ none)
        × (get (receive_event b e).inflight_events e.position ≡ get b.inflight_events e.position)
  unfolding receive_event
  meets_event b e t s h = ground (
    arith,
    get-remove e.position e.position b.inflight_requests,
    position_beq_iff e.position e.position,
  )

  meets_request :
      (b : MessageBroker P) (r : InflightRequest) (e : InflightEvent P) (p : Position)
      → r.position ≡ p
      → get b.inflight_events p ≡ some e
      → ((receive_request b r).sent ≡ b.sent ++ (r.resp_to, e) ∷ [])
        × (get (receive_request b r).inflight_events p ≡ none)
        × (get (receive_request b r).inflight_requests p ≡ get b.inflight_requests p)
  unfolding receive_request
  meets_request b r e p same h =
      ground (arith, get-remove r.position p b.inflight_events, position_beq_iff r.position p)

  -- The position is free: nothing waits there.
  abbrev pub IsFree : MessageBroker P → Position → Type 0
  IsFree b p = (get b.inflight_requests p ≡ none) × (get b.inflight_events p ≡ none)

  -- A request and an event at a free position meet, whichever comes first, and whatever other
  -- messages for other positions come in between: when the second of the two comes, the event is
  -- sent to the sender of the request, and the position is free again.
  pub receive-rendezvous :
      (b : MessageBroker P) (r : InflightRequest) (e : InflightEvent P) (ms : List (Message P))
      → r.position ≡ e.position
      → IsFree b e.position
      → AreElsewhere e.position ms
      → let request_first = receive_all (receive_request b r) ms in
        let event_first = receive_all (receive_event b e) ms in
        ((receive_event request_first e).sent ≡ request_first.sent ++ (r.resp_to, e) ∷ [])
        × IsFree (receive_event request_first e) e.position
        × ((receive_request event_first r).sent ≡ event_first.sent ++ (r.resp_to, e) ∷ [])
        × IsFree (receive_request event_first r) e.position
  unfolding SameAt
  receive-rendezvous b r e ms same (no_request, no_event) elsewhere =
      let (rr, re) = receive_all-SameAt e.position ms (receive_request b r) elsewhere in
      let (er, ee) = receive_all-SameAt e.position ms (receive_event b e) elsewhere in
      let (w, n) = waits_request b r e.position same no_event in
      let (v, m) = waits_event b e no_request in
      let (s1, f1, g1) =
        meets_event (receive_all (receive_request b r) ms) e r.send_time r.resp_to (rr ∙ w) in
      let (s2, f2, g2) =
        meets_request (receive_all (receive_event b e) ms) r e e.position same (ee ∙ v) in
      (s1, (f1, g1 ∙ re ∙ n), s2, (g2 ∙ er ∙ m, f2))
