-- ===== src/Broker.antt =====
-- firm-wallet-service/src/message_broker.rs: the requests and events in flight, matched by their
-- position in the log.
pub mod Ordered
pub mod Rendezvous
pub mod Expiry
use auticuro.Prelude.{ℕ, ◌-◌, ltb, List, [], ◌∷◌, ◌++◌, foldl, none, some, err, if◌then◌else◌}
use auticuro.Prelude.Lists.{length}
use auticuro.Prelude.Map.{Map, get, remove}
use auticuro.Errors.{common_error, timeout}
use auticuro.StateMachine.{Position, InflightEvent}
use auticuro.Broker.Ordered.{insert_ordered, Position_eq}

-- `InflightRequest`; a sender is known by a number.
pub record InflightRequest : Type 0 where
  pub position : Position
  pub resp_to : ℕ
  pub send_time : ℕ

-- `MessageBroker`, without its channels, and with what was sent to the senders, the oldest first.
-- `P` is the decimal parser's error.
pub record MessageBroker (P : Type 0) : Type 0 where
  pub inflight_requests : Map Position (ℕ × ℕ)
  pub inflight_events : Map Position (InflightEvent P)
  pub sent : List (ℕ × InflightEvent P)

abbrev pub event_gc_limit : ℕ
event_gc_limit = 10000

module _ {P : Type 0} where
  unfoldable pub register_inflight_request : MessageBroker P → InflightRequest → MessageBroker P
  unfolding insert_ordered
  register_inflight_request self request = record self {
    inflight_requests =
        insert_ordered request.position (request.send_time, request.resp_to) self.inflight_requests;
  }

  unfoldable pub register_inflight_event : MessageBroker P → InflightEvent P → MessageBroker P
  unfolding insert_ordered
  register_inflight_event self event = record self {
    inflight_events = insert_ordered event.position event self.inflight_events;
  }

  -- The body of the first loop of a round.
  unfoldable pub receive_request : MessageBroker P → InflightRequest → MessageBroker P
  unfolding register_inflight_request
  receive_request self request = elim (get self.inflight_events request.position) [
    | some event ↦ record self {
      inflight_events = remove request.position self.inflight_events;
      sent = self.sent ++ (request.resp_to, event) ∷ [];
    }
    | none ↦ register_inflight_request self request
  ]

  -- The body of the second loop.
  unfoldable pub receive_event : MessageBroker P → InflightEvent P → MessageBroker P
  unfolding register_inflight_event
  receive_event self event = elim (get self.inflight_requests event.position) [
    | some waiting ↦ record self {
      inflight_requests = remove event.position self.inflight_requests;
      sent = self.sent ++ (waiting.1, event) ∷ [];
    }
    | none ↦ register_inflight_event self event
  ]

  -- The loop of `gc_inflight_events`: the first entry goes while there are too many.
  unfoldable pub drop_events : ℕ → Map Position (InflightEvent P) → Map Position (InflightEvent P)
  drop_events limit [] = []
  drop_events limit ((position, event) ∷ events) =
      let rest = drop_events limit events in
      if ltb limit (length ((position, event) ∷ events)) then rest else (position, event) ∷ events

  unfoldable pub gc_inflight_events : MessageBroker P → MessageBroker P
  unfolding drop_events
  gc_inflight_events self = record self {
    inflight_events = drop_events event_gc_limit self.inflight_events;
  }

  abbrev pub timeout_event : Position → InflightEvent P
  timeout_event position = record { position = position; event = err (common_error timeout) }

  -- The loop of `gc_inflight_requests`: from the first position on, up to one that has time left.
  unfoldable pub expire :
      ℕ → Map Position (ℕ × ℕ) → Map Position (ℕ × ℕ) × List (ℕ × InflightEvent P)
  expire now [] = ([], [])
  expire now ((position, waiting) ∷ requests) =
      let rest = expire now requests in
      if ltb (now - waiting.0) 1000
      then ((position, waiting) ∷ requests, [])
      else (rest.0, (waiting.1, timeout_event position) ∷ rest.1)

  unfoldable pub gc_inflight_requests : MessageBroker P → ℕ → MessageBroker P
  unfolding expire
  gc_inflight_requests self now =
      let left = expire now self.inflight_requests in
      record self { inflight_requests = left.0; sent = self.sent ++ left.1 }

  -- One round of `run`, with what the two channels gave.
  unfoldable pub run_broker :
      MessageBroker P → List InflightRequest → List (InflightEvent P) → ℕ → MessageBroker P
  unfolding receive_request receive_event gc_inflight_events gc_inflight_requests
  run_broker self requests events now =
      gc_inflight_requests
        (gc_inflight_events (foldl receive_event (foldl receive_request self requests) events)) now
