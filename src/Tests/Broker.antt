-- ===== src/Tests/Broker.antt =====
-- Examples for message_broker.rs.
use auticuro.Prelude.{ℕ, ◌≡◌, ◌≢◌, refl, List, [], ◌∷◌, ◌++◌, map, err, arith, ap}
use auticuro.Prelude.Map.{Map, get}
use auticuro.Errors.{common_error, conflict_dedup_id}
use auticuro.StateMachine.{Position, InflightEvent}
use auticuro.Broker.{
  MessageBroker, InflightRequest, receive_request, receive_event, gc_inflight_requests,
}
use auticuro.Broker.Ordered.{Position_eq}
use auticuro.Broker.Rendezvous.{
  Message, request_message, event_message, receive_all, IsFree, receive-rendezvous,
}
use auticuro.Broker.Expiry.{gc_inflight_requests-split, AreExpired, IsFresh, timed_out}

-- The decimal parser has no error here.
abbrev P : Type 0
P = ℕ

abbrev at : ℕ → Position
at n = record { log_index = 6; offset = n }

abbrev idle : MessageBroker P
idle = record { inflight_requests = []; inflight_events = []; sent = [] }

abbrev asked : ℕ → InflightRequest
asked n = record { position = at n; resp_to = n; send_time = 5 }

abbrev happened : ℕ → InflightEvent P
happened n = record { position = at n; event = err (common_error (conflict_dedup_id [])) }

-- The messages of another position.
abbrev others : List (Message P)
others = request_message (asked 2) ∷ event_message (happened 2) ∷ []

elsewhere : at 2 ≢ at 1
elsewhere e = let same : 2 ≡ 1 = ap (λ (p : Position). p.offset) e in absurd (omega (arith, same))

idle-IsFree : IsFree idle (at 1)
unfolding get
idle-IsFree = (refl, refl)

receive-rendezvous_example :
    let request_first = receive_all (receive_request idle (asked 1)) others in
    let event_first = receive_all (receive_event idle (happened 1)) others in
    ((receive_event request_first (happened 1)).sent ≡ request_first.sent ++ (1, happened 1) ∷ [])
    × IsFree (receive_event request_first (happened 1)) (at 1)
    × ((receive_request event_first (asked 1)).sent ≡ event_first.sent ++ (1, happened 1) ∷ [])
    × IsFree (receive_request event_first (asked 1)) (at 1)
receive-rendezvous_example =
    receive-rendezvous idle (asked 1) (happened 1) others refl idle-IsFree
      (elsewhere, (elsewhere, tt))

-- Two requests, of which the second is young.
abbrev waiting : MessageBroker P
waiting = record idle { inflight_requests = (at 1, (5, 1)) ∷ (at 2, (2000, 2)) ∷ [] }

gc_inflight_requests-split_example :
    (expired : Map Position (ℕ × ℕ)) × (rest : Map Position (ℕ × ℕ)) × (waiting.inflight_requests
      ≡ expired ++ rest)
    × AreExpired 2100 expired
    × IsFresh 2100 rest
    × ((gc_inflight_requests waiting 2100).inflight_requests ≡ rest)
    × ((gc_inflight_requests waiting 2100).sent ≡ waiting.sent ++ map timed_out expired)
gc_inflight_requests-split_example = gc_inflight_requests-split waiting 2100
