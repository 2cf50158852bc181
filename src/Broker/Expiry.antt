-- ===== src/Broker/Expiry.antt =====
-- What the broker gives up on.
use auticuro.Prelude.{
  ℕ, suc, ◌-◌, ◌<◌, ◌≤◌, ◌≡◌, refl, [], ◌∷◌, ◌++◌, map, arith, ap, ltb, Bool-cases, inl, inr,
}
use auticuro.Prelude.Lists.{length, drop}
use auticuro.Prelude.Map.{Map}
use auticuro.StateMachine.{Position, InflightEvent}
use auticuro.Broker.{
  MessageBroker, drop_events, gc_inflight_events, event_gc_limit, expire, gc_inflight_requests,
  timeout_event,
}

-- The time is up for every one of the requests.
abbrev pub AreExpired : ℕ → Map Position (ℕ × ℕ) → Type 0
AreExpired now [] = Unit
AreExpired now ((p, waiting) ∷ m) = (1000 ≤ now - waiting.0) × AreExpired now m

-- The first of the requests has time left, if there is one.
abbrev pub IsFresh : ℕ → Map Position (ℕ × ℕ) → Type 0
IsFresh now [] = Unit
IsFresh now ((p, waiting) ∷ m) = now - waiting.0 < 1000

module _ {P : Type 0} where
  drop_events-drop :
      (limit : ℕ) (m : Map Position (InflightEvent P))
      → drop_events limit m ≡ drop (length m - limit) m
  unfolding drop_events
  drop_events-drop limit [] = ground arith
  drop_events-drop limit ((p, e) ∷ m) = elim (Bool-cases (ltb limit (suc (length m)))) [
    | inl more ↦
        let step : suc (length m) - limit ≡ suc (length m - limit) = ground arith in
        rw (more, step) (drop_events-drop limit m)
    | inr few ↦
        let none_left : suc (length m) - limit ≡ 0 = ground arith in rw (few, none_left) refl
  ]

  length-drop_events :
      (limit : ℕ) (m : Map Position (InflightEvent P)) → length (drop_events limit m) ≤ limit
  unfolding drop_events
  length-drop_events limit [] = omega arith
  length-drop_events limit ((p, e) ∷ m) = ground (arith, length-drop_events limit m)

  -- After the events were thinned out there are at most as many as the limit. Those that are gone
  -- are the first in the order of positions, no more than necessary.
  pub gc_inflight_events-drop :
      (b : MessageBroker P)
      → (length (gc_inflight_events b).inflight_events ≤ event_gc_limit)
        × ((gc_inflight_events b).inflight_events
            ≡ drop (length b.inflight_events - event_gc_limit) b.inflight_events)
  unfolding gc_inflight_events
  gc_inflight_events-drop b = (
    length-drop_events event_gc_limit b.inflight_events,
    drop_events-drop event_gc_limit b.inflight_events,
  )

  -- The answer to a request whose time is up.
  abbrev pub timed_out : Position × (ℕ × ℕ) → ℕ × InflightEvent P
  timed_out (p, waiting) = (waiting.1, timeout_event p)

  expire-split :
      (now : ℕ) (m : Map Position (ℕ × ℕ))
      → (expired : Map Position (ℕ × ℕ)) × (rest : Map Position (ℕ × ℕ)) × (m ≡ expired ++ rest)
        × (expire now m ≡ (rest, map timed_out expired))
        × AreExpired now expired
        × IsFresh now rest
  unfolding expire
  expire-split now [] = ([], [], refl, refl, tt, tt)
  expire-split now ((p, (t, s)) ∷ m) = elim (Bool-cases (ltb (now - t) 1000)) [
    | inl fresh ↦ ([], (p, (t, s)) ∷ m, refl, rw fresh refl, tt, ground arith)
    | inr old ↦
        let (expired, rest, e, h, all, f) = expire-split now m in
        (
          (p, (t, s)) ∷ expired,
          rest,
          ap (λ (x : Map Position (ℕ × ℕ)). (p, (t, s)) ∷ x) e,
          rw (old, h) refl,
          (ground arith, all),
          f,
        )
  ]

  -- The requests are given up from the first position on, up to one that has time left: each of
  -- them is answered with a timeout at its own position, in order, and all others stay, also those
  -- behind it whose time is up.
  pub gc_inflight_requests-split :
      (b : MessageBroker P) (now : ℕ)
      → (expired : Map Position (ℕ × ℕ)) × (rest : Map Position (ℕ × ℕ)) × (b.inflight_requests
          ≡ expired ++ rest)
        × AreExpired now expired
        × IsFresh now rest
        × ((gc_inflight_requests b now).inflight_requests ≡ rest)
        × ((gc_inflight_requests b now).sent ≡ b.sent ++ map timed_out expired)
  unfolding gc_inflight_requests
  gc_inflight_requests-split b now =
      let (expired, rest, e, h, all, f) = expire-split now b.inflight_requests in
      (expired, rest, e, all, f, rw h refl, rw h refl)
