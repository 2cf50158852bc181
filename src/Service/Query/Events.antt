-- ===== src/Service/Query/Events.antt =====
-- The events of a query's answer.
use auticuro.Prelude.{
  ℕ, zero, suc, ◌+◌, ◌-◌, ◌<◌, ◌≤◌, ◌^◌, ◌≡◌, refl, ok, err, some, none, List, [], ◌∷◌, arith, ap,
}
use auticuro.Prelude.Lists.{length}
use auticuro.Proto.{Event}
use auticuro.Storage.{Storage, read_event_from_db}
use auticuro.StateMachine.{inc_u64}
use auticuro.Service.Query.{maybe_adjust_query_range, query_events_impl, read_events, log_truncated}

module _ (st : Storage) (db : st.rocks.Db) where
  -- The events from `seq_num` on, each stored under its own number.
  abbrev pub AreStored : ℕ → List Event → Type 0
  AreStored seq_num [] = Unit
  AreStored seq_num (event ∷ events) =
      (read_event_from_db st db seq_num ≡ some (some event)) × AreStored (seq_num + 1) events

  -- Every number in the range has its event.
  abbrev pub IsComplete : ℕ → ℕ → Type 0
  IsComplete first last =
      (n : ℕ)
      → first ≤ n
      → n ≤ last
      → (event : Event) × (read_event_from_db st db n ≡ some (some event))
        × (event.header.seq_num ≡ n)

  -- The number where the first event is missing.
  abbrev pub IsMissing : ℕ → Type 0
  IsMissing seq_num = read_event_from_db st db seq_num ≡ some none

  -- Reading stops behind the last number, with the events of all of them.
  read_events_complete :
      (fuel k first last : ℕ)
      → k < fuel
      → first + k ≡ last + 1
      → last + 1 < 2 ^ 64
      → IsComplete first last
      → (events : List Event) × (read_events st fuel db first last ≡ some (ok (events, last + 1)))
        × (length events ≡ k)
        × AreStored first events
  unfolding read_events
  read_events_complete zero k first last h e room all = absurd (omega arith)
  read_events_complete (suc fuel) zero first last h e room all = ([], ground arith, refl, tt)
  read_events_complete (suc fuel) (suc k) first last h e room all =
      let (ev, r, n) = all first (omega arith) (omega arith) in
      let step : inc_u64 first ≡ first + 1 = omega arith in
      let (evs, rest, l, s) =
        read_events_complete fuel k (first + 1) last (omega arith) (omega arith) room
          (λ m p q. all m (omega arith) q) in
      (ev ∷ evs, ground (arith, r, n, step, rest), ap suc l, (r, s))

  -- Reading stops at the first event that is missing.
  read_events_truncated :
      (fuel k first last : ℕ)
      → k < fuel
      → first + k ≤ last
      → last + 1 < 2 ^ 64
      → ((n : ℕ)
          → first ≤ n
          → n < first + k
          → (event : Event) × (read_event_from_db st db n ≡ some (some event))
            × (event.header.seq_num ≡ n))
      → IsMissing (first + k)
      → read_events st fuel db first last ≡ some (err log_truncated)
  unfolding read_events
  read_events_truncated zero k first last h e room all gone = absurd (omega arith)
  read_events_truncated (suc fuel) zero first last h e room all gone =
      let here : first + 0 ≡ first = omega arith in ground (arith, rw here at gone)
  read_events_truncated (suc fuel) (suc k) first last h e room all gone =
      let (ev, r, n) = all first (omega arith) (omega arith) in
      let step : inc_u64 first ≡ first + 1 = omega arith in
      let shift : first + suc k ≡ first + 1 + k = omega arith in
      let rest =
        read_events_truncated fuel k (first + 1) last (omega arith) (omega arith) room
          (λ m p q. all m (omega arith) (omega arith)) (rw shift at gone) in
      ground (arith, r, n, step, rest)

  -- A query that is accepted for the range from `first` to `b` is answered with all events of the
  -- range, in order, if they are stored under their numbers; and with `LogTruncated` if one after
  -- the first is missing while those before it are stored, or the first itself. The loop ends: as
  -- many rounds as there are events in the range, and one more, are enough. The range ends below
  -- the largest `u64`.
  pub query_events_impl-answers :
      (fuel first last persisted_first persisted_last max_count b : ℕ)
      → maybe_adjust_query_range first last persisted_first persisted_last max_count ≡ ok (first, b)
      → first ≤ b
      → b + 1 < 2 ^ 64
      → b + 1 < first + fuel
      → (IsComplete first b
          → (events : List Event) × (query_events_impl st fuel db first last persisted_first
                persisted_last max_count
              ≡ some (ok (first, b, events)))
            × (first + length events ≡ b + 1)
            × AreStored first events)
        × ((n : ℕ)
            → n < b
            → first ≤ n + 1
            → IsComplete first n
            → IsMissing (n + 1)
            → query_events_impl st fuel db first last persisted_first persisted_last max_count
              ≡ some (err log_truncated))
  unfolding query_events_impl
  query_events_impl-answers fuel first last pf pl count b h fb room enough = (
    λ all.
        let (evs, r, l, s) =
          read_events_complete fuel (b + 1 - first) first b (omega arith) (omega arith) room all in
        (evs, ground (arith, r), omega (arith, l), s),
    λ n nb fn all gone.
        let k = n + 1 - first in
        let at : first + k ≡ n + 1 = omega arith in
        let r =
          read_events_truncated fuel k first b (omega arith) (omega arith) room
            (λ m p q. all m p (omega arith)) (rw at gone) in
        ground (arith, r),
  )
