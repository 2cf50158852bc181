-- ===== src/Tests/Events.antt =====
-- Examples for the stored events: queries and truncation, over the storage in memory.
use auticuro.Prelude.{
  ℕ, ◌≡◌, ◌↔◌, ◌+◌, ◌<◌, ◌≤◌, max, refl, Bytes, Str, bytes, ok, err, none, some, [], ◌∷◌, arith,
  List, zero, suc, bytes_eq, Bytes_eq, Bool-cases, inl, inr, subst, some_injective, none_ne_some,
}
use auticuro.Prelude.Lists.{length}
use auticuro.Prelude.Map.{Map, get}
use auticuro.Proto.{Event}
use auticuro.Storage.{read_event_from_db, read_hard_state_from_db, persisted_first_seq_num}
use auticuro.Storage.Memory.{memory, memory-laws}
use auticuro.Keys.{event_key, dedup_key}
use auticuro.Service.Query.{maybe_adjust_query_range, query_events_impl, log_truncated}
use auticuro.Service.Query.Range.{IsServed, IsLastOf, maybe_adjust_query_range_iff}
use auticuro.Service.Query.Events.{AreStored, IsComplete, IsMissing, query_events_impl-answers}
use auticuro.Gc.{EventLogGcConfig, gc, gc_batch}
use auticuro.Gc.Batch.{IsParsable, IsTruncated, gc_batch-IsTruncated}
use auticuro.Gc.Log.{gc-IsTruncated}

maybe_adjust_query_range_iff_example :
    (maybe_adjust_query_range 2 9 1 5 3 ≡ ok (2, 4))
    ↔ (IsServed 2 9 1 5 × (◌≡◌ {A = ℕ} 2 2) × IsLastOf 2 9 5 3 4)
maybe_adjust_query_range_iff_example =
    maybe_adjust_query_range_iff 2 9 1 5 3 2 4 (omega arith) (omega arith)

abbrev event : ℕ → Str → Event
event n id = record {
  header = record {
    seq_num = n;
    log_index = 6;
    offset = 0;
    command_id = id;
    process_time_in_sec = 0;
  };
  payload = none;
}

-- Two events, under their numbers.
abbrev two : Map Bytes Bytes
two =
    (event_key (memory.be.write_u64 1), memory.pb.event_bytes (event 1 (bytes "p")))
    ∷ (event_key (memory.be.write_u64 2), memory.pb.event_bytes (event 2 (bytes "q")))
    ∷ []

read_1 : read_event_from_db memory two 1 ≡ some (some (event 1 (bytes "p")))
unfolding read_event_from_db get bytes_eq auticuro.Keys.Digits.write_be
read_1 = refl

read_2 : read_event_from_db memory two 2 ≡ some (some (event 2 (bytes "q")))
unfolding read_event_from_db get bytes_eq auticuro.Keys.Digits.write_be
read_2 = refl

two-IsComplete : IsComplete memory two 1 2
two-IsComplete zero l h = absurd (omega arith)
two-IsComplete (suc zero) l h = (event 1 (bytes "p"), read_1, refl)
two-IsComplete (suc (suc zero)) l h = (event 2 (bytes "q"), read_2, refl)
two-IsComplete (suc (suc (suc n))) l h = absurd (omega arith)

range_run : maybe_adjust_query_range 1 9 1 2 5 ≡ ok (1, 2)
unfolding maybe_adjust_query_range
range_run = refl

query_events_impl-answers_example :
    (IsComplete memory two 1 2
      → (events : List Event) × (query_events_impl memory 4 two 1 9 1 2 5
          ≡ some (ok (1, 2, events)))
        × (1 + length events ≡ 2 + 1)
        × AreStored memory two 1 events)
    × ((n : ℕ)
        → n < 2
        → 1 ≤ n + 1
        → IsComplete memory two 1 n
        → IsMissing memory two (n + 1)
        → query_events_impl memory 4 two 1 9 1 2 5 ≡ some (err log_truncated))
query_events_impl-answers_example =
    query_events_impl-answers memory two 4 1 9 1 2 5 2 range_run (omega arith) (omega arith)
      (omega arith)

-- The run of the same query.
query_run :
    query_events_impl memory 4 two 1 9 1 2 5
    ≡ some (ok (1, 2, event 1 (bytes "p") ∷ event 2 (bytes "q") ∷ []))
unfolding query_events_impl maybe_adjust_query_range auticuro.Service.Query.read_events
    read_event_from_db get bytes_eq auticuro.Keys.Digits.write_be
query_run = refl

two-IsParsable : IsParsable memory two
unfolding get
two-IsParsable key value e h =
    elim (Bool-cases (bytes_eq (event_key (memory.be.write_u64 1)) key)) [
      | inl one ↦ (
        event 1 (bytes "p"),
        subst (λ v. memory.pb.parse_event v ≡ some (event 1 (bytes "p")))
            (some_injective (rw one at h)) refl,
      )
      | inr more ↦ elim (Bool-cases (bytes_eq (event_key (memory.be.write_u64 2)) key)) [
        | inl one ↦ (
          event 2 (bytes "q"),
          subst (λ v. memory.pb.parse_event v ≡ some (event 2 (bytes "q")))
              (some_injective (rw (more, one) at h)) refl,
        )
        | inr none_left ↦ absurd (none_ne_some (rw (more, none_left) at h))
      ]
    ]

gc_batch-IsTruncated_example :
    (db' : Map Bytes Bytes) × (gc_batch memory 1 2 two ≡ some db')
    × IsTruncated memory two 1 2 db'
    × (read_hard_state_from_db memory db' persisted_first_seq_num ≡ some 2)
gc_batch-IsTruncated_example =
    gc_batch-IsTruncated memory memory-laws two 1 2 (omega arith) (omega arith) two-IsParsable

abbrev config : EventLogGcConfig
config = record { count_limit = 2; gc_count = 2; batch_size = 1 }

gc-IsTruncated_example :
    (db' : Map Bytes Bytes) × (gc memory 4 config 0 2 two ≡ some db')
    × IsTruncated memory two (max 0 1) 2 db'
    × (max 0 1 < 2 → read_hard_state_from_db memory db' persisted_first_seq_num ≡ some 2)
gc-IsTruncated_example =
    gc-IsTruncated memory memory-laws config 4 0 2 two (omega arith) (omega arith) (omega arith)
      (omega arith) (omega arith) two-IsParsable
