-- ===== src/Service/Query.antt =====
-- service.rs: `query_events_impl` and `maybe_adjust_query_range`, with the errors of
-- errors/internal_error.rs. `none` is a failed assertion, a message that does not parse, or fuel
-- that has run out.
pub mod Range
pub mod Events
use auticuro.Prelude.{
  ℕ, zero, suc, ◌+◌, ◌%◌, ◌^◌, ◌==◌, leb, min, Bool, ◌&&◌, not, Option, none, some, Result, ok, err,
  List, [], ◌∷◌, ◌>>?◌, ◌>>=◌, assert, if◌then◌else◌,
}
use auticuro.Proto.{Event}
use auticuro.Storage.{Storage, read_event_from_db}
use auticuro.StateMachine.{inc_u64}
use auticuro.StateMachine.Flush.{sub_u64}

-- The text of an error, as what `format!` is given.
pub data Reason : Type 0 where
  no_available_events : Reason
  out_of_range : ℕ → ℕ → ℕ → ℕ → Reason

pub data InternalError : Type 0 where
  log_truncated : InternalError
  other_error : Reason → InternalError

abbrev pub InternalResult : Type 0 → Type 0
InternalResult A = Result InternalError A

-- `a + b` on `u64`.
abbrev pub add_u64 : ℕ → ℕ → ℕ
add_u64 a b = (a + b) % 2 ^ 64

-- The last sequence number of an answer.
abbrev pub last_available_seq_num : ℕ → ℕ → ℕ → ℕ → ℕ
last_available_seq_num first last persisted_last max_count =
    min (min last (sub_u64 (add_u64 first max_count) 1)) persisted_last

abbrev pub range_reason : ℕ → ℕ → ℕ → ℕ → Reason
range_reason first last persisted_first persisted_last =
    if persisted_first == 0 && persisted_last == 0
    then no_available_events
    else out_of_range first last persisted_first persisted_last

unfoldable pub maybe_adjust_query_range : ℕ → ℕ → ℕ → ℕ → ℕ → InternalResult (ℕ × ℕ)
maybe_adjust_query_range first last persisted_first persisted_last max_count =
    if not (first == 0) && leb first last && leb persisted_first first && leb first persisted_last
    then ok (first, last_available_seq_num first last persisted_last max_count)
    else err (other_error (range_reason first last persisted_first persisted_last))

module _ (st : Storage) where
  -- The body of the loop after a read.
  abbrev pub push_event :
      ℕ
      → Event
      → Option (InternalResult (List Event × ℕ))
      → Option (InternalResult (List Event × ℕ))
  push_event seq_num event rest = assert (seq_num == event.header.seq_num) >>? λ _.
      rest >>? λ result. some (result >>= λ (events, last). ok (event ∷ events, last))

  -- The `while` loop: the events and the value of `seq_num` after it.
  unfoldable pub read_events : ℕ → st.rocks.Db → ℕ → ℕ → Option (InternalResult (List Event × ℕ))
  read_events zero db seq_num last = none
  read_events (suc fuel) db seq_num last =
      let rest = read_events fuel db (inc_u64 seq_num) last in
      if leb seq_num last
      then (read_event_from_db st db seq_num >>? λ found. elim found [
        | none ↦ some (err log_truncated)
        | some event ↦ push_event seq_num event rest
      ])
      else some (ok ([], seq_num))

  abbrev pub finish_query :
      ℕ → ℕ → InternalResult (List Event × ℕ) → Option (InternalResult (ℕ × ℕ × List Event))
  finish_query first last (err e) = some (err e)
  finish_query first last (ok (events, seq_num)) =
      assert (sub_u64 seq_num 1 == last) >>? λ _. some (ok (first, last, events))

  unfoldable pub query_events_impl :
      ℕ → st.rocks.Db → ℕ → ℕ → ℕ → ℕ → ℕ → Option (InternalResult (ℕ × ℕ × List Event))
  query_events_impl fuel db first last persisted_first persisted_last max_count =
      elim (maybe_adjust_query_range first last persisted_first persisted_last max_count) [
        | err e ↦ some (err e)
        | ok range ↦
            read_events fuel db range.0 range.1 >>? λ result. finish_query range.0 range.1 result
      ]
