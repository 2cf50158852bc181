-- ===== src/Gc.antt =====
-- firm-wallet-service/src/gc.rs: the loop that truncates the event log. `none` is a panic, or fuel
-- that has run out.
pub mod Batch
pub mod Log
use auticuro.Prelude.{
  ℕ, zero, suc, ◌+◌, max, min, leb, ltb, true, false, Bytes, Option, none, some, List, [], ◌∷◌,
  ◌>>?◌, assert, if◌then◌else◌,
}
use auticuro.Keys.{event_key, dedup_key}
use auticuro.Storage.{
  Storage, WriteBatch, put, delete, read_hard_state_from_db, persisted_first_seq_num,
  persisted_last_seq_num,
}
use auticuro.StateMachine.Flush.{sub_u64}
use auticuro.Service.Query.{add_u64}

-- `struct EventLogGCConfig`; `gc_count` is the product of the limit and the percentage, a floating
-- point number that is cut to a `u64`.
pub record EventLogGcConfig : Type 0 where
  pub count_limit : ℕ
  pub gc_count : ℕ
  pub batch_size : ℕ

unfoldable pub should_gc : EventLogGcConfig → ℕ → ℕ → Option (Option ℕ)
should_gc config first_seq_num last_seq_num = assert (leb first_seq_num last_seq_num) >>? λ _.
    some (
      if ltb (sub_u64 last_seq_num first_seq_num) config.count_limit
      then none
      else some (add_u64 first_seq_num config.gc_count))

module _ (st : Storage) where
  -- The closure of the scan, over the entries of the scan.
  unfoldable pub delete_events : WriteBatch → List (Bytes × Bytes) → Option WriteBatch
  delete_events gc_wb [] = some gc_wb
  delete_events gc_wb ((key, value) ∷ entries) = elim (st.pb.parse_event value) [
    | none ↦ none
    | some event ↦
        delete_events (delete (dedup_key event.header.command_id) (delete key gc_wb)) entries
  ]

  -- The batch is empty when the function starts, and is cleared when it ends.
  unfoldable pub gc_batch : ℕ → ℕ → st.rocks.Db → Option st.rocks.Db
  gc_batch from to db =
      delete_events []
        (st.rocks.iterate db (event_key (st.be.write_u64 from)) (event_key (st.be.write_u64 to)))
      >>? λ gc_wb.
          some (st.rocks.write_opt db (put persisted_first_seq_num.key (st.be.write_u64 to) gc_wb))

  -- The `while` loop of `gc`; `to` follows from `from`.
  unfoldable pub gc_batches : ℕ → EventLogGcConfig → ℕ → ℕ → st.rocks.Db → Option st.rocks.Db
  gc_batches zero config from next_first_seq_num db = none
  gc_batches (suc fuel) config from next_first_seq_num db =
      let to = min (add_u64 from config.batch_size) next_first_seq_num in
      elim (ltb from next_first_seq_num) [
        | true ↦ gc_batch from to db >>? λ db1. gc_batches fuel config to next_first_seq_num db1
        | false ↦ some db
      ]

  unfoldable pub gc : ℕ → EventLogGcConfig → ℕ → ℕ → st.rocks.Db → Option st.rocks.Db
  unfolding gc_batches
  gc fuel config first_seq_num next_first_seq_num db =
      gc_batches fuel config (max first_seq_num (persisted_first_seq_num.default_value + 1))
        next_first_seq_num db

  -- One round of `run`; the other branch sleeps.
  unfoldable pub run_gc : ℕ → EventLogGcConfig → st.rocks.Db → Option st.rocks.Db
  run_gc fuel config db = read_hard_state_from_db st db persisted_first_seq_num >>? λ first_seq_num.
      read_hard_state_from_db st db persisted_last_seq_num >>? λ last_seq_num.
      should_gc config first_seq_num last_seq_num >>? λ decision. elim decision [
        | none ↦ some db
        | some next_first_seq_num ↦ gc fuel config first_seq_num next_first_seq_num db
      ]
