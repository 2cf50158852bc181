-- ===== src/Gc/Log.antt =====
-- The whole truncation: the batches together.
use auticuro.Prelude.{
  ℕ, zero, suc, ◌+◌, ◌<◌, ◌≤◌, ◌^◌, ◌≡◌, refl, max, min, some, ltb, arith, ◌∙◌, ap, Bool-cases, inl,
  inr,
}
use auticuro.Storage.{Storage, StorageLaws, read_hard_state_from_db, persisted_first_seq_num}
use auticuro.Service.Query.{add_u64}
use auticuro.Gc.{EventLogGcConfig, gc_batches, gc}
use auticuro.Gc.Batch.{IsParsable, IsTruncated, gc_batch-IsTruncated}

module _ (st : Storage) where
  IsTruncated-refl :
      (db : st.rocks.Db) (from to : ℕ) → to ≤ from → IsParsable st db → IsTruncated st db from to db
  IsTruncated-refl db from to h p = record {
    events = λ n hn. ground arith;
    accounts = λ id. refl;
    last_seq_num = refl;
    applied_index = refl;
    parsable = p;
  }

  -- Two truncations that follow each other are one.
  IsTruncated-trans :
      (db db1 db2 : st.rocks.Db) (from mid to : ℕ)
      → from ≤ mid
      → mid ≤ to
      → IsTruncated st db from mid db1
      → IsTruncated st db1 mid to db2
      → IsTruncated st db from to db2
  IsTruncated-trans db db1 db2 from mid to h k s t = record {
    events = λ n hn. ground (arith, s.events n hn, t.events n hn);
    accounts = λ id. t.accounts id ∙ s.accounts id;
    last_seq_num = t.last_seq_num ∙ s.last_seq_num;
    applied_index = t.applied_index ∙ s.applied_index;
    parsable = t.parsable;
  }

  -- The loop ends, whatever the size of a batch is, as long as a batch holds an event, and the
  -- batches together are one truncation up to the end.
  pub gc_batches-IsTruncated :
      (laws : StorageLaws st) (config : EventLogGcConfig) (fuel from to : ℕ) (db : st.rocks.Db)
      → 0 < config.batch_size
      → 0 < fuel
      → to < from + fuel
      → from + config.batch_size < 2 ^ 64
      → to + config.batch_size < 2 ^ 64
      → IsParsable st db
      → (db' : st.rocks.Db) × (gc_batches st fuel config from to db ≡ some db')
        × IsTruncated st db from to db'
        × (from < to → read_hard_state_from_db st db' persisted_first_seq_num ≡ some to)
        × (to ≤ from → db' ≡ db)
  unfolding gc_batches
  gc_batches-IsTruncated laws config zero from to db size fueled enough hf ht p =
      absurd (omega arith)
  gc_batches-IsTruncated laws config (suc fuel) from to db size fueled enough hf ht p =
      elim (Bool-cases (ltb from to)) [
        | inr done ↦ (
          db,
          ground arith,
          IsTruncated-refl db from to (ground arith) p,
          λ lt. absurd (ground arith),
          λ le. refl,
        )
        | inl more ↦
            let mid = min (add_u64 from config.batch_size) to in
            let lt : from < to = ground arith in
            let fm : from < mid = omega arith in
            let (db1, h, t, first) =
              gc_batch-IsTruncated st laws db from mid (omega arith) (omega arith) p in
            let (db2, k, u, last, same) =
              gc_batches-IsTruncated laws config fuel mid to db1 size (omega arith) (omega arith)
                (omega arith) ht t.parsable in
            (
              db2,
              ground (arith, h, k),
              IsTruncated-trans db db1 db2 from mid to (omega arith) (omega arith) t u,
              λ lt. elim (Bool-cases (ltb mid to)) [
                | inl go ↦ last (ground arith)
                | inr stop ↦
                    let e : mid ≡ to = ground arith in rw (same (ground arith)) (first ∙ ap some e)
              ],
              λ le. absurd (omega arith),
            )
      ]

  -- A truncation up to `next` succeeds and ends, whatever the size of its batches, where every
  -- stored event can be parsed: every event below `next` is gone, from the old first number on, or
  -- from one if that was zero; every other event, the accounts and the other hard states are as
  -- they were; and the stored first number is `next`, if there was anything to do. A batch must
  -- hold an event, and the numbers stay below the largest `u64`; a round for each event, and one
  -- more, are enough.
  pub gc-IsTruncated :
      (laws : StorageLaws st) (config : EventLogGcConfig) (fuel first next : ℕ) (db : st.rocks.Db)
      → 0 < config.batch_size
      → 0 < fuel
      → next < first + fuel
      → first + config.batch_size + 1 < 2 ^ 64
      → next + config.batch_size < 2 ^ 64
      → IsParsable st db
      → (db' : st.rocks.Db) × (gc st fuel config first next db ≡ some db')
        × IsTruncated st db (max first 1) next db'
        × (max first 1 < next → read_hard_state_from_db st db' persisted_first_seq_num ≡ some next)
  unfolding gc
  gc-IsTruncated laws config fuel first next db size fueled enough hf hn p =
      let (db', h, t, r, _) =
        gc_batches-IsTruncated laws config fuel (max first 1) next db size fueled (omega arith)
          (omega arith) hn p in
      (db', h, t, r)
