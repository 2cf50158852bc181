-- ===== src/StateMachine/Sync/Invariant.antt =====
-- The invariant that ties memory to the batch and the database, and the writes that keep it.
use auticuro.Prelude.{
  ℕ, ◌≡◌, refl, Bytes, Str, Bool, true, false, ◌||◌, Option, none, some, List, [], ◌∷◌, ◌++◌,
  bytes_eq, bytes_eq_iff, Bytes_eq, ℕ_eq, arith, ◌<◌, ◌^◌, ◌==◌, if◌then◌else◌, Bool-cases, inl,
  inr, ◌∙◌,
}
use auticuro.Prelude.Map.{Map, get, insert, get-insert}
use auticuro.Proto.{Account, Event, deleted}
use auticuro.Decimal.{BigDecimal}
use auticuro.Keys.{data_key, dedup_key, event_key}
use auticuro.Storage.{Storage, StorageLaws, put, after}
use auticuro.Storage.Batch.{after-put, after-delete}
use auticuro.StateMachine.{World, update_account, delete_account}
use auticuro.StateMachine.Handlers.{next_seq_num}
use auticuro.StateMachine.Commands.{update_seq_num_and_event}
use auticuro.StateMachine.Commit.Alive.{IsKeyed}
use auticuro.StateMachine.Sync.Keys.{
  data-data, dedup-dedup, event-event, data-dedup, data-event, dedup-data, dedup-event, event-data,
  event-dedup,
}

abbrev pub listed : Str → List Str → Bool
listed id [] = false
listed id (j ∷ ids) = bytes_eq j id || listed id ids

listed-append :
    (id : Str) (ids : List Str) (j : Str)
    → listed id (ids ++ j ∷ []) ≡ (bytes_eq j id || listed id ids)
listed-append id [] j = refl
listed-append id (k ∷ ids) j = ground (arith, listed-append id ids j)

-- What memory holds, if it holds something, and what was there before if not.
abbrev pub overlay : {A : Type 0} → Option A → (A → Bytes) → Option Bytes → Option Bytes
overlay none f old = old
overlay (some a) f old = some (f a)

module _ (bd : BigDecimal) (st : Storage) where
  -- The batch holds exactly the cached sequence numbers and events; the batch over the database
  -- holds exactly the accounts that are not waiting for their removal; and what waits for its
  -- removal is marked as deleted.
  pub record Synced (w : World bd st) : Type 0 where
    pub keyed : IsKeyed w.machine.accounts
    pub seq_nums :
        (id : Str) (old : Option Bytes)
        → after w.context.wb (dedup_key id) old
          ≡ overlay (get w.machine.seq_num_cache id) st.be.write_u64 old
    pub events :
        (n : ℕ) (old : Option Bytes)
        → n < 2 ^ 64
        → after w.context.wb (event_key (st.be.write_u64 n)) old
          ≡ overlay (get w.machine.event_cache n) st.pb.event_bytes old
    pub accounts :
        (id : Str)
        → after w.context.wb (data_key id) (st.rocks.get_opt w.machine.rocksdb_state (data_key id))
          ≡ (if listed id w.context.to_be_deleted_account_ids
              then none
              else overlay (get w.machine.accounts id) st.pb.account_bytes none)
    pub tombstones :
        (id : Str)
        → listed id w.context.to_be_deleted_account_ids ≡ true
        → (a : Account) × (get w.machine.accounts id ≡ some a) × (a.state ≡ deleted)

  pub Synced-next_seq_num : (w : World bd st) → Synced w → Synced (next_seq_num bd st w)
  Synced-next_seq_num w s = record {
    keyed = s.keyed;
    seq_nums = s.seq_nums;
    events = s.events;
    accounts = s.accounts;
    tombstones = s.tombstones;
  }

  IsKeyed-insert :
      (m : Map Str Account) (a : Account) → IsKeyed m → IsKeyed (insert a.account_id a m)
  IsKeyed-insert m a k id b h = elim (Bool-cases (bytes_eq a.account_id id)) [
    | inl same ↦ ground (arith, get-insert a.account_id id a m, bytes_eq_iff a.account_id id)
    | inr differs ↦ k id b (ground (arith, get-insert a.account_id id a m))
  ]

  pub Synced-update_account :
      (w : World bd st) (a : Account)
      → listed a.account_id w.context.to_be_deleted_account_ids ≡ false
      → Synced w
      → Synced (update_account bd st w a)
  unfolding update_account
  Synced-update_account w a free s = record {
    keyed = IsKeyed-insert w.machine.accounts a s.keyed;
    seq_nums = λ id old.
        after-put w.context.wb (data_key a.account_id) (st.pb.account_bytes a) (dedup_key id) old
        ∙ rw (data-dedup a.account_id id) (s.seq_nums id old);
    events = λ n old h.
        after-put w.context.wb (data_key a.account_id) (st.pb.account_bytes a)
          (event_key (st.be.write_u64 n)) old
        ∙ rw (data-event a.account_id (st.be.write_u64 n)) (s.events n old h);
    accounts = λ id.
        after-put w.context.wb (data_key a.account_id) (st.pb.account_bytes a) (data_key id) _
        ∙ rw (data-data a.account_id id) (
            ground (
              arith,
              s.accounts id,
              get-insert a.account_id id a w.machine.accounts,
              bytes_eq_iff a.account_id id,
            ));
    tombstones = λ id h.
        let (b, f, d) = s.tombstones id h in
        (
          b,
          ground (
            arith,
            get-insert a.account_id id a w.machine.accounts,
            bytes_eq_iff a.account_id id,
            f,
          ),
          d,
        );
  }

  deleted_tombstone :
      (w : World bd st) (a : Account) (id : Str)
      → a.state ≡ deleted
      → Synced w
      → listed id (w.context.to_be_deleted_account_ids ++ a.account_id ∷ []) ≡ true
      → (b : Account) × (get (insert a.account_id a w.machine.accounts) id ≡ some b)
        × (b.state ≡ deleted)
  deleted_tombstone w a id gone s h = elim (Bool-cases (bytes_eq a.account_id id)) [
    | inl same ↦ (a, rw (get-insert a.account_id id a w.machine.accounts) (rw same refl), gone)
    | inr differs ↦
        let (b, f, d) =
          s.tombstones id
            (ground (arith, listed-append id w.context.to_be_deleted_account_ids a.account_id)) in
        (b, rw (get-insert a.account_id id a w.machine.accounts) (rw differs f), d)
  ]

  pub Synced-delete_account :
      (w : World bd st) (a : Account)
      → a.state ≡ deleted
      → Synced w
      → Synced (delete_account bd st w a)
  unfolding delete_account
  Synced-delete_account w a gone s = record {
    keyed = IsKeyed-insert w.machine.accounts a s.keyed;
    seq_nums = λ id old.
        after-delete w.context.wb (data_key a.account_id) (dedup_key id) old
        ∙ rw (data-dedup a.account_id id) (s.seq_nums id old);
    events = λ n old h.
        after-delete w.context.wb (data_key a.account_id) (event_key (st.be.write_u64 n)) old
        ∙ rw (data-event a.account_id (st.be.write_u64 n)) (s.events n old h);
    accounts = λ id.
        after-delete w.context.wb (data_key a.account_id) (data_key id) _
        ∙ rw (data-data a.account_id id) (
            ground (
              arith,
              s.accounts id,
              get-insert a.account_id id a w.machine.accounts,
              listed-append id w.context.to_be_deleted_account_ids a.account_id,
            ));
    tombstones = λ id h. deleted_tombstone w a id gone s h;
  }

  stored :
      (w : World bd st) (ev : Event) (n : ℕ) (old : Option Bytes) (id : Str) (bytes : Bytes)
      → after w.context.wb (event_key (st.be.write_u64 n)) old
        ≡ overlay (get w.machine.event_cache n) st.pb.event_bytes old
      → (if w.machine.last_seq_num == n
          then some (st.pb.event_bytes ev)
          else after (put (dedup_key id) bytes w.context.wb) (event_key (st.be.write_u64 n)) old)
        ≡ overlay
            (get (insert w.machine.last_seq_num ev w.machine.event_cache) n)
            st.pb.event_bytes
            old
  stored w ev n old id bytes h = ground (
    arith,
    h,
    after-put w.context.wb (dedup_key id) bytes (event_key (st.be.write_u64 n)) old,
    dedup-event id (st.be.write_u64 n),
    get-insert w.machine.last_seq_num n ev w.machine.event_cache,
  )

  -- Storing an event under the current sequence number.
  pub Synced-update_seq_num_and_event :
      (laws : StorageLaws st) (w : World bd st) (id : Str) (ev : Event)
      → w.machine.last_seq_num < 2 ^ 64
      → Synced w
      → Synced (update_seq_num_and_event bd st w id ev)
  unfolding update_seq_num_and_event
  Synced-update_seq_num_and_event laws w id ev small s =
      let seq = w.machine.last_seq_num in
      let bytes = st.be.write_u64 seq in
      let wb1 = put (dedup_key id) bytes w.context.wb in
      record {
        keyed = s.keyed;
        seq_nums = λ j old.
            after-put wb1 (event_key bytes) (st.pb.event_bytes ev) (dedup_key j) old
            ∙ rw (event-dedup bytes j) (
                after-put w.context.wb (dedup_key id) bytes (dedup_key j) old
                ∙ rw (dedup-dedup id j) (
                    ground (arith, s.seq_nums j old, get-insert id j seq w.machine.seq_num_cache)));
        events = λ n old h.
            after-put wb1 (event_key bytes) (st.pb.event_bytes ev) (event_key (st.be.write_u64 n))
              old
            ∙ rw (event-event st.be laws.be seq n small h)
                (stored w ev n old id bytes (s.events n old h));
        accounts = λ j.
            after-put wb1 (event_key bytes) (st.pb.event_bytes ev) (data_key j) _
            ∙ rw (event-data bytes j) (
                after-put w.context.wb (dedup_key id) bytes (data_key j) _
                ∙ rw (dedup-data id j) (s.accounts j));
        tombstones = s.tombstones;
      }
