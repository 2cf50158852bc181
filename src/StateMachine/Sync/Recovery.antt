-- ===== src/StateMachine/Sync/Recovery.antt =====
-- Recovery: what `recover_from_db` reads back after a flush at the end of an entry.
use auticuro.Prelude.{
  ℕ, ◌<◌, ◌^◌, ◌≡◌, ◌↔◌, Bool, false_ne_true, refl, Str, Bytes, Option, some, none, [], arith, sym,
  ap, ◌∙◌, true, false, bytes_eq, starts_with, Bytes_eq, if◌then◌else◌, Bool-cases, inl, inr,
  Option-cases, none_ne_some,
}
use auticuro.Prelude.Lists.{drop}
use auticuro.Prelude.Map.{Map, get}
use auticuro.Proto.{Account}
use auticuro.Decimal.{BigDecimal}
use auticuro.Keys.{data_key, data_min_key, data_max_key, validate_data_key}
use auticuro.Keys.RaftLog.{read_whole}
use auticuro.Keys.Separation.{data_range_iff}
use auticuro.Storage.{
  Storage, StorageLaws, put, after, applied_index_kind, persisted_last_seq_num,
  read_accounts_from_db, read_hard_state_from_db,
}
use auticuro.Storage.Batch.{after-put}
use auticuro.Storage.Scan.{IsReadable, recover_accounts-IsScanned, data_key-drop, scanned}
use auticuro.StateMachine.{World, recover_from_db, new_context}
use auticuro.StateMachine.Commit.Alive.{IsKeyed}
use auticuro.StateMachine.Commands.{finish_entry}
use auticuro.StateMachine.Flush.{flushed}
use auticuro.StateMachine.Sync.Invariant.{Synced, overlay}
use auticuro.StateMachine.Sync.Steps.{Step-Synced, flush, entry}

module _ (bd : BigDecimal) (st : Storage) where
  -- The database holds the accounts of memory, under their keys.
  Stored : st.rocks.Db → Map Str Account → Type 0
  Stored db m =
      (id : Str) → st.rocks.get_opt db (data_key id) ≡ overlay (get m id) st.pb.account_bytes none

  Scan : st.rocks.Db → Map Bytes Bytes
  Scan db = st.rocks.iterate db data_min_key data_max_key

  same_test :
      {A : Type 0} (b c : Bool)
      → (b ≡ true) ↔ (c ≡ true)
      → (x : Option A) → (if b then x else none) ≡ (if c then x else none)
  same_test true true h x = refl
  same_test true false h x = absurd (false_ne_true (h.0 refl))
  same_test false true h x = absurd (false_ne_true (h.1 refl))
  same_test false false h x = refl

  get-Scan :
      (laws : StorageLaws st) (db : st.rocks.Db) (key : Bytes)
      → get (Scan db) key ≡ (if validate_data_key key then st.rocks.get_opt db key else none)
  unfolding Scan
  get-Scan laws db key =
      laws.rocks.get-iterate db data_min_key data_max_key key ∙ same_test _ _ (data_range_iff key) _

  stored_value :
      (m : Map Str Account) (id : Str) (value : Bytes)
      → overlay (get m id) st.pb.account_bytes none ≡ some value
      → (a : Account) × (get m id ≡ some a) × (st.pb.account_bytes a ≡ value)
  stored_value m id value h = elim (Option-cases (get m id)) [
    | inl f ↦ ground arith
    | inr (a, f) ↦ (a, f, ground arith)
  ]

  Scan-IsReadable :
      (laws : StorageLaws st) (db : st.rocks.Db) (m : Map Str Account)
      → Stored db m
      → IsReadable st (Scan db)
  unfolding Stored
  Scan-IsReadable laws db m s key value h = elim (Bool-cases (validate_data_key key)) [
    | inr out ↦ ground (arith, get-Scan laws db key)
    | inl inside ↦
        let e = data_key-drop key inside in
        let found : st.rocks.get_opt db key ≡ some value = ground (arith, get-Scan laws db key) in
        let (a, f, v) =
          stored_value m (drop 1 key) value
            (sym (s (drop 1 key)) ∙ ap (st.rocks.get_opt db) (sym e) ∙ found) in
        (drop 1 key, a, e, ap st.pb.parse_account (sym v) ∙ laws.pb.parse-account_bytes a)
  ]

  scanned-Stored :
      (laws : StorageLaws st) (db : st.rocks.Db) (m : Map Str Account) (id : Str)
      → Stored db m
      → scanned st (get (Scan db) (data_key id)) none ≡ get m id
  unfolding Stored starts_with
  scanned-Stored laws db m id s =
      rw (get-Scan laws db (data_key id)) (rw (s id) (parsed (get m id)))
    where
      parsed : (r : Option Account) → scanned st (overlay r st.pb.account_bytes none) none ≡ r
      parsed none = refl
      parsed (some a) = laws.pb.parse-account_bytes a

  -- The accounts of memory are read back.
  read_accounts-Stored :
      (laws : StorageLaws st) (db : st.rocks.Db) (m : Map Str Account)
      → Stored db m
      → (m' : Map Str Account) × (read_accounts_from_db st db ≡ some m')
        × ((id : Str) → get m' id ≡ get m id)
  unfolding read_accounts_from_db Scan get
  read_accounts-Stored laws db m s =
      let (m', h, f) =
        recover_accounts-IsScanned st (Scan db) []
          (laws.rocks.iterate-IsUnique db data_min_key data_max_key)
          (Scan-IsReadable laws db m s) in
      (m', h, λ id. f id ∙ scanned-Stored laws db m id s)

  -- What a restart reads at the end of an entry.
  abbrev pub persisted : World bd st → ℕ → ℕ → World bd st
  persisted w log_index now = flushed bd st (finish_entry bd st w log_index) now

  read_applied_index :
      (laws : StorageLaws st) (w : World bd st) (log_index now : ℕ)
      → log_index < 2 ^ 64
      → read_hard_state_from_db st
          (persisted w log_index now).machine.rocksdb_state
          applied_index_kind
        ≡ some log_index
  unfolding read_hard_state_from_db flushed finish_entry bytes_eq
  read_applied_index laws w li now small =
      let wb1 = put applied_index_kind.key (st.be.write_u64 li) w.context.wb in
      let read =
        laws.rocks.get-write w.machine.rocksdb_state (finish_entry bd st w li).context.wb
          applied_index_kind.key
        ∙ after-put wb1 persisted_last_seq_num.key (st.be.write_u64 w.machine.last_seq_num)
            applied_index_kind.key _
        ∙ after-put w.context.wb applied_index_kind.key (st.be.write_u64 li) applied_index_kind.key
            _ in
      ground (arith, read, read_whole st.be laws.be li small)

  read_last_seq_num :
      (laws : StorageLaws st) (w : World bd st) (log_index now : ℕ)
      → w.machine.last_seq_num < 2 ^ 64
      → read_hard_state_from_db st
          (persisted w log_index now).machine.rocksdb_state
          persisted_last_seq_num
        ≡ some w.machine.last_seq_num
  unfolding read_hard_state_from_db flushed finish_entry bytes_eq
  read_last_seq_num laws w li now small =
      let read =
        laws.rocks.get-write w.machine.rocksdb_state (finish_entry bd st w li).context.wb
          persisted_last_seq_num.key
        ∙ after-put (put applied_index_kind.key (st.be.write_u64 li) w.context.wb)
            persisted_last_seq_num.key (st.be.write_u64 w.machine.last_seq_num)
            persisted_last_seq_num.key _ in
      ground (arith, read, read_whole st.be laws.be w.machine.last_seq_num small)

  -- What a restart makes of a database.
  abbrev pub recovered : st.rocks.Db → Map Str Account → ℕ → ℕ → ℕ → ℕ → World bd st
  recovered db m applied_index last_seq_num batch_size now = record {
    machine = record {
      accounts = m;
      applied_index = applied_index;
      last_seq_num = last_seq_num;
      seq_num_cache = [];
      event_cache = [];
      rocksdb_state = db;
    };
    context = new_context batch_size applied_index now;
  }

  recover_parts :
      (db : st.rocks.Db) (batch_size now applied last : ℕ) (m : Map Str Account)
      → read_accounts_from_db st db ≡ some m
      → read_hard_state_from_db st db applied_index_kind ≡ some applied
      → read_hard_state_from_db st db persisted_last_seq_num ≡ some last
      → recover_from_db bd st db batch_size now ≡ some (recovered db m applied last batch_size now)
  unfolding recover_from_db
  recover_parts db batch now applied last m a b c = rw (a, b, c) refl

  Stored-Synced :
      (w : World bd st)
      → w.context.wb ≡ []
      → w.context.to_be_deleted_account_ids ≡ []
      → Synced bd st w
      → Stored w.machine.rocksdb_state w.machine.accounts
  unfolding Stored after
  Stored-Synced w wb gone s id = rw (gone, wb) at (s.accounts id)

  Synced-recovered :
      (db : st.rocks.Db) (batch_size now applied last : ℕ) (m m' : Map Str Account)
      → IsKeyed m
      → Stored db m
      → ((id : Str) → get m' id ≡ get m id)
      → Synced bd st (recovered db m' applied last batch_size now)
  unfolding Stored after get
  Synced-recovered db batch now applied last m m' keyed s same = record {
    keyed = λ id a f. keyed id a (sym (same id) ∙ f);
    seq_nums = λ id old. refl;
    events = λ n old small. refl;
    accounts = λ id. rw (same id) (s id);
    tombstones = λ id h. absurd (false_ne_true h);
  }

  -- The end of an entry, a flush, a restart, from a state in which the invariant `Synced` holds.
  -- The restart succeeds, and gives the applied index of that entry, the sequence number that was
  -- reached, under each id the account that memory holds after the flush, and a state in which the
  -- invariant holds again. The index and the sequence number are `u64`.
  pub recover_from_db-flushed :
      (laws : StorageLaws st) (w : World bd st) (log_index now batch_size restart : ℕ)
      → Synced bd st w
      → log_index < 2 ^ 64
      → w.machine.last_seq_num < 2 ^ 64
      → (m : Map Str Account) × (recover_from_db bd st
            (persisted w log_index now).machine.rocksdb_state
            batch_size
            restart
          ≡ some (
              recovered
                (persisted w log_index now).machine.rocksdb_state
                m
                log_index
                w.machine.last_seq_num
                batch_size
                restart))
        × ((id : Str) → get m id ≡ get (persisted w log_index now).machine.accounts id)
        × Synced bd st (
            recovered
              (persisted w log_index now).machine.rocksdb_state
              m
              log_index
              w.machine.last_seq_num
              batch_size
              restart)
  recover_from_db-flushed laws w li now batch restart s hl hs =
      let after_flush = persisted w li now in
      let s1 : Synced bd st after_flush =
        Step-Synced bd st laws _ _ (flush now) (Step-Synced bd st laws _ _ (entry li) s) in
      let stored : Stored after_flush.machine.rocksdb_state after_flush.machine.accounts =
        unfold flushed in Stored-Synced _ refl refl s1 in
      let (m, h, same) = read_accounts-Stored laws _ _ stored in
      (
        m,
        recover_parts _ batch restart li w.machine.last_seq_num m h
            (read_applied_index laws w li now hl) (read_last_seq_num laws w li now hs),
        same,
        Synced-recovered _ batch restart li w.machine.last_seq_num after_flush.machine.accounts m
            s1.keyed stored same,
      )

  -- The invariant holds at the first start, over a database that holds no account.
  pub Synced-empty :
      (db : st.rocks.Db) (batch_size now applied last : ℕ)
      → ((id : Str) → st.rocks.get_opt db (data_key id) ≡ none)
      → Synced bd st (recovered db [] applied last batch_size now)
  unfolding Stored get
  Synced-empty db batch now applied last h =
      Synced-recovered db batch now applied last [] [] (λ id a f. absurd (none_ne_some f)) h
        (λ id. refl)
