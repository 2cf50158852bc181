-- ===== src/StateMachine/Tombstones.antt =====
-- An account that is deleted and whose configuration is then updated, before the next flush.
use auticuro.Prelude.{
  ℕ, ◌≡◌, refl, Str, ok, some, none, true, arith, ◌∙◌, bytes_eq, bytes_eq_iff, Bytes_eq,
}
use auticuro.Prelude.Map.{get, insert}
use auticuro.Proto.{Account, Event, UpdateAccountConfigRequest, deleted}
use auticuro.Decimal.{BigDecimal}
use auticuro.Keys.{data_key}
use auticuro.Storage.{Storage, StorageLaws, put}
use auticuro.Storage.Batch.{after-put}
use auticuro.Account.{set_balance_limit}
use auticuro.Internal.{build_update_account_config_event}
use auticuro.StateMachine.{World, assert_account_exists, update_account}
use auticuro.StateMachine.Handlers.{handle_update_account_config, config_updates, next_seq_num}
use auticuro.StateMachine.Flush.{flushed}
use auticuro.StateMachine.Sync.Invariant.{Synced, listed}
use auticuro.StateMachine.Sync.Steps.{get-remove_accounts}

module _ (bd : BigDecimal) (st : Storage) where
  -- A stored account that is on the list of those to remove.
  stored_tombstone :
      (laws : StorageLaws st) (w : World bd st) (a : Account) (id : Str) (now : ℕ)
      → a.account_id ≡ id
      → listed id w.context.to_be_deleted_account_ids ≡ true
      → (get (flushed bd st (update_account bd st w a) now).machine.accounts id ≡ none)
        × (st.rocks.get_opt
              (flushed bd st (update_account bd st w a) now).machine.rocksdb_state
              (data_key id)
            ≡ some (st.pb.account_bytes a))
  unfolding update_account flushed bytes_eq
  stored_tombstone laws w a id now same gone = (
    get-remove_accounts w.context.to_be_deleted_account_ids
          (insert a.account_id a w.machine.accounts) id
        ∙ rw gone refl,
    laws.rocks.get-write w.machine.rocksdb_state
          (put (data_key a.account_id) (st.pb.account_bytes a) w.context.wb) (data_key id)
        ∙ after-put w.context.wb (data_key a.account_id) (st.pb.account_bytes a) (data_key id) _
        ∙ ground (arith, bytes_eq_iff a.account_id id),
  )

  config_found :
      (w : World bd st) (r : UpdateAccountConfigRequest) (a : Account)
      → get w.machine.accounts r.header.account_id ≡ some a
      → config_updates bd st w.machine r ≡ ok (set_balance_limit bd a r.balance_limit)
  unfolding config_updates assert_account_exists
  config_found w r a f = ground arith

  -- Where the invariant `Synced` holds, a change of the configuration of an account that was
  -- deleted since the last flush is accepted. After the flush the account is gone from memory, but
  -- the database holds it again, as a deleted one.
  pub handle_update_account_config-revives :
      (laws : StorageLaws st) (w : World bd st) (r : UpdateAccountConfigRequest)
      (log_index offset now : ℕ)
      → Synced bd st w
      → listed r.header.account_id w.context.to_be_deleted_account_ids ≡ true
      → (ev : Event) × (w' : World bd st) × (a : Account) × (handle_update_account_config bd st w r
            log_index offset
          ≡ (ok ev, w'))
        × (a.state ≡ deleted)
        × (get (flushed bd st w' now).machine.accounts r.header.account_id ≡ none)
        × (st.rocks.get_opt
              (flushed bd st w' now).machine.rocksdb_state
              (data_key r.header.account_id)
            ≡ some (st.pb.account_bytes a))
  unfolding handle_update_account_config set_balance_limit
  handle_update_account_config-revives laws w r li off now s gone =
      let id = r.header.account_id in
      let (a, f, d) = s.tombstones id gone in
      let b = set_balance_limit bd a r.balance_limit in
      let same : a.account_id ≡ id = s.keyed id a f in
      let w' = update_account bd st (next_seq_num bd st w) b in
      let (mem, db) = stored_tombstone laws (next_seq_num bd st w) b id now same gone in
      (
        build_update_account_config_event w'.machine.last_seq_num li off r b,
        w',
        b,
        rw (config_found w r a f) refl,
        d,
        mem,
        db,
      )
