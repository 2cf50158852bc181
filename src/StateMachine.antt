-- ===== src/StateMachine.antt =====
-- firm-wallet-service/src/state_machine.rs: the state of the wallet, the context of the apply loop,
-- the accesses that the handlers share, and recovery. The handlers are in `Handlers`, commands and
-- log entries in `Commands`, flushing and the loop in `Flush`.
pub mod Handlers
pub mod Commands
pub mod Flush
pub mod Commit
pub mod Sync
pub mod Transfer
pub mod Positions
pub mod Answering
pub mod Entries
pub mod Tombstones
use auticuro.Prelude.{
  ℕ, Str, [], ◌∷◌, ◌++◌, ◌+◌, ◌%◌, ◌^◌, List, Option, none, some, ok, err, ◌>>?◌, Bytes_eq, ℕ_eq,
}
use auticuro.Prelude.Map.{Map, get, insert}
use auticuro.Proto.{Account, Event}
use auticuro.Errors.{GeneralResult, account_management_error, AccountManagementError}
use auticuro.Decimal.{BigDecimal}
use auticuro.Keys.{data_key}
use auticuro.Storage.{
  Storage, WriteBatch, put, delete, read_seq_num_from_db, read_event_from_db,
  read_hard_state_from_db, read_accounts_from_db, applied_index_kind, persisted_last_seq_num,
}
use auticuro.Account.{new}

-- `n += 1` on a `u64`.
abbrev pub inc_u64 : ℕ → ℕ
inc_u64 n = (n + 1) % 2 ^ 64

-- message_broker.rs: where a command stands in the raft log.
pub record Position : Type 0 where
  pub log_index : ℕ
  pub offset : ℕ

-- `InflightEvent`; `P` is the decimal parser's error.
pub record InflightEvent (P : Type 0) : Type 0 where
  pub position : Position
  pub event : GeneralResult P Event

-- `struct StateMachine`; the calculator has no state.
pub record StateMachine (st : Storage) : Type 0 where
  pub accounts : Map Str Account
  pub applied_index : ℕ
  pub last_seq_num : ℕ
  pub seq_num_cache : Map Str ℕ
  pub event_cache : Map ℕ Event
  pub rocksdb_state : st.rocks.Db

-- `struct ApplyContext`; the channel holds what was sent, the oldest first.
pub record ApplyContext (P : Type 0) : Type 0 where
  pub batch_size : ℕ
  pub wb : WriteBatch
  pub to_be_deleted_account_ids : List Str
  pub flushed_applied_index : ℕ
  pub flushed_timestamp : ℕ
  pub inflight_event_tx : List (InflightEvent P)

-- `ApplyContext::new`; the configured batch size and the time are arguments.
abbrev pub new_context : {P : Type 0} → ℕ → ℕ → ℕ → ApplyContext P
new_context batch_size applied_index now = record {
  batch_size = batch_size;
  wb = [];
  to_be_deleted_account_ids = [];
  flushed_applied_index = applied_index;
  flushed_timestamp = now;
  inflight_event_tx = [];
}

-- `ApplyContext::send_event`
abbrev pub send_event :
    {P : Type 0} → ApplyContext P → Position → GeneralResult P Event → ApplyContext P
send_event context position event = record context {
  inflight_event_tx =
      context.inflight_event_tx ++ record { position = position; event = event } ∷ [];
}

module _ (bd : BigDecimal) (st : Storage) where
  abbrev pub Context : Type 0
  Context = ApplyContext bd.ParseBigDecimalError

  -- What a handler may change.
  pub record World : Type 0 where
    pub machine : StateMachine st
    pub context : Context

  unfoldable pub get_event : StateMachine st → ℕ → Option (Option Event)
  get_event self seq_num = elim (get self.event_cache seq_num) [
    | some event ↦ some (some event)
    | none ↦ read_event_from_db st self.rocksdb_state seq_num
  ]

  unfoldable pub get_seq_num : StateMachine st → Str → Option (Option ℕ)
  get_seq_num self command_id = elim (get self.seq_num_cache command_id) [
    | some seq_num ↦ some (some seq_num)
    | none ↦ read_seq_num_from_db st self.rocksdb_state command_id
  ]

  unfoldable pub get_or_create_account : StateMachine st → Str → Account
  get_or_create_account self account_id = elim (get self.accounts account_id) [
    | none ↦ new account_id
    | some account ↦ account
  ]

  unfoldable pub assert_account_exists :
      StateMachine st → Str → GeneralResult bd.ParseBigDecimalError Account
  assert_account_exists self account_id = elim (get self.accounts account_id) [
    | some account ↦ ok account
    | none ↦ err (account_management_error (AccountManagementError.account_not_exist account_id))
  ]

  -- The account goes into the batch and into memory.
  unfoldable pub update_account : World → Account → World
  update_account w account = record {
    machine = record w.machine { accounts = insert account.account_id account w.machine.accounts };
    context = record w.context {
      wb = put (data_key account.account_id) (st.pb.account_bytes account) w.context.wb;
    };
  }

  -- The key is deleted in the batch; memory keeps the account, marked as deleted, until the flush.
  unfoldable pub delete_account : World → Account → World
  delete_account w account = record {
    machine = record w.machine { accounts = insert account.account_id account w.machine.accounts };
    context = record w.context {
      wb = delete (data_key account.account_id) w.context.wb;
      to_be_deleted_account_ids = w.context.to_be_deleted_account_ids ++ account.account_id ∷ [];
    };
  }

  -- `StateMachine::recover_from_db`
  unfoldable pub recover_from_db : st.rocks.Db → ℕ → ℕ → Option World
  recover_from_db db batch_size now = read_accounts_from_db st db >>? λ accounts.
      read_hard_state_from_db st db applied_index_kind >>? λ applied_index.
      read_hard_state_from_db st db persisted_last_seq_num >>? λ last_seq_num. some (record {
        machine = record {
          accounts = accounts;
          applied_index = applied_index;
          last_seq_num = last_seq_num;
          seq_num_cache = [];
          event_cache = [];
          rocksdb_state = db;
        };
        context = new_context batch_size applied_index now;
      })
