-- ===== src/Storage.antt =====
-- firm-wallet-service/src/rocksdb_state.rs, over the engine of
-- dependencies/tiny-mq/src/rocks_engine.rs. RocksDB and the generated protobuf code are interfaces.
pub mod Batch
pub mod Scan
pub mod Sorted
pub mod Memory
use auticuro.Prelude.{
  ℕ, ◌≡◌, ◌<◌, true, ◌^◌, ◌==◌, Bytes, Str, Bool, Option, none, some, List, [], ◌∷◌, ◌++◌, ◌&&◌,
  not, bytes, bytes_lt, bytes_eq, if◌then◌else◌, ◌>>?◌, assert, Bytes_eq,
}
use auticuro.Prelude.Lists.{length}
use auticuro.Prelude.Map.{Map, get, insert, IsUnique}
use auticuro.Proto.{Account, Event}
use auticuro.Keys.{
  BigEndian, BigEndianLaws, data_min_key, data_max_key, dedup_key, event_key, origin_data_key,
}

-- One entry of a `WriteBatch`.
pub data WriteOp : Type 0 where
  put_op : Bytes → Bytes → WriteOp
  delete_op : Bytes → WriteOp

abbrev pub WriteBatch : Type 0
WriteBatch = List WriteOp

-- `RocksWriteBatch::put` and `delete` append an entry.
abbrev pub put : Bytes → Bytes → WriteBatch → WriteBatch
put key value wb = wb ++ put_op key value ∷ []

abbrev pub delete : Bytes → WriteBatch → WriteBatch
delete key wb = wb ++ delete_op key ∷ []

-- What a batch makes of the value under a key: the last entry for the key decides.
unfoldable pub after : WriteBatch → Bytes → Option Bytes → Option Bytes
after [] key old = old
after (put_op j value ∷ wb) key old = after wb key (if bytes_eq j key then some value else old)
after (delete_op j ∷ wb) key old = after wb key (if bytes_eq j key then none else old)

-- `rocksdb::DB`: point reads, an atomic write of a batch, and an iterator over a range of keys.
pub record RocksDb : Type 1 where
  pub Db : Type 0
  pub get_opt : Db → Bytes → Option Bytes
  pub write_opt : Db → WriteBatch → Db
  pub iterate : Db → Bytes → Bytes → List (Bytes × Bytes)

-- Every key of the entries is above `key`.
abbrev pub AllAbove : Bytes → List (Bytes × Bytes) → Type 0
AllAbove key [] = Unit
AllAbove key ((j, _) ∷ entries) = (bytes_lt key j ≡ true) × AllAbove key entries

-- The keys increase.
abbrev pub IsSorted : List (Bytes × Bytes) → Type 0
IsSorted [] = Unit
IsSorted ((key, _) ∷ entries) = AllAbove key entries × IsSorted entries

-- What its documentation says: a written batch is seen by every later read, whole, and an iterator
-- goes over the entries of the range, each key once.
pub record RocksDbLaws (rocks : RocksDb) : Type 0 where
  pub get-write :
      (db : rocks.Db) (wb : WriteBatch) (key : Bytes)
      → rocks.get_opt (rocks.write_opt db wb) key ≡ after wb key (rocks.get_opt db key)
  pub get-iterate :
      (db : rocks.Db) (lower upper key : Bytes)
      → get (rocks.iterate db lower upper) key
        ≡ (if not (bytes_lt key lower) && bytes_lt key upper then rocks.get_opt db key else none)
  pub iterate-IsUnique :
      (db : rocks.Db) (lower upper : Bytes) → IsUnique (rocks.iterate db lower upper)
  pub iterate-IsSorted :
      (db : rocks.Db) (lower upper : Bytes) → IsSorted (rocks.iterate db lower upper)

-- The generated code: a message is written to bytes, and parsing may fail.
pub record Protobuf : Type 0 where
  pub account_bytes : Account → Bytes
  pub parse_account : Bytes → Option Account
  pub event_bytes : Event → Bytes
  pub parse_event : Bytes → Option Event

pub record ProtobufLaws (pb : Protobuf) : Type 0 where
  pub parse-account_bytes : (a : Account) → pb.parse_account (pb.account_bytes a) ≡ some a
  pub parse-event_bytes : (e : Event) → pb.parse_event (pb.event_bytes e) ≡ some e

-- What the storage code is built on.
pub record Storage : Type 1 where
  pub rocks : RocksDb
  pub be : BigEndian
  pub pb : Protobuf

pub record StorageLaws (st : Storage) : Type 0 where
  pub rocks : RocksDbLaws st.rocks
  pub be : BigEndianLaws st.be
  pub pb : ProtobufLaws st.pb

pub record HardStateKind : Type 0 where
  pub default_value : ℕ
  pub key : Str

abbrev pub applied_index_kind : HardStateKind
applied_index_kind = record { default_value = 5; key = bytes "applied_index" }

abbrev pub persisted_last_seq_num : HardStateKind
persisted_last_seq_num = record { default_value = 0; key = bytes "last_seq_num" }

abbrev pub persisted_first_seq_num : HardStateKind
persisted_first_seq_num = record { default_value = 0; key = bytes "first_seq_num" }

module _ (st : Storage) where
  abbrev pub Db : Type 0
  Db = st.rocks.Db

  unfoldable pub read_hard_state_from_db : Db → HardStateKind → Option ℕ
  read_hard_state_from_db db kind = elim (st.rocks.get_opt db kind.key) [
    | some bytes ↦ st.be.read_u64 bytes
    | none ↦ some kind.default_value
  ]

  -- `SequenceNumber::from_bytes` asserts the length.
  unfoldable pub from_bytes : Bytes → Option ℕ
  from_bytes bytes = assert (length bytes == 8) >>? λ _. st.be.read_u64 bytes

  -- `RocksEngine::get_msg::<Event>`: bytes that do not parse panic.
  unfoldable pub read_event_from_db : Db → ℕ → Option (Option Event)
  read_event_from_db db seq_num = elim (st.rocks.get_opt db (event_key (st.be.write_u64 seq_num))) [
    | none ↦ some none
    | some value ↦ st.pb.parse_event value >>? λ event. some (some event)
  ]

  unfoldable pub read_seq_num_from_db : Db → Str → Option (Option ℕ)
  unfolding from_bytes
  read_seq_num_from_db db command_id = elim (st.rocks.get_opt db (dedup_key command_id)) [
    | none ↦ some none
    | some bytes ↦ from_bytes bytes >>? λ seq_num. some (some seq_num)
  ]

  -- One entry of the scan. The check of `String::from_utf8` is left out: the keys are written from
  -- strings.
  unfoldable pub recover_account : Map Str Account → Bytes × Bytes → Option (Map Str Account)
  recover_account accounts (key, value) = origin_data_key key >>? λ account_id.
      st.pb.parse_account value >>? λ account. some (insert account_id account accounts)

  unfoldable pub recover_accounts :
      Map Str Account → List (Bytes × Bytes) → Option (Map Str Account)
  unfolding recover_account
  recover_accounts accounts [] = some accounts
  recover_accounts accounts (e ∷ entries) = elim (recover_account accounts e) [
    | none ↦ none
    | some m ↦ recover_accounts m entries
  ]

  unfoldable pub read_accounts_from_db : Db → Option (Map Str Account)
  read_accounts_from_db db = recover_accounts [] (st.rocks.iterate db data_min_key data_max_key)
