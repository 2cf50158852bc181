-- ===== src/Mq/Engine.antt =====
-- dependencies/tiny-mq/src/rocks_engine.rs: the raft log in RocksDB. The engine of the raft log is a
-- database of the interface of `Storage`; so is the raft column family of the engine of the apply
-- state, the only one that the queue writes to. `none` is a panic.
pub mod Stored
pub mod Items
pub mod Fetch
use auticuro.Prelude.{
  ℕ, zero, suc, ◌+◌, ◌-◌, ◌<◌, ◌^◌, ◌≡◌, Bytes, Option, some, none, List, [], ◌∷◌, ◌++◌, Bool, true,
  false, ◌&&◌, ◌||◌, ltb, leb, ◌==◌, if◌then◌else◌, ◌>>?◌, assert, starts_with, not, bytes_lt,
}
use auticuro.Prelude.Lists.{length}
use auticuro.Prelude.Map.{is_empty}
use auticuro.Storage.{Storage, WriteBatch, put, delete}
use auticuro.Keys.{raft_state_key, raft_log_key, raft_log_prefix, raft_log_index}
use auticuro.Mq.{Entry, RaftLocalState, RaftProtobuf, inc_u64}

abbrev pub raft_log_multi_get_cnt : ℕ
raft_log_multi_get_cnt = 8

abbrev pub usize_max : ℕ
usize_max = 2 ^ 64 - 1

abbrev pub max_or_limit : Option ℕ → ℕ
max_or_limit none = usize_max
max_or_limit (some n) = n

-- `get_msg`: bytes that do not parse panic.
abbrev pub parsed : {A : Type 0} → (Bytes → Option A) → Option Bytes → Option (Option A)
parsed parse none = some none
parsed parse (some bytes) = parse bytes >>? λ a. some (some a)

module _ (st : Storage) (pb : RaftProtobuf) where
  unfoldable pub get_raft_state : st.rocks.Db → ℕ → Option (Option RaftLocalState)
  get_raft_state db region_id =
      parsed pb.parse_raft_state (st.rocks.get_opt db (raft_state_key st.be region_id))

  unfoldable pub get_entry : st.rocks.Db → ℕ → ℕ → Option (Option Entry)
  get_entry db region_id index =
      parsed pb.parse_entry (st.rocks.get_opt db (raft_log_key st.be region_id index))

  -- The entry in a value, which must have the index `i`.
  unfoldable pub entry_at : ℕ → Bytes → Option Entry
  entry_at i value = pb.parse_entry value >>? λ entry. assert (entry.index == i) >>? λ _. some entry

  -- The loop of point reads, with the rounds that are left; `buf` starts empty.
  unfoldable pub multi_get : st.rocks.Db → ℕ → ℕ → ℕ → ℕ → ℕ → Option (List Entry)
  multi_get db region_id max_size i zero total_size = some []
  multi_get db region_id max_size i (suc rounds) total_size =
      elim (ltb 0 total_size && leb max_size total_size) [
        | true ↦ some []
        | false ↦ elim (st.rocks.get_opt db (raft_log_key st.be region_id i)) [
          | none ↦ none
          | some v ↦ entry_at i v >>? λ entry.
              multi_get db region_id max_size (i + 1) rounds (total_size + length v) >>? λ rest.
              some (entry ∷ rest)
        ]
      ]

  -- The scan with its closure: the entries, and the total size. Both checks of the closure compare
  -- with `next_index`, which is `low` at first.
  unfoldable pub scan_entries : ℕ → ℕ → ℕ → List (Bytes × Bytes) → Option (List Entry × ℕ)
  scan_entries max_size next_index total_size [] = some ([], total_size)
  scan_entries max_size next_index total_size ((_, value) ∷ items) =
      let size = total_size + length value in
      let rest = scan_entries max_size (next_index + 1) size items in
      entry_at next_index value >>? λ entry.
      (if ltb size max_size then rest else some ([], size)) >>? λ r. some (entry ∷ r.0, r.1)

  -- What is fetched; the returned count is its length.
  unfoldable pub fetch_entries_to : st.rocks.Db → ℕ → ℕ → ℕ → Option ℕ → Option (List Entry)
  unfolding multi_get scan_entries
  fetch_entries_to db region_id low high max_size =
      if leb high low
      then some []
      else if leb (high - low) raft_log_multi_get_cnt
      then multi_get db region_id (max_or_limit max_size) low (high - low) 0
      else (scan_entries (max_or_limit max_size) low 0 (
            st.rocks.iterate db (raft_log_key st.be region_id low)
              (raft_log_key st.be region_id high))
          >>? λ r.
              some
                (if length r.0 == high - low || leb (max_or_limit max_size) r.1 then r.0 else []))

  unfoldable pub append_impl : ℕ → List Entry → WriteBatch → WriteBatch
  append_impl region_id [] wb = wb
  append_impl region_id (entry ∷ entries) wb =
      append_impl region_id entries
        (put (raft_log_key st.be region_id entry.index) (pb.entry_bytes entry) wb)

  -- Deletes `rounds` entries from the index `i` on.
  unfoldable pub delete_logs : ℕ → ℕ → ℕ → WriteBatch → WriteBatch
  delete_logs region_id i zero wb = wb
  delete_logs region_id i (suc rounds) wb =
      delete_logs region_id (i + 1) rounds (delete (raft_log_key st.be region_id i) wb)

  unfoldable pub cut_logs : ℕ → ℕ → ℕ → WriteBatch → WriteBatch
  unfolding delete_logs
  cut_logs region_id from to wb = delete_logs region_id from (to - from) wb

  unfoldable pub put_raft_state : ℕ → RaftLocalState → WriteBatch → WriteBatch
  put_raft_state region_id state wb =
      put (raft_state_key st.be region_id) (pb.raft_state_bytes state) wb
