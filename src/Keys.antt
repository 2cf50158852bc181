-- ===== src/Keys.antt =====
-- dependencies/tiny-mq/src/keys.rs: the key space of RocksDB. The `byteorder` crate is an
-- interface.
pub mod Separation
pub mod RaftLog
pub mod Digits
pub mod Order
use auticuro.Prelude.{
  ℕ, suc, ◌+◌, ◌<◌, ◌^◌, ◌≡◌, ◌↔◌, Bytes, Str, Bool, true, false, Option, none, some, [], ◌∷◌, ◌++◌,
  ◌&&◌, not, ◌||◌, ◌==◌, if◌then◌else◌, bytes, starts_with, bytes_lt, ltb, ◌>>?◌, assert,
}
use auticuro.Prelude.Lists.{length, drop, take, get_elem?}

-- `byteorder::BigEndian`: `read_u64` panics on a slice of fewer than eight bytes.
pub record BigEndian : Type 0 where
  pub write_u64 : ℕ → Bytes
  pub read_u64 : Bytes → Option ℕ

-- What its documentation says: eight bytes, read back from the front of a slice, in the order of
-- the numbers.
pub record BigEndianLaws (be : BigEndian) : Type 0 where
  pub length-write : (n : ℕ) → length (be.write_u64 n) ≡ 8
  pub read-write :
      (n : ℕ) (rest : Bytes) → n < 2 ^ 64 → be.read_u64 (be.write_u64 n ++ rest) ≡ some n
  pub write_order :
      (m n : ℕ) → m < 2 ^ 64 → n < 2 ^ 64 → bytes_lt (be.write_u64 m) (be.write_u64 n) ≡ ltb m n

abbrev pub data_prefix_key : Bytes
data_prefix_key = b'z' ∷ []

abbrev pub dedup_prefix_key : Bytes
dedup_prefix_key = b'y' ∷ []

abbrev pub event_prefix_key : Bytes
event_prefix_key = b'x' ∷ []

abbrev pub data_min_key : Bytes
data_min_key = b'z' ∷ []

abbrev pub data_max_key : Bytes
data_max_key = (b'z' + 1) ∷ []

abbrev pub region_raft_prefix_key : Bytes
region_raft_prefix_key = 0x01 ∷ 0x02 ∷ []

abbrev pub region_meta_prefix_key : Bytes
region_meta_prefix_key = 0x01 ∷ 0x03 ∷ []

abbrev pub raft_log_suffix : ℕ
raft_log_suffix = 0x01

abbrev pub raft_state_suffix : ℕ
raft_state_suffix = 0x02

abbrev pub apply_state_suffix : ℕ
apply_state_suffix = 0x03

abbrev pub region_state_suffix : ℕ
region_state_suffix = 0x01

abbrev pub validate_data_key : Bytes → Bool
validate_data_key key = starts_with data_prefix_key key

abbrev pub data_key : Bytes → Bytes
data_key key = data_prefix_key ++ key

-- `none` is the failed assertion.
unfoldable pub origin_data_key : Bytes → Option Bytes
origin_data_key key = assert (validate_data_key key) >>? λ _. some (drop 1 key)

abbrev pub validate_dedup_key : Bytes → Bool
validate_dedup_key key = starts_with dedup_prefix_key key

abbrev pub dedup_key : Bytes → Bytes
dedup_key key = dedup_prefix_key ++ key

unfoldable pub origin_dedup_key : Bytes → Option Bytes
origin_dedup_key key = assert (validate_dedup_key key) >>? λ _. some (drop 1 key)

abbrev pub validate_event_key : Bytes → Bool
validate_event_key key = starts_with event_prefix_key key

abbrev pub event_key : Bytes → Bytes
event_key key = event_prefix_key ++ key

abbrev byte_is : Option ℕ → ℕ → Bool
byte_is none b = false
byte_is (some c) b = c == b

module _ (be : BigEndian) where
  -- The arrays of 11 and 19 bytes, filled from the left.
  unfoldable pub make_region_prefix : ℕ → ℕ → Bytes
  make_region_prefix region_id suffix =
      region_raft_prefix_key ++ (be.write_u64 region_id ++ suffix ∷ [])

  unfoldable pub make_region_key : ℕ → ℕ → ℕ → Bytes
  make_region_key region_id suffix sub_id =
      region_raft_prefix_key ++ (be.write_u64 region_id ++ (suffix ∷ be.write_u64 sub_id))

  unfoldable pub raft_log_key : ℕ → ℕ → Bytes
  unfolding make_region_key
  raft_log_key region_id log_index = make_region_key region_id raft_log_suffix log_index

  unfoldable pub raft_state_key : ℕ → Bytes
  unfolding make_region_prefix
  raft_state_key region_id = make_region_prefix region_id raft_state_suffix

  unfoldable pub apply_state_key : ℕ → Bytes
  unfolding make_region_prefix
  apply_state_key region_id = make_region_prefix region_id apply_state_suffix

  unfoldable pub raft_log_prefix : ℕ → Bytes
  unfolding make_region_prefix
  raft_log_prefix region_id = make_region_prefix region_id raft_log_suffix

  unfoldable pub make_region_meta_key : ℕ → ℕ → Bytes
  make_region_meta_key region_id suffix =
      region_meta_prefix_key ++ (be.write_u64 region_id ++ suffix ∷ [])

  unfoldable pub region_state_key : ℕ → Bytes
  unfolding make_region_meta_key
  region_state_key region_id = make_region_meta_key region_id region_state_suffix

  -- `none` is the panic on a key of another length.
  unfoldable pub raft_log_index : Bytes → Option ℕ
  raft_log_index key = assert (length key == 19) >>? λ _. be.read_u64 (drop 11 key)

  -- `none` is the panic on an invalid key.
  unfoldable pub decode_raft_log_key : Bytes → Option (ℕ × ℕ)
  decode_raft_log_key key =
      assert (
        length key == 19
        && starts_with region_raft_prefix_key key
        && byte_is (get_elem? key 10) raft_log_suffix)
      >>? λ _. be.read_u64 (take 8 (drop 2 key)) >>? λ region_id.
          be.read_u64 (drop 11 key) >>? λ index. some (region_id, index)
