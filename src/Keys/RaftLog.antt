-- ===== src/Keys/RaftLog.antt =====
-- The raft log keys: decoding what was encoded, refusing the other keys, and the order of the keys.

use auticuro.Prelude.{
  ℕ, ◌≡◌, ◌≢◌, refl, Bytes, true, none, some, ap, sym, ◌∙◌, arith, ◌++◌, [], ◌∷◌, starts_with, ◌<◌,
  ◌^◌, ◌==◌, ◌&&◌, ◌||◌, ltb, bytes_lt, bytes_eq, bytes_eq_iff,
}
use auticuro.Prelude.Lists.{
  length, drop, take, get_elem?, take-append, drop_past, get_elem?-append, length-append,
}
use mathlib.Core.List.{append-nil, append_assoc}
use auticuro.Keys.{
  BigEndian, BigEndianLaws, raft_log_key, raft_state_key, apply_state_key, region_state_key,
  raft_log_index, decode_raft_log_key,
}
use auticuro.Keys.Order.{bytes_lt-append}

module _ (be : BigEndian) (laws : BigEndianLaws be) where
  pub read_whole : (n : ℕ) → n < 2 ^ 64 → be.read_u64 (be.write_u64 n) ≡ some n
  read_whole n h = ap be.read_u64 (sym (append-nil (be.write_u64 n))) ∙ laws.read-write n [] h

  length-raft_log_key : (r i : ℕ) → length (raft_log_key be r i) ≡ 19
  unfolding raft_log_key
  length-raft_log_key r i = omega (
    arith,
    length-append (be.write_u64 r) (1 ∷ be.write_u64 i),
    laws.length-write r,
    laws.length-write i,
  )

  drop-raft_log_key : (r i : ℕ) → drop 11 (raft_log_key be r i) ≡ be.write_u64 i
  unfolding raft_log_key
  drop-raft_log_key r i = drop_past 8 (be.write_u64 r) 1 (be.write_u64 i) (laws.length-write r)

  -- The index is read back from a raft log key.
  pub raft_log_index-raft_log_key :
      (region_id log_index : ℕ)
      → log_index < 2 ^ 64
      → raft_log_index be (raft_log_key be region_id log_index) ≡ some log_index
  unfolding raft_log_index
  raft_log_index-raft_log_key r i h =
      rw (length-raft_log_key r i) (rw (drop-raft_log_key r i) (read_whole i h))

  -- A raft log key is decoded into the region and the index that it was made from, where both are
  -- `u64`.
  pub decode_raft_log_key-raft_log_key :
      (region_id log_index : ℕ)
      → region_id < 2 ^ 64
      → log_index < 2 ^ 64
      → decode_raft_log_key be (raft_log_key be region_id log_index) ≡ some (region_id, log_index)
  unfolding decode_raft_log_key starts_with
  decode_raft_log_key-raft_log_key r i hr hi =
      let suffix : get_elem? (raft_log_key be r i) 10 ≡ some 1 =
        (unfold raft_log_key in
          get_elem?-append 8 (be.write_u64 r) 1 (be.write_u64 i) (laws.length-write r)) in
      let region : take 8 (drop 2 (raft_log_key be r i)) ≡ be.write_u64 r =
        (unfold raft_log_key in take-append 8 (be.write_u64 r) _ (laws.length-write r)) in
      let prefix : starts_with (1 ∷ 2 ∷ []) (raft_log_key be r i) ≡ true =
        (unfold raft_log_key in refl) in
      rw (length-raft_log_key r i) (
        rw (prefix, suffix, region)
          (rw (drop-raft_log_key r i) (ground (arith, read_whole r hr, read_whole i hi))))

  wrong_suffix :
      (key : Bytes) (c : ℕ) → get_elem? key 10 ≡ some c → c ≢ 1 → decode_raft_log_key be key ≡ none
  unfolding decode_raft_log_key
  wrong_suffix key c h ne = rw h (ground arith)

  suffix_at :
      (r c : ℕ) (rest : Bytes) → get_elem? ((1 ∷ 2 ∷ be.write_u64 r ++ c ∷ []) ++ rest) 10 ≡ some c
  suffix_at r c rest =
      rw (append_assoc (be.write_u64 r) (c ∷ []) rest)
        (get_elem?-append 8 (be.write_u64 r) c rest (laws.length-write r))

  -- The keys of the other kinds are refused, whatever is appended to them: the two state keys by
  -- their suffix, the region's by its prefix.
  pub decode_raft_log_key_refuses :
      (region_id : ℕ) (rest : Bytes)
      → (decode_raft_log_key be (raft_state_key be region_id ++ rest) ≡ none)
        × (decode_raft_log_key be (apply_state_key be region_id ++ rest) ≡ none)
        × (decode_raft_log_key be (region_state_key be region_id ++ rest) ≡ none)
  unfolding raft_state_key apply_state_key
  decode_raft_log_key_refuses r rest = (
    wrong_suffix _ 2 (suffix_at r 2 rest) (omega arith),
    wrong_suffix _ 3 (suffix_at r 3 rest) (omega arith),
    (unfold decode_raft_log_key region_state_key starts_with in ground arith),
  )

  pub bytes_eq-write :
      (m n : ℕ) → m < 2 ^ 64 → n < 2 ^ 64 → bytes_eq (be.write_u64 m) (be.write_u64 n) ≡ (m == n)
  bytes_eq-write m n hm hn =
      ground
        (arith, bytes_eq_iff (be.write_u64 m) (be.write_u64 n), read_whole m hm, read_whole n hn)

  -- The byte order of the raft log keys of `u64` numbers is the order of regions, and of indices
  -- within a region.
  pub raft_log_key_order :
      (r i r' i' : ℕ)
      → r < 2 ^ 64
      → i < 2 ^ 64
      → r' < 2 ^ 64
      → i' < 2 ^ 64
      → bytes_lt (raft_log_key be r i) (raft_log_key be r' i') ≡ (ltb r r' || (r == r' && ltb i i'))
  unfolding raft_log_key bytes_lt
  raft_log_key_order r i r' i' hr hi hr' hi' =
      let regions : length (be.write_u64 r) ≡ length (be.write_u64 r') =
        omega (arith, laws.length-write r, laws.length-write r') in
      rw (bytes_lt-append (be.write_u64 r) (be.write_u64 r') _ _ regions) (
        rw (laws.write_order r r' hr hr', bytes_eq-write r r' hr hr', laws.write_order i i' hi hi')
          refl)
