-- ===== src/Mq/Engine/Fetch.antt =====
-- `fetch_entries_to`: point reads and the scan fetch the same entries.
use auticuro.Prelude.{
  ℕ, ◌+◌, ◌-◌, ◌<◌, ◌≤◌, ◌^◌, ◌≡◌, refl, sym, ◌∙◌, ap, Bytes, Option, some, none, List, [], ◌∷◌,
  Bool, true, false, if◌then◌else◌, arith, bytes_eq, bytes_eq_iff, bytes_lt, not, ◌&&◌, ltb, leb,
  Bytes_eq, ◌⊎◌, inl, inr, Bool-cases, Option-cases, none_ne_some, lt→ltb,
}
use auticuro.Prelude.Lists.{length}
use auticuro.Prelude.Map.{get}
use auticuro.Storage.{Storage, StorageLaws, AllAbove, IsSorted}
use auticuro.Storage.Sorted.{sorted_ext}
use auticuro.Keys.{raft_log_key, raft_state_key}
use auticuro.Keys.Order.{bytes_lt-append}
use auticuro.Keys.RaftLog.{raft_log_key_order}
use auticuro.Mq.{Entry, RaftProtobuf, RaftProtobufLaws}
use auticuro.Mq.Engine.{
  multi_get, scan_entries, fetch_entries_to, entry_at, max_or_limit, raft_log_multi_get_cnt,
}
use auticuro.Mq.Engine.Stored.{AreFrom, entry_of, bytes_of, raft_log_key-eq, entry_of_in}
use auticuro.Mq.Engine.Items.{
  ==_refl, stop_rule, all_or_full, both_none, between, enough, size, limited, items, Has,
  OnlyRaftKeys, head_entry, later_entry, choose, no_entries,
}

module _ (st : Storage) (pb : RaftProtobuf) where
  module _ (laws : StorageLaws st) (pb_laws : RaftProtobufLaws pb) where
    entry_at-entry_bytes :
        (e : Entry) (i : ℕ) → e.index ≡ i → entry_at st pb i (pb.entry_bytes e) ≡ some e
    unfolding entry_at
    entry_at-entry_bytes e i h = rw (pb_laws.parse-entry_bytes e) (rw (==_refl e.index i h) refl)

    pub multi_get-limited :
        (db : st.rocks.Db) (r max_size i total : ℕ) (es : List Entry)
        → 0 < i
        → AreFrom i es
        → ((j : ℕ)
            → i ≤ j
            → j < i + length es
            → st.rocks.get_opt db (raft_log_key st.be r j) ≡ bytes_of st pb (entry_of i es j))
        → multi_get st pb db r max_size i (length es) total
          ≡ some (if ltb 0 total && leb max_size total then [] else limited st pb max_size total es)
    unfolding multi_get
    multi_get-limited db r max_size i total [] pos from at = ground arith
    multi_get-limited db r max_size i total (e ∷ es) pos (h, from) at =
        elim (Bool-cases (ltb 0 total && leb max_size total)) [
          | inl q ↦ rw (q, multi_get) refl
          | inr q ↦
              let here = at i (omega arith) (omega arith) ∙ head_entry st pb i e es in
              let rest =
                multi_get-limited db r max_size (i + 1) (total + size st pb e) es (omega arith) from
                  (λ j a b.
                    at j (omega arith) (omega arith) ∙ later_entry st pb i j e es (omega arith)) in
              rw (q, here, multi_get)
                ((rw (entry_at-entry_bytes e i h) (
                  rw rest (
                    stop_rule max_size total (size st pb e)
                      (limited st pb max_size (total + size st pb e) es)
                      (pb_laws.entry_bytes_pos e (omega arith))))))
        ]

    -- The scan over stored entries.
    scan_entries-limited :
        (r max_size i total : ℕ) (es : List Entry)
        → AreFrom i es
        → (total' : ℕ) × (scan_entries st pb max_size i total (items st pb r es)
            ≡ some (limited st pb max_size total es, total'))
          × ((max_size ≤ total') ⊎ (limited st pb max_size total es ≡ es))
    unfolding scan_entries
    scan_entries-limited r max_size i total [] from = (total, refl, inr refl)
    scan_entries-limited r max_size i total (e ∷ es) (h, from) =
        elim (Bool-cases (ltb (total + size st pb e) max_size)) [
          | inl q ↦
              let (total', run, full) =
                scan_entries-limited r max_size (i + 1) (total + size st pb e) es from in
              (
                total',
                rw (entry_at-entry_bytes e i h) (rw q (rw run refl)),
                all_or_full max_size total' e _ es _ q full,
              )
          | inr q ↦ (
            total + size st pb e,
            rw (entry_at-entry_bytes e i h) (rw q refl),
            inl (ground arith),
          )
        ]

    module _ (r : ℕ) (hr : r < 2 ^ 64) where
      key_order :
          (i j : ℕ)
          → i < 2 ^ 64
          → j < 2 ^ 64
          → bytes_lt (raft_log_key st.be r i) (raft_log_key st.be r j) ≡ ltb i j
      key_order i j hi hj = raft_log_key_order st.be laws.be r i r j hr hi hr hj ∙ ground arith

      items-AllAbove :
          (k low : ℕ) (es : List Entry)
          → AreFrom low es
          → k < low
          → low + length es ≤ 2 ^ 64
          → AllAbove (raft_log_key st.be r k) (items st pb r es)
      items-AllAbove k low [] from h small = tt
      items-AllAbove k low (e ∷ es) (at, from) h small = (
        key_order k e.index (omega arith) (omega arith) ∙ lt→ltb k e.index (omega arith),
        items-AllAbove k (low + 1) es from (omega arith) (omega arith),
      )

      items-IsSorted :
          (low : ℕ) (es : List Entry)
          → AreFrom low es
          → low + length es ≤ 2 ^ 64
          → IsSorted (items st pb r es)
      items-IsSorted low [] from small = tt
      items-IsSorted low (e ∷ es) (at, from) small = (
        items-AllAbove e.index (low + 1) es from (omega arith) (omega arith),
        items-IsSorted (low + 1) es from (omega arith),
      )

      get-items :
          (low : ℕ) (es : List Entry) (j : ℕ)
          → AreFrom low es
          → low + length es ≤ 2 ^ 64
          → j < 2 ^ 64
          → get (items st pb r es) (raft_log_key st.be r j) ≡ bytes_of st pb (entry_of low es j)
      unfolding get
      get-items low [] j from small hj = refl
      get-items low (e ∷ es) j (at, from) small hj =
          rw (raft_log_key-eq st.be laws.be r e.index j hr (omega arith) hj) (
            rw (get-items (low + 1) es j from (omega arith) hj)
              (choose st pb e.index low j e es at))

      -- Every stored key is the key of an entry.
      items-key :
          (low : ℕ) (es : List Entry) (key value : Bytes)
          → AreFrom low es
          → get (items st pb r es) key ≡ some value
          → (j : ℕ) × (low ≤ j) × (j < low + length es) × (key ≡ raft_log_key st.be r j)
      unfolding get
      items-key low [] key value from h = absurd (none_ne_some h)
      items-key low (e ∷ es) key value (at, from) h =
          elim (Bool-cases (bytes_eq (raft_log_key st.be r e.index) key)) [
            | inl q ↦ (
              e.index,
              omega arith,
              omega arith,
              sym ((bytes_eq_iff (raft_log_key st.be r e.index) key).0 q),
            )
            | inr q ↦
                let (j, a, b, same) = items-key (low + 1) es key value from (rw q at h) in
                (j, omega arith, omega arith, same)
          ]

      state_before :
          (s i : ℕ)
          → s < 2 ^ 64
          → bytes_lt (raft_state_key st.be s) (raft_log_key st.be r i) ≡ ltb s r
      unfolding raft_state_key raft_log_key bytes_lt
      state_before s i hs =
          bytes_lt-append (st.be.write_u64 s) (st.be.write_u64 r) _ _
            (laws.be.length-write s ∙ sym (laws.be.length-write r))
          ∙ rw (laws.be.write_order s r hs hr) (ground arith)

      -- No raft state stands among the entries of a log.
      state_key-outside :
          (s low high : ℕ)
          → s < 2 ^ 64
          → not (bytes_lt (raft_state_key st.be s) (raft_log_key st.be r low))
              && bytes_lt (raft_state_key st.be s) (raft_log_key st.be r high)
            ≡ false
      state_key-outside s low high hs =
          rw (state_before s low hs, state_before s high hs) (ground arith)

      -- An iterator over the keys of a range of entries that are there goes over just these.
      module _ (db : st.rocks.Db) (only : OnlyRaftKeys st pb db) (low high : ℕ) (es : List Entry)
          (has : Has st pb db r low es) (until : low + length es ≡ high)
          (small : high < 2 ^ 64) where
        abbrev in_range : Bytes → Bool
        in_range key =
            not (bytes_lt key (raft_log_key st.be r low))
            && bytes_lt key (raft_log_key st.be r high)

        log_key-in_range : (j : ℕ) → low ≤ j → j < high → in_range (raft_log_key st.be r j) ≡ true
        log_key-in_range j a b =
            rw (key_order j low (omega arith) (omega arith), key_order j high (omega arith) small)
              (ground arith)

        -- A log key in the range is one of the entries.
        log_key-is_entry :
            (s i : ℕ)
            → s < 2 ^ 64
            → i < 2 ^ 64
            → in_range (raft_log_key st.be s i) ≡ true
            → (s ≡ r) × (low ≤ i) × (i < high)
        log_key-is_entry s i hs hi h = between s i (
            rw
              (
                raft_log_key_order st.be laws.be s i r low hs hi hr (omega arith),
                raft_log_key_order st.be laws.be s i r high hs hi hr small,
              )
              at h)

        nothing_else :
            (key value : Bytes)
            → get (items st pb r es) key ≡ none
            → st.rocks.get_opt db key ≡ some value
            → in_range key ≡ false
        nothing_else key value h v = elim (only key value v) [
          | inr (s, hs, k) ↦ ap in_range k ∙ state_key-outside s low high hs
          | inl (s, i, hs, hi, k) ↦ elim (Bool-cases (in_range key)) [
            | inr q ↦ q
            | inl q ↦
                let (same, a, b) = log_key-is_entry s i hs hi (ap in_range (sym k) ∙ q) in
                let (e, there) = entry_of_in low es i a (omega arith) in
                absurd (
                  none_ne_some (
                    sym h
                    ∙ ap (get (items st pb r es)) (k ∙ ap (λ x. raft_log_key st.be x i) same)
                    ∙ get-items low es i has.0 (omega arith) hi
                    ∙ ap (bytes_of st pb) there))
          ]
        ]

        same_value :
            (key : Bytes)
            → (if in_range key then st.rocks.get_opt db key else none) ≡ get (items st pb r es) key
        same_value key = elim (Option-cases (get (items st pb r es) key)) [
          | inr (v, q) ↦
              let (j, a, b, k) = items-key low es key v has.0 q in
              ap (λ x. if in_range x then st.rocks.get_opt db x else none) k
              ∙ rw (log_key-in_range j a (omega arith))
                  (has.1 j a b ∙ sym (get-items low es j has.0 (omega arith) (omega arith)))
              ∙ ap (get (items st pb r es)) (sym k)
          | inl q ↦ elim (Option-cases (st.rocks.get_opt db key)) [
            | inl n ↦ rw (n, q) (both_none (in_range key))
            | inr (v, n) ↦ rw (nothing_else key v q n, q) refl
          ]
        ]

        iterate-items :
            st.rocks.iterate db (raft_log_key st.be r low) (raft_log_key st.be r high)
            ≡ items st pb r es
        iterate-items =
            sorted_ext _ (items st pb r es) (laws.rocks.iterate-IsSorted db _ _)
              (items-IsSorted low es has.0 (omega arith))
              (λ key. laws.rocks.get-iterate db _ _ key ∙ same_value key)

        -- Entries that are stored under their numbers are fetched, up to the one with which the
        -- limit on their size st pb is reached, whether they are read one by one or, if they are more
        -- than eight, by a scan. The database holds no other keys than those of raft logs and raft
        -- states, and the numbers are positive `u64`.
        pub fetch_entries_to-limited :
            (max_size : Option ℕ)
            → 0 < low
            → fetch_entries_to st pb db r low high max_size
              ≡ some (limited st pb (max_or_limit max_size) 0 es)
        unfolding fetch_entries_to
        fetch_entries_to-limited max_size pos = elim (Bool-cases (leb high low)) [
          | inl q ↦
              rw q (ap some (sym (no_entries st pb es (max_or_limit max_size) (ground arith))))
          | inr q ↦ elim (Bool-cases (leb (high - low) raft_log_multi_get_cnt)) [
            | inl few ↦
                rw (q, few)
                  (ap (λ n. multi_get st pb db r (max_or_limit max_size) low n 0) (omega arith)
                    ∙ multi_get-limited db r (max_or_limit max_size) low 0 es pos has.0 has.1
                    ∙ ground arith)
            | inr many ↦
                let (total, run, full) =
                  scan_entries-limited r (max_or_limit max_size) low 0 es has.0 in
                rw (q, many)
                  (rw iterate-items (
                    rw run (
                      ap some (
                        enough (max_or_limit max_size) total (high - low) es
                          (limited st pb (max_or_limit max_size) 0 es) (omega arith) full))))
          ]
        ]
