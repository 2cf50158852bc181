-- ===== src/Mq/Consumer/Sends.antt =====
-- What the consumer hands to the wallet: every applied entry of the log, once, in order.
use auticuro.Prelude.{
  ℕ, zero, suc, ◌*◌, ◌+◌, ◌-◌, ◌<◌, ◌≤◌, ◌^◌, ◌≡◌, refl, sym, ◌∙◌, ap, ap₂, subst, Bytes, Option,
  some, none, List, [], ◌∷◌, ◌++◌, ltb, min, arith, Bool-cases, inl, inr, some_injective,
  >>?-eq-some, lt→ltb, not_ltb, ok,
}
use auticuro.Prelude.Lists.{length, take, drop, length-append}
use auticuro.Storage.{Storage, StorageLaws}
use auticuro.Mq.{Entry, RaftApplyState, RaftProtobuf, RaftProtobufLaws, inc_u64}
use auticuro.Mq.Engine.{usize_max}
use auticuro.Mq.Engine.Stored.{AreFrom-prefix, entry_of-append, bytes_of}
use auticuro.Mq.Engine.Items.{Has, OnlyRaftKeys, limited, size}
use auticuro.Mq.Engine.Fetch.{fetch_entries_to-limited}
use auticuro.Mq.Consumer.{
  Engines, LogEntry, parse_log_entry, parse_entries, init_apply_state, get_range, consume,
  get_start_index_and_applied_index, consume_all, window_end,
}
use auticuro.Mq.Consumer.Counts.{
  count_after, counts, AllAtLeast, counts_reach, length-take, take_more, take-drop, length-drop,
  not_outside, not_before, idle, busy, inc_end, grown, AreFrom-suffix,
}

module _ (st : Storage) (pb : RaftProtobuf) where
  -- A part of the entries that are there is there.
  Has-part :
      (db : st.rocks.Db) (r low : ℕ) (xs ys zs : List Entry)
      → Has st pb db r low ((xs ++ ys) ++ zs)
      → Has st pb db r (low + length xs) ys
  Has-part db r low xs ys zs (from, at) = (
    AreFrom-suffix low xs ys (AreFrom-prefix low (xs ++ ys) zs from),
    λ j a b.
        at j (omega arith) (omega (arith, length-append (xs ++ ys) zs, length-append xs ys))
        ∙ ap (bytes_of st pb) (
            entry_of-append low (xs ++ ys) zs j (omega arith)
            ∙ rw (lt→ltb j (low + length (xs ++ ys)) (omega (arith, length-append xs ys))) (
                entry_of-append low xs ys j (omega arith)
                ∙ rw (not_ltb j (low + length xs) a) refl)),
  )

  abbrev pub total_size : List Entry → ℕ
  total_size [] = 0
  total_size (e ∷ es) = size st pb e + total_size es

  limited_all :
      (max_size total : ℕ) (es : List Entry)
      → total + total_size es < max_size
      → limited st pb max_size total es ≡ es
  limited_all max_size total [] h = refl
  limited_all max_size total (e ∷ es) h =
      rw (lt→ltb (total + size st pb e) max_size (omega arith))
        (ap (λ t. e ∷ t) (limited_all max_size (total + size st pb e) es (omega arith)))

  total_size-take : (k : ℕ) (es : List Entry) → total_size (take k es) ≤ total_size es
  total_size-take zero es = omega arith
  total_size-take (suc k) [] = omega arith
  total_size-take (suc k) (e ∷ es) = omega (arith, total_size-take k es)

  total_size-drop : (k : ℕ) (es : List Entry) → total_size (drop k es) ≤ total_size es
  total_size-drop zero es = omega arith
  total_size-drop (suc k) [] = omega arith
  total_size-drop (suc k) (e ∷ es) = omega (arith, total_size-drop k es)

  module _ {T : Type 0} (parse_message : Bytes → Option T) where
    parse_entries-cons :
        (e : Entry) (es : List Entry) (ms : List (LogEntry T))
        → parse_entries parse_message pb (e ∷ es) ≡ some ms
        → (x : LogEntry T) × (xs : List (LogEntry T)) × (parse_log_entry parse_message pb e
            ≡ some x)
          × (parse_entries parse_message pb es ≡ some xs)
          × (x ∷ xs ≡ ms)
    unfolding parse_entries
    parse_entries-cons e es ms h =
        let (x, px, h1) = >>?-eq-some (parse_log_entry parse_message pb e) _ h in
        let (xs, pxs, h2) = >>?-eq-some (parse_entries parse_message pb es) _ h1 in
        (x, xs, px, pxs, some_injective h2)

    parse_entries-take :
        (k : ℕ) (es : List Entry) (ms : List (LogEntry T))
        → parse_entries parse_message pb es ≡ some ms
        → parse_entries parse_message pb (take k es) ≡ some (take k ms)
    unfolding parse_entries
    parse_entries-take zero es ms h = refl
    parse_entries-take (suc k) [] ms h = rw (← some_injective h) refl
    parse_entries-take (suc k) (e ∷ es) ms h =
        let (x, xs, px, pxs, same) = parse_entries-cons e es ms h in
        rw (← same) (rw (px, parse_entries-take k es xs pxs) refl)

    parse_entries-drop :
        (k : ℕ) (es : List Entry) (ms : List (LogEntry T))
        → parse_entries parse_message pb es ≡ some ms
        → parse_entries parse_message pb (drop k es) ≡ some (drop k ms)
    unfolding parse_entries
    parse_entries-drop zero es ms h = h
    parse_entries-drop (suc k) [] ms h = rw (← some_injective h) refl
    parse_entries-drop (suc k) (e ∷ es) ms h =
        let (x, xs, px, pxs, same) = parse_entries-cons e es ms h in
        rw (← same) (parse_entries-drop k es xs pxs)

    module _ (laws : StorageLaws st) (pb_laws : RaftProtobufLaws pb) (r : ℕ) (hr : r < 2 ^ 64)
        (base : ℕ) (log : List Entry) (messages : List (LogEntry T))
        (parsed : parse_entries parse_message pb log ≡ some messages) (pos : 0 < base)
        (small : base + length log + 1001 < 2 ^ 64) (sized : total_size log < usize_max) where
      -- The engines hold the log up to its `n`-th entry, which is the applied one; and it is not
      -- truncated behind `base`.
      pub record IsView (engines : Engines st) (n : ℕ) : Type 0 where
        pub state : RaftApplyState
        pub stored : init_apply_state st pb engines r ≡ some state
        pub kept : state.truncated_state.index < base
        pub applied : state.applied_index + 1 ≡ base + n
        pub within : n ≤ length log
        pub has : Has st pb engines.raft r base (take n log)
        pub only : OnlyRaftKeys st pb engines.raft

      bounds :
          (engines : Engines st) (n : ℕ) (v : IsView engines n)
          → get_start_index_and_applied_index st pb engines r
            ≡ some (inc_u64 v.state.truncated_state.index, v.state.applied_index)
      unfolding get_start_index_and_applied_index
      bounds engines n v = rw v.stored refl

      -- The entries from the `m`-th on, `k` of them.
      get_range-part :
          (engines : Engines st) (n m k last : ℕ) (v : IsView engines n)
          → m + k ≤ n
          → 0 < k
          → last + 1 ≡ base + m + k
          → get_range st pb parse_message engines r (base + m) last
            ≡ some (ok (take k (drop m messages)))
      unfolding get_range
      get_range-part engines n m k last v h hk hl =
          let (rest, cut) = take-drop m k n log h in
          let len = length-take m log (omega (arith, v.within)) in
          let part = take k (drop m log) in
          let there =
            subst (λ j. Has st pb engines.raft r (base + j) part) len
              (Has-part engines.raft r base (take m log) part rest
                (subst (λ es. Has st pb engines.raft r base es) cut v.has)) in
          let long = length-take k (drop m log) (omega (arith, length-drop m log, v.within)) in
          let fetched =
            fetch_entries_to-limited st pb laws pb_laws r hr engines.raft v.only (base + m)
              (inc_u64 last) part there (omega (arith, long, v.within)) (omega (arith, v.within))
              none (omega arith) in
          let whole =
            limited_all usize_max 0 part
              (omega (arith, total_size-take k (drop m log), total_size-drop m log)) in
          rw (bounds engines n v) (
            rw
              (not_outside m k (base + m) last _ _ v.kept v.applied h hl
                (omega (arith, v.within), refl))
              (rw fetched (
                rw whole (
                  rw
                    (parse_entries-take k (drop m log) (drop m messages)
                      (parse_entries-drop m log messages parsed))
                    refl))))

      -- A round sends the next entries, at most 1001, up to the applied one.
      consume-sends :
          (engines : Engines st) (n m : ℕ)
          → IsView engines n
          → m ≤ length log
          → consume st pb parse_message engines r
              (record { log_index = base + m; sender = take m messages })
            ≡ some (record {
              log_index = base + count_after m n;
              sender = take (count_after m n) messages;
            })
      unfolding consume
      consume-sends engines n m v hm = elim (Bool-cases (ltb m n)) [
        | inr e ↦ rw (bounds engines n v) (
            rw
              (
                not_before (base + m) v.state.truncated_state.index v.kept
                    (omega arith, omega arith),
                idle (base + m) v.state.applied_index (ground (arith, v.applied)),
              )
              (ap (λ j. some (record { log_index = base + j; sender = take j messages }))
                (ground arith)))
        | inl e ↦
            let last = min (window_end (base + m)) v.state.applied_index in
            let ends : last + 1 ≡ base + count_after m n = ground (arith, v.applied, v.within) in
            let k = count_after m n - m in
            rw (bounds engines n v) (
              rw
                (
                  not_before (base + m) v.state.truncated_state.index v.kept
                      (omega arith, omega arith),
                  busy (base + m) v.state.applied_index (ground (arith, v.applied)),
                )
                (rw
                  (get_range-part engines n m k last v (ground arith) (ground arith)
                    (ground (arith, ends)))
                  (ap₂
                    (λ (i : ℕ) (es : List (LogEntry T)).
                      some (record { log_index = i; sender = es }))
                    (inc_end last (base + count_after m n) ends (ground (arith, v.within)))
                    (sym (take_more m k messages) ∙ ap (λ j. take j messages) (grown m n)))))
      ]

      abbrev pub AreViews : List (Engines st) → List ℕ → Type 0
      AreViews [] [] = Unit
      AreViews [] (n ∷ ns) = ⊥
      AreViews (e ∷ es) [] = ⊥
      AreViews (e ∷ es) (n ∷ ns) = IsView e n × AreViews es ns

      count_after-le : (m n : ℕ) → m ≤ length log → n ≤ length log → count_after m n ≤ length log
      count_after-le m n a b = ground arith

      consume_all-take :
          (views : List (Engines st)) (ns : List ℕ) (m : ℕ)
          → AreViews views ns
          → m ≤ length log
          → consume_all st pb parse_message views r
              (record { log_index = base + m; sender = take m messages })
            ≡ some (record { log_index = base + counts m ns; sender = take (counts m ns) messages })
      unfolding consume_all
      consume_all-take [] [] m v h = refl
      consume_all-take [] (n ∷ ns) m v h = absurd v
      consume_all-take (e ∷ es) [] m v h = absurd v
      consume_all-take (e ∷ es) (n ∷ ns) m (v, vs) h =
          rw (consume-sends e n m v h, consume_all)
            (consume_all-take es ns (count_after m n) vs (count_after-le m n h v.within))

      -- The consumer starts at `base`, and sees in its rounds engines that hold the log from `base`
      -- up to their applied entry, are not truncated behind `base`, and have only keys of the log
      -- and its states in the database of the log. Then it does not stop; what it has sent is the beginning of the log, each entry once and in order, with its messages;
      -- and once each of `n` entries was applied in every one of at least `n / 1001` rounds, all of
      -- them are sent. The entries can be parsed, the indices are positive `u64`, and the sizes of
      -- the entries together are below the largest `usize`.
      pub consume_all-sends :
          (views : List (Engines st)) (ns : List ℕ)
          → AreViews views ns
          → (consume_all st pb parse_message views r (record { log_index = base; sender = [] })
              ≡ some
                  (record { log_index = base + counts 0 ns; sender = take (counts 0 ns) messages }))
            × ((n : ℕ) → AllAtLeast n ns → n ≤ 1001 * length ns → n ≤ counts 0 ns)
      consume_all-sends views ns v = (
        ap (λ j. consume_all st pb parse_message views r (record { log_index = j; sender = [] }))
              (omega arith)
            ∙ consume_all-take views ns 0 v (omega arith),
        λ n a h. counts_reach 0 n ns a (omega arith),
      )
