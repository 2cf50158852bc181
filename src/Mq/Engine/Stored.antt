-- ===== src/Mq/Engine/Stored.antt =====
-- What a raft log is in RocksDB, and what appending to it and cutting it do.
use auticuro.Prelude.{
  ℕ, zero, suc, ◌+◌, ◌-◌, ◌<◌, ◌≤◌, ◌^◌, ◌≡◌, refl, sym, ◌∙◌, ap, subst, ltb, leb, Bool-cases, inl,
  inr, Bytes, Option, some, none, List, [], ◌∷◌, ◌++◌, Bool, true, false, ◌==◌, if◌then◌else◌,
  arith, bytes_eq, bytes_eq_iff, lt→ltb, ltb→lt, not_ltb, not_leb, ◌&&◌, Bytes_eq,
}
use auticuro.Prelude.Lists.{length}
use auticuro.Storage.{Storage, StorageLaws, WriteBatch, put, delete, after}
use auticuro.Storage.Batch.{after-put, after-delete}
use auticuro.Keys.{BigEndian, BigEndianLaws, raft_log_key}
use auticuro.Keys.RaftLog.{decode_raft_log_key-raft_log_key}
use auticuro.Mq.{Entry, RaftProtobuf}
use auticuro.Mq.Engine.{append_impl, delete_logs, cut_logs}

-- Two entries of a region have one key exactly if they have one index.
pub raft_log_key-eq :
    (be : BigEndian) (laws : BigEndianLaws be) (r i j : ℕ)
    → r < 2 ^ 64
    → i < 2 ^ 64
    → j < 2 ^ 64
    → bytes_eq (raft_log_key be r i) (raft_log_key be r j) ≡ (i == j)
raft_log_key-eq be laws r i j hr hi hj = ground (
  arith,
  bytes_eq_iff (raft_log_key be r i) (raft_log_key be r j),
  decode_raft_log_key-raft_log_key be laws r i hr hi,
  decode_raft_log_key-raft_log_key be laws r j hr hj,
)

-- The indices of the entries follow one another, from `i` on.
abbrev pub AreFrom : ℕ → List Entry → Type 0
AreFrom i [] = Unit
AreFrom i (e ∷ es) = (e.index ≡ i) × AreFrom (i + 1) es

-- The entry with the index `i`, in a list from `low` on.
abbrev pub entry_of : ℕ → List Entry → ℕ → Option Entry
entry_of low [] i = none
entry_of low (e ∷ es) i = if low == i then some e else entry_of (low + 1) es i

pub entry_of_below : (low : ℕ) (es : List Entry) (i : ℕ) → i < low → entry_of low es i ≡ none
entry_of_below low [] i h = refl
entry_of_below low (e ∷ es) i h = ground (arith, entry_of_below (low + 1) es i)

pub entry_of_past :
    (low : ℕ) (es : List Entry) (i : ℕ) → low + length es ≤ i → entry_of low es i ≡ none
entry_of_past low [] i h = refl
entry_of_past low (e ∷ es) i h = ground (arith, entry_of_past (low + 1) es i)

pub entry_of_in :
    (low : ℕ) (es : List Entry) (i : ℕ)
    → low ≤ i
    → i < low + length es
    → (e : Entry) × (entry_of low es i ≡ some e)
entry_of_in low [] i h k = absurd (omega arith)
entry_of_in low (e ∷ es) i h k = elim (Bool-cases (low == i)) [
  | inl q ↦ (e, rw q refl)
  | inr q ↦ rw q (entry_of_in (low + 1) es i (ground arith) (omega arith))
]

pub entry_of-append :
    (low : ℕ) (xs ys : List Entry) (i : ℕ)
    → low ≤ i
    → entry_of low (xs ++ ys) i
      ≡ (if ltb i (low + length xs) then entry_of low xs i else entry_of (low + length xs) ys i)
entry_of-append low [] ys i h =
    rw (not_ltb i (low + 0) (omega arith)) (ap (λ k. entry_of k ys i) (omega arith))
entry_of-append low (x ∷ xs) ys i h = elim (Bool-cases (low == i)) [
  | inl q ↦ rw (q, lt→ltb i (low + suc (length xs)) (ground arith)) refl
  | inr q ↦
      rw (q, entry_of-append (low + 1) xs ys i (ground arith))
        (ap (λ k. if ltb i k then entry_of (low + 1) xs i else entry_of k ys i) (omega arith))
]

pub AreFrom-append :
    (low : ℕ) (xs ys : List Entry)
    → AreFrom low xs
    → AreFrom (low + length xs) ys
    → AreFrom low (xs ++ ys)
AreFrom-append low [] ys a b = subst (λ k. AreFrom k ys) (omega arith) b
AreFrom-append low (x ∷ xs) ys (e, a) b =
    (e, AreFrom-append (low + 1) xs ys a (subst (λ k. AreFrom k ys) (omega arith) b))

pub AreFrom-prefix : (low : ℕ) (xs ys : List Entry) → AreFrom low (xs ++ ys) → AreFrom low xs
AreFrom-prefix low [] ys a = tt
AreFrom-prefix low (x ∷ xs) ys (e, a) = (e, AreFrom-prefix (low + 1) xs ys a)

abbrev or_else : Option Bytes → Option Bytes → Option Bytes
or_else none old = old
or_else (some v) old = some v

index_is : (a b i : ℕ) (t : Bool) → a ≡ b → (b == i) ≡ t → (a == i) ≡ t
index_is a b i t e h = rw e h

module _ (st : Storage) (pb : RaftProtobuf) where
  abbrev pub bytes_of : Option Entry → Option Bytes
  bytes_of none = none
  bytes_of (some e) = some (pb.entry_bytes e)

  first_written :
      (first : ℕ) (e : Entry) (new : List Entry) (i : ℕ) (old : Option Bytes)
      → e.index ≡ first
      → or_else
          (bytes_of (entry_of (first + 1) new i))
          (if e.index == i then some (pb.entry_bytes e) else old)
        ≡ or_else (bytes_of (entry_of first (e ∷ new) i)) old
  first_written first e new i old at = elim (Bool-cases (first == i)) [
    | inl q ↦
        rw (q, entry_of_below (first + 1) new i (ground arith), index_is e.index first i true at q)
          refl
    | inr q ↦ rw (q, index_is e.index first i false at q) refl
  ]

  -- The database holds exactly these entries of the region, from `low` on.
  abbrev pub Holds : st.rocks.Db → ℕ → ℕ → List Entry → Type 0
  Holds db r low es =
      AreFrom low es
      × ((i : ℕ)
          → low ≤ i
          → i < 2 ^ 64
          → st.rocks.get_opt db (raft_log_key st.be r i) ≡ bytes_of (entry_of low es i))

  module _ (laws : StorageLaws st) (r : ℕ) (hr : r < 2 ^ 64) where
    after-append_impl :
        (first : ℕ) (new : List Entry) (wb : WriteBatch) (i : ℕ) (old : Option Bytes)
        → AreFrom first new
        → first + length new ≤ 2 ^ 64
        → i < 2 ^ 64
        → after (append_impl st pb r new wb) (raft_log_key st.be r i) old
          ≡ or_else (bytes_of (entry_of first new i)) (after wb (raft_log_key st.be r i) old)
    unfolding append_impl
    after-append_impl first [] wb i old a small hi = refl
    after-append_impl first (e ∷ new) wb i old (at, a) small hi =
        after-append_impl (first + 1) new (put (raft_log_key st.be r e.index) (pb.entry_bytes e) wb)
          i old a (omega arith) hi
        ∙ rw
            (after-put wb (raft_log_key st.be r e.index) (pb.entry_bytes e) (raft_log_key st.be r i)
              old)
            (rw (raft_log_key-eq st.be laws.be r e.index i hr (omega arith) hi)
              (first_written first e new i _ at))

    after-delete_logs :
        (from rounds : ℕ) (wb : WriteBatch) (i : ℕ) (old : Option Bytes)
        → from + rounds ≤ 2 ^ 64
        → i < 2 ^ 64
        → after (delete_logs st pb r from rounds wb) (raft_log_key st.be r i) old ≡ (
            if leb from i && ltb i (from + rounds)
            then none
            else after wb (raft_log_key st.be r i) old)
    unfolding delete_logs
    after-delete_logs from zero wb i old small hi = ground arith
    after-delete_logs from (suc rounds) wb i old small hi =
        after-delete_logs (from + 1) rounds (delete (raft_log_key st.be r from) wb) i old
          (omega arith) hi
        ∙ rw (after-delete wb (raft_log_key st.be r from) (raft_log_key st.be r i) old)
            (rw (raft_log_key-eq st.be laws.be r from i hr (omega arith) hi) (ground arith))

    -- What stands under an index after new entries were put and old ones behind them cut.
    written_entry :
        (low i past cut : ℕ) (xs ys new : List Entry)
        → low ≤ i
        → low + length xs + length new ≡ past
        → low + length (xs ++ ys) ≡ cut
        → (if leb past i && ltb i (past + (cut - past))
            then none
            else or_else
                (bytes_of (entry_of (low + length xs) new i))
                (bytes_of (entry_of low (xs ++ ys) i)))
          ≡ bytes_of (entry_of low (xs ++ new) i)
    written_entry low i past cut xs ys new h hp hc = elim (Bool-cases (ltb i (low + length xs))) [
      | inl q ↦
          rw
            (
              not_leb past i (ground arith),
              entry_of_below (low + length xs) new i (ltb→lt i (low + length xs) q),
              entry_of-append low xs ys i h,
              entry_of-append low xs new i h,
              q,
            )
            refl
      | inr q ↦
          rw (entry_of-append low xs new i h, q)
            (elim (Bool-cases (ltb i past)) [
              | inl p ↦
                  let (e, found) =
                    entry_of_in (low + length xs) new i (ground arith) (ground arith) in
                  rw (not_leb past i (ltb→lt i past p), found) refl
              | inr p ↦
                  rw (entry_of_past (low + length xs) new i (ground arith))
                    (elim (Bool-cases (ltb i cut)) [
                      | inl c ↦ ground arith
                      | inr c ↦ rw (entry_of_past low (xs ++ ys) i (ground arith)) (ground arith)
                    ])
            ])
    ]

    -- Entries are put behind the first ones of a log, and what stood there of the old log is cut.
    pub append-Holds :
        (db : st.rocks.Db) (wb : WriteBatch) (low past cut : ℕ) (xs ys new : List Entry)
        → Holds (st.rocks.write_opt db wb) r low (xs ++ ys)
        → AreFrom (low + length xs) new
        → low + length xs + length new ≡ past
        → low + length (xs ++ ys) ≡ cut
        → past < 2 ^ 64
        → cut < 2 ^ 64
        → Holds
            (st.rocks.write_opt db (cut_logs st pb r past cut (append_impl st pb r new wb)))
            r
            low
            (xs ++ new)
    unfolding cut_logs
    append-Holds db wb low past cut xs ys new (from, at) a hp hc small small1 = (
      AreFrom-append low xs new (AreFrom-prefix low xs ys from) a,
      λ i h hi.
          let key = raft_log_key st.be r i in
          let old = st.rocks.get_opt db key in
          let before = sym (laws.rocks.get-write db wb key) ∙ at i h hi in
          laws.rocks.get-write db _ key
          ∙ after-delete_logs past (cut - past) (append_impl st pb r new wb) i old (omega arith) hi
          ∙ rw (after-append_impl (low + length xs) new wb i old a (omega arith) hi)
              (rw before (written_entry low i past cut xs ys new h hp hc)),
    )
