-- ===== src/Gc/Batch.antt =====
-- What one batch deletes.
use auticuro.Prelude.{
  ℕ, ◌<◌, ◌^◌, ◌≡◌, refl, Bytes, Str, Bool, true, false, ◌&&◌, ◌||◌, not, none, some, Option, List,
  [], ◌∷◌, arith, bytes_eq, bytes_eq_iff, bytes_lt, Bytes_eq, ltb, leb, starts_with, if◌then◌else◌,
  sym, ap, ◌∙◌, beq_refl, Bool-cases, Option-cases, inl, inr, is_some, false_ne_true,
}
use auticuro.Prelude.Map.{Map, get, IsUnique}
use auticuro.Proto.{Event}
use auticuro.Keys.{event_key, dedup_key, data_key, validate_event_key}
use auticuro.Keys.RaftLog.{read_whole}
use auticuro.Storage.{
  Storage, StorageLaws, WriteBatch, put, delete, after, read_hard_state_from_db,
  persisted_first_seq_num, persisted_last_seq_num, applied_index_kind,
}
use auticuro.Storage.Batch.{after-put, after-delete}
use auticuro.Gc.{delete_events, gc_batch}

-- A key between two event keys is an event key.
event_range :
    (key a b : Bytes)
    → (not (bytes_lt key (event_key a)) && bytes_lt key (event_key b)) ≡ true
    → validate_event_key key ≡ true
unfolding bytes_lt starts_with
event_range [] a b h = cc
event_range (c ∷ cs) a b h = ground arith

first_seq_num_other :
    (key : Bytes) → validate_event_key key ≡ true → bytes_eq persisted_first_seq_num.key key ≡ false
unfolding bytes_eq starts_with
first_seq_num_other [] e = cc
first_seq_num_other (c ∷ cs) e = ground arith

module _ (st : Storage) where
  -- Every event of the database can be parsed.
  abbrev pub IsParsable : st.rocks.Db → Type 0
  IsParsable db =
      (key value : Bytes)
      → validate_event_key key ≡ true
      → st.rocks.get_opt db key ≡ some value
      → (event : Event) × (st.pb.parse_event value ≡ some event)

  -- The entries whose value is an event.
  AllEvents : List (Bytes × Bytes) → Type 0
  AllEvents [] = Unit
  AllEvents ((key, value) ∷ entries) =
      (event : Event) × (st.pb.parse_event value ≡ some event) × AllEvents entries

  names : Bytes → Option Event → Bool
  names key none = false
  names key (some event) = bytes_eq (dedup_key event.header.command_id) key

  -- The key is that of an entry, or the dedup key of an entry's event.
  removed : Bytes → List (Bytes × Bytes) → Bool
  removed key [] = false
  removed key ((k, value) ∷ entries) =
      bytes_eq k key || names key (st.pb.parse_event value) || removed key entries

  after-delete_events :
      (entries : List (Bytes × Bytes)) (wb : WriteBatch)
      → AllEvents entries
      → (gc_wb : WriteBatch) × (delete_events st wb entries ≡ some gc_wb)
        × ((key : Bytes) (old : Option Bytes)
            → after gc_wb key old ≡ (if removed key entries then none else after wb key old))
  unfolding delete_events removed AllEvents names
  after-delete_events [] wb all = (wb, refl, λ key old. refl)
  after-delete_events ((k, v) ∷ entries) wb (event, p, all) =
      let id = event.header.command_id in
      let (gc_wb, h, f) = after-delete_events entries (delete (dedup_key id) (delete k wb)) all in
      (
        gc_wb,
        rw (p, delete_events) h,
        λ key old.
            f key old
            ∙ ground (
              arith,
              p,
              after-delete (delete k wb) (dedup_key id) key old,
              after-delete wb k key old,
            ),
      )

  AllEvents-of_get :
      (entries : List (Bytes × Bytes))
      → IsUnique entries
      → ((key value : Bytes)
          → get entries key ≡ some value
          → (event : Event) × (st.pb.parse_event value ≡ some event))
      → AllEvents entries
  unfolding AllEvents get
  AllEvents-of_get [] u f = tt
  AllEvents-of_get ((k, v) ∷ entries) u f =
      let (event, p) = f k v (rw (beq_refl k) refl) in
      (
        event,
        p,
        AllEvents-of_get entries u.1
            (λ key value h. f key value (ground (arith, u.0, bytes_eq_iff k key))),
      )

  -- The entries of the scan from `a` to `b`.
  Scan : st.rocks.Db → Bytes → Bytes → Map Bytes Bytes
  Scan db a b = st.rocks.iterate db (event_key a) (event_key b)

  Scan-AllEvents :
      (laws : StorageLaws st) (db : st.rocks.Db) (a b : Bytes)
      → IsParsable db
      → AllEvents (Scan db a b)
  unfolding Scan
  Scan-AllEvents laws db a b parsable =
      AllEvents-of_get _ (laws.rocks.iterate-IsUnique db (event_key a) (event_key b)) λ key value h.
        elim (Bool-cases (not (bytes_lt key (event_key a)) && bytes_lt key (event_key b))) [
          | inl inside ↦
              parsable key value (event_range key a b inside)
                (ground (arith, laws.rocks.get-iterate db (event_key a) (event_key b) key))
          | inr outside ↦ ground (arith, laws.rocks.get-iterate db (event_key a) (event_key b) key)
        ]

  -- A key that is no dedup key is removed if it is in the scan.
  removed-scanned :
      (key : Bytes) (entries : List (Bytes × Bytes))
      → ((id : Str) → bytes_eq (dedup_key id) key ≡ false)
      → removed key entries ≡ is_some (get entries key)
  unfolding removed names get
  removed-scanned key [] h = refl
  removed-scanned key ((k, v) ∷ entries) h = elim (Option-cases (st.pb.parse_event v)) [
    | inl e ↦ ground (arith, removed-scanned key entries h)
    | inr (ev, e) ↦ ground (arith, removed-scanned key entries h, h ev.header.command_id)
  ]

  -- The keys that a batch does not touch: those outside the range that are no dedup keys.
  removed-outside :
      (laws : StorageLaws st) (db : st.rocks.Db) (a b key : Bytes)
      → ((id : Str) → bytes_eq (dedup_key id) key ≡ false)
      → validate_event_key key ≡ false
      → removed key (Scan db a b) ≡ false
  unfolding Scan
  removed-outside laws db a b key other no_event =
      removed-scanned key (st.rocks.iterate db (event_key a) (event_key b)) other
      ∙ ap is_some (laws.rocks.get-iterate db (event_key a) (event_key b) key)
      ∙ elim (Bool-cases (not (bytes_lt key (event_key a)) && bytes_lt key (event_key b))) [
        | inl inside ↦ absurd (false_ne_true (sym no_event ∙ event_range key a b inside))
        | inr outside ↦ ground arith
      ]

  range-write :
      (laws : StorageLaws st) (from to n : ℕ)
      → from < 2 ^ 64
      → to < 2 ^ 64
      → n < 2 ^ 64
      → (not (bytes_lt (event_key (st.be.write_u64 n)) (event_key (st.be.write_u64 from)))
          && bytes_lt (event_key (st.be.write_u64 n)) (event_key (st.be.write_u64 to)))
        ≡ (leb from n && ltb n to)
  unfolding bytes_lt
  range-write laws from to n hf ht hn =
      ground (arith, laws.be.write_order n from hn hf, laws.be.write_order n to hn ht)

  -- What a truncation of the events from `from` up to `to` makes of the database.
  pub record IsTruncated (db : st.rocks.Db) (from to : ℕ) (db' : st.rocks.Db) : Type 0 where
    pub events :
        (n : ℕ)
        → n < 2 ^ 64
        → st.rocks.get_opt db' (event_key (st.be.write_u64 n)) ≡ (
            if leb from n && ltb n to
            then none
            else st.rocks.get_opt db (event_key (st.be.write_u64 n)))
    pub accounts :
        (id : Str) → st.rocks.get_opt db' (data_key id) ≡ st.rocks.get_opt db (data_key id)
    pub last_seq_num :
        st.rocks.get_opt db' persisted_last_seq_num.key
        ≡ st.rocks.get_opt db persisted_last_seq_num.key
    pub applied_index :
        st.rocks.get_opt db' applied_index_kind.key ≡ st.rocks.get_opt db applied_index_kind.key
    pub parsable : IsParsable db'

  -- What every key holds after a batch.
  Found : st.rocks.Db → ℕ → ℕ → st.rocks.Db → Type 0
  Found db from to db' =
      (key : Bytes)
      → st.rocks.get_opt db' key ≡ (
          if bytes_eq persisted_first_seq_num.key key
          then some (st.be.write_u64 to)
          else if removed key (Scan db (st.be.write_u64 from) (st.be.write_u64 to))
          then none
          else st.rocks.get_opt db key)

  gc_batch-Found :
      (laws : StorageLaws st) (db : st.rocks.Db) (from to : ℕ)
      → IsParsable db
      → (db' : st.rocks.Db) × (gc_batch st from to db ≡ some db') × Found db from to db'
  unfolding gc_batch after Found Scan
  gc_batch-Found laws db from to parsable =
      let entries = Scan db (st.be.write_u64 from) (st.be.write_u64 to) in
      let (gc_wb, h, f) =
        after-delete_events entries []
          (Scan-AllEvents laws db (st.be.write_u64 from) (st.be.write_u64 to) parsable) in
      (
        st.rocks.write_opt db (put persisted_first_seq_num.key (st.be.write_u64 to) gc_wb),
        rw h refl,
        λ key.
            laws.rocks.get-write db (put persisted_first_seq_num.key (st.be.write_u64 to) gc_wb) key
            ∙ after-put gc_wb persisted_first_seq_num.key (st.be.write_u64 to) key
                (st.rocks.get_opt db key)
            ∙ ap
                (λ x.
                  if bytes_eq persisted_first_seq_num.key key then some (st.be.write_u64 to) else x)
                (f key (st.rocks.get_opt db key)),
      )

  -- A key that is neither an event key nor a dedup key, nor the one that is stored.
  Found-other :
      (laws : StorageLaws st) (db db' : st.rocks.Db) (from to : ℕ) (key : Bytes)
      → Found db from to db'
      → ((id : Str) → bytes_eq (dedup_key id) key ≡ false)
      → validate_event_key key ≡ false
      → bytes_eq persisted_first_seq_num.key key ≡ false
      → st.rocks.get_opt db' key ≡ st.rocks.get_opt db key
  unfolding Found
  Found-other laws db db' from to key f other no_event differs =
      f key
      ∙ rw
          (
            differs,
            removed-outside laws db (st.be.write_u64 from) (st.be.write_u64 to) key other no_event,
          )
          refl

  Found-event :
      (laws : StorageLaws st) (db db' : st.rocks.Db) (from to n : ℕ)
      → from < 2 ^ 64
      → to < 2 ^ 64
      → n < 2 ^ 64
      → Found db from to db'
      → st.rocks.get_opt db' (event_key (st.be.write_u64 n)) ≡ (
          if leb from n && ltb n to
          then none
          else st.rocks.get_opt db (event_key (st.be.write_u64 n)))
  unfolding Found Scan bytes_eq
  Found-event laws db db' from to n hf ht hn f =
      let key = event_key (st.be.write_u64 n) in
      let lower = event_key (st.be.write_u64 from) in
      let upper = event_key (st.be.write_u64 to) in
      let gone : removed key (Scan db (st.be.write_u64 from) (st.be.write_u64 to))
          ≡ is_some (get (st.rocks.iterate db lower upper) key) =
        removed-scanned key (st.rocks.iterate db lower upper) (λ id. refl) in
      ground (
        arith,
        f key,
        gone,
        laws.rocks.get-iterate db lower upper key,
        range-write laws from to n hf ht hn,
      )

  Found-IsParsable :
      (db db' : st.rocks.Db) (from to : ℕ) → Found db from to db' → IsParsable db → IsParsable db'
  unfolding Found
  Found-IsParsable db db' from to f parsable key value e h =
      parsable key value e (ground (arith, f key, first_seq_num_other key e, h))

  -- A batch over a range of `u64` numbers succeeds where every stored event can be parsed; it
  -- deletes the events of its range and no other, keeps the accounts and the other hard states,
  -- and stores where the next one starts.
  pub gc_batch-IsTruncated :
      (laws : StorageLaws st) (db : st.rocks.Db) (from to : ℕ)
      → from < 2 ^ 64
      → to < 2 ^ 64
      → IsParsable db
      → (db' : st.rocks.Db) × (gc_batch st from to db ≡ some db')
        × IsTruncated db from to db'
        × (read_hard_state_from_db st db' persisted_first_seq_num ≡ some to)
  unfolding bytes_eq starts_with read_hard_state_from_db Found
  gc_batch-IsTruncated laws db from to hf ht parsable =
      let (db', h, f) = gc_batch-Found laws db from to parsable in
      (
        db',
        h,
        record {
          events = λ n hn. Found-event laws db db' from to n hf ht hn f;
          accounts = λ id. Found-other laws db db' from to (data_key id) f (λ j. refl) refl refl;
          last_seq_num =
              Found-other laws db db' from to persisted_last_seq_num.key f (λ j. refl) refl refl;
          applied_index =
              Found-other laws db db' from to applied_index_kind.key f (λ j. refl) refl refl;
          parsable = Found-IsParsable db db' from to f parsable;
        },
        ground (arith, f persisted_first_seq_num.key, read_whole st.be laws.be to ht),
      )
