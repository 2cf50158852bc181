-- ===== src/Storage/Memory/Engine.antt =====
-- A database in memory, which shows that the laws of the RocksDB interface can hold.
use auticuro.Prelude.{
  ◌≡◌, refl, sym, subst, true, inl, inr, Bool-cases, Bytes, Bool, none, some, bytes_eq, [], ◌∷◌,
  ◌&&◌, not, bytes_lt, bytes_eq_iff, Bytes_eq, arith, if◌then◌else◌,
}
use auticuro.Prelude.Map.{Map, get, insert, remove, get-insert, get-remove}
use auticuro.Keys.Order.{bytes_lt_total}
use auticuro.Storage.Sorted.{AllAbove-trans, IsUnique-IsSorted}
use auticuro.Storage.{
  RocksDb, RocksDbLaws, AllAbove, IsSorted, WriteBatch, put_op, delete_op, after,
}

unfoldable pub write_all : Map Bytes Bytes → WriteBatch → Map Bytes Bytes
write_all db [] = db
write_all db (put_op key value ∷ wb) = write_all (insert key value db) wb
write_all db (delete_op key ∷ wb) = write_all (remove key db) wb

abbrev in_range : Bytes → Bytes → Bytes → Bool
in_range lower upper key = not (bytes_lt key lower) && bytes_lt key upper

-- An entry put into its place.
unfoldable pub place : Bytes → Bytes → Map Bytes Bytes → Map Bytes Bytes
place key value [] = (key, value) ∷ []
place key value ((j, w) ∷ m) =
    let rest = (j, w) ∷ place key value m in
    if bytes_lt key j
    then (key, value) ∷ (j, w) ∷ m
    else if bytes_eq key j
    then (key, value) ∷ m
    else rest

unfoldable pub scan : Bytes → Bytes → Map Bytes Bytes → Map Bytes Bytes
scan lower upper [] = []
scan lower upper ((key, value) ∷ db) =
    let rest = scan lower upper db in
    if in_range lower upper key then place key value rest else rest

abbrev pub memory_db : RocksDb
memory_db = record {
  Db = Map Bytes Bytes;
  get_opt = λ db key. get db key;
  write_opt = write_all;
  iterate = λ db lower upper. scan lower upper db;
}

get-write_all :
    (db : Map Bytes Bytes) (wb : WriteBatch) (key : Bytes)
    → get (write_all db wb) key ≡ after wb key (get db key)
unfolding write_all after
get-write_all db [] key = refl
get-write_all db (put_op k v ∷ wb) key =
    rw (get-write_all (insert k v db) wb key) (rw (get-insert k key v db) refl)
get-write_all db (delete_op k ∷ wb) key =
    rw (get-write_all (remove k db) wb key) (rw (get-remove k key db) refl)

get-place :
    (k key value : Bytes) (m : Map Bytes Bytes)
    → get (place key value m) k ≡ (if bytes_eq key k then some value else get m k)
unfolding place get
get-place k key value [] = ground arith
get-place k key value ((j, w) ∷ m) =
    ground
      (arith, get-place k key value m, bytes_eq_iff key k, bytes_eq_iff j k, bytes_eq_iff key j)

get-scan :
    (db : Map Bytes Bytes) (lower upper key : Bytes)
    → get (scan lower upper db) key ≡ (if in_range lower upper key then get db key else none)
unfolding scan get
get-scan [] lower upper key = ground arith
get-scan ((k, v) ∷ db) lower upper key = ground (
  arith,
  get-scan db lower upper key,
  get-place key k v (scan lower upper db),
  bytes_eq_iff k key,
)

AllAbove-place :
    (k key value : Bytes) (m : Map Bytes Bytes)
    → bytes_lt k key ≡ true
    → AllAbove k m
    → AllAbove k (place key value m)
unfolding place
AllAbove-place k key value [] h a = (h, tt)
AllAbove-place k key value ((j, w) ∷ m) h (b, a) = ground (arith, AllAbove-place k key value m h a)

place-IsSorted :
    (key value : Bytes) (m : Map Bytes Bytes) → IsSorted m → IsSorted (place key value m)
unfolding place
place-IsSorted key value [] s = (tt, tt)
place-IsSorted key value ((j, w) ∷ m) (a, s) = elim (Bool-cases (bytes_lt key j)) [
  | inl e ↦ rw e ((e, AllAbove-trans key j m e a), (a, s))
  | inr e ↦ elim (Bool-cases (bytes_eq key j)) [
    | inl e1 ↦ rw (e, e1) (subst (λ x. AllAbove x m) (sym ((bytes_eq_iff key j).0 e1)) a, s)
    | inr e1 ↦
        rw (e, e1)
          (AllAbove-place j key value m (bytes_lt_total key j e e1) a, place-IsSorted key value m s)
  ]
]

scan-IsSorted : (db : Map Bytes Bytes) (lower upper : Bytes) → IsSorted (scan lower upper db)
unfolding scan
scan-IsSorted [] lower upper = tt
scan-IsSorted ((k, v) ∷ db) lower upper = elim (Bool-cases (in_range lower upper k)) [
  | inl e ↦ rw e (place-IsSorted k v (scan lower upper db) (scan-IsSorted db lower upper))
  | inr e ↦ rw e (scan-IsSorted db lower upper)
]

pub memory_db-laws : RocksDbLaws memory_db
memory_db-laws = record {
  get-write = get-write_all;
  get-iterate = get-scan;
  iterate-IsUnique = λ db lower upper. IsUnique-IsSorted _ (scan-IsSorted db lower upper);
  iterate-IsSorted = scan-IsSorted;
}
