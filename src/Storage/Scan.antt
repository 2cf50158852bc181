-- ===== src/Storage/Scan.antt =====
-- What the scan of `read_accounts_from_db` builds.
use auticuro.Prelude.{
  ◌≡◌, refl, Bytes, Str, Option, none, some, List, [], ◌∷◌, true, bytes_eq, bytes_eq_iff, Bytes_eq,
  arith, beq_refl, ◌∙◌, subst, sym, starts_with,
}
use auticuro.Prelude.Lists.{drop}
use auticuro.Prelude.Map.{Map, get, insert, IsUnique, get-insert}
use auticuro.Proto.{Account}
use auticuro.Keys.{data_key, validate_data_key}
use auticuro.Keys.Separation.{origin_keys}
use auticuro.Storage.{Storage, recover_account, recover_accounts}

-- A key of the data family is made from an id.
pub data_key-drop : (key : Bytes) → validate_data_key key ≡ true → key ≡ data_key (drop 1 key)
unfolding starts_with
data_key-drop [] h = cc
data_key-drop (c ∷ key) h = ground arith

module _ (st : Storage) where
  -- Every entry of the scan is an account under its data key.
  abbrev pub IsReadable : List (Bytes × Bytes) → Type 0
  IsReadable entries =
      (key value : Bytes)
      → get entries key ≡ some value
      → (id : Str) × (a : Account) × (key ≡ data_key id) × (st.pb.parse_account value ≡ some a)

  -- What is known of an id after the scan.
  abbrev pub scanned : Option Bytes → Option Account → Option Account
  scanned none old = old
  scanned (some value) old = st.pb.parse_account value

  IsReadable-tail :
      (k v : Bytes) (entries : List (Bytes × Bytes))
      → get entries k ≡ none
      → IsReadable ((k, v) ∷ entries)
      → IsReadable entries
  unfolding get
  IsReadable-tail k v entries fresh readable key value h =
      readable key value (ground (arith, bytes_eq_iff k key))

  recover_account-data_key :
      (m : Map Str Account) (id : Str) (v : Bytes) (a : Account)
      → st.pb.parse_account v ≡ some a
      → recover_account st m (data_key id, v) ≡ some (insert id a m)
  unfolding recover_account
  recover_account-data_key m id v a parsed = rw ((origin_keys id).0, parsed) refl

  scanned-head :
      (id j : Str) (v : Bytes) (a : Account) (entries : List (Bytes × Bytes)) (m : Map Str Account)
      → get entries (data_key id) ≡ none
      → st.pb.parse_account v ≡ some a
      → scanned (get entries (data_key j)) (get (insert id a m) j)
        ≡ scanned (get ((data_key id, v) ∷ entries) (data_key j)) (get m j)
  unfolding get bytes_eq
  scanned-head id j v a entries m fresh parsed =
      ground (arith, get-insert id j a m, bytes_eq_iff id j)

  -- The scan succeeds, and an id is found with the account that stands under its key.
  abbrev pub IsScanned : List (Bytes × Bytes) → Map Str Account → Type 0
  IsScanned entries m =
      (m' : Map Str Account) × (recover_accounts st m entries ≡ some m')
      × ((id : Str) → get m' id ≡ scanned (get entries (data_key id)) (get m id))

  IsScanned-head :
      (entries : List (Bytes × Bytes)) (m : Map Str Account) (id : Str) (v : Bytes) (a : Account)
      → st.pb.parse_account v ≡ some a
      → get entries (data_key id) ≡ none
      → IsScanned entries (insert id a m)
      → IsScanned ((data_key id, v) ∷ entries) m
  unfolding recover_accounts
  IsScanned-head entries m id v a parsed fresh (m', h, f) = (
    m',
    rw (recover_account-data_key m id v a parsed, recover_accounts) h,
    λ j. f j ∙ scanned-head id j v a entries m fresh parsed,
  )

  pub recover_accounts-IsScanned :
      (entries : List (Bytes × Bytes)) (m : Map Str Account)
      → IsUnique entries
      → IsReadable entries
      → IsScanned entries m
  unfolding recover_accounts get
  recover_accounts-IsScanned [] m unique readable = (m, refl, λ id. refl)
  recover_accounts-IsScanned ((k, v) ∷ entries) m unique readable =
      let (id, a, e, parsed) = readable k v (rw (beq_refl k) refl) in
      subst (λ j. IsScanned ((j, v) ∷ entries) m) (sym e)
        (IsScanned-head entries m id v a parsed (subst (λ j. get entries j ≡ none) e unique.0) (
          recover_accounts-IsScanned entries (insert id a m) unique.1
            (IsReadable-tail k v entries unique.0 readable)))
