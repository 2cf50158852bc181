-- ===== src/Keys/Separation.antt =====
-- The key families of the wallet's database do not overlap, and their scans see one family.
use auticuro.Prelude.{
  ◌≡◌, ◌↔◌, refl, Bytes, true, not, ◌&&◌, some, none, arith, [], ◌∷◌, bytes_lt, starts_with,
}
use auticuro.Keys.{
  data_key, dedup_key, event_key, data_min_key, data_max_key, validate_data_key, origin_data_key,
  origin_dedup_key,
}

-- A data key gives back the account id that it was made from, and so does a dedup key its command
-- id; each of the two is refused by the other's reader, and an event key by both.
pub origin_keys :
    (key : Bytes)
    → (origin_data_key (data_key key) ≡ some key)
      × (origin_dedup_key (dedup_key key) ≡ some key)
      × (origin_data_key (dedup_key key) ≡ none)
      × (origin_dedup_key (data_key key) ≡ none)
      × (origin_data_key (event_key key) ≡ none)
      × (origin_dedup_key (event_key key) ≡ none)
unfolding origin_data_key origin_dedup_key starts_with
origin_keys key = (refl, refl, refl, refl, refl, refl)

-- A scan from `DATA_MIN_KEY` up to `DATA_MAX_KEY` sees the keys with the data prefix and no other.
pub data_range_iff :
    (key : Bytes)
    → ((not (bytes_lt key data_min_key) && bytes_lt key data_max_key) ≡ true)
      ↔ (validate_data_key key ≡ true)
unfolding bytes_lt starts_with
data_range_iff [] = (λ h. cc, λ h. cc)
data_range_iff (c ∷ []) = (λ h. ground arith, λ h. ground arith)
data_range_iff (c ∷ d ∷ cs) = (λ h. ground arith, λ h. ground arith)
