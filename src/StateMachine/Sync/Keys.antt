-- ===== src/StateMachine/Sync/Keys.antt =====
-- Equality of the wallet's keys.
use auticuro.Prelude.{ℕ, ◌≡◌, refl, Bytes, bytes_eq, ◌==◌, ◌<◌, ◌^◌, false, ◌∙◌}
use auticuro.Keys.{data_key, dedup_key, event_key, BigEndian, BigEndianLaws}
use auticuro.Keys.RaftLog.{bytes_eq-write}

-- Keys of one family are equal as what they are made from.
pub data-data : (a b : Bytes) → bytes_eq (data_key a) (data_key b) ≡ bytes_eq a b
unfolding bytes_eq
data-data a b = refl

pub dedup-dedup : (a b : Bytes) → bytes_eq (dedup_key a) (dedup_key b) ≡ bytes_eq a b
unfolding bytes_eq
dedup-dedup a b = refl

event-bytes : (a b : Bytes) → bytes_eq (event_key a) (event_key b) ≡ bytes_eq a b
unfolding bytes_eq
event-bytes a b = refl

pub event-event :
    (be : BigEndian) (laws : BigEndianLaws be) (m n : ℕ)
    → m < 2 ^ 64
    → n < 2 ^ 64
    → bytes_eq (event_key (be.write_u64 m)) (event_key (be.write_u64 n)) ≡ (m == n)
event-event be laws m n hm hn =
    event-bytes (be.write_u64 m) (be.write_u64 n) ∙ bytes_eq-write be laws m n hm hn

-- Keys of different families are different.
pub data-dedup : (a b : Bytes) → bytes_eq (data_key a) (dedup_key b) ≡ false
unfolding bytes_eq
data-dedup a b = refl

pub data-event : (a b : Bytes) → bytes_eq (data_key a) (event_key b) ≡ false
unfolding bytes_eq
data-event a b = refl

pub dedup-data : (a b : Bytes) → bytes_eq (dedup_key a) (data_key b) ≡ false
unfolding bytes_eq
dedup-data a b = refl

pub dedup-event : (a b : Bytes) → bytes_eq (dedup_key a) (event_key b) ≡ false
unfolding bytes_eq
dedup-event a b = refl

pub event-data : (a b : Bytes) → bytes_eq (event_key a) (data_key b) ≡ false
unfolding bytes_eq
event-data a b = refl

pub event-dedup : (a b : Bytes) → bytes_eq (event_key a) (dedup_key b) ≡ false
unfolding bytes_eq
event-dedup a b = refl
