-- ===== src/Tests/RaftLog.antt =====
-- A small raft log, on which the examples of the message queue build: a command of one message and
-- an entry with no data.
use auticuro.Prelude.{
  Bool, true, false, Option, ◌==◌, if◌then◌else◌, ℕ, Bytes_eq, ◌≡◌, refl, ◌∙◌, Bytes, bytes,
  bytes_eq, bytes_eq_iff, Bool-cases, inl, inr, none, some, List, [], ◌∷◌, ◌<◌, ◌^◌, arith,
  none_ne_some,
}
use auticuro.Prelude.Map.{Map, get, insert, get-insert}
use auticuro.Keys.{raft_log_key}
use auticuro.Keys.Digits.{digits_be, digits_be-laws}
use auticuro.Storage.Memory.{memory}
use auticuro.Mq.{Entry, entry_normal, RaftCmdRequest, message_queue}
use auticuro.Mq.Memory.{raft_memory, command}
use auticuro.Mq.Engine.Stored.{Holds, bytes_of, raft_log_key-eq}
use auticuro.Mq.Engine.Items.{Has, OnlyRaftKeys}

abbrev pub asked : RaftCmdRequest
asked = record {
  uuid = bytes "u";
  requests = record { cmd_type = message_queue; payload = bytes "m" } ∷ [];
  admin_request = none;
}

abbrev pub message_entry : Entry
message_entry = record {
  entry_type = entry_normal;
  term = 6;
  index = 6;
  payload = command.encode asked;
}

abbrev pub empty_entry : Entry
empty_entry = record { entry_type = entry_normal; term = 6; index = 7; payload = [] }

abbrev pub log : List Entry
log = message_entry ∷ empty_entry ∷ []

abbrev pub log_db : Map Bytes Bytes
log_db =
    insert (raft_log_key digits_be 1 7) (raft_memory.entry_bytes empty_entry)
      (insert (raft_log_key digits_be 1 6) (raft_memory.entry_bytes message_entry) [])

abbrev log_key : ℕ → Bytes
log_key i = raft_log_key digits_be 1 i

get_two :
    (j : ℕ) (v w : Bytes)
    → j < 2 ^ 64
    → get (insert (log_key 7) v (insert (log_key 6) w [])) (log_key j)
      ≡ (if 7 == j then some v else if 6 == j then some w else none)
unfolding get
get_two j v w h =
    get-insert (log_key 7) (log_key j) v (insert (log_key 6) w [])
    ∙ rw
        (
          get-insert (log_key 6) (log_key j) w [],
          raft_log_key-eq digits_be digits_be-laws 1 7 j (omega arith) (omega arith) h,
          raft_log_key-eq digits_be digits_be-laws 1 6 j (omega arith) (omega arith) h,
        )
        refl

either :
    (v w : Option Bytes) (j : ℕ)
    → (if 7 == j then v else if 6 == j then w else none)
      ≡ (if 6 == j then w else if 7 == j then v else none)
either v w j = ground arith

bytes_of_if :
    (a b : Bool) (e f : Entry)
    → (if a
        then some (raft_memory.entry_bytes e)
        else if b
        then some (raft_memory.entry_bytes f)
        else none)
      ≡ bytes_of memory raft_memory (if a then some e else if b then some f else none)
bytes_of_if true b e f = refl
bytes_of_if false true e f = refl
bytes_of_if false false e f = refl

pub log_db-Holds : Holds memory raft_memory log_db 1 6 log
log_db-Holds = (
  (refl, (refl, tt)),
  λ i a b. get_two i _ _ b ∙ either _ _ i ∙ bytes_of_if (6 == i) (7 == i) _ _,
)

pub log_db-Has : Has memory raft_memory log_db 1 6 log
log_db-Has = (log_db-Holds.0, λ j a b. log_db-Holds.1 j a (omega arith))

only_insert :
    (r i : ℕ) (value : Bytes) (db : Map Bytes Bytes)
    → r < 2 ^ 64
    → i < 2 ^ 64
    → OnlyRaftKeys memory raft_memory db
    → OnlyRaftKeys memory raft_memory (insert (raft_log_key digits_be r i) value db)
only_insert r i value db hr hi only key v h =
    elim (Bool-cases (bytes_eq (raft_log_key digits_be r i) key)) [
      | inl e ↦ inl (r, i, hr, hi, ground (arith, e, bytes_eq_iff (raft_log_key digits_be r i) key))
      | inr e ↦ only key v (rw (get-insert (raft_log_key digits_be r i) key value db, e) at h)
    ]

pub log_db-OnlyRaftKeys : OnlyRaftKeys memory raft_memory log_db
unfolding get
log_db-OnlyRaftKeys =
    only_insert 1 7 _ _ (omega arith) (omega arith)
      (only_insert 1 6 _ [] (omega arith) (omega arith) (λ key v h. absurd (none_ne_some h)))
