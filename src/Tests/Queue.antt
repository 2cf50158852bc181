-- ===== src/Tests/Queue.antt =====
-- Examples for the raft log in RocksDB and for the consumer of the queue.
use auticuro.Prelude.{
  ◌≡◌, ℕ, refl, ◌*◌, ◌≤◌, Bytes, Bytes_eq, bytes, some, List, [], ◌∷◌, arith, beq_refl,
}
use auticuro.Prelude.Map.{get, insert, get-insert}
use auticuro.Keys.{apply_state_key}
use auticuro.Keys.Digits.{digits_be}
use auticuro.Storage.Memory.{memory, memory-laws}
use auticuro.Mq.{RaftApplyState}
use auticuro.Mq.Memory.{raft_memory, raft_memory-laws}
use auticuro.Mq.Engine.{fetch_entries_to}
use auticuro.Mq.Engine.Items.{limited}
use auticuro.Mq.Engine.Fetch.{fetch_entries_to-limited}
use auticuro.Mq.Consumer.{Engines, LogEntry, consume_all, init_apply_state, parse_entries}
use auticuro.Mq.Consumer.Counts.{AllAtLeast}
use auticuro.Mq.Consumer.Sends.{consume_all-sends, IsView}
use auticuro.Tests.RaftLog.{log, log_db, log_db-Has, log_db-OnlyRaftKeys}

fetch_entries_to-limited_example :
    fetch_entries_to memory raft_memory log_db 1 6 8 (some 12)
    ≡ some (limited memory raft_memory 12 0 log)
fetch_entries_to-limited_example =
    fetch_entries_to-limited memory raft_memory memory-laws raft_memory-laws 1 (omega arith) log_db
      log_db-OnlyRaftKeys 6 8 log log_db-Has refl (omega arith) (some 12) (omega arith)

-- Both entries are applied.
abbrev applied_both : RaftApplyState
applied_both = record {
  applied_index = 7;
  commit_index = 7;
  commit_term = 6;
  truncated_state = record { index = 5; term = 5 };
}

abbrev engines : Engines memory
engines = record {
  kv = insert (apply_state_key digits_be 1) (raft_memory.apply_state_bytes applied_both) [];
  raft = log_db;
}

applied_run : init_apply_state memory raft_memory engines 1 ≡ some applied_both
unfolding init_apply_state get
applied_run =
    rw
      (get-insert (apply_state_key digits_be 1) (apply_state_key digits_be 1)
        (raft_memory.apply_state_bytes applied_both) [])
      (rw (beq_refl (apply_state_key digits_be 1)) refl)

abbrev messages : List (LogEntry Bytes)
messages = (6, bytes "m" ∷ []) ∷ (7, []) ∷ []

parse_run : parse_entries some raft_memory log ≡ some messages
unfolding parse_entries
parse_run = refl

view :
    IsView memory raft_memory {T = Bytes} some memory-laws raft_memory-laws 1
      (omega arith)
      6
      log
      messages
      parse_run
      (omega arith)
      (omega arith)
      (omega arith)
      engines
      2
view = record {
  state = applied_both;
  stored = applied_run;
  kept = omega arith;
  applied = refl;
  within = omega arith;
  has = log_db-Has;
  only = log_db-OnlyRaftKeys;
}

consume_all-sends_example :
    (consume_all memory raft_memory {T = Bytes} some
        (engines ∷ engines ∷ [])
        1
        (record { log_index = 6; sender = [] })
      ≡ some (record { log_index = 8; sender = messages }))
    × ((n : ℕ) → AllAtLeast n (2 ∷ 2 ∷ []) → n ≤ 1001 * 2 → n ≤ 2)
consume_all-sends_example =
    consume_all-sends memory raft_memory {T = Bytes} some memory-laws raft_memory-laws 1
      (omega arith) 6 log messages parse_run (omega arith) (omega arith) (omega arith)
      (engines ∷ engines ∷ []) (2 ∷ 2 ∷ []) (view, (view, tt))
