-- ===== src/Tests/PeerStorage.antt =====
-- Examples for the storage of a peer: the initial one takes over two entries.
use auticuro.Prelude.{
  ◌≡◌, ℕ, refl, ◌+◌, ◌<◌, ◌≤◌, Bytes_eq, Bytes, ◌∙◌, ◌^◌, some, [], arith, beq_refl,
}
use auticuro.Prelude.Map.{Map, get, insert, get-insert}
use auticuro.Keys.{raft_state_key, raft_log_key, apply_state_key}
use auticuro.Keys.Digits.{digits_be, digits_be-laws}
use auticuro.Storage.Memory.{memory, memory-laws}
use auticuro.Mq.{Entry, RaftLocalState, RaftApplyState}
use auticuro.Mq.Memory.{raft_memory, raft_memory-laws}
use auticuro.Mq.Engine.Stored.{bytes_of, entry_of}
use auticuro.Mq.PeerStorage.{
  new_storage, PeerStorage, Ready, term, truncated_index, truncated_term, last_index,
}
use auticuro.Mq.PeerStorage.Sound.{IsSound, with_commit}
use auticuro.Mq.PeerStorage.Replaced.{state_key-ne-log_key}
use auticuro.Mq.PeerStorage.Written.{taken_over, handle_raft_ready-IsSound}
use auticuro.Mq.PeerStorage.Term.{term_lem}
use auticuro.Mq.PeerStorage.Restart.{new_storage-restores}
use auticuro.Tests.RaftLog.{log, log_db, log_db-Holds, message_entry}

abbrev initial_state : RaftLocalState
initial_state = record { hard_state = record { term = 5; vote = 0; commit = 5 }; last_index = 5 }

abbrev initial : PeerStorage memory
initial = record {
  engines = record {
    kv = [];
    raft = insert (raft_state_key digits_be 1) (raft_memory.raft_state_bytes initial_state) [];
  };
  region_id = 1;
  raft_state = initial_state;
  apply_state = record {
    applied_index = 5;
    commit_index = 0;
    commit_term = 0;
    truncated_state = record { index = 5; term = 5 };
  };
  applied_index_term = 5;
  last_term = 5;
}

initial-IsSound : IsSound memory raft_memory initial []
unfolding get insert
initial-IsSound = record {
  holds =
      (tt, λ i a b. rw (state_key-ne-log_key digits_be digits_be-laws 1 i (omega arith) b) refl);
  last = refl;
  last_of_log = refl;
  rising = tt;
  saved_commit = 5;
  saved = rw (beq_refl (raft_state_key digits_be 1)) refl;
  lags = omega arith;
  started = omega arith;
  start_term = λ h. refl;
  small = omega arith;
  region_small = omega arith;
}

abbrev ready : Ready
ready = record { entries = log; hs = some (record { term = 6; vote = 2; commit = 6 }) }

abbrev taken : PeerStorage memory
taken = taken_over memory raft_memory initial ready

taken-IsSound : IsSound memory raft_memory taken log
taken-IsSound =
    handle_raft_ready-IsSound memory raft_memory memory-laws initial [] [] ready initial-IsSound
      (refl, (refl, tt)) (omega arith, (omega arith, tt)) (omega arith)

handle_raft_ready-IsSound_example : IsSound memory raft_memory taken log
handle_raft_ready-IsSound_example =
    handle_raft_ready-IsSound memory raft_memory memory-laws initial [] [] ready initial-IsSound
      (refl, (refl, tt)) (omega arith, (omega arith, tt)) (omega arith)

term_lem_example :
    (term memory raft_memory taken (truncated_index taken) ≡ some (truncated_term taken))
    × ((idx : ℕ)
        → truncated_index taken < idx
        → idx ≤ last_index taken
        → (e : Entry) × (entry_of (truncated_index taken + 1) log idx ≡ some e)
          × (term memory raft_memory taken idx ≡ some e.term))
term_lem_example = term_lem memory raft_memory memory-laws raft_memory-laws taken log taken-IsSound

abbrev log_state : RaftLocalState
log_state = record { hard_state = record { term = 6; vote = 2; commit = 7 }; last_index = 7 }

abbrev half_applied : RaftApplyState
half_applied = record {
  applied_index = 6;
  commit_index = 6;
  commit_term = 6;
  truncated_state = record { index = 5; term = 5 };
}

-- A storage with a log, whose raft state on disk is behind the recorded commit index.
abbrev with_log : PeerStorage memory
with_log = record {
  engines = record {
    kv = insert (apply_state_key digits_be 1) (raft_memory.apply_state_bytes half_applied) [];
    raft =
        insert (raft_state_key digits_be 1) (raft_memory.raft_state_bytes (with_commit 5 log_state))
          log_db;
  };
  region_id = 1;
  raft_state = log_state;
  apply_state = half_applied;
  applied_index_term = 6;
  last_term = 6;
}

log_bytes :
    (v : Bytes) (i : ℕ)
    → 6 ≤ i
    → i < 2 ^ 64
    → get (insert (raft_state_key digits_be 1) v log_db) (raft_log_key digits_be 1 i)
      ≡ bytes_of memory raft_memory (entry_of 6 log i)
log_bytes v i a b =
    get-insert (raft_state_key digits_be 1) (raft_log_key digits_be 1 i) v log_db
    ∙ rw (state_key-ne-log_key digits_be digits_be-laws 1 i (omega arith) b) (log_db-Holds.1 i a b)

stored_state : (k v : Bytes) (db : Map Bytes Bytes) → get (insert k v db) k ≡ some v
stored_state k v db = get-insert k k v db ∙ rw (beq_refl k) refl

abbrev with_log-IsSound : IsSound memory raft_memory with_log log
with_log-IsSound = record {
  holds = (log_db-Holds.0, log_bytes _);
  last = refl;
  last_of_log = refl;
  rising = (omega arith, (omega arith, tt));
  saved_commit = 5;
  saved = stored_state _ _ _;
  lags = omega arith;
  started = omega arith;
  start_term = λ h. refl;
  small = omega arith;
  region_small = omega arith;
}

new_storage-restores_example :
    new_storage memory raft_memory with_log.engines 1
    ≡ some (record with_log { raft_state = with_commit 6 log_state })
new_storage-restores_example =
    new_storage-restores memory raft_memory raft_memory-laws with_log log with_log-IsSound
      (stored_state _ _ _)
      (record {
        behind = omega arith;
        at_start = λ h. absurd (omega arith);
        in_log = λ h. (message_entry, refl, refl);
      })
      (λ h. (message_entry, refl, refl)) (omega arith) (omega arith) (omega arith)
