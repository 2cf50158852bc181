-- ===== src/Tests/Applying.antt =====
-- Examples for the apply thread, and for the wallet behind it.
use auticuro.Prelude.{
  ◌≡◌, ℕ, refl, ◌+◌, Bytes_eq, some, List, [], ◌∷◌, arith, inl, inr, map, false, beq_refl,
}
use auticuro.Prelude.Lists.{take}
use auticuro.Prelude.Map.{get, insert}
use auticuro.Keys.{apply_state_key}
use auticuro.Keys.Digits.{digits_be}
use auticuro.Storage.Memory.{memory, memory-laws}
use auticuro.Mq.{RaftApplyState}
use auticuro.Mq.Memory.{raft_memory, parse-command}
use auticuro.Mq.Apply.{write, Answers}
use auticuro.Mq.Apply.Exec.{Poll}
use auticuro.Mq.Apply.Poll.{
  Apply, Msg, apply, noop, handle_apply, poll_round, handle_tasks, pending_cmd, end_round,
}
use auticuro.Mq.Apply.Saved.{IsResting, poll_round-IsResting}
use auticuro.Mq.Apply.Answered.{Matches, IsLog}
use auticuro.Mq.Apply.Total.{handle_apply_total, IsDone}
use auticuro.Mq.Apply.Callbacks.{queue_calls, answer_calls, message_calls}
use auticuro.Tests.RaftLog.{log, message_entry, empty_entry, asked}

abbrev pub state : RaftApplyState
state = record {
  applied_index = 5;
  commit_index = 0;
  commit_term = 0;
  truncated_state = record { index = 5; term = 5 };
}

-- The thread before its first task.
abbrev pub idle : Poll memory
idle = record {
  delegate = record {
    region_id = 1;
    term = 6;
    pending_cmds = [];
    apply_state = state;
    applied_index_term = 5;
    last_flush_applied_index = 5;
  };
  ctx = record {
    timer = false;
    engine = insert (apply_state_key digits_be 1) (raft_memory.apply_state_bytes state) [];
    kv_wb = [];
    applied_batch = [];
    apply_res = [];
    committed_count = 0;
    invoked = [];
    notified = [];
  };
}

-- The client of the message waits.
abbrev task : Apply
task = record { term = 6; entries = log; cbs = record { index = 6; term = 6; cb = write 3 } ∷ [] }

pub log-IsLog : IsLog raft_memory 5 0 log
log-IsLog = (
  refl,
  omega arith,
  omega arith,
  omega arith,
  refl,
  inr (asked, refl, parse-command asked, inr (refl, (refl, tt))),
  (refl, omega arith, omega arith, omega arith, refl, inl refl, tt),
)

task-Matches : Matches raft_memory log (map pending_cmd task.cbs)
task-Matches =
    Matches.asked message_entry _ refl refl refl (Matches.unasked empty_entry Matches.done)

abbrev Done : Type 0
Done =
    (p' : Poll memory) × (new : Answers) × (handle_apply memory raft_memory idle task ≡ some p')
    × IsDone raft_memory idle log (map pending_cmd task.cbs) new p'

done_once : Done
done_once =
    handle_apply_total raft_memory idle task message_entry (empty_entry ∷ []) 0 refl refl
      task-Matches log-IsLog (omega arith) (omega arith)

handle_apply_total_example : Done
handle_apply_total_example =
    handle_apply_total raft_memory idle task message_entry (empty_entry ∷ []) 0 refl refl
      task-Matches log-IsLog (omega arith) (omega arith)

abbrev channel : List Msg
channel = noop ∷ apply task ∷ []

abbrev after_round : Poll memory
after_round = end_round memory raft_memory done_once.0

round_from :
    (p p1 : Poll memory) (a : Apply)
    → handle_apply memory raft_memory p a ≡ some p1
    → poll_round memory raft_memory p (noop ∷ apply a ∷ [])
      ≡ some (end_round memory raft_memory p1, [])
unfolding poll_round handle_tasks
round_from p p1 a h = rw (h, handle_tasks) refl

round_run : poll_round memory raft_memory idle channel ≡ some (after_round, [])
round_run = round_from idle done_once.0 task done_once.2

idle-IsResting : IsResting raft_memory idle
unfolding get insert
idle-IsResting = record {
  stopped = refl;
  answered = refl;
  written = refl;
  saved = rw (beq_refl (apply_state_key digits_be 1)) refl;
}

poll_round-IsResting_example :
    IsResting raft_memory after_round
    × (after_round.delegate.last_flush_applied_index
        ≡ after_round.delegate.apply_state.applied_index)
    × ((n : ℕ)
        → queue_calls n after_round.delegate.pending_cmds + answer_calls n after_round.ctx.invoked
          ≡ message_calls n (take 4096 channel) + queue_calls n [] + answer_calls n [])
poll_round-IsResting_example =
    poll_round-IsResting raft_memory memory-laws idle after_round channel [] idle-IsResting
      round_run
