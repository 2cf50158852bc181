-- ===== src/Mq/Apply/Poll.antt =====
-- apply.rs: the messages to the apply thread, writing the batch, and a round of the thread. The
-- clock and the metrics are left out; that a round is timed is a flag.
use auticuro.Prelude.{
  ℕ, Option, some, none, List, [], ◌∷◌, ◌++◌, true, false, ltb, ◌||◌, if◌then◌else◌, ◌>>?◌, assert,
  not, map,
}
use auticuro.Prelude.Map.{is_empty}
use auticuro.Prelude.Lists.{take, drop}
use auticuro.Storage.{Storage}
use auticuro.Mq.{RaftApplyState, Entry, RaftProtobuf}
use auticuro.Mq.Apply.{
  ApplyDelegate, ApplyContext, PendingCmd, Callback, Answers, invoke_with_response,
}
use auticuro.Mq.Apply.Exec.{Poll, handle_raft_committed_entries}

-- `Proposal` with the fields that are read here.
pub record Proposal : Type 0 where
  pub index : ℕ
  pub term : ℕ
  pub cb : Callback

pub record Apply : Type 0 where
  pub term : ℕ
  pub entries : List Entry
  pub cbs : List Proposal

-- A `Registration` after the first one is `unreachable!`.
pub data Msg : Type 0 where
  apply : Apply → Msg
  registration : Msg
  noop : Msg

-- `PendingCmd::new`
abbrev pub pending_cmd : Proposal → PendingCmd
pending_cmd p = record { index = p.index; term = p.term; cb = p.cb }

abbrev pub messages_per_tick : ℕ
messages_per_tick = 4096

-- The callbacks of a drained batch.
unfoldable pub invoke_all : Answers → Answers → Answers
invoke_all [] invoked = invoked
invoke_all ((cb, resp) ∷ batch) invoked = invoke_all batch (invoke_with_response cb resp invoked)

-- `entries.last()` of a list that is not empty.
abbrev pub last_of : Entry → List Entry → Entry
last_of e [] = e
last_of e (e' ∷ es) = last_of e' es

unfoldable pub set_commit : Entry → RaftApplyState → Option RaftApplyState
set_commit entry state =
    assert (not (ltb entry.index state.commit_index || ltb entry.term state.commit_term)) >>? λ _.
    some (record state { commit_index = entry.index; commit_term = entry.term })

abbrev pub append_proposal : List Proposal → ApplyDelegate → ApplyDelegate
append_proposal cbs self = record self { pending_cmds = self.pending_cmds ++ map pending_cmd cbs }

-- The state in which `handle_apply` starts on the entries.
abbrev pub start_apply : {st : Storage} → Apply → RaftApplyState → Poll st → Poll st
start_apply a state self = record {
  delegate = append_proposal a.cbs (record self.delegate { term = a.term; apply_state = state });
  ctx = record self.ctx { timer = true };
}

module _ (st : Storage) (pb : RaftProtobuf) where
  unfoldable pub write_to_db : ApplyContext st → ApplyContext st
  unfolding invoke_all
  write_to_db ctx = record ctx {
    engine = if is_empty ctx.kv_wb then ctx.engine else st.rocks.write_opt ctx.engine ctx.kv_wb;
    kv_wb = [];
    applied_batch = [];
    invoked = invoke_all ctx.applied_batch ctx.invoked;
  }

  -- `ApplyContext::flush`
  unfoldable pub flush : ApplyContext st → ApplyContext st
  unfolding write_to_db
  flush ctx =
      if ctx.timer
      then (let written = write_to_db ctx in
          record written {
            timer = false;
            apply_res = [];
            notified =
                if is_empty written.apply_res
                then written.notified
                else written.notified ++ written.apply_res ∷ [];
            committed_count = 0;
          })
      else ctx

  unfoldable pub handle_apply : Poll st → Apply → Option (Poll st)
  unfolding set_commit append_proposal
  handle_apply self a = elim a.entries [
    | [] ↦ none
    | e ∷ es ↦ set_commit (last_of e es) self.delegate.apply_state >>? λ state.
        handle_raft_committed_entries st pb (start_apply a state self) (e ∷ es)
  ]

  abbrev pub handle_task : Poll st → Msg → Option (Poll st)
  handle_task self (apply a) = handle_apply self a
  handle_task self registration = none
  handle_task self noop = some self

  unfoldable pub handle_tasks : Poll st → List Msg → Option (Poll st)
  unfolding handle_apply
  handle_tasks self [] = some self
  handle_tasks self (msg ∷ msgs) = elim (handle_task self msg) [
    | none ↦ none
    | some self1 ↦ handle_tasks self1 msgs
  ]

  -- `ApplyPoller::end`
  unfoldable pub end_round : Poll st → Poll st
  unfolding flush
  end_round self = record {
    delegate = record self.delegate {
      last_flush_applied_index = self.delegate.apply_state.applied_index;
    };
    ctx = flush self.ctx;
  }

  -- A round of `Poller::poll` on what is in the channel, and what stays there.
  unfoldable pub poll_round : Poll st → List Msg → Option (Poll st × List Msg)
  unfolding handle_tasks end_round
  poll_round self channel = handle_tasks self (take messages_per_tick channel) >>? λ self1.
      some (end_round self1, drop messages_per_tick channel)
