-- ===== src/Mq/Apply.antt =====
-- dependencies/tiny-mq/src/apply.rs: the thread that applies the committed entries of the raft log
-- and answers the commands that wait for them. The reading of the entries is in `Exec`, a round of
-- the thread in `Poll`.
--
-- A callback is a number; what is invoked is logged. A command that waits always has its callback,
-- so `Option<Callback>` is a `Callback`. The maps `wallet_map` and `dedup_map` are filled and never
-- read, and `should_sync_log` is constantly false: both are left out.
pub mod Exec
pub mod Poll
pub mod Callbacks
pub mod Saved
pub mod Answered
pub mod Stepped
pub mod Total
use auticuro.Prelude.{
  ℕ, Bytes, Option, some, none, List, [], ◌∷◌, ◌++◌, Bool, true, false, ◌&&◌, ◌||◌, ltb, ◌==◌,
  if◌then◌else◌, ◌-◌, ◌^◌,
}
use auticuro.Storage.{Storage, WriteBatch}
use auticuro.Mq.{
  RaftApplyState, RaftTruncatedState, RaftCmdResponse, stale_command, err_resp, Entry,
}

-- msg.rs: `Callback` without the hooks for proposals.
pub data Callback : Type 0 where
  no_callback : Callback
  read : ℕ → Callback
  write : ℕ → Callback

pub record PendingCmd : Type 0 where
  pub index : ℕ
  pub term : ℕ
  pub cb : Callback

pub data ExecResult : Type 0 where
  compact_log_result : RaftTruncatedState → ℕ → ExecResult

-- `ApplyResult` is an optional `ExecResult`.
abbrev pub ApplyResult : Type 0
ApplyResult = Option ExecResult

pub record ApplyRes : Type 0 where
  pub region_id : ℕ
  pub apply_state : RaftApplyState
  pub applied_index_term : ℕ
  pub exec_res : List ExecResult

pub record ApplyDelegate : Type 0 where
  pub region_id : ℕ
  pub term : ℕ
  pub pending_cmds : List PendingCmd
  pub apply_state : RaftApplyState
  pub applied_index_term : ℕ
  pub last_flush_applied_index : ℕ

abbrev pub Answers : Type 0
Answers = List (Callback × RaftCmdResponse)

-- `ApplyContext`. `invoked` logs the invoked callbacks, `notified` what the notifier was given.
pub record ApplyContext (st : Storage) : Type 0 where
  pub timer : Bool
  pub engine : st.rocks.Db
  pub kv_wb : WriteBatch
  pub applied_batch : Answers
  pub apply_res : List ApplyRes
  pub committed_count : ℕ
  pub invoked : Answers
  pub notified : List (List ApplyRes)

-- `Callback::invoke_with_response`
abbrev pub invoke_with_response : Callback → RaftCmdResponse → Answers → Answers
invoke_with_response no_callback resp invoked = invoked
invoke_with_response (read n) resp invoked = invoked ++ (read n, resp) ∷ []
invoke_with_response (write n) resp invoked = invoked ++ (write n, resp) ∷ []

-- `(cmd.term, cmd.index) > (term, index)`
abbrev pub is_after : PendingCmd → ℕ → ℕ → Bool
is_after cmd term index = ltb term cmd.term || (term == cmd.term && ltb index cmd.index)

-- What `find_pending` leaves behind.
pub record Found (st : Storage) : Type 0 where
  pub callback : Option Callback
  pub queue : List PendingCmd
  pub ctx : ApplyContext st

module _ {st : Storage} where
  -- `notify_stale_command`, `notify_stale_req`
  abbrev pub notify_stale_command : ℕ → PendingCmd → ApplyContext st → ApplyContext st
  notify_stale_command term cmd ctx = record ctx {
    invoked = invoke_with_response cmd.cb (err_resp stale_command term) ctx.invoked;
  }

  -- `ApplyCallbackBatch::push_cb`
  abbrev pub push_cb : Callback → RaftCmdResponse → ApplyContext st → ApplyContext st
  push_cb cb resp ctx = record ctx { applied_batch = ctx.applied_batch ++ (cb, resp) ∷ [] }

  -- `ApplyCallbackBatch::push`
  abbrev pub push : Option Callback → RaftCmdResponse → ApplyContext st → ApplyContext st
  push none resp ctx = ctx
  push (some cb) resp ctx = push_cb cb resp ctx

  -- The loop of `handle_raft_entry_normal` for an entry with no data: it pops, by `pop_normal`, the
  -- commands of earlier terms. What is left stays in the queue.
  unfoldable pub pop_stale :
      ℕ → List PendingCmd → ApplyContext st → List PendingCmd × ApplyContext st
  pop_stale term [] ctx = ([], ctx)
  pop_stale term (cmd ∷ cmds) ctx =
      let rest = pop_stale term cmds (push_cb cmd.cb (err_resp stale_command term) ctx) in
      if is_after cmd (term - 1) (2 ^ 64 - 1) then (cmd ∷ cmds, ctx) else rest

  -- `self_term` is the term of the delegate. `none` is the panic on an unexpected callback.
  unfoldable pub find_pending : ℕ → ℕ → ℕ → List PendingCmd → ApplyContext st → Option (Found st)
  find_pending self_term index term [] ctx =
      some (record { callback = none; queue = []; ctx = ctx })
  find_pending self_term index term (head ∷ cmds) ctx =
      let rest = find_pending self_term index term cmds (notify_stale_command self_term head ctx) in
      if is_after head term index
      then some (record { callback = none; queue = head ∷ cmds; ctx = ctx })
      else if head.term == term
      then if head.index == index
        then some (record { callback = some head.cb; queue = cmds; ctx = ctx })
        else none
      else rest
