-- ===== src/Mq/Apply/Exec.antt =====
-- apply.rs: executing the command of an entry, and the loop over the committed entries. `none` is a
-- panic.
use auticuro.Prelude.{
  ℕ, suc, ◌+◌, Option, some, none, List, [], ◌∷◌, ◌++◌, Bool, true, false, ltb, leb, ◌==◌,
  if◌then◌else◌, ◌>>?◌, assert, not, bytes, Result, ok, err, ◌>>=◌,
}
use auticuro.Prelude.Map.{is_empty}
use auticuro.Prelude.Lists.{length}
use auticuro.Storage.{Storage, put}
use auticuro.Keys.{apply_state_key}
use auticuro.Mq.{
  RaftApplyState, RaftCmdResponse, RaftCmdRequest, Request, Response, other, Entry, AdminRequest,
  AdminCmdType, compact_log, invalid_admin, CmdType, message_queue, invalid, default_response,
  bind_term, new_error, inc_u64, Error, EntryType, entry_normal, RaftProtobuf, entry_conf_change,
  entry_conf_change_v2,
}
use auticuro.Mq.Apply.{
  ApplyDelegate, ApplyContext, ApplyResult, ExecResult, compact_log_result, push, find_pending,
  pop_stale,
}

-- peer_storage.rs
abbrev pub first_index : RaftApplyState → ℕ
first_index state = inc_u64 state.truncated_state.index

abbrev pub outdated_message : Error
outdated_message = other (bytes "command format is outdated, please upgrade leader")

abbrev pub compacted_message : Error
compacted_message = other (bytes "try to truncate compacted entries")

-- The texts of this error with the numbers in it are left out.
abbrev pub not_applied_message : Error
not_applied_message = other (bytes "compact index > applied index")

unfoldable pub compact_raft_log : RaftApplyState → ℕ → ℕ → Result Error RaftApplyState
compact_raft_log state compact_index compact_term =
    if leb compact_index state.truncated_state.index
    then err compacted_message
    else if ltb state.applied_index compact_index
    then err not_applied_message
    else ok
        (record state { truncated_state = record { index = compact_index; term = compact_term } })

-- The apply state of the execution context is an argument, and a result: it changes only on success.
unfoldable pub exec_compact_log :
    RaftApplyState → AdminRequest → Result Error (ApplyResult × RaftApplyState)
unfolding compact_raft_log
exec_compact_log apply_state req =
    let first = first_index apply_state in
    if leb req.compact_log.compact_index first
    then ok (none, apply_state)
    else if req.compact_log.compact_term == 0
    then err outdated_message
    else (compact_raft_log apply_state req.compact_log.compact_index req.compact_log.compact_term
        >>= λ state. ok (some (compact_log_result state.truncated_state first), state))

-- A response, what it makes the raft store do, and the apply state after it.
abbrev pub Executed : Type 0
Executed = RaftCmdResponse × ApplyResult × RaftApplyState

abbrev pub admin_result :
    RaftApplyState → AdminRequest → AdminCmdType → Result Error (ApplyResult × RaftApplyState)
admin_result apply_state req compact_log = exec_compact_log apply_state req
admin_result apply_state req invalid_admin = err (other (bytes "unsupported admin command type"))

unfoldable pub exec_admin_cmd :
    RaftApplyState → RaftCmdRequest → AdminRequest → Result Error Executed
unfolding exec_compact_log
exec_admin_cmd apply_state req request = admin_result apply_state request request.cmd_type >>= λ r.
    ok (
      record default_response { uuid = req.uuid; admin_response = some request.cmd_type },
      r.0,
      r.1,
    )

-- The answer carries the position of the message in the log.
abbrev pub handle_message_queue : ℕ → ℕ → Response
handle_message_queue index offset = record {
  cmd_type = message_queue;
  message_queue = record { index = index; offset = offset; error = bytes "OK" };
}

abbrev pub write_response : CmdType → ℕ → ℕ → Option Response
write_response message_queue index offset = some (handle_message_queue index offset)
write_response invalid index offset = none

-- The loop of `exec_write_cmd` over the requests with their offsets.
unfoldable pub write_responses : ℕ → ℕ → List Request → Option (List Response)
write_responses index offset [] = some []
write_responses index offset (req ∷ reqs) =
    let rest = write_responses index (offset + 1) reqs in
    write_response req.cmd_type index offset >>? λ resp. rest >>? λ resps. some (resp ∷ resps)

unfoldable pub exec_write_cmd : RaftApplyState → ℕ → RaftCmdRequest → Option Executed
exec_write_cmd apply_state index req = write_responses index 0 req.requests >>? λ responses.
    some (record default_response { uuid = req.uuid; responses = responses }, none, apply_state)

-- `apply_raft_cmd` on the outcome of `exec_admin_cmd`: an error becomes the response, and the apply
-- state of before is kept.
abbrev pub executed : RaftApplyState → Result Error Executed → Executed
executed apply_state (ok e) = e
executed apply_state (err e) = (new_error e, none, apply_state)

unfoldable pub exec_raft_cmd : RaftApplyState → ℕ → RaftCmdRequest → Option Executed
unfolding exec_admin_cmd exec_write_cmd
exec_raft_cmd apply_state index req = elim req.admin_request [
  | some request ↦ some (executed apply_state (exec_admin_cmd apply_state req request))
  | none ↦ exec_write_cmd apply_state index req
]

abbrev pub set_applied_index : ℕ → RaftApplyState → RaftApplyState
set_applied_index index state = record state { applied_index = index }

-- `ApplyFsm` with the context of its thread.
pub record Poll (st : Storage) : Type 0 where
  pub delegate : ApplyDelegate
  pub ctx : ApplyContext st

-- `apply_raft_cmd`; the save points of the batch have no effect, since nothing is written to it.
unfoldable pub apply_raft_cmd :
    ApplyDelegate → ℕ → ℕ → RaftCmdRequest → Option (RaftCmdResponse × ApplyResult × ApplyDelegate)
unfolding exec_raft_cmd
apply_raft_cmd self index term req = exec_raft_cmd self.apply_state index req >>? λ e.
    some (
      e.0,
      e.1,
      record self { apply_state = set_applied_index index e.2; applied_index_term = term },
    )

abbrev pub is_normal : EntryType → Bool
is_normal entry_normal = true
is_normal entry_conf_change = false
is_normal entry_conf_change_v2 = false

abbrev pub push_result : ApplyResult → List ExecResult → List ExecResult
push_result none results = results
push_result (some r) results = results ++ r ∷ []

module _ (st : Storage) (pb : RaftProtobuf) where
  unfoldable pub process_raft_cmd :
      Poll st → ℕ → ℕ → RaftCmdRequest → Option (ApplyResult × Poll st)
  unfolding apply_raft_cmd
  process_raft_cmd self index term cmd = assert (not (index == 0)) >>? λ _.
      apply_raft_cmd self.delegate index term cmd >>? λ a.
      find_pending a.2.term index term a.2.pending_cmds self.ctx >>? λ found. some (
        a.1,
        record {
          delegate = record a.2 { pending_cmds = found.queue };
          ctx = push found.callback (bind_term a.0 a.2.term) found.ctx;
        },
      )

  -- An entry with no data.
  unfoldable pub apply_empty_entry : Poll st → ℕ → ℕ → Option (ApplyResult × Poll st)
  apply_empty_entry self index term = assert (ltb 0 term) >>? λ _.
      let (queue, ctx) = pop_stale term self.delegate.pending_cmds self.ctx in
      some (
        none,
        record {
          delegate = record self.delegate {
            apply_state = set_applied_index index self.delegate.apply_state;
            applied_index_term = term;
            pending_cmds = queue;
          };
          ctx = ctx;
        },
      )

  unfoldable pub handle_raft_entry_normal : Poll st → Entry → Option (ApplyResult × Poll st)
  unfolding process_raft_cmd apply_empty_entry
  handle_raft_entry_normal self entry =
      if is_empty entry.payload
      then apply_empty_entry self entry.index entry.term
      else (pb.parse_cmd entry.payload >>? λ cmd. process_raft_cmd self entry.index entry.term cmd)

  -- One round of the loop of `handle_raft_committed_entries`.
  unfoldable pub handle_committed_entry : Poll st → Entry → Option (ApplyResult × Poll st)
  unfolding handle_raft_entry_normal
  handle_committed_entry self entry =
      assert (inc_u64 self.delegate.apply_state.applied_index == entry.index) >>? λ _.
      assert (is_normal entry.entry_type) >>? λ _. handle_raft_entry_normal self entry

  unfoldable pub handle_entries :
      Poll st → List ExecResult → List Entry → Option (List ExecResult × Poll st)
  unfolding handle_committed_entry
  handle_entries self results [] = some (results, self)
  handle_entries self results (entry ∷ entries) = elim (handle_committed_entry self entry) [
    | none ↦ none
    | some (res, self1) ↦ handle_entries self1 (push_result res results) entries
  ]

  -- `finish_for`, with the apply state put into the batch.
  unfoldable pub finish_for : Poll st → List ExecResult → Poll st
  finish_for self results = record self {
    ctx = record self.ctx {
      kv_wb =
          put (apply_state_key st.be self.delegate.region_id)
            (pb.apply_state_bytes self.delegate.apply_state) self.ctx.kv_wb;
      apply_res =
          self.ctx.apply_res
          ++ record {
            region_id = self.delegate.region_id;
            apply_state = self.delegate.apply_state;
            applied_index_term = self.delegate.applied_index_term;
            exec_res = results;
          }
            ∷ [];
    };
  }

  -- `apply_ctx.committed_count += len`
  abbrev pub add_count : ℕ → Poll st → Poll st
  add_count len self = record self {
    ctx = record self.ctx { committed_count = self.ctx.committed_count + len };
  }

  unfoldable pub handle_raft_committed_entries : Poll st → List Entry → Option (Poll st)
  unfolding handle_entries finish_for
  handle_raft_committed_entries self [] = some self
  handle_raft_committed_entries self (entry ∷ entries) =
      handle_entries (add_count (suc (length entries)) self) [] (entry ∷ entries) >>? λ r.
      some (finish_for r.1 r.0)
