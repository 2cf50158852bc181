-- ===== src/Mq/Consumer.antt =====
-- dependencies/tiny-mq/src/message_queue_adapter.rs: reading the applied part of the raft log, and the
-- thread that hands it to the wallet. `none` is a panic; the channel is the list of what was sent.
pub mod Counts
pub mod Sends
use auticuro.Prelude.{
  ℕ, ◌+◌, ◌%◌, ◌^◌, Bytes, Option, some, none, List, [], ◌∷◌, ◌++◌, Bool, true, false, ◌||◌, ltb,
  min, if◌then◌else◌, ◌>>?◌, assert, Result, ok, err,
}
use auticuro.Prelude.Map.{is_empty}
use auticuro.Storage.{Storage}
use auticuro.Keys.{apply_state_key}
use auticuro.Mq.{
  Entry, Request, CmdType, message_queue, invalid, RaftApplyState, RaftProtobuf, inc_u64,
}
use auticuro.Mq.Engine.{fetch_entries_to, parsed}

abbrev pub is_message : CmdType → Bool
is_message message_queue = true
is_message invalid = false

-- `log_index + 1000` on a `u64`.
abbrev pub window_end : ℕ → ℕ
window_end log_index = (log_index + 1000) % 2 ^ 64

-- `Engines`: the apply state is in the first, the raft log in the second.
pub record Engines (st : Storage) : Type 0 where
  pub kv : st.rocks.Db
  pub raft : st.rocks.Db

-- A `LogEntry` without its times: an index and the messages.
abbrev pub LogEntry : Type 0 → Type 0
LogEntry T = ℕ × List T

module _ {T : Type 0} (parse_message : Bytes → Option T) where
  -- The closure over the requests of a command.
  unfoldable pub parse_requests : List Request → Option (List T)
  parse_requests [] = some []
  parse_requests (req ∷ reqs) =
      let rest = parse_requests reqs in
      assert (is_message req.cmd_type) >>? λ _.
      parse_message req.payload >>? λ message. rest >>? λ messages. some (message ∷ messages)

  -- `parse_log_entry_to_proto`
  unfoldable pub parse_log_entry : RaftProtobuf → Entry → Option (LogEntry T)
  unfolding parse_requests
  parse_log_entry pb entry =
      if is_empty entry.payload
      then some (entry.index, [])
      else (pb.parse_cmd entry.payload >>? λ cmd.
          parse_requests cmd.requests >>? λ messages. some (entry.index, messages))

  -- `buf.iter().map(log_entry_parser).collect()`
  unfoldable pub parse_entries : RaftProtobuf → List Entry → Option (List (LogEntry T))
  unfolding parse_log_entry
  parse_entries pb [] = some []
  parse_entries pb (entry ∷ entries) =
      let rest = parse_entries pb entries in
      parse_log_entry pb entry >>? λ e. rest >>? λ es. some (e ∷ es)

-- `LogConsumer`
pub record LogConsumer (T : Type 0) : Type 0 where
  pub log_index : ℕ
  pub sender : List (LogEntry T)

module _ (st : Storage) (pb : RaftProtobuf) where
  -- peer_storage.rs: a missing state is `unreachable!`.
  unfoldable pub init_apply_state : Engines st → ℕ → Option RaftApplyState
  init_apply_state engines region_id =
      parsed pb.parse_apply_state (st.rocks.get_opt engines.kv (apply_state_key st.be region_id))
      >>? λ state. state

  unfoldable pub get_start_index_and_applied_index : Engines st → ℕ → Option (ℕ × ℕ)
  unfolding init_apply_state
  get_start_index_and_applied_index engines region_id =
      init_apply_state engines region_id >>? λ state.
      some (inc_u64 state.truncated_state.index, state.applied_index)

  module _ {T : Type 0} (parse_message : Bytes → Option T) where
    -- `MessageQueueAdapter::get_range`, both ends included; an error gives the range that is there.
    unfoldable pub get_range : Engines st → ℕ → ℕ → ℕ → Option (Result (ℕ × ℕ) (List (LogEntry T)))
    unfolding get_start_index_and_applied_index
    get_range engines region_id first last =
        get_start_index_and_applied_index engines region_id >>? λ bounds.
        if ltb first bounds.0 || ltb bounds.1 last
        then some (err bounds)
        else (fetch_entries_to st pb engines.raft region_id first (inc_u64 last) none >>? λ buf.
            parse_entries parse_message pb buf >>? λ entries. some (ok entries))

    -- `unwrap`
    abbrev pub unwrap : Result (ℕ × ℕ) (List (LogEntry T)) → Option (List (LogEntry T))
    unwrap (ok entries) = some entries
    unwrap (err _) = none

    -- A round of `start_consuming`.
    unfoldable pub consume : Engines st → ℕ → LogConsumer T → Option (LogConsumer T)
    consume engines region_id self =
        get_start_index_and_applied_index engines region_id >>? λ bounds.
        if ltb self.log_index bounds.0
        then none
        else if ltb bounds.1 self.log_index
        then some self
        else (let last = min (window_end self.log_index) bounds.1 in
            get_range engines region_id self.log_index last >>? λ range. unwrap range >>? λ entries.
            some (record { log_index = inc_u64 last; sender = self.sender ++ entries }))

    -- Rounds on the engines as they are at each of them.
    unfoldable pub consume_all : List (Engines st) → ℕ → LogConsumer T → Option (LogConsumer T)
    unfolding consume
    consume_all [] region_id self = some self
    consume_all (engines ∷ later) region_id self = elim (consume engines region_id self) [
      | none ↦ none
      | some self1 ↦ consume_all later region_id self1
    ]
