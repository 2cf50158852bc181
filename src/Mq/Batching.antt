-- ===== src/Mq/Batching.antt =====
-- dependencies/tiny-mq/src/peer.rs: commands of several clients are put into one raft command, and its
-- response is cut into the answers of the clients. `none` is a panic.
pub mod Parts
pub mod Building
pub mod Built
use auticuro.Prelude.{
  ℕ, ◌+◌, ◌%◌, ◌^◌, Option, some, none, List, [], ◌∷◌, ◌++◌, Bool, true, false, ◌&&◌, ◌||◌, ltb,
  leb, if◌then◌else◌, ◌>>?◌, assert,
}
use auticuro.Prelude.Map.{is_empty}
use auticuro.Prelude.Lists.{length, take, drop}
use auticuro.Mq.{RaftCmdRequest, RaftCmdResponse, Request, Response, Error, default_response}
use auticuro.Mq.Apply.{Callback, Answers, invoke_with_response}
use auticuro.Mq.Consumer.{is_message}

-- msg.rs: `RaftCommand`
pub record RaftCommand : Type 0 where
  pub request : RaftCmdRequest
  pub callback : Callback

-- The callback of a built command: that of its only client, or the closure over those of all of them
-- with the numbers of their requests.
pub data BuiltCallback : Type 0 where
  only : Callback → BuiltCallback
  shared : List (Callback × ℕ) → BuiltCallback

pub record BuiltCommand : Type 0 where
  pub request : RaftCmdRequest
  pub callback : BuiltCallback

-- `BatchRaftCmdRequestBuilder`. The limits are the whole parts of the floats
-- `raft_entry_max_size * 0.2` and `raft_entry_max_size * 0.4`; sizes are compared with them.
pub record Builder : Type 0 where
  pub entry_limit : ℕ
  pub batch_limit : ℕ
  pub batch_req_size : ℕ
  pub request : Option RaftCmdRequest
  pub callbacks : List (Callback × ℕ)

abbrev pub all_messages : List Request → Bool
all_messages [] = true
all_messages (r ∷ rs) = is_message r.cmd_type && all_messages rs

-- The requests of a command join those of the batch.
abbrev pub join_request : Option RaftCmdRequest → RaftCmdRequest → Option RaftCmdRequest
join_request none request = some request
join_request (some batch_req) request =
    some (record batch_req { requests = batch_req.requests ++ request.requests })

unfoldable pub add : Builder → RaftCommand → ℕ → Builder
add self cmd req_size = record self {
  request = join_request self.request cmd.request;
  callbacks = self.callbacks ++ (cmd.callback, length cmd.request.requests) ∷ [];
  batch_req_size = (self.batch_req_size + req_size) % 2 ^ 32;
}

unfoldable pub should_finish : Builder → Bool
should_finish self = elim self.request [
  | none ↦ false
  | some batch_req ↦ ltb self.batch_limit self.batch_req_size || ltb 256 (length batch_req.requests)
]

abbrev pub built_callback : List (Callback × ℕ) → BuiltCallback
built_callback [] = shared []
built_callback ((cb, n) ∷ []) = only cb
built_callback (c ∷ d ∷ cbs) = shared (c ∷ d ∷ cbs)

unfoldable pub build : Builder → List BuiltCommand × Builder
build self = elim self.request [
  | none ↦ ([], self)
  | some req ↦ (
    record { request = req; callback = built_callback self.callbacks } ∷ [],
    record self { request = none; batch_req_size = 0; callbacks = [] },
  )
]

-- The answer of a client: the header of the response, and its part of the responses.
abbrev pub part_of : RaftCmdResponse → List Response → RaftCmdResponse
part_of resp responses = record default_response {
  error = resp.error;
  uuid = resp.uuid;
  current_term = resp.current_term;
  responses = responses;
}

-- The slice is taken only where the response has no error; out of range it panics.
unfoldable pub slice : Option Error → ℕ → ℕ → List Response → Option (List Response)
slice (some e) from n responses = some []
slice none from n responses =
    assert (leb (from + n) (length responses)) >>? λ _. some (take n (drop from responses))

-- The closure that `build` makes.
unfoldable pub invoke_shared : List (Callback × ℕ) → ℕ → RaftCmdResponse → Answers → Option Answers
invoke_shared [] last_index resp invoked = some invoked
invoke_shared ((cb, req_num) ∷ cbs) last_index resp invoked =
    elim (slice resp.error last_index req_num resp.responses) [
      | none ↦ none
      | some responses ↦
          invoke_shared cbs (last_index + req_num) resp
            (invoke_with_response cb (part_of resp responses) invoked)
    ]

unfoldable pub invoke_built : BuiltCallback → RaftCmdResponse → Answers → Option Answers
unfolding invoke_shared
invoke_built (only cb) resp invoked = some (invoke_with_response cb resp invoked)
invoke_built (shared cbs) resp invoked = invoke_shared cbs 0 resp invoked

-- A command that is not batched is proposed as it is.
abbrev pub alone : RaftCommand → BuiltCommand
alone cmd = record { request = cmd.request; callback = only cmd.callback }

-- Generated code: the equality of headers, and the size of a request in bytes.
module _ (header_eq : RaftCmdRequest → RaftCmdRequest → Bool)
    (compute_size : RaftCmdRequest → ℕ) where
  unfoldable pub can_batch : Builder → RaftCmdRequest → ℕ → Bool
  can_batch self req req_size =
      if is_empty req.requests || ltb self.entry_limit req_size
      then false
      else (all_messages req.requests
          && elim self.request [ some batch_req ↦ header_eq batch_req req | none ↦ true ])

  -- `handle_msgs` on a `RaftCommand`: what is proposed, and the builder.
  unfoldable pub on_raft_command : Builder → RaftCommand → List BuiltCommand × Builder
  unfolding can_batch add should_finish build
  on_raft_command self cmd =
      let req_size = compute_size cmd.request in
      if can_batch self cmd.request req_size
      then (let added = add self cmd req_size in
          if should_finish added then build added else ([], added))
      else (let (proposed, left) = build self in (proposed ++ alone cmd ∷ [], left))

  -- `handle_msgs` on commands: the rest of the batch is proposed at the end.
  unfoldable pub handle_commands : Builder → List RaftCommand → List BuiltCommand × Builder
  unfolding on_raft_command
  handle_commands self [] = build self
  handle_commands self (cmd ∷ cmds) =
      let (proposed, next) = on_raft_command self cmd in
      let (later, left) = handle_commands next cmds in (proposed ++ later, left)
