-- ===== src/Mq.antt =====
-- dependencies/tiny-mq: the replicated message queue under the wallet. Here are its messages, from
-- dependencies/tiny-mq/kvproto/proto, and the interface to the generated code that reads and writes
-- them. The children model the threads and the storage of the queue.
pub mod Apply
pub mod Engine
pub mod Consumer
pub mod PeerStorage
pub mod Batching
pub mod Proposals
pub mod Memory
use auticuro.Prelude.{
  ℕ, zero, suc, Bytes, Str, Option, some, none, List, [], ◌≡◌, Bool, true, false, ◌==◌, ◌+◌, ◌<◌,
  ◌%◌, ◌^◌,
}
use auticuro.Prelude.Lists.{length}

-- `eraftpb::EntryType`, of the raft crate.
pub data EntryType : Type 0 where
  entry_normal : EntryType
  entry_conf_change : EntryType
  entry_conf_change_v2 : EntryType

-- `eraftpb::Entry`; `payload` is its field `data`.
pub record Entry : Type 0 where
  pub entry_type : EntryType
  pub term : ℕ
  pub index : ℕ
  pub payload : Bytes

-- `eraftpb::HardState`
pub record HardState : Type 0 where
  pub term : ℕ
  pub vote : ℕ
  pub commit : ℕ

pub record RaftLocalState : Type 0 where
  pub hard_state : HardState
  pub last_index : ℕ

pub record RaftTruncatedState : Type 0 where
  pub index : ℕ
  pub term : ℕ

-- Without `last_commit_index`, which nothing reads.
pub record RaftApplyState : Type 0 where
  pub applied_index : ℕ
  pub commit_index : ℕ
  pub commit_term : ℕ
  pub truncated_state : RaftTruncatedState

pub data CmdType : Type 0 where
  invalid : CmdType
  message_queue : CmdType

-- `raft_cmdpb::Request`; the payload is that of its `MessageQueueRequest`.
pub record Request : Type 0 where
  pub cmd_type : CmdType
  pub payload : Bytes

pub record CompactLogRequest : Type 0 where
  pub compact_index : ℕ
  pub compact_term : ℕ

pub data AdminCmdType : Type 0 where
  invalid_admin : AdminCmdType
  compact_log : AdminCmdType

pub record AdminRequest : Type 0 where
  pub cmd_type : AdminCmdType
  pub compact_log : CompactLogRequest

-- `RaftCmdRequest` with the part of its header that is read.
pub record RaftCmdRequest : Type 0 where
  pub uuid : Bytes
  pub requests : List Request
  pub admin_request : Option AdminRequest

-- `kvrpcpb::MessageQueueResponse`
pub record MessageQueueResponse : Type 0 where
  pub index : ℕ
  pub offset : ℕ
  pub error : Str

pub record Response : Type 0 where
  pub cmd_type : CmdType
  pub message_queue : MessageQueueResponse

-- errors.rs: the errors that the modelled code makes.
pub data Error : Type 0 where
  other : Str → Error
  stale_command : Error

-- `RaftCmdResponse` with its header; the error stands for its `errorpb::Error`.
pub record RaftCmdResponse : Type 0 where
  pub error : Option Error
  pub uuid : Bytes
  pub current_term : ℕ
  pub responses : List Response
  pub admin_response : Option AdminCmdType

abbrev pub default_response : RaftCmdResponse
default_response = record {
  error = none;
  uuid = [];
  current_term = 0;
  responses = [];
  admin_response = none;
}

-- cmd_resp.rs
abbrev pub bind_term : RaftCmdResponse → ℕ → RaftCmdResponse
bind_term resp zero = resp
bind_term resp (suc term) = record resp { current_term = suc term }

abbrev pub new_error : Error → RaftCmdResponse
new_error e = record default_response { error = some e }

abbrev pub err_resp : Error → ℕ → RaftCmdResponse
err_resp e term = bind_term (new_error e) term

-- `n + 1` on a `u64`.
abbrev pub inc_u64 : ℕ → ℕ
inc_u64 n = (n + 1) % 2 ^ 64

-- The generated code: a message is written to bytes, and parsing may fail.
pub record RaftProtobuf : Type 0 where
  pub parse_cmd : Bytes → Option RaftCmdRequest
  pub entry_bytes : Entry → Bytes
  pub parse_entry : Bytes → Option Entry
  pub raft_state_bytes : RaftLocalState → Bytes
  pub parse_raft_state : Bytes → Option RaftLocalState
  pub apply_state_bytes : RaftApplyState → Bytes
  pub parse_apply_state : Bytes → Option RaftApplyState

pub record RaftProtobufLaws (pb : RaftProtobuf) : Type 0 where
  pub parse-entry_bytes : (e : Entry) → pb.parse_entry (pb.entry_bytes e) ≡ some e
  -- A field that is not zero is written.
  pub entry_bytes_pos : (e : Entry) → 0 < e.index → 0 < length (pb.entry_bytes e)
  pub parse-raft_state_bytes :
      (s : RaftLocalState) → pb.parse_raft_state (pb.raft_state_bytes s) ≡ some s
  pub parse-apply_state_bytes :
      (s : RaftApplyState) → pb.parse_apply_state (pb.apply_state_bytes s) ≡ some s
