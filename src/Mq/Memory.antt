-- ===== src/Mq/Memory.antt =====
-- A concrete wire format of the queue's messages, which shows that the laws can hold.
use auticuro.Prelude.{ℕ, zero, suc, ◌≡◌, refl, sym, ◌∙◌, Bytes, Option, some, ap, arith, ◌>>?◌, []}
use auticuro.Storage.Memory.Wire.{Codec, number, str, many, perhaps, through, ◌<&>◌}
use mathlib.Core.List.{append-nil}
use auticuro.Mq.{
  Entry, EntryType, entry_normal, entry_conf_change, entry_conf_change_v2, RaftLocalState,
  RaftApplyState, RaftCmdRequest, Request, CmdType, message_queue, invalid, AdminRequest,
  AdminCmdType, compact_log, invalid_admin, RaftProtobuf, RaftProtobufLaws,
}

abbrev to_entry_type : ℕ → EntryType
to_entry_type zero = entry_normal
to_entry_type (suc zero) = entry_conf_change
to_entry_type (suc (suc n)) = entry_conf_change_v2

abbrev of_entry_type : EntryType → ℕ
of_entry_type entry_normal = 0
of_entry_type entry_conf_change = 1
of_entry_type entry_conf_change_v2 = 2

pub to-of_entry_type : (t : EntryType) → to_entry_type (of_entry_type t) ≡ t
to-of_entry_type entry_normal = refl
to-of_entry_type entry_conf_change = refl
to-of_entry_type entry_conf_change_v2 = refl

abbrev entry : Codec Entry
entry =
    through
      ((through number to_entry_type of_entry_type to-of_entry_type) <&> number <&> number <&> str)
      (λ x. record { entry_type = x.0; term = x.1.0; index = x.1.1.0; payload = x.1.1.1 })
      (λ e. (e.entry_type, (e.term, (e.index, e.payload)))) (λ e. refl)

abbrev raft_state : Codec RaftLocalState
raft_state =
    through (number <&> number <&> number <&> number)
      (λ x. record {
        hard_state = record { term = x.0; vote = x.1.0; commit = x.1.1.0 };
        last_index = x.1.1.1;
      })
      (λ s. (s.hard_state.term, (s.hard_state.vote, (s.hard_state.commit, s.last_index))))
      (λ s. refl)

abbrev apply_state : Codec RaftApplyState
apply_state =
    through (number <&> number <&> number <&> number <&> number)
      (λ x. record {
        applied_index = x.0;
        commit_index = x.1.0;
        commit_term = x.1.1.0;
        truncated_state = record { index = x.1.1.1.0; term = x.1.1.1.1 };
      })
      (λ s. (
        s.applied_index,
        (s.commit_index, (s.commit_term, (s.truncated_state.index, s.truncated_state.term))),
      ))
      (λ s. refl)

abbrev to_cmd_type : ℕ → CmdType
to_cmd_type zero = invalid
to_cmd_type (suc n) = message_queue

abbrev of_cmd_type : CmdType → ℕ
of_cmd_type invalid = 0
of_cmd_type message_queue = 1

pub to-of_cmd_type : (t : CmdType) → to_cmd_type (of_cmd_type t) ≡ t
to-of_cmd_type invalid = refl
to-of_cmd_type message_queue = refl

abbrev request : Codec Request
request =
    through ((through number to_cmd_type of_cmd_type to-of_cmd_type) <&> str)
      (λ x. record { cmd_type = x.0; payload = x.1 }) (λ r. (r.cmd_type, r.payload)) (λ r. refl)

abbrev to_admin_type : ℕ → AdminCmdType
to_admin_type zero = invalid_admin
to_admin_type (suc n) = compact_log

abbrev of_admin_type : AdminCmdType → ℕ
of_admin_type invalid_admin = 0
of_admin_type compact_log = 1

pub to-of_admin_type : (t : AdminCmdType) → to_admin_type (of_admin_type t) ≡ t
to-of_admin_type invalid_admin = refl
to-of_admin_type compact_log = refl

abbrev admin : Codec AdminRequest
admin =
    through ((through number to_admin_type of_admin_type to-of_admin_type) <&> number <&> number)
      (λ x. record {
        cmd_type = x.0;
        compact_log = record { compact_index = x.1.0; compact_term = x.1.1 };
      })
      (λ r. (r.cmd_type, (r.compact_log.compact_index, r.compact_log.compact_term))) (λ r. refl)

abbrev pub command : Codec RaftCmdRequest
command =
    through (str <&> many request <&> perhaps admin)
      (λ x. record { uuid = x.0; requests = x.1.0; admin_request = x.1.1 })
      (λ r. (r.uuid, (r.requests, r.admin_request))) (λ r. refl)

-- A message that is followed by nothing.
abbrev parse : {A : Type 0} → Codec A → Bytes → Option A
parse c bytes = c.decode bytes >>? λ (a, rest). some a

parse-encode : {A : Type 0} (c : Codec A) (a : A) → parse c (c.encode a) ≡ some a
parse-encode c a =
    ap (λ bytes. parse c bytes) (sym (append-nil (c.encode a))) ∙ (rw (c.decode-encode a []) refl)

abbrev pub raft_memory : RaftProtobuf
raft_memory = record {
  parse_cmd = parse command;
  entry_bytes = entry.encode;
  parse_entry = parse entry;
  raft_state_bytes = raft_state.encode;
  parse_raft_state = parse raft_state;
  apply_state_bytes = apply_state.encode;
  parse_apply_state = parse apply_state;
}

pub raft_memory-laws : RaftProtobufLaws raft_memory
raft_memory-laws = record {
  parse-entry_bytes = parse-encode entry;
  entry_bytes_pos = λ e h. omega arith;
  parse-raft_state_bytes = parse-encode raft_state;
  parse-apply_state_bytes = parse-encode apply_state;
}

-- Writing a command and reading it.
pub parse-command : (cmd : RaftCmdRequest) → parse command (command.encode cmd) ≡ some cmd
parse-command cmd = parse-encode command cmd
