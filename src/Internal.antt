-- ===== src/Internal.antt =====
-- firm-wallet-service/src/internal.rs: commands from requests, events from their results, and the
-- check that a stored event answers a command.
use auticuro.Prelude.{
  ℕ, Str, [], List, Bool, true, false, Option, some, ok, err, ◌>>?◌, if◌then◌else◌,
}
use auticuro.Proto.{
  Account, Balance, BalanceChange, TransferRequest, BatchBalanceOperationRequest, ReserveRequest,
  ReleaseRequest, CreateAccountRequest, DeleteAccountRequest, LockAccountRequest,
  UnlockAccountRequest, UpdateAccountConfigRequest, CommandPayload, CommandHeader, Command,
  transfer_request, batch_balance_operation_request, reserve_request, release_request,
  create_account_request, delete_account_request, lock_account_request, unlock_account_request,
  update_account_config_request, ResponseHeader, Reply, EventPayload, EventHeader, Event,
  transfer_event, batch_balance_operation_event, reserve_event, release_event,
  account_created_event, account_deleted_event, account_locked_event, account_unlock_event,
  account_config_update_event,
}
use auticuro.Errors.{GeneralResult, common_error, conflict_dedup_id}

-- `CommandPayload::command_id`: the dedup id of the request.
unfoldable pub payload_command_id : CommandPayload → Str
payload_command_id (transfer_request request) = request.dedup_id
payload_command_id (reserve_request request) = request.dedup_id
payload_command_id (release_request request) = request.dedup_id
payload_command_id (batch_balance_operation_request request) = request.dedup_id
payload_command_id (create_account_request request) = request.header.dedup_id
payload_command_id (delete_account_request request) = request.header.dedup_id
payload_command_id (lock_account_request request) = request.header.dedup_id
payload_command_id (unlock_account_request request) = request.header.dedup_id
payload_command_id (update_account_config_request request) = request.header.dedup_id

-- `Command::build_header`; the system clock is an argument.
abbrev pub build_command_header : Str → ℕ → CommandHeader
build_command_header command_id now = record { command_id = command_id; process_time_in_sec = now }

-- `Command::from_payload`
unfoldable pub from_payload : CommandPayload → ℕ → Command
unfolding payload_command_id
from_payload payload now = record {
  header = build_command_header (payload_command_id payload) now;
  payload = some payload;
}

-- `Command::command_id`
abbrev pub command_id : Command → Str
command_id command = command.header.command_id

abbrev pub no_event_header : EventHeader
no_event_header = record {
  seq_num = 0;
  log_index = 0;
  offset = 0;
  command_id = [];
  process_time_in_sec = 0;
}

-- `Event::set_header`
abbrev pub set_header : Event → CommandHeader → ℕ → ℕ → ℕ → Event
set_header event command_header log_index offset seq_num = record event {
  header = record {
    seq_num = seq_num;
    log_index = log_index;
    offset = offset;
    command_id = command_header.command_id;
    process_time_in_sec = command_header.process_time_in_sec;
  };
}

-- `Response::build_header`
abbrev pub build_header : ℕ → ℕ → ℕ → ResponseHeader
build_header seq_num log_index offset = record {
  seq_num = seq_num;
  log_index = log_index;
  offset = offset;
}

abbrev reply : {Request Body : Type 0} → ℕ → ℕ → ℕ → Request → Body → Reply Request Body
reply seq_num log_index offset request body = record {
  header = build_header seq_num log_index offset;
  request = request;
  body = body;
}

abbrev event_of : EventPayload → Event
event_of payload = record { header = no_event_header; payload = some payload }

-- `Response::<..>::build_event`, one for each response.
abbrev pub build_transfer_event :
    ℕ → ℕ → ℕ → TransferRequest → BalanceChange → BalanceChange → Event
build_transfer_event seq_num log_index offset request from to =
    event_of
      (transfer_event (reply seq_num log_index offset request (record { from = from; to = to })))

abbrev pub build_batch_balance_operation_event :
    ℕ → ℕ → ℕ → BatchBalanceOperationRequest → List BalanceChange → Event
build_batch_balance_operation_event seq_num log_index offset request balance_changes =
    event_of
      (batch_balance_operation_event (reply seq_num log_index offset request balance_changes))

abbrev pub build_reserve_event : ℕ → ℕ → ℕ → ReserveRequest → Balance → Balance → Event
build_reserve_event seq_num log_index offset request prev_balance curr_balance = event_of (
    reserve_event (
      reply seq_num log_index offset request
        (record { prev_balance = prev_balance; curr_balance = curr_balance })))

abbrev pub build_release_event : ℕ → ℕ → ℕ → ReleaseRequest → Balance → Balance → Event
build_release_event seq_num log_index offset request prev_balance curr_balance = event_of (
    release_event (
      reply seq_num log_index offset request
        (record { prev_balance = prev_balance; curr_balance = curr_balance })))

abbrev pub build_create_account_event : ℕ → ℕ → ℕ → CreateAccountRequest → Account → Event
build_create_account_event seq_num log_index offset request account =
    event_of (account_created_event (reply seq_num log_index offset request account))

abbrev pub build_lock_account_event : ℕ → ℕ → ℕ → LockAccountRequest → Account → Event
build_lock_account_event seq_num log_index offset request account =
    event_of (account_locked_event (reply seq_num log_index offset request account))

abbrev pub build_unlock_account_event : ℕ → ℕ → ℕ → UnlockAccountRequest → Account → Event
build_unlock_account_event seq_num log_index offset request account =
    event_of (account_unlock_event (reply seq_num log_index offset request account))

abbrev pub build_delete_account_event : ℕ → ℕ → ℕ → DeleteAccountRequest → Account → Event
build_delete_account_event seq_num log_index offset request account =
    event_of (account_deleted_event (reply seq_num log_index offset request account))

abbrev pub build_update_account_config_event :
    ℕ → ℕ → ℕ → UpdateAccountConfigRequest → Account → Event
build_update_account_config_event seq_num log_index offset request account =
    event_of (account_config_update_event (reply seq_num log_index offset request account))

-- The match of `assert_command_and_event_match`.
unfoldable pub types_match : CommandPayload → EventPayload → Bool
types_match (transfer_request _) (transfer_event _) = true
types_match (batch_balance_operation_request _) (batch_balance_operation_event _) = true
types_match (reserve_request _) (reserve_event _) = true
types_match (release_request _) (release_event _) = true
types_match (create_account_request _) (account_created_event _) = true
types_match (lock_account_request _) (account_locked_event _) = true
types_match (unlock_account_request _) (account_unlock_event _) = true
types_match (delete_account_request _) (account_deleted_event _) = true
types_match (update_account_config_request _) (account_config_update_event _) = true
types_match _ _ = false

-- `none` is the panic of an `unwrap` on a payload that is absent.
unfoldable pub assert_command_and_event_match :
    {P : Type 0} → Command → Event → Option (GeneralResult P Event)
unfolding types_match
assert_command_and_event_match command event = command.payload >>? λ command_type.
    event.payload >>? λ event_type. some (
      if types_match command_type event_type
      then ok event
      else err (common_error (conflict_dedup_id command.header.command_id)))
