-- ===== src/Service/Writes.antt =====
-- service.rs: the write requests. Each of the nine is sent to the message queue as a command, waits
-- for the event at its position, and is answered with the response in the event, or with an error.
pub mod Served
use auticuro.Prelude.{
  ℕ, Str, List, Option, none, some, Result, ok, err, ◌>>?◌, assert, bytes_eq, ◌≡◌,
}
use auticuro.Proto.{
  Account, BalanceChange, PrevCurr, TransferChanges, Reply, ErrorPb, Event, Command, CommandPayload,
  create_account_request, account_created_event, CreateAccountRequest, lock_account_request,
  account_locked_event, LockAccountRequest, unlock_account_request, account_unlock_event,
  UnlockAccountRequest, delete_account_request, account_deleted_event, DeleteAccountRequest,
  update_account_config_request, account_config_update_event, UpdateAccountConfigRequest,
  reserve_request, reserve_event, ReserveRequest, release_request, release_event, ReleaseRequest,
  batch_balance_operation_request, batch_balance_operation_event, BatchBalanceOperationRequest,
  transfer_request, transfer_event, TransferRequest,
}
use auticuro.Errors.{Error, GeneralResult, common_error, message_queue_error}
use auticuro.Errors.Wire.{into_proto}
use auticuro.Internal.{from_payload, command_id}
use auticuro.StateMachine.{Position}

-- One of the nine response messages: an error, or what was done; neither is set by default.
pub record Response (Request Body : Type 0) : Type 0 where
  pub error : Option ErrorPb
  pub reply : Option (Reply Request Body)

abbrev pub default_response : {Request Body : Type 0} → Response Request Body
default_response = record { error = none; reply = none }

abbrev pub error_response : {Request Body : Type 0} → ErrorPb → Response Request Body
error_response error = record { error = some error; reply = none }

abbrev pub reply_response : {Request Body : Type 0} → Reply Request Body → Response Request Body
reply_response reply = record { error = none; reply = some reply }

-- `get_payload().get_account_created_event().get_response()`: the default for another event.
abbrev pub create_account_response : Event → Response CreateAccountRequest Account
create_account_response event = elim event.payload [
  | some (account_created_event reply) ↦ reply_response reply
  | _ ↦ default_response
]

-- `get_payload().get_account_locked_event().get_response()`: the default for another event.
abbrev pub lock_account_response : Event → Response LockAccountRequest Account
lock_account_response event = elim event.payload [
  | some (account_locked_event reply) ↦ reply_response reply
  | _ ↦ default_response
]

-- `get_payload().get_account_unlock_event().get_response()`: the default for another event.
abbrev pub unlock_account_response : Event → Response UnlockAccountRequest Account
unlock_account_response event = elim event.payload [
  | some (account_unlock_event reply) ↦ reply_response reply
  | _ ↦ default_response
]

-- `get_payload().get_account_deleted_event().get_response()`: the default for another event.
abbrev pub delete_account_response : Event → Response DeleteAccountRequest Account
delete_account_response event = elim event.payload [
  | some (account_deleted_event reply) ↦ reply_response reply
  | _ ↦ default_response
]

-- `get_payload().get_account_config_update_event().get_response()`: the default for another event.
abbrev pub update_account_config_response : Event → Response UpdateAccountConfigRequest Account
update_account_config_response event = elim event.payload [
  | some (account_config_update_event reply) ↦ reply_response reply
  | _ ↦ default_response
]

-- `get_payload().get_reserve_event().get_response()`: the default for another event.
abbrev pub reserve_response : Event → Response ReserveRequest PrevCurr
reserve_response event = elim event.payload [
  | some (reserve_event reply) ↦ reply_response reply
  | _ ↦ default_response
]

-- `get_payload().get_release_event().get_response()`: the default for another event.
abbrev pub release_response : Event → Response ReleaseRequest PrevCurr
release_response event = elim event.payload [
  | some (release_event reply) ↦ reply_response reply
  | _ ↦ default_response
]

-- `get_payload().get_batch_balance_operation_event().get_response()`: the default for another event.
abbrev pub batch_balance_operation_response :
    Event → Response BatchBalanceOperationRequest (List BalanceChange)
batch_balance_operation_response event = elim event.payload [
  | some (batch_balance_operation_event reply) ↦ reply_response reply
  | _ ↦ default_response
]

-- `get_payload().get_transfer_event().get_response()`: the default for another event.
abbrev pub transfer_response : Event → Response TransferRequest TransferChanges
transfer_response event = elim event.payload [
  | some (transfer_event reply) ↦ reply_response reply
  | _ ↦ default_response
]

-- The event that the broker sends for a position.
abbrev pub Broker : Type 0 → Type 0
Broker P = Position → GeneralResult P Event

-- What the message queue makes of a command: its position in the log, or an error.
abbrev pub MessageQueue : Type 0
MessageQueue = Command → Result Str (ℕ × ℕ)

module _ {P : Type 0} (debug : Error P → Str) (debug_str : Str → Str) (queue : MessageQueue)
    (broker : Broker P) where
  -- The process exits (`none`) when the event is that of another command.
  unfoldable pub wait_for_response : ℕ → ℕ → Str → Option (GeneralResult P Event)
  wait_for_response log_index offset id =
      elim (broker (record { log_index = log_index; offset = offset })) [
        | ok event ↦ assert (bytes_eq event.header.command_id id) >>? λ _. some (ok event)
        | err e ↦ some (err e)
      ]

  -- The body that the nine handlers share; `response` reads the response from the event.
  unfoldable pub serve :
      {Request Body : Type 0}
      → (Event → Response Request Body)
      → CommandPayload
      → ℕ
      → Option (Response Request Body)
  unfolding wait_for_response
  serve response payload now =
      let command = from_payload payload now in
      elim (queue command) [
        | ok position ↦ wait_for_response position.0 position.1 (command_id command) >>? λ resp.
            elim resp [
              | ok event ↦ some (response event)
              | err e ↦ some (error_response (into_proto debug debug_str e))
            ]
        | err e ↦
            some
              (error_response (into_proto debug debug_str (common_error (message_queue_error e))))
      ]

  abbrev pub create_account :
      CreateAccountRequest → ℕ → Option (Response CreateAccountRequest Account)
  create_account request now = serve create_account_response (create_account_request request) now

  abbrev pub lock_account : LockAccountRequest → ℕ → Option (Response LockAccountRequest Account)
  lock_account request now = serve lock_account_response (lock_account_request request) now

  abbrev pub unlock_account :
      UnlockAccountRequest → ℕ → Option (Response UnlockAccountRequest Account)
  unlock_account request now = serve unlock_account_response (unlock_account_request request) now

  abbrev pub delete_account :
      DeleteAccountRequest → ℕ → Option (Response DeleteAccountRequest Account)
  delete_account request now = serve delete_account_response (delete_account_request request) now

  abbrev pub update_account_config :
      UpdateAccountConfigRequest → ℕ → Option (Response UpdateAccountConfigRequest Account)
  update_account_config request now =
      serve update_account_config_response (update_account_config_request request) now

  abbrev pub reserve : ReserveRequest → ℕ → Option (Response ReserveRequest PrevCurr)
  reserve request now = serve reserve_response (reserve_request request) now

  abbrev pub release : ReleaseRequest → ℕ → Option (Response ReleaseRequest PrevCurr)
  release request now = serve release_response (release_request request) now

  abbrev pub batch_balance_operation :
      BatchBalanceOperationRequest
      → ℕ
      → Option (Response BatchBalanceOperationRequest (List BalanceChange))
  batch_balance_operation request now =
      serve batch_balance_operation_response (batch_balance_operation_request request) now

  abbrev pub transfer : TransferRequest → ℕ → Option (Response TransferRequest TransferChanges)
  transfer request now = serve transfer_response (transfer_request request) now
