-- ===== src/Proto/Events.antt =====
-- The responses and events. The nine response messages share `error`, `header` and `request`, and
-- differ in what the request is and in what they report, `body`.
use auticuro.Prelude.{Str, ℕ, List, Option}
use auticuro.Proto.Accounts.{Account, Balance}
use auticuro.Proto.Requests.{
  TransferRequest, BatchBalanceOperationRequest, ReserveRequest, ReleaseRequest,
  CreateAccountRequest, DeleteAccountRequest, LockAccountRequest, UnlockAccountRequest,
  UpdateAccountConfigRequest,
}

pub record BalanceChange : Type 0 where
  pub account_id : Str
  pub prev_balance : Balance
  pub curr_balance : Balance

-- errorpb.proto, `oneof error`
pub data ErrorPb : Type 0 where
  not_leader : Str → ErrorPb
  other_error : Str → ErrorPb

pub record ResponseHeader : Type 0 where
  pub seq_num : ℕ
  pub log_index : ℕ
  pub offset : ℕ

pub record TransferChanges : Type 0 where
  pub from : BalanceChange
  pub to : BalanceChange

pub record PrevCurr : Type 0 where
  pub prev_balance : Balance
  pub curr_balance : Balance

-- A response that carries a result: `error` is not set.
pub record Reply (Request Body : Type 0) : Type 0 where
  pub header : ResponseHeader
  pub request : Request
  pub body : Body

-- `oneof event`
pub data EventPayload : Type 0 where
  transfer_event : Reply TransferRequest TransferChanges → EventPayload
  batch_balance_operation_event :
      Reply BatchBalanceOperationRequest (List BalanceChange) → EventPayload
  reserve_event : Reply ReserveRequest PrevCurr → EventPayload
  release_event : Reply ReleaseRequest PrevCurr → EventPayload
  account_created_event : Reply CreateAccountRequest Account → EventPayload
  account_deleted_event : Reply DeleteAccountRequest Account → EventPayload
  account_locked_event : Reply LockAccountRequest Account → EventPayload
  account_unlock_event : Reply UnlockAccountRequest Account → EventPayload
  account_config_update_event : Reply UpdateAccountConfigRequest Account → EventPayload

pub record EventHeader : Type 0 where
  pub seq_num : ℕ
  pub log_index : ℕ
  pub offset : ℕ
  pub command_id : Str
  pub process_time_in_sec : ℕ

pub record Event : Type 0 where
  pub header : EventHeader
  pub payload : Option EventPayload
