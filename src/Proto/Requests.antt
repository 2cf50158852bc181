-- ===== src/Proto/Requests.antt =====
-- The requests of balance_operation_servicepb.proto and account_management_servicepb.proto, and
-- the command of internal_servicepb.proto that wraps one of them.
use auticuro.Prelude.{Str, ℕ, List, Option}
use auticuro.Proto.Accounts.{AccountConfig, BalanceLimit}

pub record TransferSpec : Type 0 where
  pub amount : Str
  pub from_account_id : Str
  pub to_account_id : Str
  pub metadata : Str

pub record TransferRequest : Type 0 where
  pub dedup_id : Str
  pub transfer_spec : TransferSpec

pub record BalanceOperationSpec : Type 0 where
  pub account_id : Str
  pub amount : Str

pub record BatchBalanceOperationRequest : Type 0 where
  pub dedup_id : Str
  pub balance_operation_spec : List BalanceOperationSpec

pub record ReserveRequest : Type 0 where
  pub dedup_id : Str
  pub reservation_id : Str
  pub account_id : Str
  pub amount : Str

pub record ReleaseRequest : Type 0 where
  pub dedup_id : Str
  pub reservation_id : Str
  pub amount : Str
  pub account_id : Str

pub record RequestHeader : Type 0 where
  pub dedup_id : Str
  pub account_id : Str

pub record CreateAccountRequest : Type 0 where
  pub header : RequestHeader
  pub account_config : AccountConfig

pub record DeleteAccountRequest : Type 0 where
  pub header : RequestHeader

pub record LockAccountRequest : Type 0 where
  pub header : RequestHeader

pub record UnlockAccountRequest : Type 0 where
  pub header : RequestHeader

pub record UpdateAccountConfigRequest : Type 0 where
  pub header : RequestHeader
  pub balance_limit : BalanceLimit

-- `oneof request`; also the service's own enum `CommandPayload`.
pub data CommandPayload : Type 0 where
  transfer_request : TransferRequest → CommandPayload
  batch_balance_operation_request : BatchBalanceOperationRequest → CommandPayload
  reserve_request : ReserveRequest → CommandPayload
  release_request : ReleaseRequest → CommandPayload
  create_account_request : CreateAccountRequest → CommandPayload
  delete_account_request : DeleteAccountRequest → CommandPayload
  lock_account_request : LockAccountRequest → CommandPayload
  unlock_account_request : UnlockAccountRequest → CommandPayload
  update_account_config_request : UpdateAccountConfigRequest → CommandPayload

pub record CommandHeader : Type 0 where
  pub command_id : Str
  pub process_time_in_sec : ℕ

-- A payload may be absent on the wire.
pub record Command : Type 0 where
  pub header : CommandHeader
  pub payload : Option CommandPayload
