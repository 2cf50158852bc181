-- ===== src/Errors.antt =====
-- firm-wallet-service/src/errors: the error enums. `P` stands for `bigdecimal`'s
-- `ParseBigDecimalError`.
pub mod Wire
use auticuro.Prelude.{Str, ℕ, Result}
use auticuro.Proto.{AccountState, AssetClass, Balance, BalanceLimit}

pub data BalanceOperationError (P : Type 0) : Type 0 where
  balance_limit_exceeded : BalanceLimit → BalanceOperationError P
  invalid_account_state : AccountState → BalanceOperationError P
  account_not_exist : Str → BalanceOperationError P
  incompatible_asset_class : AssetClass → AssetClass → BalanceOperationError P
  parse_error : Str → P → BalanceOperationError P
  reservation_id_already_exist : Str → BalanceOperationError P
  reservation_id_not_found : Str → BalanceOperationError P
  invalid_amount : Str → BalanceOperationError P

pub data AccountManagementError : Type 0 where
  account_not_exist : Str → AccountManagementError
  account_already_exist : Str → AccountManagementError
  invalid_state_transition : AccountState → AccountState → AccountManagementError
  balance_is_not_zero : Balance → AccountManagementError

pub data CommonError : Type 0 where
  timeout : CommonError
  conflict_dedup_id : Str → CommonError
  data_not_ready : ℕ → ℕ → CommonError
  message_queue_error : Str → CommonError

-- general_error.rs; `From` makes each constructor an `into()`.
pub data Error (P : Type 0) : Type 0 where
  balance_operation_error : BalanceOperationError P → Error P
  account_management_error : AccountManagementError → Error P
  common_error : CommonError → Error P

abbrev pub GeneralResult : Type 0 → Type 0 → Type 0
GeneralResult P A = Result (Error P) A
