-- ===== src/Service/Reads.antt =====
-- service.rs: `get_account` and `query_balance`, which read the state in memory.
pub mod Fresh
use auticuro.Prelude.{ℕ, ltb, Str, Option, none, some, Bytes_eq, if◌then◌else◌}
use auticuro.Prelude.Map.{get}
use auticuro.Proto.{Account, Balance, ErrorPb}
use auticuro.Errors.{
  Error, common_error, data_not_ready, account_management_error, balance_operation_error,
  AccountManagementError, BalanceOperationError,
}
use auticuro.Errors.Wire.{into_proto}
use auticuro.Storage.{Storage}
use auticuro.StateMachine.{StateMachine}

pub record GetAccountRequest : Type 0 where
  pub seq_num : ℕ
  pub account_id : Str

-- A field that is not set is absent, or zero.
pub record GetAccountResponse : Type 0 where
  pub error : Option ErrorPb
  pub seq_num : ℕ
  pub account : Option Account

pub record QueryBalanceResponse : Type 0 where
  pub error : Option ErrorPb
  pub seq_num : ℕ
  pub account_id : Str
  pub balance : Option Balance

module _ {P : Type 0} (debug : Error P → Str) (debug_str : Str → Str) (st : Storage) where
  unfoldable pub get_account : StateMachine st → GetAccountRequest → GetAccountResponse
  get_account self request =
      if ltb self.last_seq_num request.seq_num
      then record {
        error = some (
            into_proto debug debug_str
              (common_error (data_not_ready request.seq_num self.last_seq_num)));
        seq_num = 0;
        account = none;
      }
      else (elim (get self.accounts request.account_id) [
        | some account ↦ record {
          error = none;
          seq_num = self.last_seq_num;
          account = some account;
        }
        | none ↦ record {
          error = some (
              into_proto debug debug_str (
                account_management_error
                  (AccountManagementError.account_not_exist request.account_id)));
          seq_num = self.last_seq_num;
          account = none;
        }
      ])

  -- `QueryBalanceRequest` has the fields of `GetAccountRequest`.
  unfoldable pub query_balance : StateMachine st → GetAccountRequest → QueryBalanceResponse
  query_balance self request =
      if ltb self.last_seq_num request.seq_num
      then record {
        error = some (
            into_proto debug debug_str
              (common_error (data_not_ready request.seq_num self.last_seq_num)));
        seq_num = 0;
        account_id = request.account_id;
        balance = none;
      }
      else (elim (get self.accounts request.account_id) [
        | some account ↦ record {
          error = none;
          seq_num = self.last_seq_num;
          account_id = request.account_id;
          balance = some account.balance;
        }
        | none ↦ record {
          error = some (
              into_proto debug debug_str (
                balance_operation_error
                  (BalanceOperationError.account_not_exist request.account_id)));
          seq_num = self.last_seq_num;
          account_id = request.account_id;
          balance = none;
        }
      ])
