-- ===== src/Storage/Memory/Requests.antt =====
-- A concrete wire format of the accounts and requests.
use auticuro.Prelude.{ℕ, zero, suc, ◌≡◌, refl, Str, ◌⊎◌, inl, inr}
use auticuro.Proto.{
  AssetClass, cash, not_set, AccountState, invalid_state, deleted, locked, normal, tag,
  BalanceLimit, AccountConfig, Balance, Account, TransferSpec, TransferRequest,
  BalanceOperationSpec, BatchBalanceOperationRequest, ReserveRequest, ReleaseRequest, RequestHeader,
  CreateAccountRequest, DeleteAccountRequest, LockAccountRequest, UnlockAccountRequest,
  UpdateAccountConfigRequest,
}
use auticuro.Storage.Memory.Wire.{Codec, number, str, many, perhaps, nothing, through, ◌<&>◌, ◌<+>◌}

abbrev pub balance_limit : Codec BalanceLimit
balance_limit =
    through (str <&> str) (λ x. record { upper = x.0; lower = x.1 }) (λ r. (r.upper, r.lower))
      (λ r. refl)

abbrev to_class : Unit {0} ⊎ Str → AssetClass
to_class (inl u) = not_set
to_class (inr c) = cash c

abbrev of_class : AssetClass → Unit {0} ⊎ Str
of_class not_set = inl tt
of_class (cash c) = inr c

pub to-of_class : (c : AssetClass) → to_class (of_class c) ≡ c
to-of_class not_set = refl
to-of_class (cash c) = refl

abbrev pub asset_class : Codec AssetClass
asset_class = through (nothing <+> str) to_class of_class to-of_class

abbrev to_state : ℕ → AccountState
to_state zero = invalid_state
to_state (suc zero) = deleted
to_state (suc (suc zero)) = locked
to_state (suc (suc (suc _))) = normal

pub to_state-tag : (s : AccountState) → to_state (tag s) ≡ s
to_state-tag invalid_state = refl
to_state-tag deleted = refl
to_state-tag locked = refl
to_state-tag normal = refl

abbrev pub account_state : Codec AccountState
account_state = through number to_state tag to_state-tag

abbrev pub account_config : Codec AccountConfig
account_config =
    through ((perhaps balance_limit) <&> asset_class)
      (λ x. record { balance_limit = x.0; asset_class = x.1 })
      (λ r. (r.balance_limit, r.asset_class)) (λ r. refl)

abbrev pub balance : Codec Balance
balance =
    through (str <&> (many (str <&> str))) (λ x. record { available = x.0; reservations = x.1 })
      (λ r. (r.available, r.reservations)) (λ r. refl)

abbrev pub account : Codec Account
account =
    through (account_config <&> balance <&> account_state <&> str)
      (λ x. record {
        config = x.0;
        balance = (x.1).0;
        state = ((x.1).1).0;
        account_id = ((x.1).1).1;
      })
      (λ r. (r.config, (r.balance, (r.state, r.account_id)))) (λ r. refl)

abbrev pub transfer_spec : Codec TransferSpec
transfer_spec =
    through (str <&> str <&> str <&> str)
      (λ x. record {
        amount = x.0;
        from_account_id = (x.1).0;
        to_account_id = ((x.1).1).0;
        metadata = ((x.1).1).1;
      })
      (λ r. (r.amount, (r.from_account_id, (r.to_account_id, r.metadata)))) (λ r. refl)

abbrev pub transfer_request : Codec TransferRequest
transfer_request =
    through (str <&> transfer_spec) (λ x. record { dedup_id = x.0; transfer_spec = x.1 })
      (λ r. (r.dedup_id, r.transfer_spec)) (λ r. refl)

abbrev pub balance_operation_spec : Codec BalanceOperationSpec
balance_operation_spec =
    through (str <&> str) (λ x. record { account_id = x.0; amount = x.1 })
      (λ r. (r.account_id, r.amount)) (λ r. refl)

abbrev pub batch_balance_operation_request : Codec BatchBalanceOperationRequest
batch_balance_operation_request =
    through (str <&> (many balance_operation_spec))
      (λ x. record { dedup_id = x.0; balance_operation_spec = x.1 })
      (λ r. (r.dedup_id, r.balance_operation_spec)) (λ r. refl)

abbrev pub reserve_request : Codec ReserveRequest
reserve_request =
    through (str <&> str <&> str <&> str)
      (λ x. record {
        dedup_id = x.0;
        reservation_id = (x.1).0;
        account_id = ((x.1).1).0;
        amount = ((x.1).1).1;
      })
      (λ r. (r.dedup_id, (r.reservation_id, (r.account_id, r.amount)))) (λ r. refl)

abbrev pub release_request : Codec ReleaseRequest
release_request =
    through (str <&> str <&> str <&> str)
      (λ x. record {
        dedup_id = x.0;
        reservation_id = (x.1).0;
        amount = ((x.1).1).0;
        account_id = ((x.1).1).1;
      })
      (λ r. (r.dedup_id, (r.reservation_id, (r.amount, r.account_id)))) (λ r. refl)

abbrev pub request_header : Codec RequestHeader
request_header =
    through (str <&> str) (λ x. record { dedup_id = x.0; account_id = x.1 })
      (λ r. (r.dedup_id, r.account_id)) (λ r. refl)

abbrev pub create_account_request : Codec CreateAccountRequest
create_account_request =
    through (request_header <&> account_config) (λ x. record { header = x.0; account_config = x.1 })
      (λ r. (r.header, r.account_config)) (λ r. refl)

abbrev pub delete_account_request : Codec DeleteAccountRequest
delete_account_request =
    through (request_header) (λ x. record { header = x }) (λ r. r.header) (λ r. refl)

abbrev pub lock_account_request : Codec LockAccountRequest
lock_account_request =
    through (request_header) (λ x. record { header = x }) (λ r. r.header) (λ r. refl)

abbrev pub unlock_account_request : Codec UnlockAccountRequest
unlock_account_request =
    through (request_header) (λ x. record { header = x }) (λ r. r.header) (λ r. refl)

abbrev pub update_account_config_request : Codec UpdateAccountConfigRequest
update_account_config_request =
    through (request_header <&> balance_limit) (λ x. record { header = x.0; balance_limit = x.1 })
      (λ r. (r.header, r.balance_limit)) (λ r. refl)
