-- ===== src/Account.antt =====
-- firm-wallet-service/src/account.rs: the account operations. All of them are copy-on-write: they
-- return the updated account, or an error and no account.
pub mod Checks
pub mod States
pub mod Balances
pub mod Reservations
pub mod Kept
use auticuro.Prelude.{
  ℕ, Str, Bool, true, false, ◌&&◌, ◌||◌, not, Option, none, some, List, [], ◌∷◌, Ordering, ok, err,
  ◌>>=◌, ◌>>◌, fail_if, bytes, if◌then◌else◌, Bytes_eq,
}
use auticuro.Prelude.Map.{get, insert, remove, contains_key, is_empty}
use auticuro.Proto.{
  Account, AccountConfig, AccountState, Balance, BalanceLimit, BalanceChange, cash, deleted, locked,
  normal, state_eq, asset_class_eq,
}
use auticuro.Errors.{
  AccountManagementError, BalanceOperationError, GeneralResult, account_management_error,
  balance_operation_error, balance_limit_exceeded, invalid_account_state, incompatible_asset_class,
  reservation_id_already_exist, reservation_id_not_found, invalid_amount, invalid_state_transition,
  balance_is_not_zero,
}
use auticuro.Decimal
use auticuro.Decimal.{BigDecimal}

-- `Balance::ZERO`
abbrev pub zero_amount : Str
zero_amount = bytes "0.0"

-- `impl Default for Balance`
abbrev pub default_balance : Balance
default_balance = record { available = zero_amount; reservations = [] }

-- `impl Default for AccountConfig`
abbrev pub default_config : AccountConfig
default_config = record { balance_limit = none; asset_class = cash (bytes "USD") }

-- `Account::new`
abbrev pub new : Str → Account
new account_id = record {
  config = default_config;
  balance = default_balance;
  state = normal;
  account_id = account_id;
}

-- `LEGAL_TRANSITIONS`: the target states of each state that has an entry.
legal_transitions : AccountState → Option (List AccountState)
legal_transitions normal = some (locked ∷ deleted ∷ [])
legal_transitions locked = some (normal ∷ [])
legal_transitions _ = none

contains_state : AccountState → List AccountState → Bool
contains_state s [] = false
contains_state s (t ∷ ts) = state_eq s t || contains_state s ts

-- `LEGAL_TRANSITIONS.get(..).filter(..).is_some()`
unfoldable pub is_legal : AccountState → AccountState → Bool
unfolding legal_transitions contains_state
is_legal from to = elim (legal_transitions from) [
  | none ↦ false
  | some targets ↦ contains_state to targets
]

abbrev pub ordering_is : Ordering → Ordering → Bool
ordering_is Ordering.lt Ordering.lt = true
ordering_is Ordering.eq Ordering.eq = true
ordering_is Ordering.gt Ordering.gt = true
ordering_is _ _ = false

abbrev pub with_available : Account → Str → Account
with_available a amount = record a { balance = record a.balance { available = amount } }

abbrev pub with_reservation : Account → Str → Str → Account
with_reservation a id amount = record a {
  balance = record a.balance { reservations = insert id amount a.balance.reservations };
}

abbrev pub without_reservation : Account → Str → Account
without_reservation a id = record a {
  balance = record a.balance { reservations = remove id a.balance.reservations };
}

module _ (bd : BigDecimal) where
  abbrev pub Res : Type 0 → Type 0
  Res A = GeneralResult bd.ParseBigDecimalError A

  unfoldable pub assert_state_is_normal : Account → Res (Unit {0})
  assert_state_is_normal self =
      fail_if (not (state_eq self.state normal))
        (balance_operation_error (invalid_account_state self.state))

  unfoldable pub assert_amount_gt_zero : Str → Res (Unit {0})
  assert_amount_gt_zero amount = do
    cmp_to_zero ← Decimal.cmp bd amount zero_amount
    fail_if (ordering_is cmp_to_zero Ordering.lt || ordering_is cmp_to_zero Ordering.eq)
        (balance_operation_error (invalid_amount amount))

  -- The test on `balance.available` is made only if there is no reservation.
  unfoldable pub assert_balance_is_zero : Account → Res (Unit {0})
  assert_balance_is_zero self =
      if is_empty self.balance.reservations
      then (do
        compared ← Decimal.cmp bd self.balance.available zero_amount
        fail_if (not (ordering_is compared Ordering.eq))
            (account_management_error (balance_is_not_zero self.balance)))
      else err (account_management_error (balance_is_not_zero self.balance))

  unfoldable pub assert_reservation_exists : Account → Str → Res Str
  assert_reservation_exists self reservation_id =
      elim (get self.balance.reservations reservation_id) [
        | some reservation_amount ↦ ok reservation_amount
        | none ↦ err (balance_operation_error (reservation_id_not_found reservation_id))
      ]

  unfoldable pub validate_state_transition : Account → AccountState → Res (Unit {0})
  validate_state_transition self target_state =
      fail_if (not (is_legal self.state target_state))
        (account_management_error (invalid_state_transition self.state target_state))

  unfoldable pub validate_asset_class_compatibility : Account → Account → Res (Unit {0})
  validate_asset_class_compatibility self other =
      fail_if (not (asset_class_eq self.config.asset_class other.config.asset_class)) (
        balance_operation_error
          (incompatible_asset_class self.config.asset_class other.config.asset_class))

  unfoldable pub within_limit : BalanceLimit → Str → Res (Unit {0})
  within_limit balance_limit balance = do
    cmp_to_upper ← Decimal.cmp bd balance balance_limit.upper
    cmp_to_lower ← Decimal.cmp bd balance balance_limit.lower
    fail_if (ordering_is cmp_to_lower Ordering.lt || ordering_is cmp_to_upper Ordering.gt)
        (balance_operation_error (balance_limit_exceeded balance_limit))

  unfoldable pub validate_balance_limitation : Account → Str → Res (Unit {0})
  validate_balance_limitation self balance = elim self.config.balance_limit [
    | none ↦ ok tt
    | some balance_limit ↦ within_limit balance_limit balance
  ]

  unfoldable pub increase_balance_by : Account → Str → Res (Account × BalanceChange)
  increase_balance_by self amount = do
    assert_state_is_normal self
    new_balance ← Decimal.add bd self.balance.available amount
    validate_balance_limitation self new_balance
    let new_account = with_available self new_balance
    ok (
      new_account,
      record {
        account_id = self.account_id;
        prev_balance = self.balance;
        curr_balance = new_account.balance;
      },
    )

  unfoldable pub set_balance_limit : Account → BalanceLimit → Account
  set_balance_limit self balance_limit = record self {
    config = record self.config { balance_limit = some balance_limit };
  }

  unfoldable pub reserve : Account → Str → Str → Res Account
  reserve self reservation_id amount = do
    assert_state_is_normal self
    assert_amount_gt_zero amount
    fail_if (contains_key self.balance.reservations reservation_id)
        (balance_operation_error (reservation_id_already_exist reservation_id))
    negated ← Decimal.neg bd amount
    increased ← increase_balance_by self negated
    ok (with_reservation increased.0 reservation_id amount)

  -- The `unwrap` of the removed entry cannot fail: the entry was found above.
  unfoldable pub release_all : Account → Str → Res Account
  release_all self reservation_id = do
    assert_state_is_normal self
    reservation_amount ← assert_reservation_exists self reservation_id
    increased ← increase_balance_by self reservation_amount
    ok (without_reservation increased.0 reservation_id)

  -- The branch for `amount < reservation_amount`.
  unfoldable pub release_part : Account → Str → Str → Str → Res Account
  release_part self reservation_id amount reservation_amount = do
    increased ← increase_balance_by self amount
    negated ← Decimal.neg bd amount
    remained_amount ← Decimal.add bd reservation_amount negated
    ok (with_reservation increased.0 reservation_id remained_amount)

  -- The three branches of `partial_release`, by the comparison with the reserved amount.
  unfoldable pub release_by : Ordering → Account → Str → Str → Str → Res Account
  release_by Ordering.gt self reservation_id amount reservation_amount =
      err (balance_operation_error (invalid_amount amount))
  release_by Ordering.eq self reservation_id amount reservation_amount =
      release_all self reservation_id
  release_by Ordering.lt self reservation_id amount reservation_amount =
      release_part self reservation_id amount reservation_amount

  unfoldable pub partial_release : Account → Str → Str → Res Account
  partial_release self reservation_id amount = do
    assert_state_is_normal self
    assert_amount_gt_zero amount
    reservation_amount ← assert_reservation_exists self reservation_id
    cmp_to_reservation_amount ← Decimal.cmp bd amount reservation_amount
    release_by cmp_to_reservation_amount self reservation_id amount reservation_amount

  unfoldable pub lock : Account → Res Account
  lock self = do validate_state_transition self locked; ok (record self { state = locked })

  unfoldable pub unlock : Account → Res Account
  unlock self = do validate_state_transition self normal; ok (record self { state = normal })

  unfoldable pub delete : Account → Res Account
  delete self = do
    validate_state_transition self deleted
    assert_balance_is_zero self
    ok (record self { state = deleted })
