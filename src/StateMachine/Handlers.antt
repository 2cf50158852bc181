-- ===== src/StateMachine/Handlers.antt =====
-- state_machine.rs: one handler for each request. A handler computes the updated accounts first,
-- with `?`, and changes the state only when all of that has succeeded.
use auticuro.Prelude.{ℕ, [], ◌∷◌, List, ok, err, ◌>>=◌, ◌>>◌, fail_if, Bytes_eq, map, if◌then◌else◌}
use auticuro.Prelude.Map.{contains_key, is_empty}
use auticuro.Proto.{
  Account, Event, BalanceChange, BalanceOperationSpec, TransferRequest,
  BatchBalanceOperationRequest, ReserveRequest, ReleaseRequest, CreateAccountRequest,
  DeleteAccountRequest, LockAccountRequest, UnlockAccountRequest, UpdateAccountConfigRequest,
}
use auticuro.Errors.{GeneralResult, account_management_error, AccountManagementError}
use auticuro.Decimal
use auticuro.Decimal.{BigDecimal}
use auticuro.Storage.{Storage}
use auticuro.Account.{
  new, increase_balance_by, validate_asset_class_compatibility, reserve, release_all,
  partial_release, lock, unlock, delete, set_balance_limit,
}
use auticuro.Internal.{
  build_transfer_event, build_batch_balance_operation_event, build_reserve_event,
  build_release_event, build_create_account_event, build_lock_account_event,
  build_unlock_account_event, build_delete_account_event, build_update_account_config_event,
}
use auticuro.StateMachine.{
  StateMachine, World, inc_u64, update_account, delete_account, get_or_create_account,
  assert_account_exists,
}

module _ (bd : BigDecimal) (st : Storage) where
  abbrev pub Res : Type 0 → Type 0
  Res A = GeneralResult bd.ParseBigDecimalError A

  abbrev pub Handled : Type 0
  Handled = Res Event × World bd st

  -- `?` in a handler: an error leaves before anything is changed.
  abbrev pub attempt : {A : Type 0} → World bd st → Res A → (A → Handled) → Handled
  attempt w (ok a) rest = rest a
  attempt w (err e) rest = (err e, w)

  -- `self.last_seq_num += 1`
  abbrev pub next_seq_num : World bd st → World bd st
  next_seq_num w = record w {
    machine = record w.machine { last_seq_num = inc_u64 w.machine.last_seq_num };
  }

  -- The checks of `handle_transfer`: the updated receiver, then the updated sender.
  unfoldable pub transfer_updates :
      StateMachine st
      → TransferRequest
      → Res ((Account × BalanceChange) × (Account × BalanceChange))
  transfer_updates self request = do
    let from_account = get_or_create_account bd st self request.transfer_spec.from_account_id
    let to_account = get_or_create_account bd st self request.transfer_spec.to_account_id
    validate_asset_class_compatibility bd from_account to_account
    to ← increase_balance_by bd to_account request.transfer_spec.amount
    negated ← Decimal.neg bd request.transfer_spec.amount
    from ← increase_balance_by bd from_account negated
    ok (to, from)

  unfoldable pub handle_transfer : World bd st → TransferRequest → ℕ → ℕ → Handled
  handle_transfer w request log_index offset =
      attempt w (transfer_updates w.machine request) λ updates.
        let (to, from) = updates in
        let w1 = next_seq_num w in
        let w2 = update_account bd st w1 to.0 in
        let w3 = update_account bd st w2 from.0 in
        (ok (build_transfer_event w3.machine.last_seq_num log_index offset request from.1 to.1), w3)

  -- The loop over the specs of a batch: every account is read from the state before the batch.
  unfoldable pub batch_updates :
      StateMachine st → List BalanceOperationSpec → Res (List (Account × BalanceChange))
  batch_updates self [] = ok []
  batch_updates self (spec ∷ specs) =
      let rest = batch_updates self specs in
      do
        updated ←
            increase_balance_by bd (get_or_create_account bd st self spec.account_id) spec.amount
        others ← rest
        ok (updated ∷ others)

  unfoldable pub update_accounts : World bd st → List Account → World bd st
  update_accounts w [] = w
  update_accounts w (account ∷ accounts) = update_accounts (update_account bd st w account) accounts

  unfoldable pub handle_batch_balance_operation :
      World bd st → BatchBalanceOperationRequest → ℕ → ℕ → Handled
  handle_batch_balance_operation w request log_index offset =
      attempt w (batch_updates w.machine request.balance_operation_spec) λ updates.
        let w1 = update_accounts (next_seq_num w) (map (λ u. u.0) updates) in
        (
          ok (
              build_batch_balance_operation_event w1.machine.last_seq_num log_index offset request
                (map (λ u. u.1) updates)),
          w1,
        )

  -- The checks of `handle_reserve`: the account before and after.
  unfoldable pub reserve_updates : StateMachine st → ReserveRequest → Res (Account × Account)
  reserve_updates self request = do
    prev_account ← assert_account_exists bd st self request.account_id
    curr_account ← reserve bd prev_account request.reservation_id request.amount
    ok (prev_account, curr_account)

  unfoldable pub handle_reserve : World bd st → ReserveRequest → ℕ → ℕ → Handled
  handle_reserve w request log_index offset =
      attempt w (reserve_updates w.machine request) λ updates.
        let w1 = update_account bd st (next_seq_num w) updates.1 in
        (
          ok (
              build_reserve_event w1.machine.last_seq_num log_index offset request
                (updates.0).balance (updates.1).balance),
          w1,
        )

  -- An empty amount releases everything that is left.
  unfoldable pub release_updates : StateMachine st → ReleaseRequest → Res (Account × Account)
  release_updates self request = do
    prev_account ← assert_account_exists bd st self request.account_id
    curr_account ←
        if is_empty request.amount
        then release_all bd prev_account request.reservation_id
        else partial_release bd prev_account request.reservation_id request.amount
    ok (prev_account, curr_account)

  unfoldable pub handle_release : World bd st → ReleaseRequest → ℕ → ℕ → Handled
  handle_release w request log_index offset =
      attempt w (release_updates w.machine request) λ updates.
        let w1 = update_account bd st (next_seq_num w) updates.1 in
        (
          ok (
              build_release_event w1.machine.last_seq_num log_index offset request
                (updates.0).balance (updates.1).balance),
          w1,
        )

  unfoldable pub create_updates : StateMachine st → CreateAccountRequest → Res Account
  create_updates self request = do
    fail_if (contains_key self.accounts request.header.account_id) (
        account_management_error
          (AccountManagementError.account_already_exist request.header.account_id))
    ok (new request.header.account_id)

  unfoldable pub handle_create_account : World bd st → CreateAccountRequest → ℕ → ℕ → Handled
  handle_create_account w request log_index offset =
      attempt w (create_updates w.machine request) λ account.
        let w1 = update_account bd st (next_seq_num w) account in
        (
          ok (build_create_account_event w1.machine.last_seq_num log_index offset request account),
          w1,
        )

  unfoldable pub lock_updates : StateMachine st → LockAccountRequest → Res Account
  lock_updates self request = do
    account ← assert_account_exists bd st self request.header.account_id
    lock bd account

  unfoldable pub handle_lock_account : World bd st → LockAccountRequest → ℕ → ℕ → Handled
  handle_lock_account w request log_index offset =
      attempt w (lock_updates w.machine request) λ account.
        let w1 = update_account bd st (next_seq_num w) account in
        (ok (build_lock_account_event w1.machine.last_seq_num log_index offset request account), w1)

  unfoldable pub unlock_updates : StateMachine st → UnlockAccountRequest → Res Account
  unlock_updates self request = do
    account ← assert_account_exists bd st self request.header.account_id
    unlock bd account

  unfoldable pub handle_unlock_account : World bd st → UnlockAccountRequest → ℕ → ℕ → Handled
  handle_unlock_account w request log_index offset =
      attempt w (unlock_updates w.machine request) λ account.
        let w1 = update_account bd st (next_seq_num w) account in
        (
          ok (build_unlock_account_event w1.machine.last_seq_num log_index offset request account),
          w1,
        )

  unfoldable pub delete_updates : StateMachine st → DeleteAccountRequest → Res Account
  delete_updates self request = do
    account ← assert_account_exists bd st self request.header.account_id
    delete bd account

  unfoldable pub handle_delete_account : World bd st → DeleteAccountRequest → ℕ → ℕ → Handled
  handle_delete_account w request log_index offset =
      attempt w (delete_updates w.machine request) λ account.
        let w1 = delete_account bd st (next_seq_num w) account in
        (
          ok (build_delete_account_event w1.machine.last_seq_num log_index offset request account),
          w1,
        )

  -- The state of the account is not looked at.
  unfoldable pub config_updates : StateMachine st → UpdateAccountConfigRequest → Res Account
  config_updates self request = do
    account ← assert_account_exists bd st self request.header.account_id
    ok (set_balance_limit bd account request.balance_limit)

  unfoldable pub handle_update_account_config :
      World bd st → UpdateAccountConfigRequest → ℕ → ℕ → Handled
  handle_update_account_config w request log_index offset =
      attempt w (config_updates w.machine request) λ account.
        let w1 = update_account bd st (next_seq_num w) account in
        (
          ok (
              build_update_account_config_event w1.machine.last_seq_num log_index offset request
                account),
          w1,
        )
