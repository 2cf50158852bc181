-- ===== src/StateMachine/Commit/Shape.antt =====
-- What each handler does to the world, as one of two shapes.
use auticuro.Prelude.{
  ℕ, ◌≡◌, refl, Str, true, ok, err, is_ok, sym, ap, Bytes_eq, List, [], ◌∷◌, err_ne_ok,
  false_ne_true,
}
use auticuro.Prelude.Map.{Map}
use auticuro.Proto.{
  Account, Event, deleted, CommandPayload, transfer_request, batch_balance_operation_request,
  reserve_request, release_request, create_account_request, delete_account_request,
  lock_account_request, unlock_account_request, update_account_config_request,
}
use auticuro.Errors.{Error}
use auticuro.Decimal.{BigDecimal}
use auticuro.Storage.{Storage}
use auticuro.StateMachine.{World, delete_account}
use auticuro.StateMachine.Handlers.{
  Handled, attempt, next_seq_num, update_accounts, transfer_updates, batch_updates, reserve_updates,
  release_updates, create_updates, lock_updates, unlock_updates, delete_updates, config_updates,
  handle_transfer, handle_batch_balance_operation, handle_reserve, handle_release,
  handle_create_account, handle_lock_account, handle_unlock_account, handle_delete_account,
  handle_update_account_config, Res,
}
use auticuro.StateMachine.Commands.{dispatch}
use auticuro.StateMachine.Commit.Alive.{IsAlive}

-- None of the accounts is a tombstone.
abbrev pub AllAlive : Map Str Account → List Account → Type 0
AllAlive m [] = Unit
AllAlive m (a ∷ accs) = IsAlive m a.account_id × AllAlive m accs

-- A change of an account's configuration is not of a deleted account.
abbrev pub IsSafe : Map Str Account → CommandPayload → Type 0
IsSafe m (update_account_config_request request) = IsAlive m request.header.account_id
IsSafe m _ = Unit

module _ (bd : BigDecimal) (st : Storage) where
  -- A success takes the next sequence number, and then either writes accounts that are not
  -- tombstones, or makes one account a tombstone.
  pub data Commit (w : World bd st) : World bd st → Type 0 where
    updates :
        (accounts : List Account)
        → AllAlive w.machine.accounts accounts
        → Commit w (update_accounts bd st (next_seq_num bd st w) accounts)
    deletes :
        (account : Account)
        → IsAlive w.machine.accounts account.account_id
        → account.state ≡ deleted
        → Commit w (delete_account bd st (next_seq_num bd st w) account)

  pub attempt-eq-ok :
      {A : Type 0} (w : World bd st) (r : Res bd st A) (rest : A → Handled bd st) {ev : Event}
      {w' : World bd st}
      → attempt bd st w r rest ≡ (ok ev, w')
      → (a : A) × (r ≡ ok a) × (rest a ≡ (ok ev, w'))
  attempt-eq-ok w (ok a) rest h = (a, refl, h)
  attempt-eq-ok w (err e) rest h = absurd (err_ne_ok (ap (λ (p : Handled bd st). p.0) h))

  attempt-eq-err :
      {A : Type 0} (w : World bd st) (r : Res bd st A) (rest : A → Handled bd st)
      {e : Error bd.ParseBigDecimalError} {w' : World bd st}
      → ((a : A) → is_ok (rest a).0 ≡ true)
      → attempt bd st w r rest ≡ (err e, w')
      → w' ≡ w
  attempt-eq-err w (ok a) rest succeeds h =
      let good = succeeds a in
      absurd (false_ne_true (rw (ap (λ (p : Handled bd st). is_ok p.0) h) at good))
  attempt-eq-err w (err e) rest succeeds h = sym (ap (λ (p : Handled bd st). p.1) h)

  -- A handler that fails leaves the state machine and the context as they were, whatever the
  -- request.
  pub dispatch-err :
      (w : World bd st) (payload : CommandPayload) (log_index offset : ℕ)
      {e : Error bd.ParseBigDecimalError} {w' : World bd st}
      → dispatch bd st w payload log_index offset ≡ (err e, w')
      → w' ≡ w
  unfolding dispatch handle_transfer handle_batch_balance_operation handle_reserve handle_release
      handle_create_account handle_lock_account handle_unlock_account handle_delete_account
      handle_update_account_config
  dispatch-err w (transfer_request r) li off =
      attempt-eq-err w (transfer_updates bd st w.machine r) _ (λ a. refl)
  dispatch-err w (batch_balance_operation_request r) li off =
      attempt-eq-err w (batch_updates bd st w.machine r.balance_operation_spec) _ (λ a. refl)
  dispatch-err w (reserve_request r) li off =
      attempt-eq-err w (reserve_updates bd st w.machine r) _ (λ a. refl)
  dispatch-err w (release_request r) li off =
      attempt-eq-err w (release_updates bd st w.machine r) _ (λ a. refl)
  dispatch-err w (create_account_request r) li off =
      attempt-eq-err w (create_updates bd st w.machine r) _ (λ a. refl)
  dispatch-err w (lock_account_request r) li off =
      attempt-eq-err w (lock_updates bd st w.machine r) _ (λ a. refl)
  dispatch-err w (unlock_account_request r) li off =
      attempt-eq-err w (unlock_updates bd st w.machine r) _ (λ a. refl)
  dispatch-err w (delete_account_request r) li off =
      attempt-eq-err w (delete_updates bd st w.machine r) _ (λ a. refl)
  dispatch-err w (update_account_config_request r) li off =
      attempt-eq-err w (config_updates bd st w.machine r) _ (λ a. refl)
