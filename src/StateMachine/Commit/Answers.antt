-- ===== src/StateMachine/Commit/Answers.antt =====
-- The event that a handler builds is of the type that its command expects.
use auticuro.Prelude.{ℕ, ◌≡◌, refl, true, ok, some, ap, ok_injective, Bytes_eq, subst}
use auticuro.Proto.{
  Event, EventPayload, CommandPayload, transfer_request, batch_balance_operation_request,
  reserve_request, release_request, create_account_request, delete_account_request,
  lock_account_request, unlock_account_request, update_account_config_request,
}
use auticuro.Decimal.{BigDecimal}
use auticuro.Storage.{Storage}
use auticuro.Internal.{types_match}
use auticuro.StateMachine.{World}
use auticuro.StateMachine.Handlers.{
  Handled, Res, attempt, transfer_updates, batch_updates, reserve_updates, release_updates,
  create_updates, lock_updates, unlock_updates, delete_updates, config_updates, handle_transfer,
  handle_batch_balance_operation, handle_reserve, handle_release, handle_create_account,
  handle_lock_account, handle_unlock_account, handle_delete_account, handle_update_account_config,
}
use auticuro.StateMachine.Commands.{dispatch}
use auticuro.StateMachine.Commit.Shape.{attempt-eq-ok}

-- The event answers the payload.
abbrev pub Answers : CommandPayload → Event → Type 0
Answers p ev = (t : EventPayload) × (ev.payload ≡ some t) × (types_match p t ≡ true)

module _ (bd : BigDecimal) (st : Storage) where
  answers :
      {A : Type 0} (p : CommandPayload) (w : World bd st) (r : Res bd st A) (event : A → Event)
      (world : A → World bd st) {ev : Event} {w' : World bd st}
      → ((a : A) → Answers p (event a))
      → attempt bd st w r (λ a. (ok (event a), world a)) ≡ (ok ev, w')
      → Answers p ev
  answers p w r event world each h =
      let (a, _, e) = attempt-eq-ok bd st w r (λ a. (ok (event a), world a)) h in
      subst (Answers p) (ok_injective (ap (λ (x : Handled bd st). x.0) e)) (each a)

  -- The event of a request that succeeds has a payload, of the type that the duplicate check
  -- expects for the request.
  pub dispatch-Answers :
      (w : World bd st) (p : CommandPayload) (log_index offset : ℕ) (ev : Event) (w' : World bd st)
      → dispatch bd st w p log_index offset ≡ (ok ev, w')
      → Answers p ev
  unfolding dispatch types_match handle_transfer handle_batch_balance_operation handle_reserve
      handle_release handle_create_account handle_lock_account handle_unlock_account
      handle_delete_account handle_update_account_config
  dispatch-Answers w (transfer_request r) li off ev w' h =
      answers (transfer_request r) w (transfer_updates bd st w.machine r) _ _ (λ a. (_, refl, refl))
        h
  dispatch-Answers w (batch_balance_operation_request r) li off ev w' h =
      answers (batch_balance_operation_request r) w
        (batch_updates bd st w.machine r.balance_operation_spec) _ _ (λ a. (_, refl, refl)) h
  dispatch-Answers w (reserve_request r) li off ev w' h =
      answers (reserve_request r) w (reserve_updates bd st w.machine r) _ _ (λ a. (_, refl, refl)) h
  dispatch-Answers w (release_request r) li off ev w' h =
      answers (release_request r) w (release_updates bd st w.machine r) _ _ (λ a. (_, refl, refl)) h
  dispatch-Answers w (create_account_request r) li off ev w' h =
      answers (create_account_request r) w (create_updates bd st w.machine r) _ _
        (λ a. (_, refl, refl)) h
  dispatch-Answers w (lock_account_request r) li off ev w' h =
      answers (lock_account_request r) w (lock_updates bd st w.machine r) _ _ (λ a. (_, refl, refl))
        h
  dispatch-Answers w (unlock_account_request r) li off ev w' h =
      answers (unlock_account_request r) w (unlock_updates bd st w.machine r) _ _
        (λ a. (_, refl, refl)) h
  dispatch-Answers w (delete_account_request r) li off ev w' h =
      answers (delete_account_request r) w (delete_updates bd st w.machine r) _ _
        (λ a. (_, refl, refl)) h
  dispatch-Answers w (update_account_config_request r) li off ev w' h =
      answers (update_account_config_request r) w (config_updates bd st w.machine r) _ _
        (λ a. (_, refl, refl)) h
