-- ===== src/StateMachine/Commit/Updates.antt =====
-- The accounts that a handler writes are never tombstones, so every success is a `Commit`.
use auticuro.Prelude.{
  ℕ, ◌≡◌, refl, Str, ok, >>=-eq-ok, ok_injective, fail_if-eq-ok, ◌>>=◌, sym, ap, inl, inr, Bytes_eq,
  List, [], ◌∷◌, map, subst, ◌∙◌, false_ne_true, Bool-cases, if◌then◌else◌, ◌⊎◌, is_some,
}
use auticuro.Prelude.Map.{contains_key, is_empty}
use auticuro.Proto.{
  Account, Event, deleted, BalanceOperationSpec, CommandPayload, BalanceChange, transfer_request,
  batch_balance_operation_request, reserve_request, release_request, create_account_request,
  delete_account_request, lock_account_request, unlock_account_request,
  update_account_config_request, TransferRequest, ReserveRequest, ReleaseRequest,
  CreateAccountRequest, DeleteAccountRequest, UpdateAccountConfigRequest,
}
use auticuro.Decimal
use auticuro.Decimal.{BigDecimal}
use auticuro.Storage.{Storage}
use auticuro.Account.{
  increase_balance_by, validate_asset_class_compatibility, reserve, release_all, partial_release,
  lock, unlock, delete, set_balance_limit,
}
use auticuro.Account.Kept.{
  Kept, increase_balance_by-Kept, reserve-Kept, release_all-Kept, partial_release-Kept,
}
use auticuro.Account.States.{delete_iff}
use auticuro.StateMachine.{StateMachine, World, get_or_create_account, assert_account_exists}
use auticuro.StateMachine.Handlers.{
  Handled, update_accounts, transfer_updates, batch_updates, reserve_updates, release_updates,
  create_updates, lock_updates, unlock_updates, delete_updates, config_updates, handle_transfer,
  handle_batch_balance_operation, handle_reserve, handle_release, handle_create_account,
  handle_lock_account, handle_unlock_account, handle_delete_account, handle_update_account_config,
  Res,
}
use auticuro.StateMachine.Commands.{dispatch}
use auticuro.StateMachine.Commit.Alive.{
  IsKeyed, IsAlive, found, IsAlive-Kept, IsAlive-get_or_create, IsAlive-of_transition,
}
use auticuro.StateMachine.Commit.Shape.{Commit, updates, deletes, AllAlive, IsSafe, attempt-eq-ok}

module _ (bd : BigDecimal) (st : Storage) (self : StateMachine st)
    (keyed : IsKeyed self.accounts) where
  abbrev account_of : Str → Account
  account_of id = get_or_create_account bd st self id

  transfer-IsAlive :
      (r : TransferRequest) {u : (Account × BalanceChange) × (Account × BalanceChange)}
      → transfer_updates bd st self r ≡ ok u
      → AllAlive self.accounts ((u.0).0 ∷ (u.1).0 ∷ [])
  unfolding transfer_updates
  transfer-IsAlive r h =
      let from = r.transfer_spec.from_account_id in
      let to = r.transfer_spec.to_account_id in
      let amount = r.transfer_spec.amount in
      let (_, _, h1) =
        >>=-eq-ok (validate_asset_class_compatibility bd (account_of from) (account_of to)) _ h in
      let (t, p, h2) = >>=-eq-ok (increase_balance_by bd (account_of to) amount) _ h1 in
      let (n, _, h3) = >>=-eq-ok (Decimal.neg bd amount) _ h2 in
      let (f, q, h4) = >>=-eq-ok (increase_balance_by bd (account_of from) n) _ h3 in
      rw (← ok_injective h4) (
        IsAlive-get_or_create bd st self keyed to t.0
            (increase_balance_by-Kept bd (account_of to) amount t p),
        (
          IsAlive-get_or_create bd st self keyed from f.0
              (increase_balance_by-Kept bd (account_of from) n f q),
          tt,
        ),
      )

  batch-IsAlive :
      (specs : List BalanceOperationSpec) {us : List (Account × BalanceChange)}
      → batch_updates bd st self specs ≡ ok us
      → AllAlive self.accounts (map (λ u. u.0) us)
  unfolding batch_updates
  batch-IsAlive [] h = rw (← ok_injective h) tt
  batch-IsAlive (spec ∷ specs) h =
      let (u, p, h1) =
        >>=-eq-ok (increase_balance_by bd (account_of spec.account_id) spec.amount) _ h in
      let (us, q, h2) = >>=-eq-ok (batch_updates bd st self specs) _ h1 in
      rw (← ok_injective h2) (
        IsAlive-get_or_create bd st self keyed spec.account_id u.0
            (increase_balance_by-Kept bd (account_of spec.account_id) spec.amount u p),
        batch-IsAlive specs q,
      )

  reserve-IsAlive :
      (r : ReserveRequest) {u : Account × Account}
      → reserve_updates bd st self r ≡ ok u
      → IsAlive self.accounts (u.1).account_id
  unfolding reserve_updates
  reserve-IsAlive r h =
      let (a, f, h1) = >>=-eq-ok (assert_account_exists bd st self r.account_id) _ h in
      let (b, p, h2) = >>=-eq-ok (reserve bd a r.reservation_id r.amount) _ h1 in
      rw (← ok_injective h2) (
        IsAlive-Kept bd st self keyed r.account_id a b (found bd st self keyed r.account_id f)
          (reserve-Kept bd a r.reservation_id r.amount b p))

  release-Kept :
      (r : ReleaseRequest) (a b : Account)
      → (if is_empty r.amount
          then release_all bd a r.reservation_id
          else partial_release bd a r.reservation_id r.amount)
        ≡ ok b
      → Kept bd a b
  release-Kept r a b h = elim (Bool-cases (is_empty r.amount)) [
    | inl e ↦ release_all-Kept bd a r.reservation_id b (rw e at h)
    | inr e ↦ partial_release-Kept bd a r.reservation_id r.amount b (rw e at h)
  ]

  release-IsAlive :
      (r : ReleaseRequest) {u : Account × Account}
      → release_updates bd st self r ≡ ok u
      → IsAlive self.accounts (u.1).account_id
  unfolding release_updates
  release-IsAlive r h =
      let (a, f, h1) = >>=-eq-ok (assert_account_exists bd st self r.account_id) _ h in
      let (b, p, h2) =
        >>=-eq-ok
          (if is_empty r.amount
            then release_all bd a r.reservation_id
            else partial_release bd a r.reservation_id r.amount)
          _ h1 in
      rw (← ok_injective h2) (
        IsAlive-Kept bd st self keyed r.account_id a b (found bd st self keyed r.account_id f)
          (release-Kept r a b p))

  create-IsAlive :
      (r : CreateAccountRequest) {a : Account}
      → create_updates bd st self r ≡ ok a
      → IsAlive self.accounts a.account_id
  unfolding create_updates
  create-IsAlive r h =
      let (absent, h1) = fail_if-eq-ok (contains_key self.accounts r.header.account_id) _ _ h in
      rw (← ok_injective h1) (λ c g. absurd (false_ne_true (sym absent ∙ ap is_some g)))

  transition-IsAlive :
      (id : Str) (op : Account → Res bd st Account) {b : Account}
      → ((a : Account)
          → op a ≡ ok b
          → (lock bd a ≡ ok b) ⊎ (unlock bd a ≡ ok b) ⊎ (delete bd a ≡ ok b))
      → (assert_account_exists bd st self id >>= op) ≡ ok b
      → IsAlive self.accounts b.account_id
  transition-IsAlive id op {b} which h =
      let (a, f, h1) = >>=-eq-ok (assert_account_exists bd st self id) op h in
      IsAlive-of_transition bd st self keyed id a b (found bd st self keyed id f) (which a h1)

  config-IsAlive :
      (r : UpdateAccountConfigRequest) {b : Account}
      → config_updates bd st self r ≡ ok b
      → IsAlive self.accounts r.header.account_id
      → IsAlive self.accounts b.account_id
  unfolding config_updates set_balance_limit
  config-IsAlive r h safe =
      let (a, f, h1) = >>=-eq-ok (assert_account_exists bd st self r.header.account_id) _ h in
      rw (← ok_injective h1)
        (rw (keyed r.header.account_id a (found bd st self keyed r.header.account_id f)) safe)

module _ (bd : BigDecimal) (st : Storage) where
  deleted_of :
      (self : StateMachine st) (r : DeleteAccountRequest) {a : Account}
      → delete_updates bd st self r ≡ ok a
      → a.state ≡ deleted
  unfolding delete_updates
  deleted_of self r {a} h =
      let (b, _, h1) = >>=-eq-ok (assert_account_exists bd st self r.header.account_id) _ h in
      let (_, _, _, e) = (delete_iff bd b a).0 h1 in rw e refl

  to_world :
      {ev e1 : Event} {w w1 w' : World bd st}
      → ◌≡◌ {A = Handled bd st} (ok e1, w1) (ok ev, w')
      → Commit bd st w w1
      → Commit bd st w w'
  to_world {w = w} h c = subst (Commit bd st w) (ap (λ (p : Handled bd st). p.1) h) c

  -- Where every account is stored under its own id, a request that succeeds takes the next sequence
  -- number and then stores accounts none of which was deleted before, or marks one account that was
  -- not deleted before as deleted; it changes nothing else. A request that configures a deleted
  -- account is excluded.
  pub dispatch-Commit :
      (w : World bd st) (payload : CommandPayload) (log_index offset : ℕ) (ev : Event)
      (w' : World bd st)
      → IsKeyed w.machine.accounts
      → IsSafe w.machine.accounts payload
      → dispatch bd st w payload log_index offset ≡ (ok ev, w')
      → Commit bd st w w'
  unfolding dispatch handle_transfer handle_batch_balance_operation handle_reserve handle_release
      handle_create_account handle_lock_account handle_unlock_account handle_delete_account
      handle_update_account_config update_accounts lock_updates unlock_updates delete_updates
  dispatch-Commit w (transfer_request r) li off ev w' keyed safe h =
      let (u, p, q) = attempt-eq-ok bd st w (transfer_updates bd st w.machine r) _ h in
      to_world q (updates ((u.0).0 ∷ (u.1).0 ∷ []) (transfer-IsAlive bd st w.machine keyed r p))
  dispatch-Commit w (batch_balance_operation_request r) li off ev w' keyed safe h =
      let (us, p, q) =
        attempt-eq-ok bd st w (batch_updates bd st w.machine r.balance_operation_spec) _ h in
      to_world q (
        updates (map (λ u. u.0) us)
          (batch-IsAlive bd st w.machine keyed r.balance_operation_spec p))
  dispatch-Commit w (reserve_request r) li off ev w' keyed safe h =
      let (u, p, q) = attempt-eq-ok bd st w (reserve_updates bd st w.machine r) _ h in
      to_world q (updates (u.1 ∷ []) (reserve-IsAlive bd st w.machine keyed r p, tt))
  dispatch-Commit w (release_request r) li off ev w' keyed safe h =
      let (u, p, q) = attempt-eq-ok bd st w (release_updates bd st w.machine r) _ h in
      to_world q (updates (u.1 ∷ []) (release-IsAlive bd st w.machine keyed r p, tt))
  dispatch-Commit w (create_account_request r) li off ev w' keyed safe h =
      let (a, p, q) = attempt-eq-ok bd st w (create_updates bd st w.machine r) _ h in
      to_world q (updates (a ∷ []) (create-IsAlive bd st w.machine keyed r p, tt))
  dispatch-Commit w (lock_account_request r) li off ev w' keyed safe h =
      let (a, p, q) = attempt-eq-ok bd st w (lock_updates bd st w.machine r) _ h in
      to_world q (
        updates (a ∷ []) (
          transition-IsAlive bd st w.machine keyed r.header.account_id (lock bd) (λ b e. inl e) p,
          tt,
        ))
  dispatch-Commit w (unlock_account_request r) li off ev w' keyed safe h =
      let (a, p, q) = attempt-eq-ok bd st w (unlock_updates bd st w.machine r) _ h in
      to_world q (
        updates (a ∷ []) (
          transition-IsAlive bd st w.machine keyed r.header.account_id (unlock bd)
              (λ b e. inr (inl e)) p,
          tt,
        ))
  dispatch-Commit w (delete_account_request r) li off ev w' keyed safe h =
      let (a, p, q) = attempt-eq-ok bd st w (delete_updates bd st w.machine r) _ h in
      to_world q (
        deletes a
          (transition-IsAlive bd st w.machine keyed r.header.account_id (delete bd)
            (λ b e. inr (inr e)) p)
          (deleted_of w.machine r p))
  dispatch-Commit w (update_account_config_request r) li off ev w' keyed safe h =
      let (a, p, q) = attempt-eq-ok bd st w (config_updates bd st w.machine r) _ h in
      to_world q (updates (a ∷ []) (config-IsAlive bd st w.machine keyed r p safe, tt))
