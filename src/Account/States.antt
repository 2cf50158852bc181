-- ===== src/Account/States.antt =====
-- The life of an account: which state changes lock, unlock and delete make, and what a state
-- allows.
use auticuro.Prelude.{
  ◌≡◌, refl, ◌≢◌, ◌↔◌, ◌⊎◌, inl, inr, Str, ok, err, [], arith, subst, ◌∙◌, Ordering, Bytes_eq,
}
use auticuro.Proto.{Account, AccountState, normal, locked, deleted}
use auticuro.Errors.{
  balance_operation_error, account_management_error, invalid_account_state,
  invalid_state_transition,
}
use auticuro.Decimal
use auticuro.Decimal.{BigDecimal}
use auticuro.Decimal.Laws.{DecimalLaws, Denotes, cmp-Denotes, Denotes-unique}
use auticuro.Account.{
  assert_state_is_normal, zero_amount, increase_balance_by, reserve, release_all, partial_release,
  lock, unlock, delete, is_legal, validate_state_transition, assert_balance_is_zero,
}

-- The life cycle: an active account may be locked or deleted, a locked one unlocked, and nothing
-- leaves the deleted state.
pub data Transition : AccountState → AccountState → Type 0 where
  locks : Transition normal locked
  deletes : Transition normal deleted
  unlocks : Transition locked normal

module _ (bd : BigDecimal) where
  inactive_lem :
      (a : Account)
      → a.state ≢ normal
      → assert_state_is_normal bd a ≡ err (balance_operation_error (invalid_account_state a.state))
  unfolding assert_state_is_normal
  inactive_lem a h = ground arith

  -- `lock` succeeds exactly on an active account, and then changes the state alone.
  pub lock_iff :
      (a b : Account)
      → (lock bd a ≡ ok b) ↔ ((a.state ≡ normal) × (b ≡ record a { state = locked }))
  unfolding lock validate_state_transition is_legal
  lock_iff a b = (λ h. (ground arith, ground arith), λ h. ground arith)

  -- `unlock` succeeds exactly on a locked account, and then changes the state alone.
  pub unlock_iff :
      (a b : Account)
      → (unlock bd a ≡ ok b) ↔ ((a.state ≡ locked) × (b ≡ record a { state = normal }))
  unfolding unlock validate_state_transition is_legal
  unlock_iff a b = (λ h. (ground arith, ground arith), λ h. ground arith)

  -- What is refused leaves a reason that names both states.
  pub unlock_refused :
      (a : Account)
      → a.state ≢ locked
      → unlock bd a ≡ err (account_management_error (invalid_state_transition a.state normal))
  unfolding unlock validate_state_transition is_legal
  unlock_refused a h = ground arith

  -- Unlocking an account that was locked with success gives the account back as it was.
  pub unlock-lock : (a b : Account) → lock bd a ≡ ok b → unlock bd b ≡ ok a
  unlock-lock a b h = ground (arith, lock_iff a b, unlock_iff b a)

  -- `delete` succeeds exactly on an active account with no reservation whose available balance
  -- compares as equal to zero, and then changes the state alone.
  pub delete_iff :
      (a b : Account)
      → (delete bd a ≡ ok b) ↔ (
          (a.state ≡ normal)
          × (a.balance.reservations ≡ [])
          × (Decimal.cmp bd a.balance.available zero_amount ≡ ok Ordering.eq)
          × (b ≡ record a { state = deleted }))
  unfolding delete validate_state_transition is_legal assert_balance_is_zero
  delete_iff a b =
      (λ h. (ground arith, ground arith, ground arith, ground arith), λ h. ground arith)

  -- Whatever lock, unlock and delete do with success is a step of the life cycle: from active to
  -- locked or deleted, or from locked to active.
  pub state_operation-Transition :
      (a b : Account)
      → (lock bd a ≡ ok b) ⊎ (unlock bd a ≡ ok b) ⊎ (delete bd a ≡ ok b)
      → Transition a.state b.state
  state_operation-Transition a b (inl h) = let (n, e) = (lock_iff a b).0 h in rw n (rw e locks)
  state_operation-Transition a b (inr (inl h)) =
      let (n, e) = (unlock_iff a b).0 h in rw n (rw e unlocks)
  state_operation-Transition a b (inr (inr h)) =
      let (n, _, _, e) = (delete_iff a b).0 h in rw n (rw e deletes)

  -- An account that was deleted with success has the value zero and no reservation.
  pub delete-Denotes :
      (laws : DecimalLaws bd) (a b : Account)
      → delete bd a ≡ ok b
      → Denotes laws b.balance.available laws.nil × (b.balance.reservations ≡ [])
  delete-Denotes laws a b h =
      let (_, r, c, e) = (delete_iff a b).0 h in
      let (x, z, dx, dz, same) = cmp-Denotes laws a.balance.available zero_amount c in
      let zero : z ≡ laws.nil = Denotes-unique laws zero_amount dz laws.from_str_zero in
      rw e (subst (Denotes laws a.balance.available) (same ∙ zero) dx, r)

  -- On an account that is not active each of the four balance operations is refused with the state
  -- as the reason, whatever its arguments are.
  pub inactive_refused :
      (a : Account) (id amount : Str)
      → a.state ≢ normal
      → let refusal = balance_operation_error (invalid_account_state a.state) in
        (increase_balance_by bd a amount ≡ err refusal)
        × (reserve bd a id amount ≡ err refusal)
        × (release_all bd a id ≡ err refusal)
        × (partial_release bd a id amount ≡ err refusal)
  unfolding increase_balance_by reserve release_all partial_release
  inactive_refused a id amount h =
      let refused : assert_state_is_normal bd a
          ≡ err (balance_operation_error (invalid_account_state a.state)) =
        inactive_lem a h in
      (rw refused refl, rw refused refl, rw refused refl, rw refused refl)
