-- ===== src/StateMachine/Commit/Alive.antt =====
-- No balance operation and no state operation touches a deleted account, so what a handler writes
-- is never a tombstone. `update_account_config` alone does not look at the state.
use auticuro.Prelude.{
  ◌≡◌, ◌≢◌, Str, some, ok, arith, sym, Option-cases, inl, inr, Bytes_eq, subst, ◌∙◌, some_injective,
  none_ne_some, ◌⊎◌,
}
use auticuro.Prelude.Map.{Map, get}
use auticuro.Proto.{Account, deleted}
use auticuro.Decimal.{BigDecimal}
use auticuro.Storage.{Storage}
use auticuro.Account.{lock, unlock, delete}
use auticuro.Account.Kept.{Kept}
use auticuro.Account.States.{lock_iff, unlock_iff, delete_iff}
use auticuro.StateMachine.{StateMachine, get_or_create_account, assert_account_exists}

-- Every account is stored under its own id.
abbrev pub IsKeyed : Map Str Account → Type 0
IsKeyed accounts = (id : Str) (a : Account) → get accounts id ≡ some a → a.account_id ≡ id

-- What is found under the id, if anything, is not deleted.
abbrev pub IsAlive : Map Str Account → Str → Type 0
IsAlive accounts id = (a : Account) → get accounts id ≡ some a → a.state ≢ deleted

module _ (bd : BigDecimal) (st : Storage) (self : StateMachine st)
    (keyed : IsKeyed self.accounts) where
  pub found :
      (id : Str) {a : Account}
      → assert_account_exists bd st self id ≡ ok a
      → get self.accounts id ≡ some a
  unfolding assert_account_exists
  found id h = ground arith

  -- What was found and is not deleted.
  IsAlive-of_state :
      (id : Str) (a b : Account)
      → get self.accounts id ≡ some a
      → a.state ≢ deleted
      → b.account_id ≡ id
      → IsAlive self.accounts b.account_id
  IsAlive-of_state id a b f ne same =
      rw same (λ c g. subst (λ (t : Account). t.state ≢ deleted) (some_injective (sym f ∙ g)) ne)

  pub IsAlive-Kept :
      (id : Str) (a b : Account)
      → get self.accounts id ≡ some a
      → Kept bd a b
      → IsAlive self.accounts b.account_id
  IsAlive-Kept id a b f k =
      IsAlive-of_state id a b f (ground (arith, k.was_normal)) (k.same_id ∙ keyed id a f)

  -- Also where the account was created on the way.
  pub IsAlive-get_or_create :
      (id : Str) (b : Account)
      → Kept bd (get_or_create_account bd st self id) b
      → IsAlive self.accounts b.account_id
  unfolding get_or_create_account
  IsAlive-get_or_create id b k = elim (Option-cases (get self.accounts id)) [
    | inl absent ↦
        let same : b.account_id ≡ id = rw (absent, get_or_create_account) at k.same_id in
        rw same (λ c g. absurd (none_ne_some (sym absent ∙ g)))
    | inr (a, f) ↦ IsAlive-Kept id a b f (rw (f, get_or_create_account) at k)
  ]

  -- `lock`, `unlock` and `delete` start from an active or a locked account.
  pub IsAlive-of_transition :
      (id : Str) (a b : Account)
      → get self.accounts id ≡ some a
      → (lock bd a ≡ ok b) ⊎ (unlock bd a ≡ ok b) ⊎ (delete bd a ≡ ok b)
      → IsAlive self.accounts b.account_id
  IsAlive-of_transition id a b f (inl h) =
      let (n, e) = (lock_iff bd a b).0 h in
      IsAlive-of_state id a b f (ground arith) (rw e (keyed id a f))
  IsAlive-of_transition id a b f (inr (inl h)) =
      let (n, e) = (unlock_iff bd a b).0 h in
      IsAlive-of_state id a b f (ground arith) (rw e (keyed id a f))
  IsAlive-of_transition id a b f (inr (inr h)) =
      let (n, _, _, e) = (delete_iff bd a b).0 h in
      IsAlive-of_state id a b f (ground arith) (rw e (keyed id a f))
