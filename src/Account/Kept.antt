-- ===== src/Account/Kept.antt =====
-- Every balance operation keeps the account's id and starts from an active account.
use auticuro.Prelude.{
  ◌≡◌, refl, Str, ok, >>=-eq-ok, ok_injective, err_ne_ok, ap, Ordering, Bytes_eq,
}
use auticuro.Proto.{Account, normal, BalanceChange}
use auticuro.Decimal
use auticuro.Decimal.{BigDecimal}
use auticuro.Account.{
  increase_balance_by, reserve, release_all, partial_release, release_by, release_part,
  assert_state_is_normal, assert_amount_gt_zero, assert_reservation_exists,
}
use auticuro.Account.Checks.{increase_balance_by-Increased}
use auticuro.Account.Reservations.Totals.{reserve-Reserved, release_all-Released}

module _ (bd : BigDecimal) where
  -- The account that an operation returns keeps its id, and the one it started from was active.
  pub record Kept (a b : Account) : Type 0 where
    pub same_id : b.account_id ≡ a.account_id
    pub was_normal : a.state ≡ normal

  pub increase_balance_by-Kept :
      (a : Account) (amount : Str) (r : Account × BalanceChange)
      → increase_balance_by bd a amount ≡ ok r
      → Kept a r.0
  increase_balance_by-Kept a amount r h =
      let i = increase_balance_by-Increased bd a amount h in
      record { same_id = rw i.result refl; was_normal = i.was_normal }

  pub reserve-Kept :
      (a : Account) (id amount : Str) (b : Account) → reserve bd a id amount ≡ ok b → Kept a b
  reserve-Kept a id amount b h =
      let r = reserve-Reserved bd a id amount h in
      let i = r.increased in
      record {
        same_id = rw r.result (ap (λ (p : Account × BalanceChange). (p.0).account_id) i.result);
        was_normal = i.was_normal;
      }

  pub release_all-Kept :
      (a : Account) (id : Str) (b : Account) → release_all bd a id ≡ ok b → Kept a b
  release_all-Kept a id b h =
      let r = release_all-Released bd a id h in
      let i = r.increased in
      record {
        same_id = rw r.result (ap (λ (p : Account × BalanceChange). (p.0).account_id) i.result);
        was_normal = i.was_normal;
      }

  release_part-Kept :
      (a : Account) (id amount reserved : Str) (b : Account)
      → release_part bd a id amount reserved ≡ ok b
      → Kept a b
  unfolding release_part
  release_part-Kept a id amount reserved b h =
      let (r, i, h1) = >>=-eq-ok (increase_balance_by bd a amount) _ h in
      let (n, _, h2) = >>=-eq-ok (Decimal.neg bd amount) _ h1 in
      let (rest, _, h3) = >>=-eq-ok (Decimal.add bd reserved n) _ h2 in
      let k = increase_balance_by-Kept a amount r i in
      record { same_id = rw (← ok_injective h3) k.same_id; was_normal = k.was_normal }

  release_by-Kept :
      (o : Ordering) (a : Account) (id amount reserved : Str) (b : Account)
      → release_by bd o a id amount reserved ≡ ok b
      → Kept a b
  unfolding release_by
  release_by-Kept Ordering.gt a id amount reserved b h = absurd (err_ne_ok h)
  release_by-Kept Ordering.eq a id amount reserved b h = release_all-Kept a id b h
  release_by-Kept Ordering.lt a id amount reserved b h = release_part-Kept a id amount reserved b h

  pub partial_release-Kept :
      (a : Account) (id amount : Str) (b : Account)
      → partial_release bd a id amount ≡ ok b
      → Kept a b
  unfolding partial_release
  partial_release-Kept a id amount b h =
      let (_, _, h1) = >>=-eq-ok (assert_state_is_normal bd a) _ h in
      let (_, _, h2) = >>=-eq-ok (assert_amount_gt_zero bd amount) _ h1 in
      let (reserved, _, h3) = >>=-eq-ok (assert_reservation_exists bd a id) _ h2 in
      let (o, _, h4) = >>=-eq-ok (Decimal.cmp bd amount reserved) _ h3 in
      release_by-Kept o a id amount reserved b h4
