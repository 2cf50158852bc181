-- ===== src/Account/Checks.antt =====
-- What a check of account.rs that passes says of the account, and the shape of an account whose
-- balance was increased.
use auticuro.Prelude.{
  ◌≡◌, refl, ◌≢◌, Str, some, Ordering, ok, arith, >>=-eq-ok, ok_injective, sym, subst, Bytes_eq,
  fail_if, ◌||◌,
}
use auticuro.Prelude.Map.{get}
use auticuro.Proto.{Account, BalanceLimit, BalanceChange, normal}
use auticuro.Decimal
use auticuro.Decimal.{BigDecimal}
use auticuro.Decimal.Laws.{DecimalLaws, Denotes, cmp-Denotes, Denotes-unique, Compares}
use auticuro.Account.{
  assert_state_is_normal, assert_amount_gt_zero, assert_reservation_exists, zero_amount,
  within_limit, validate_balance_limitation, increase_balance_by, with_available, ordering_is,
}

gt_of_checked :
    {E : Type 0} (e : E) {u : Unit {0}} (o : Ordering)
    → fail_if (ordering_is o Ordering.lt || ordering_is o Ordering.eq) e ≡ ok u
    → o ≡ Ordering.gt
gt_of_checked e o h = ground arith

limits_of_checked :
    {E : Type 0} (e : E) {u : Unit {0}} (o p : Ordering)
    → fail_if (ordering_is o Ordering.lt || ordering_is p Ordering.gt) e ≡ ok u
    → (o ≢ Ordering.lt) × (p ≢ Ordering.gt)
limits_of_checked e o p h = (ground arith, ground arith)

module _ (bd : BigDecimal) where
  pub normal_of_assert :
      (a : Account) {u : Unit {0}} → assert_state_is_normal bd a ≡ ok u → a.state ≡ normal
  unfolding assert_state_is_normal
  normal_of_assert a h = ground arith

  pub get_of_assert_exists :
      (a : Account) (id : Str) {r : Str}
      → assert_reservation_exists bd a id ≡ ok r
      → get a.balance.reservations id ≡ some r
  unfolding assert_reservation_exists
  get_of_assert_exists a id h = ground arith

  -- An increase that succeeds: the account was active, the texts were added, the sum passed the
  -- limits, and nothing but the available balance differs.
  pub record Increased (a : Account) (amount : Str) (r : Account × BalanceChange) : Type 0 where
    pub new_balance : Str
    pub was_normal : a.state ≡ normal
    pub added : Decimal.add bd a.balance.available amount ≡ ok new_balance
    pub in_limit : validate_balance_limitation bd a new_balance ≡ ok tt
    pub result : r ≡ (
      with_available a new_balance,
      record {
        account_id = a.account_id;
        prev_balance = a.balance;
        curr_balance = (with_available a new_balance).balance;
      },
    )

  pub increase_balance_by-Increased :
      (a : Account) (amount : Str) {r : Account × BalanceChange}
      → increase_balance_by bd a amount ≡ ok r
      → Increased a amount r
  unfolding increase_balance_by
  increase_balance_by-Increased a amount h =
      let (_, p, h1) = >>=-eq-ok (assert_state_is_normal bd a) _ h in
      let (nb, q, h2) = >>=-eq-ok (Decimal.add bd a.balance.available amount) _ h1 in
      let (_, l, h3) = >>=-eq-ok (validate_balance_limitation bd a nb) _ h2 in
      record {
        new_balance = nb;
        was_normal = normal_of_assert a p;
        added = q;
        in_limit = l;
        result = sym (ok_injective h3);
      }

  module _ (laws : DecimalLaws bd) where
    open laws use {Value, Lt, nil}

    -- The amount is positive.
    pub positive_of_assert :
        (amount : Str) {u : Unit {0}}
        → assert_amount_gt_zero bd amount ≡ ok u
        → (x : Value) × Denotes laws amount x × Lt nil x
    unfolding assert_amount_gt_zero
    positive_of_assert amount h =
        let (o, p, k) = >>=-eq-ok (Decimal.cmp bd amount zero_amount) _ h in
        let (x, z, dx, dz, c) = cmp-Denotes laws amount zero_amount p in
        let zero : z ≡ nil = Denotes-unique laws zero_amount dz laws.from_str_zero in
        (x, dx, rw (← zero) (subst (λ t. Compares laws t x z) (gt_of_checked _ o k) c))

    not_above : (o : Ordering) {x y : Value} → o ≢ Ordering.gt → Compares laws o x y → ¬ (Lt y x)
    not_above Ordering.lt {x} {y} h c k = laws.Lt_irrefl x (laws.Lt_trans x y x c k)
    not_above Ordering.eq {x} {y} h c k = laws.Lt_irrefl y (rw c at k)
    not_above Ordering.gt h c k = h refl

    not_below : (o : Ordering) {x y : Value} → o ≢ Ordering.lt → Compares laws o x y → ¬ (Lt x y)
    not_below Ordering.lt h c k = h refl
    not_below Ordering.eq {x} {y} h c k = laws.Lt_irrefl y (rw c at k)
    not_below Ordering.gt {x} {y} h c k = laws.Lt_irrefl x (laws.Lt_trans x y x k c)

    -- A balance that is let through lies between the limits, which are numbers.
    pub record WithinLimit (l : BalanceLimit) (balance : Str) : Type 0 where
      pub amount : Value
      pub upper : Value
      pub lower : Value
      pub amount-Denotes : Denotes laws balance amount
      pub upper-Denotes : Denotes laws l.upper upper
      pub lower-Denotes : Denotes laws l.lower lower
      pub below_upper : ¬ (Lt upper amount)
      pub above_lower : ¬ (Lt amount lower)

    pub within_limit-WithinLimit :
        (l : BalanceLimit) (balance : Str) {u : Unit {0}}
        → within_limit bd l balance ≡ ok u
        → WithinLimit l balance
    unfolding within_limit
    within_limit-WithinLimit l balance h =
        let (o, p, h1) = >>=-eq-ok (Decimal.cmp bd balance l.upper) _ h in
        let (o', q, h2) = >>=-eq-ok (Decimal.cmp bd balance l.lower) _ h1 in
        let (x, up, dx, du, c) = cmp-Denotes laws balance l.upper p in
        let (y, lo, dy, dl, c') = cmp-Denotes laws balance l.lower q in
        let same : y ≡ x = Denotes-unique laws balance dy dx in
        let (not_lt, not_gt) = limits_of_checked _ o' o h2 in
        record {
          amount = x;
          upper = up;
          lower = lo;
          amount-Denotes = dx;
          upper-Denotes = du;
          lower-Denotes = dl;
          below_upper = not_above o not_gt c;
          above_lower = rw (← same) (not_below o' not_lt c');
        }
