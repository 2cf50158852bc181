-- ===== src/Account/Reservations/Totals.antt =====
-- The total of an account, available plus reserved, is kept by reserve and by both releases.
use auticuro.Prelude.{
  ◌≡◌, refl, Str, some, none, sym, ap, ap₂, ◌∙◌, subst, ok, arith, >>=-eq-ok, ok_injective,
  Ordering, err_ne_ok, Bytes_eq, fail_if-eq-ok,
}
use auticuro.Prelude.Map.{IsUnique, get, insert, contains_key}
use auticuro.Proto.{Account, Balance, BalanceChange}
use auticuro.Decimal
use auticuro.Decimal.{BigDecimal}
use auticuro.Decimal.Laws.{
  DecimalLaws, Denotes, Denotes-unique, neg-Denotes, add-Denotes, plus_exchange, plus_shift,
}
use auticuro.Account.{
  reserve, release_all, release_part, release_by, partial_release, with_reservation,
  without_reservation, with_available, increase_balance_by, assert_state_is_normal,
  assert_amount_gt_zero, assert_reservation_exists,
}
use auticuro.Account.Checks.{Increased, increase_balance_by-Increased, get_of_assert_exists}
use auticuro.Account.Reservations.Sums.{
  SumsTo, SumsTo-insert, SumsTo-remove, IsUnique-insert, IsUnique-remove,
}

module _ (bd : BigDecimal) where
  -- A reserve that succeeds: the id was free, and the negated amount was added.
  pub record Reserved (a : Account) (id amount : Str) (b : Account) : Type 0 where
    pub negated : Str
    pub change : BalanceChange
    pub taken : Account
    pub positive : assert_amount_gt_zero bd amount ≡ ok tt
    pub free : get a.balance.reservations id ≡ none
    pub negation : Decimal.neg bd amount ≡ ok negated
    pub increased : Increased bd a negated (taken, change)
    pub result : b ≡ with_reservation taken id amount

  pub reserve-Reserved :
      (a : Account) (id amount : Str) {b : Account}
      → reserve bd a id amount ≡ ok b
      → Reserved a id amount b
  unfolding reserve
  reserve-Reserved a id amount h =
      let (_, _, h1) = >>=-eq-ok (assert_state_is_normal bd a) _ h in
      let (_, pos, h2) = >>=-eq-ok (assert_amount_gt_zero bd amount) _ h1 in
      let (fr, h3) = fail_if-eq-ok (contains_key a.balance.reservations id) _ _ h2 in
      let (n, q, h4) = >>=-eq-ok (Decimal.neg bd amount) _ h3 in
      let (r, i, h5) = >>=-eq-ok (increase_balance_by bd a n) _ h4 in
      record {
        negated = n;
        change = r.1;
        taken = r.0;
        positive = pos;
        free = ground arith;
        negation = q;
        increased = increase_balance_by-Increased bd a n i;
        result = sym (ok_injective h5);
      }

  -- A full release that succeeds: the reserved amount was found and added back.
  pub record Released (a : Account) (id : Str) (b : Account) : Type 0 where
    pub reserved : Str
    pub change : BalanceChange
    pub given : Account
    pub found : get a.balance.reservations id ≡ some reserved
    pub increased : Increased bd a reserved (given, change)
    pub result : b ≡ without_reservation given id

  pub release_all-Released :
      (a : Account) (id : Str) {b : Account} → release_all bd a id ≡ ok b → Released a id b
  unfolding release_all
  release_all-Released a id h =
      let (_, _, h1) = >>=-eq-ok (assert_state_is_normal bd a) _ h in
      let (amount, f, h2) = >>=-eq-ok (assert_reservation_exists bd a id) _ h1 in
      let (r, i, h3) = >>=-eq-ok (increase_balance_by bd a amount) _ h2 in
      record {
        reserved = amount;
        change = r.1;
        given = r.0;
        found = get_of_assert_exists bd a id f;
        increased = increase_balance_by-Increased bd a amount i;
        result = sym (ok_injective h3);
      }

-- The total is the available value and the reserved values together.
abbrev pub Total : {bd : BigDecimal} (laws : DecimalLaws bd) → Balance → laws.Value → Type 0
Total laws b t =
    (x : laws.Value) × (w : laws.Value) × Denotes laws b.available x
    × SumsTo laws b.reservations w
    × (t ≡ laws.plus x w)

module _ (bd : BigDecimal) (laws : DecimalLaws bd) where
  open laws use {Value, plus, opp}

  -- What an increase by `y` does: the reservations stay, and `y` is added.
  pub Increased-value :
      (a : Account) (amount : Str) {b : Account} {change : BalanceChange} {x y : Value}
      → Increased bd a amount (b, change)
      → Denotes laws a.balance.available x
      → Denotes laws amount y
      → Denotes laws b.balance.available (plus x y)
        × (b.balance.reservations ≡ a.balance.reservations)
  Increased-value a amount {b} i dx dy =
      let (x', y', dx', dy', ds) = add-Denotes laws a.balance.available amount i.added in
      let eb : b ≡ with_available a i.new_balance =
        ap (λ (r : Account × BalanceChange). r.0) i.result in
      let ex = Denotes-unique laws a.balance.available dx' dx in
      let ey = Denotes-unique laws amount dy' dy in
      (rw eb (subst (Denotes laws i.new_balance) (ap₂ plus ex ey) ds), rw eb refl)

  -- A reserve that succeeds keeps the total value of the account, what is available and what is
  -- reserved together, and the uniqueness of its reservation ids.
  pub reserve-Total :
      (a : Account) (id amount : Str) (b : Account) (t : Value)
      → reserve bd a id amount ≡ ok b
      → IsUnique a.balance.reservations
      → Total laws a.balance t
      → IsUnique b.balance.reservations × Total laws b.balance t
  reserve-Total a id amount b t h u (x, w, dx, sw, e) =
      let r = reserve-Reserved bd a id amount h in
      let (y, dy, dn) = neg-Denotes laws amount r.negation in
      let (dv, same) = Increased-value a r.negated r.increased dx dn in
      rw r.result (
        rw same (IsUnique-insert a.balance.reservations id amount u),
        (
          plus x (opp y),
          plus y w,
          dv,
          rw same (SumsTo-insert laws a.balance.reservations id amount w r.free dy sw),
          e ∙ sym (ap (plus (plus x (opp y))) (laws.plus_comm y w) ∙ plus_exchange laws x w y),
        ),
      )

  -- A full release that succeeds keeps the total value of the account, and the uniqueness of its
  -- reservation ids.
  pub release_all-Total :
      (a : Account) (id : Str) (b : Account) (t : Value)
      → release_all bd a id ≡ ok b
      → IsUnique a.balance.reservations
      → Total laws a.balance t
      → IsUnique b.balance.reservations × Total laws b.balance t
  release_all-Total a id b t h u (x, w, dx, sw, e) =
      let r = release_all-Released bd a id h in
      let (y, w', dy, sw', split) = SumsTo-remove laws a.balance.reservations id r.found u sw in
      let (dv, same) = Increased-value a r.reserved r.increased dx dy in
      rw r.result (
        rw same (IsUnique-remove a.balance.reservations id u),
        (plus x y, w', dv, rw same sw', e ∙ ap (plus x) split ∙ sym (laws.plus_assoc x y w')),
      )

  release_part-Total :
      (a : Account) (id amount reserved : Str) (b : Account) (t : Value)
      → get a.balance.reservations id ≡ some reserved
      → release_part bd a id amount reserved ≡ ok b
      → IsUnique a.balance.reservations
      → Total laws a.balance t
      → IsUnique b.balance.reservations × Total laws b.balance t
  unfolding release_part insert
  release_part-Total a id amount reserved b t found h u (x, w, dx, sw, e) =
      let (r, i, h1) = >>=-eq-ok (increase_balance_by bd a amount) _ h in
      let (n, q, h2) = >>=-eq-ok (Decimal.neg bd amount) _ h1 in
      let (rest, s, h3) = >>=-eq-ok (Decimal.add bd reserved n) _ h2 in
      let (y, dy, dn) = neg-Denotes laws amount q in
      let (z, w', dz, sw', split) = SumsTo-remove laws a.balance.reservations id found u sw in
      let (dv, same) =
        Increased-value a amount (increase_balance_by-Increased bd a amount i) dx dy in
      let (z', y', dz', dy', ds) = add-Denotes laws reserved n s in
      let remained : Denotes laws rest (plus z (opp y)) =
        subst (Denotes laws rest)
          (ap₂ plus (Denotes-unique laws reserved dz' dz) (Denotes-unique laws n dy' dn)) ds in
      rw (← ok_injective h3) (
        rw same (IsUnique-insert a.balance.reservations id rest u),
        (
          plus x y,
          plus (plus z (opp y)) w',
          dv,
          (plus z (opp y), w', remained, rw same sw', refl),
          e ∙ ap (plus x) split ∙ sym (plus_shift laws x y z w'),
        ),
      )

  release_by-Total :
      (o : Ordering) (a : Account) (id amount reserved : Str) (b : Account) (t : Value)
      → get a.balance.reservations id ≡ some reserved
      → release_by bd o a id amount reserved ≡ ok b
      → IsUnique a.balance.reservations
      → Total laws a.balance t
      → IsUnique b.balance.reservations × Total laws b.balance t
  unfolding release_by
  release_by-Total Ordering.gt a id amount reserved b t f h u total = absurd (err_ne_ok h)
  release_by-Total Ordering.eq a id amount reserved b t f h u total =
      release_all-Total a id b t h u total
  release_by-Total Ordering.lt a id amount reserved b t f h u total =
      release_part-Total a id amount reserved b t f h u total

  -- A partial release that succeeds keeps the total value of the account, whether it empties the
  -- reservation or not, and the uniqueness of its reservation ids.
  pub partial_release-Total :
      (a : Account) (id amount : Str) (b : Account) (t : Value)
      → partial_release bd a id amount ≡ ok b
      → IsUnique a.balance.reservations
      → Total laws a.balance t
      → IsUnique b.balance.reservations × Total laws b.balance t
  unfolding partial_release
  partial_release-Total a id amount b t h u total =
      let (_, _, h1) = >>=-eq-ok (assert_state_is_normal bd a) _ h in
      let (_, _, h2) = >>=-eq-ok (assert_amount_gt_zero bd amount) _ h1 in
      let (reserved, f, h3) = >>=-eq-ok (assert_reservation_exists bd a id) _ h2 in
      let (o, _, h4) = >>=-eq-ok (Decimal.cmp bd amount reserved) _ h3 in
      release_by-Total o a id amount reserved b t (get_of_assert_exists bd a id f) h4 u total
