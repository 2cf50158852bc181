-- ===== src/Account/Reservations/Undo.antt =====
-- A full release undoes a reserve.
use auticuro.Prelude.{
  ◌≡◌, some_injective, refl, Str, some, none, sym, ap, ◌∙◌, subst, ok, arith, Bytes_eq,
  bytes_eq_iff,
}
use auticuro.Prelude.Map.{Map, get, insert, remove, get-insert, get-remove, get-insert_self}
use auticuro.Proto.{Account, AccountConfig, BalanceChange, normal}
use auticuro.Decimal.{BigDecimal}
use auticuro.Decimal.Laws.{DecimalLaws, Denotes, neg-Denotes, plus-opp-cancel}
use auticuro.Account.{
  reserve, release_all, with_reservation, without_reservation, with_available,
  assert_state_is_normal, assert_reservation_exists,
}
use auticuro.Account.Checks.{Increased}
use auticuro.Account.Balances.{SameFrame, increase_balance_by_total}
use auticuro.Account.Reservations.Totals.{
  Reserved, reserve-Reserved, release_all-Released, Increased-value,
}

get-remove-insert :
    (m : Map Str Str) (id a : Str)
    → get m id ≡ none
    → (k : Str) → get (remove id (insert id a m)) k ≡ get m k
get-remove-insert m id a free k =
    get-remove id k (insert id a m) ∙ ground (arith, get-insert id k a m, bytes_eq_iff id k)

module _ (bd : BigDecimal) (laws : DecimalLaws bd) where
  open laws use {Value, plus, opp}

  SameFrame-Increased :
      (a : Account) (amount : Str) {b : Account} {change : BalanceChange}
      → Increased bd a amount (b, change)
      → SameFrame bd a b
  SameFrame-Increased a amount {b} i =
      let eb : b ≡ with_available a i.new_balance =
        ap (λ (r : Account × BalanceChange). r.0) i.result in
      rw eb (record { config = refl; state = refl; account_id = refl })

  Reserved-frame :
      (a : Account) (id amount : Str) {b : Account} (r : Reserved bd a id amount b)
      → SameFrame bd a (with_reservation r.taken id amount)
  Reserved-frame a id amount r =
      let f = SameFrame-Increased a r.negated r.increased in
      record { config = f.config; state = f.state; account_id = f.account_id }

  -- A reserve and a full release of the same id that both succeed restore the value of the
  -- available balance, every reservation, and the configuration, state and name of the account.
  pub release_all-reserve :
      (a : Account) (id amount : Str) (b c : Account) (x : Value)
      → reserve bd a id amount ≡ ok b
      → release_all bd b id ≡ ok c
      → Denotes laws a.balance.available x
      → Denotes laws c.balance.available x
        × ((k : Str) → get c.balance.reservations k ≡ get a.balance.reservations k)
        × SameFrame bd a c
  release_all-reserve a id amount b c x h k dx =
      let r = reserve-Reserved bd a id amount h in
      let s = release_all-Released bd b id k in
      let (y, dy, dn) = neg-Denotes laws amount r.negation in
      let (db, same) = Increased-value bd laws a r.negated r.increased dx dn in
      let mb : b.balance.reservations ≡ insert id amount a.balance.reservations =
        rw r.result (rw same refl) in
      let ea : s.reserved ≡ amount =
        some_injective (sym s.found ∙ (rw mb (get-insert_self id amount a.balance.reservations))) in
      let (dc, same') =
        Increased-value bd laws b s.reserved s.increased (rw r.result db) (rw ea dy) in
      let fb : SameFrame bd a b = rw r.result (Reserved-frame a id amount r) in
      let fc = SameFrame-Increased b s.reserved s.increased in
      (
        rw s.result (subst (Denotes laws s.given.balance.available) (plus-opp-cancel laws x y) dc),
        λ k.
            rw s.result
              (rw (same', mb) (get-remove-insert a.balance.reservations id amount r.free k)),
        rw s.result (record {
          config = fc.config ∙ fb.config;
          state = fc.state ∙ fb.state;
          account_id = fc.account_id ∙ fb.account_id;
        }),
      )

  -- After a reserve that succeeds, on an account without a limit whose balance is a number, the
  -- full release of the same id succeeds.
  pub release_all-reserve_total :
      (a : Account) (id amount : Str) (b : Account)
      → a.config.balance_limit ≡ none
      → reserve bd a id amount ≡ ok b
      → (x : Value) → Denotes laws a.balance.available x
      → (c : Account) × (release_all bd b id ≡ ok c)
  unfolding release_all assert_state_is_normal assert_reservation_exists
  release_all-reserve_total a id amount b free h x dx =
      let r = reserve-Reserved bd a id amount h in
      let (y, dy, dn) = neg-Denotes laws amount r.negation in
      let (db, same) = Increased-value bd laws a r.negated r.increased dx dn in
      let fb : SameFrame bd a b = rw r.result (Reserved-frame a id amount r) in
      let n : b.state ≡ normal = fb.state ∙ r.increased.was_normal in
      let mb : get b.balance.reservations id ≡ some amount =
        rw r.result (get-insert_self id amount r.taken.balance.reservations) in
      let (r', i, _) =
        increase_balance_by_total bd laws b amount {x = plus x (opp y)} n
          (ap (λ (c : AccountConfig). c.balance_limit) fb.config ∙ free) (rw r.result db) dy in
      (without_reservation r'.0 id, ground (arith, mb, n, i))
