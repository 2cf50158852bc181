-- ===== src/Account/Balances.antt =====
-- What an increase of the available balance does to its value, and when it is let through.
use auticuro.Prelude.{◌≡◌, refl, Str, ok, some, none, arith, ap}
use auticuro.Proto.{Account, BalanceLimit, BalanceChange, normal}
use auticuro.Decimal.{BigDecimal}
use auticuro.Decimal.Laws.{DecimalLaws, Denotes, add-Denotes, add_total}
use auticuro.Account.{
  increase_balance_by, with_available, validate_balance_limitation, assert_state_is_normal,
}
use auticuro.Account.Checks.{increase_balance_by-Increased, WithinLimit, within_limit-WithinLimit}

module _ (bd : BigDecimal) where
  -- The parts of the account that a balance operation leaves alone.
  pub record SameFrame (a b : Account) : Type 0 where
    pub config : b.config ≡ a.config
    pub state : b.state ≡ a.state
    pub account_id : b.account_id ≡ a.account_id

  pub SameFrame-refl : (a : Account) → SameFrame a a
  SameFrame-refl a = record { config = refl; state = refl; account_id = refl }

  -- A balance that passes the account's limit lies within it.
  pub validate-WithinLimit :
      (laws : DecimalLaws bd) (a : Account) (l : BalanceLimit) (balance : Str)
      → a.config.balance_limit ≡ some l
      → validate_balance_limitation bd a balance ≡ ok tt
      → WithinLimit bd laws l balance
  unfolding validate_balance_limitation
  validate-WithinLimit laws a l balance e h =
      within_limit-WithinLimit bd laws l balance (rw (e, validate_balance_limitation) at h)

  module _ (laws : DecimalLaws bd) where
    -- An increase that succeeds by a text of the value `y` adds `y` to the value of the available
    -- balance, keeps the reservations, the configuration, the state and the name, and reports both
    -- balances.
    pub increase_balance_by-Denotes :
        (a : Account) (amount : Str) (b : Account) (change : BalanceChange)
        → increase_balance_by bd a amount ≡ ok (b, change)
        → (x : laws.Value) × (y : laws.Value) × Denotes laws a.balance.available x
          × Denotes laws amount y
          × Denotes laws b.balance.available (laws.plus x y)
          × (b.balance.reservations ≡ a.balance.reservations)
          × SameFrame a b
          × (change.account_id ≡ a.account_id)
          × (change.prev_balance ≡ a.balance)
          × (change.curr_balance ≡ b.balance)
    increase_balance_by-Denotes a amount b change h =
        let i = increase_balance_by-Increased bd a amount h in
        let (x, y, dx, dy, ds) = add-Denotes laws a.balance.available amount i.added in
        let eb : b ≡ with_available a i.new_balance =
          ap (λ (r : Account × BalanceChange). r.0) i.result in
        let ec = ap (λ (r : Account × BalanceChange). r.1) i.result in
        (
          x,
          y,
          dx,
          dy,
          rw eb ds,
          rw eb refl,
          rw eb (record { config = refl; state = refl; account_id = refl }),
          rw ec refl,
          rw ec refl,
          rw (ec, eb) refl,
        )

    -- After an increase that succeeds on an account with a limit, the available balance lies
    -- within the limit.
    pub increase_balance_by-WithinLimit :
        (a : Account) (amount : Str) (l : BalanceLimit) (b : Account) (change : BalanceChange)
        → a.config.balance_limit ≡ some l
        → increase_balance_by bd a amount ≡ ok (b, change)
        → WithinLimit bd laws l b.balance.available
    increase_balance_by-WithinLimit a amount l b change limited h =
        let i = increase_balance_by-Increased bd a amount h in
        let eb : b ≡ with_available a i.new_balance =
          ap (λ (r : Account × BalanceChange). r.0) i.result in
        rw eb (validate-WithinLimit laws a l i.new_balance limited i.in_limit)

    -- An active account without a limit, whose balance is a number, accepts every amount that is a
    -- number, and then has the sum of both.
    pub increase_balance_by_total :
        (a : Account) (amount : Str) {x y : laws.Value}
        → a.state ≡ normal
        → a.config.balance_limit ≡ none
        → Denotes laws a.balance.available x
        → Denotes laws amount y
        → (r : Account × BalanceChange) × (increase_balance_by bd a amount ≡ ok r)
          × Denotes laws (r.0).balance.available (laws.plus x y)
    unfolding increase_balance_by assert_state_is_normal validate_balance_limitation
    increase_balance_by_total a amount n l dx dy =
        let (s, p, d) = add_total laws a.balance.available amount dx dy in
        (
          (
            with_available a s,
            record {
              account_id = a.account_id;
              prev_balance = a.balance;
              curr_balance = (with_available a s).balance;
            },
          ),
          ground (arith, p),
          d,
        )
