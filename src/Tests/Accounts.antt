-- ===== src/Tests/Accounts.antt =====
-- Examples for account.rs, over whole numbers.
use auticuro.Prelude.{◌≡◌, inl, refl, Str, bytes, bytes_eq, ok, err, some, Bytes_eq}
use auticuro.Prelude.Int.{ℤ, pos, ◌+ℤ◌, neg_ℤ}
use auticuro.Prelude.Map.{get, insert, remove, IsUnique}
use auticuro.Proto.{Account, BalanceLimit, BalanceChange, normal, locked, deleted}
use auticuro.Errors.{balance_operation_error, invalid_account_state}
use auticuro.Decimal
use auticuro.Decimal.Laws.{Denotes}
use auticuro.Decimal.Whole.{whole, whole-laws, from_str, to_string, cmp}
use auticuro.Account.{
  new, with_available, with_reservation, increase_balance_by, reserve, release_all, partial_release,
  lock, delete, assert_state_is_normal, validate_balance_limitation, within_limit,
  assert_amount_gt_zero, assert_reservation_exists, release_by, release_part,
  validate_state_transition, is_legal, assert_balance_is_zero,
}
use auticuro.Account.Checks.{WithinLimit}
use auticuro.Account.Balances.{
  increase_balance_by-Denotes, increase_balance_by-WithinLimit, increase_balance_by_total,
  SameFrame,
}
use auticuro.Account.States.{inactive_refused, state_operation-Transition, Transition}
use auticuro.Account.Reservations.Totals.{
  Total, reserve-Total, release_all-Total, partial_release-Total,
}
use auticuro.Account.Reservations.Undo.{release_all-reserve}

abbrev ten : Account
ten = with_available (new (bytes "a")) (bytes "10")

abbrev fifteen : Account
fifteen = with_available (new (bytes "a")) (bytes "15")

abbrev change_of : Account → Account → BalanceChange
change_of a b = record {
  account_id = a.account_id;
  prev_balance = a.balance;
  curr_balance = b.balance;
}

-- What a text of a small number means.
of_10 : Denotes whole-laws (bytes "10") (pos 10)
unfolding from_str
of_10 = (pos 10, refl, refl)

of_5 : Denotes whole-laws (bytes "5") (pos 5)
unfolding from_str
of_5 = (pos 5, refl, refl)

increase_run : increase_balance_by whole ten (bytes "5") ≡ ok (fifteen, change_of ten fifteen)
unfolding increase_balance_by assert_state_is_normal Decimal.add from_str to_string
    validate_balance_limitation ◌+ℤ◌
increase_run = refl

increase_balance_by-Denotes_example :
    (x : ℤ) × (y : ℤ) × Denotes whole-laws ten.balance.available x
    × Denotes whole-laws (bytes "5") y
    × Denotes whole-laws fifteen.balance.available (x +ℤ y)
    × (fifteen.balance.reservations ≡ ten.balance.reservations)
    × SameFrame whole ten fifteen
    × ((change_of ten fifteen).account_id ≡ ten.account_id)
    × ((change_of ten fifteen).prev_balance ≡ ten.balance)
    × ((change_of ten fifteen).curr_balance ≡ fifteen.balance)
increase_balance_by-Denotes_example =
    increase_balance_by-Denotes whole whole-laws ten (bytes "5") fifteen (change_of ten fifteen)
      increase_run

abbrev limit : BalanceLimit
limit = record { upper = bytes "20"; lower = bytes "0.0" }

abbrev limited : Account → Account
limited a = record a { config = record a.config { balance_limit = some limit } }

limited_run :
    increase_balance_by whole (limited ten) (bytes "5")
    ≡ ok (limited fifteen, change_of ten fifteen)
unfolding increase_balance_by assert_state_is_normal Decimal.add Decimal.cmp from_str to_string cmp
    validate_balance_limitation within_limit ◌+ℤ◌
limited_run = refl

increase_balance_by-WithinLimit_example :
    WithinLimit whole whole-laws limit fifteen.balance.available
increase_balance_by-WithinLimit_example =
    increase_balance_by-WithinLimit whole whole-laws (limited ten) (bytes "5") limit
      (limited fifteen) (change_of ten fifteen) refl limited_run

increase_balance_by_total_example :
    (r : Account × BalanceChange) × (increase_balance_by whole ten (bytes "5") ≡ ok r)
    × Denotes whole-laws (r.0).balance.available (pos 10 +ℤ pos 5)
increase_balance_by_total_example =
    increase_balance_by_total whole whole-laws ten (bytes "5") refl refl of_10 of_5

-- Ten, of which five are reserved.
abbrev held : Account
held = with_reservation (with_available ten (bytes "5")) (bytes "r") (bytes "5")

reserve_run : reserve whole ten (bytes "r") (bytes "5") ≡ ok held
unfolding reserve assert_amount_gt_zero increase_balance_by assert_state_is_normal Decimal.add
    Decimal.neg Decimal.cmp from_str to_string cmp validate_balance_limitation get insert ◌+ℤ◌ neg_ℤ
reserve_run = refl

release_run : release_all whole held (bytes "r") ≡ ok ten
unfolding release_all assert_reservation_exists increase_balance_by assert_state_is_normal
    Decimal.add from_str to_string validate_balance_limitation get insert remove ◌+ℤ◌ bytes_eq
release_run = refl

Total-ten : Total whole-laws ten.balance (pos 10)
unfolding ◌+ℤ◌
Total-ten = (pos 10, pos 0, of_10, refl, refl)

Total-held : Total whole-laws held.balance (pos 10)
unfolding ◌+ℤ◌ insert
Total-held = (pos 5, pos 5, of_5, (pos 5, pos 0, of_5, refl, refl), refl)

reserve-Total_example : IsUnique held.balance.reservations × Total whole-laws held.balance (pos 10)
reserve-Total_example =
    reserve-Total whole whole-laws ten (bytes "r") (bytes "5") held (pos 10) reserve_run tt
      Total-ten

held-IsUnique : IsUnique held.balance.reservations
unfolding insert get
held-IsUnique = (refl, tt)

release_all-Total_example :
    IsUnique ten.balance.reservations × Total whole-laws ten.balance (pos 10)
release_all-Total_example =
    release_all-Total whole whole-laws held (bytes "r") ten (pos 10) release_run held-IsUnique
      Total-held

abbrev partly : Account
partly = with_reservation (with_available held (bytes "7")) (bytes "r") (bytes "3")

partial_run : partial_release whole held (bytes "r") (bytes "2") ≡ ok partly
unfolding partial_release release_by release_part assert_amount_gt_zero assert_reservation_exists
    increase_balance_by assert_state_is_normal Decimal.add Decimal.neg Decimal.cmp from_str
    to_string cmp validate_balance_limitation get insert remove ◌+ℤ◌ bytes_eq neg_ℤ
partial_run = refl

partial_release-Total_example :
    IsUnique partly.balance.reservations × Total whole-laws partly.balance (pos 10)
partial_release-Total_example =
    partial_release-Total whole whole-laws held (bytes "r") (bytes "2") partly (pos 10) partial_run
      held-IsUnique Total-held

release_all-reserve_example :
    Denotes whole-laws ten.balance.available (pos 10)
    × ((k : Str) → get ten.balance.reservations k ≡ get ten.balance.reservations k)
    × SameFrame whole ten ten
release_all-reserve_example =
    release_all-reserve whole whole-laws ten (bytes "r") (bytes "5") held ten (pos 10) reserve_run
      release_run of_10

abbrev fresh : Account
fresh = new (bytes "a")

abbrev gone : Account
gone = record fresh { state = deleted }

delete_run : delete whole fresh ≡ ok gone
unfolding delete validate_state_transition is_legal assert_balance_is_zero Decimal.cmp from_str cmp
delete_run = refl

abbrev shut : Account
shut = record ten { state = locked }

lock_run : lock whole ten ≡ ok shut
unfolding lock validate_state_transition is_legal
lock_run = refl

state_operation-Transition_example : Transition normal locked
state_operation-Transition_example = state_operation-Transition whole ten shut (inl lock_run)

inactive_refused_example :
    let refusal = balance_operation_error (invalid_account_state locked) in
    (increase_balance_by whole shut (bytes "5") ≡ err refusal)
    × (reserve whole shut (bytes "r") (bytes "5") ≡ err refusal)
    × (release_all whole shut (bytes "r") ≡ err refusal)
    × (partial_release whole shut (bytes "r") (bytes "5") ≡ err refusal)
inactive_refused_example = inactive_refused whole shut (bytes "r") (bytes "5") (λ e. cc)
