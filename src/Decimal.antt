-- ===== src/Decimal.antt =====
-- firm-wallet-service/src/balance_calculator.rs over the `bigdecimal` crate, which is an interface:
-- its operations, and the laws that its documentation states.
pub mod Laws
pub mod Whole
use auticuro.Prelude.{Str, Ordering, ok, ◌>>=◌, map_err, Result}
use auticuro.Errors.{Error, balance_operation_error, parse_error, GeneralResult}

pub record BigDecimal : Type 1 where
  pub Num : Type 0
  pub ParseBigDecimalError : Type 0
  pub from_str : Str → Result ParseBigDecimalError Num
  pub add : Num → Num → Num
  pub neg : Num → Num
  pub cmp : Num → Num → Ordering
  pub normalized : Num → Num
  pub to_string : Num → Str

-- `struct BalanceCalculator`
module _ (bd : BigDecimal) where
  abbrev pub parse : Str → GeneralResult bd.ParseBigDecimalError bd.Num
  parse s = map_err (λ e. balance_operation_error (parse_error s e)) (bd.from_str s)

  unfoldable pub add : Str → Str → GeneralResult bd.ParseBigDecimalError Str
  add lhs rhs = do
    lhs_decimal ← parse lhs
    rhs_decimal ← parse rhs
    ok (bd.to_string (bd.normalized (bd.add lhs_decimal rhs_decimal)))

  unfoldable pub neg : Str → GeneralResult bd.ParseBigDecimalError Str
  neg input = do input_decimal ← parse input; ok (bd.to_string (bd.neg input_decimal))

  unfoldable pub cmp : Str → Str → GeneralResult bd.ParseBigDecimalError Ordering
  cmp lhs rhs = do
    lhs_decimal ← parse lhs
    rhs_decimal ← parse rhs
    ok (bd.cmp lhs_decimal rhs_decimal)
