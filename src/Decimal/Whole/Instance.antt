-- ===== src/Decimal/Whole/Instance.antt =====
-- The instance: integers, written with an optional minus sign, and "0.0" for zero.
use auticuro.Prelude.{
  ℕ, suc, ◌≡◌, refl, ap, ◌↔◌, Str, [], ◌∷◌, Option, none, some, Result, ok, err, Ordering, bytes,
  bytes_eq, if◌then◌else◌, arith, ltb, ◌==◌, ◌+◌,
}
use auticuro.Prelude.Int.{ℤ, pos, negsuc, ◌+ℤ◌, neg_ℤ, ◌<ℤ◌, pos_part, neg_part, int_laws}
use auticuro.Decimal.{BigDecimal}
use auticuro.Decimal.Laws.{DecimalLaws}
use auticuro.Decimal.Whole.Digits.{number, print, digits, number-print}

pub data ParseBigDecimalError : Type 0 where
  invalid : ParseBigDecimalError

minus : Option ℕ → Result ParseBigDecimalError ℤ
minus none = err invalid
minus (some n) = ok (neg_ℤ (pos n))

signed : Str → Result ParseBigDecimalError ℤ
unfolding minus
signed [] = err invalid
signed (c ∷ cs) = if c == b'-' then minus (number cs) else err invalid

fallback : Str → Result ParseBigDecimalError ℤ
unfolding signed
fallback s = if bytes_eq s (bytes "0.0") then ok (pos 0) else signed s

unfoldable pub from_str : Str → Result ParseBigDecimalError ℤ
unfolding fallback number digits bytes_eq
from_str s = elim (number s) [ some n ↦ ok (pos n) | none ↦ fallback s ]

unfoldable pub to_string : ℤ → Str
unfolding print
to_string (pos n) = print (suc n) n
to_string (negsuc n) = b'-' ∷ print (suc (suc n)) (suc n)

unfoldable pub cmp : ℤ → ℤ → Ordering
cmp a b =
    if ltb (pos_part a + neg_part b) (pos_part b + neg_part a)
    then Ordering.lt
    else if ltb (pos_part b + neg_part a) (pos_part a + neg_part b)
    then Ordering.gt
    else Ordering.eq

pub read_back : (d : ℤ) → from_str (to_string d) ≡ ok d
unfolding from_str to_string
read_back (pos n) = rw (number-print n, from_str) refl
read_back (negsuc n) = rw (number-print (suc n), from_str) (ap ok (omega int_laws))

abbrev pub whole : BigDecimal
whole = record {
  Num = ℤ;
  ParseBigDecimalError = ParseBigDecimalError;
  from_str = from_str;
  add = ◌+ℤ◌;
  neg = neg_ℤ;
  cmp = cmp;
  normalized = λ d. d;
  to_string = to_string;
}

pub cmp_lt : (d e : ℤ) → (cmp d e ≡ Ordering.lt) ↔ (d <ℤ e)
unfolding cmp
cmp_lt d e = (λ h. ground arith, λ h. ground arith)

pub cmp_eq : (d e : ℤ) → (cmp d e ≡ Ordering.eq) ↔ (d ≡ e)
unfolding cmp
cmp_eq d e = (λ h. ground arith, λ h. ground arith)

pub cmp_gt : (d e : ℤ) → (cmp d e ≡ Ordering.gt) ↔ (e <ℤ d)
unfolding cmp
cmp_gt d e = (λ h. ground arith, λ h. ground arith)

pub plus_comm : (v w : ℤ) → v +ℤ w ≡ w +ℤ v
plus_comm v w = omega int_laws

pub plus_assoc : (u v w : ℤ) → (u +ℤ v) +ℤ w ≡ u +ℤ (v +ℤ w)
plus_assoc u v w = omega int_laws

pub zero_read : from_str (bytes "0.0") ≡ ok (pos 0)
unfolding from_str
zero_read = refl

abbrev pub whole-laws : DecimalLaws whole
whole-laws = record {
  Value = ℤ;
  plus = ◌+ℤ◌;
  opp = neg_ℤ;
  nil = pos 0;
  Lt = ◌<ℤ◌;
  plus_comm = plus_comm;
  plus_assoc = plus_assoc;
  plus_nil = λ v. omega int_laws;
  plus_opp = λ v. omega int_laws;
  Lt_irrefl = λ v h. omega arith;
  Lt_trans = λ u v w h k. omega arith;
  value = λ d. d;
  value-add = λ d e. refl;
  value-neg = λ d. refl;
  value-normalized = λ d. refl;
  cmp_lt = cmp_lt;
  cmp_eq = cmp_eq;
  cmp_gt = cmp_gt;
  from_str-to_string = λ d. (d, read_back d, refl);
  from_str_zero = (pos 0, zero_read, refl);
}
