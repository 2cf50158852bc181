-- ===== src/Decimal/Whole/Digits.antt =====
-- Printing a natural number in decimal digits and reading it back.
use auticuro.Prelude.{
  ℕ, zero, suc, ◌+◌, ◌-◌, ◌*◌, ◌/◌, ◌%◌, ◌<◌, ◌≡◌, refl, Str, [], ◌∷◌, ◌++◌, Option, none, some,
  Bool, ◌&&◌, leb, ltb, if◌then◌else◌, arith, ◌∙◌, Bool-cases, inl, inr, sym, ap,
}
use mathlib.Core.List.{append_assoc, append-nil}

is_digit : ℕ → Bool
is_digit c = leb 48 c && leb c 57

unfoldable pub digits : ℕ → Str → Option ℕ
unfolding is_digit
digits acc [] = some acc
digits acc (c ∷ cs) =
    let rest = digits (acc * 10 + (c - 48)) cs in if is_digit c then rest else none

unfoldable pub number : Str → Option ℕ
unfolding digits
number [] = none
number (c ∷ cs) = digits 0 (c ∷ cs)

unfoldable pub print : ℕ → ℕ → Str
print zero n = []
print (suc f) n =
    let front = print f (n / 10) in if ltb n 10 then (48 + n) ∷ [] else front ++ (48 + n % 10) ∷ []

pub digits-cons :
    (acc d : ℕ) {n : ℕ} (ys : Str)
    → d < 10
    → acc * 10 + d ≡ n
    → digits acc ((48 + d) ∷ ys) ≡ digits n ys
unfolding digits
digits-cons acc d ys h e = ground arith

digits-print : (f n : ℕ) (ys : Str) → n < f → digits 0 (print f n ++ ys) ≡ digits n ys
unfolding print
digits-print zero n ys h = elim h [ ]
digits-print (suc f) n ys h = elim (Bool-cases (ltb n 10)) [
  | inl small ↦ rw small (digits-cons 0 n ys (ground arith) (omega arith))
  | inr large ↦ rw large (
      rw append_assoc (
        digits-print f (n / 10) ((48 + n % 10) ∷ ys) (ground arith)
        ∙ digits-cons (n / 10) (n % 10) ys (omega arith) (omega arith)))
]

print-cons : (f n : ℕ) (ys : Str) → n < f → (c : ℕ) × (cs : Str) × (print f n ++ ys ≡ c ∷ cs)
unfolding print
print-cons zero n ys h = elim h [ ]
print-cons (suc f) n ys h = elim (Bool-cases (ltb n 10)) [
  | inl small ↦ (48 + n, ys, rw small refl)
  | inr large ↦ rw large (rw append_assoc (print-cons f (n / 10) _ (ground arith)))
]

number-eq-digits : (s : Str) {c : ℕ} {cs : Str} → s ≡ c ∷ cs → number s ≡ digits 0 s
unfolding number
number-eq-digits [] e = cc
number-eq-digits (x ∷ xs) e = refl

-- What was printed, with enough fuel, is read back.
pub number-print : (n : ℕ) → number (print (suc n) n) ≡ some n
unfolding digits
number-print n =
    let (c, cs, e) = print-cons (suc n) n [] (omega arith) in
    number-eq-digits (print (suc n) n) (sym (append-nil (print (suc n) n)) ∙ e)
    ∙ ap (digits 0) (sym (append-nil (print (suc n) n)))
    ∙ digits-print (suc n) n [] (omega arith)
