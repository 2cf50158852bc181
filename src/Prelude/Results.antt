-- ===== src/Prelude/Results.antt =====
-- `std::result::Result`, the `?` operator as bind, and a panic as the absence of an outcome.
use mathlib.Core.Path.{◌≡◌, refl}
use mathlib.Core.Logic.{◌⊎◌, inl, inr}
use mathlib.Core.Bool.{Bool, true, false}
use mathlib.Core.Option.{Option, none, some}

pub data Result (E A : Type 0) : Type 0 where
  ok : A → Result E A
  err : E → Result E A

infixl 5 ◌>>=◌
abbrev pub ◌>>=◌ : {E A B : Type 0} → Result E A → (A → Result E B) → Result E B
err problem >>= continue = err problem
ok value >>= continue = continue value

infixl 5 ◌>>◌
abbrev pub ◌>>◌ : {E B : Type 0} → Result E Unit → Result E B → Result E B
check >> continuation = check >>= λ _. continuation

-- `if bad { return Err(e) }`
abbrev pub fail_if : {E : Type 0} → Bool → E → Result E Unit
fail_if true e = err e
fail_if false e = ok tt

-- `map_err(f)?` on a result.
abbrev pub map_err : {E F A : Type 0} → (E → F) → Result E A → Result F A
map_err f (ok a) = ok a
map_err f (err e) = err (f e)

pub Result-cases :
    {E A : Type 0} (r : Result E A) → ((a : A) × (r ≡ ok a)) ⊎ ((e : E) × (r ≡ err e))
Result-cases (ok a) = inl (a, refl)
Result-cases (err e) = inr (e, refl)

-- A successful bind has a successful first part.
pub >>=-eq-ok :
    {E A B : Type 0} (first : Result E A) (continue : A → Result E B) {outcome : B}
    → (first >>= continue) ≡ ok outcome
    → (value : A) × (first ≡ ok value) × (continue value ≡ ok outcome)
>>=-eq-ok (err problem) continue h = cc
>>=-eq-ok (ok value) continue h = (value, refl, h)

-- A computation that may panic: `none` is a panic, which stops the process.
infixl 5 ◌>>?◌
abbrev pub ◌>>?◌ : {A B : Type 0} → Option A → (A → Option B) → Option B
none >>? f = none
some a >>? f = f a

-- `assert!(condition)`
abbrev pub assert : Bool → Option (Unit {0})
assert true = some tt
assert false = none

pub ok_injective : {E A : Type 0} {a b : A} → ◌≡◌ {A = Result E A} (ok a) (ok b) → a ≡ b
ok_injective h = cc

pub err_ne_ok : {E A : Type 0} {e : E} {a : A} → ¬ (◌≡◌ {A = Result E A} (err e) (ok a))
err_ne_ok h = cc

-- After a passed check the rest has succeeded.
pub fail_if-eq-ok :
    {E B : Type 0} (c : Bool) (e : E) (m : Result E B) {b : B}
    → (fail_if c e >> m) ≡ ok b
    → (c ≡ false) × (m ≡ ok b)
fail_if-eq-ok true e m h = cc
fail_if-eq-ok false e m h = (refl, h)

abbrev pub is_ok : {E A : Type 0} → Result E A → Bool
is_ok (ok _) = true
is_ok (err _) = false

pub >>?-eq-some :
    {A B : Type 0} (m : Option A) (f : A → Option B) {b : B}
    → (m >>? f) ≡ some b
    → (a : A) × (m ≡ some a) × (f a ≡ some b)
>>?-eq-some none f h = cc
>>?-eq-some (some a) f h = (a, refl, h)
