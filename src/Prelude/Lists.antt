-- ===== src/Prelude/Lists.antt =====
-- Lists measured and cut by native numbers, under the library's names.
use Prim.Native.Nat.{ℕ, zero, suc, ◌+◌}
use mathlib.Core.Path.{◌≡◌, refl, ap}
use mathlib.Core.List.{List, [], ◌∷◌, ◌++◌}
use mathlib.Core.Option.{Option, none, some}
use native.Mathlib.Omega.{arith}

module _ {ℓ} {A : Type ℓ} where
  abbrev pub length : List A → ℕ
  length [] = 0
  length (x ∷ xs) = suc (length xs)

  abbrev pub get_elem? : List A → ℕ → Option A
  get_elem? [] i = none
  get_elem? (x ∷ xs) zero = some x
  get_elem? (x ∷ xs) (suc i) = get_elem? xs i

  abbrev pub take : ℕ → List A → List A
  take zero xs = []
  take (suc n) [] = []
  take (suc n) (x ∷ xs) = x ∷ take n xs

  abbrev pub drop : ℕ → List A → List A
  drop zero xs = xs
  drop (suc n) [] = []
  drop (suc n) (x ∷ xs) = drop n xs

  pub length-append : (xs ys : List A) → length (xs ++ ys) ≡ length xs + length ys
  length-append [] ys = omega arith
  length-append (x ∷ xs) ys = omega (arith, length-append xs ys)

  -- The first part of a joined list, and what comes after it.
  pub take-append : (n : ℕ) (xs ys : List A) → length xs ≡ n → take n (xs ++ ys) ≡ xs
  take-append zero [] ys h = refl
  take-append zero (x ∷ xs) ys h = absurd (omega arith)
  take-append (suc n) [] ys h = absurd (omega arith)
  take-append (suc n) (x ∷ xs) ys h = ap (λ t. x ∷ t) (take-append n xs ys (omega arith))

  pub drop-append : (n : ℕ) (xs ys : List A) → length xs ≡ n → drop n (xs ++ ys) ≡ ys
  drop-append zero [] ys h = refl
  drop-append zero (x ∷ xs) ys h = absurd (omega arith)
  drop-append (suc n) [] ys h = absurd (omega arith)
  drop-append (suc n) (x ∷ xs) ys h = drop-append n xs ys (omega arith)

  pub drop_past :
      (n : ℕ) (xs : List A) (x : A) (ys : List A) → length xs ≡ n → drop (suc n) (xs ++ x ∷ ys) ≡ ys
  drop_past zero [] x ys h = refl
  drop_past zero (z ∷ xs) x ys h = absurd (omega arith)
  drop_past (suc n) [] x ys h = absurd (omega arith)
  drop_past (suc n) (z ∷ xs) x ys h = drop_past n xs x ys (omega arith)

  pub get_elem?-append :
      (n : ℕ) (xs : List A) (x : A) (ys : List A)
      → length xs ≡ n
      → get_elem? (xs ++ x ∷ ys) n ≡ some x
  get_elem?-append zero [] x ys h = refl
  get_elem?-append zero (z ∷ xs) x ys h = absurd (omega arith)
  get_elem?-append (suc n) [] x ys h = absurd (omega arith)
  get_elem?-append (suc n) (z ∷ xs) x ys h = get_elem?-append n xs x ys (omega arith)
