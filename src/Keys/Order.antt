-- ===== src/Keys/Order.antt =====
-- The byte order, of joined strings too.
use auticuro.Prelude.{
  ◌≡◌, refl, true, false, Bytes, arith, ◌++◌, [], ◌∷◌, ◌&&◌, ◌||◌, bytes_lt, bytes_eq,
}
use auticuro.Prelude.Lists.{length}

-- Strings of one length are compared first, and what follows them if they are equal.
pub bytes_lt-append :
    (xs ys us vs : Bytes)
    → length xs ≡ length ys
    → bytes_lt (xs ++ us) (ys ++ vs) ≡ (bytes_lt xs ys || (bytes_eq xs ys && bytes_lt us vs))
unfolding bytes_lt bytes_eq
bytes_lt-append [] [] us vs h = ground arith
bytes_lt-append [] (y ∷ ys) us vs h = absurd (omega arith)
bytes_lt-append (x ∷ xs) [] us vs h = absurd (omega arith)
bytes_lt-append (x ∷ xs) (y ∷ ys) us vs h = ground (arith, bytes_lt-append xs ys us vs)

pub bytes_eq-append :
    (xs ys us vs : Bytes)
    → length xs ≡ length ys
    → bytes_eq (xs ++ us) (ys ++ vs) ≡ (bytes_eq xs ys && bytes_eq us vs)
unfolding bytes_eq
bytes_eq-append [] [] us vs h = ground arith
bytes_eq-append [] (y ∷ ys) us vs h = absurd (omega arith)
bytes_eq-append (x ∷ xs) [] us vs h = absurd (omega arith)
bytes_eq-append (x ∷ xs) (y ∷ ys) us vs h = ground (arith, bytes_eq-append xs ys us vs)

pub bytes_lt_irrefl : (xs : Bytes) → bytes_lt xs xs ≡ false
unfolding bytes_lt
bytes_lt_irrefl [] = refl
bytes_lt_irrefl (x ∷ xs) = ground (arith, bytes_lt_irrefl xs)

bytes_lt_nil : (ys : Bytes) → bytes_lt ys [] ≡ false
unfolding bytes_lt
bytes_lt_nil [] = refl
bytes_lt_nil (y ∷ ys) = refl

pub bytes_lt_trans :
    (xs ys zs : Bytes) → bytes_lt xs ys ≡ true → bytes_lt ys zs ≡ true → bytes_lt xs zs ≡ true
unfolding bytes_lt
bytes_lt_trans [] ys [] h k = ground (arith, bytes_lt_nil ys)
bytes_lt_trans [] ys (z ∷ zs) h k = refl
bytes_lt_trans (x ∷ xs) [] zs h k = cc
bytes_lt_trans (x ∷ xs) (y ∷ ys) [] h k = cc
bytes_lt_trans (x ∷ xs) (y ∷ ys) (z ∷ zs) h k = ground (arith, bytes_lt_trans xs ys zs)

-- Two different strings are ordered.
pub bytes_lt_total :
    (xs ys : Bytes) → bytes_lt xs ys ≡ false → bytes_eq xs ys ≡ false → bytes_lt ys xs ≡ true
unfolding bytes_lt bytes_eq
bytes_lt_total [] [] h k = cc
bytes_lt_total [] (y ∷ ys) h k = cc
bytes_lt_total (x ∷ xs) [] h k = refl
bytes_lt_total (x ∷ xs) (y ∷ ys) h k = ground (arith, bytes_lt_total xs ys)
