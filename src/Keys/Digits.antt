-- ===== src/Keys/Digits.antt =====
-- A concrete big-endian encoding, which shows that the laws of the `byteorder` interface can hold
-- and on which examples are evaluated.
use auticuro.Prelude.{
  ℕ, zero, suc, ◌≡◌, refl, Bytes, arith, ◌++◌, [], ◌∷◌, ◌==◌, ltb, bytes_lt, bytes_eq, Option, none,
  some, ◌/◌, ◌%◌, ◌*◌, ◌+◌, ◌<◌, ◌^◌, ap, ◌∙◌,
}
use auticuro.Prelude.Lists.{length, length-append}
use mathlib.Core.List.{append_assoc}
use native.Mathlib.Nat.{add-zero}
use auticuro.Keys.{BigEndian, BigEndianLaws}
use auticuro.Keys.Order.{bytes_lt-append, bytes_eq-append}

-- The last `k` base-256 digits of `n`, the highest first.
unfoldable pub write_be : ℕ → ℕ → Bytes
write_be zero n = []
write_be (suc k) n = write_be k (n / 256) ++ (n % 256) ∷ []

unfoldable pub read_be : ℕ → ℕ → Bytes → Option ℕ
read_be zero acc bs = some acc
read_be (suc k) acc [] = none
read_be (suc k) acc (b ∷ bs) = read_be k (acc * 256 + b) bs

-- `n` has at most `k` digits.
abbrev Fits : ℕ → ℕ → Type 0
Fits zero n = n ≡ 0
Fits (suc k) n = Fits k (n / 256)

length-write_be : (k n : ℕ) → length (write_be k n) ≡ k
unfolding write_be
length-write_be zero n = refl
length-write_be (suc k) n =
    omega
      (arith, length-append (write_be k (n / 256)) ((n % 256) ∷ []), length-write_be k (n / 256))

shift : (j k : ℕ) → j + suc k ≡ suc j + k
shift j k = omega arith

read_be-write_be :
    (k n : ℕ) (rest : Bytes) (j : ℕ)
    → Fits k n
    → read_be (j + k) 0 (write_be k n ++ rest) ≡ read_be j n rest
unfolding write_be
read_be-write_be zero n rest j h = rw h (rw add-zero refl)
read_be-write_be (suc k) n rest j h =
    rw (append_assoc (write_be k (n / 256)) ((n % 256) ∷ []) rest, shift j k)
      (read_be-write_be k (n / 256) ((n % 256) ∷ rest) (suc j) h
        ∙ (unfold read_be in ap (λ t. read_be j t rest) (omega arith)))

same_length : (k m n : ℕ) → length (write_be k m) ≡ length (write_be k n)
same_length k m n = omega (arith, length-write_be k m, length-write_be k n)

byte_eq : (a b : ℕ) → bytes_eq (a ∷ []) (b ∷ []) ≡ (a == b)
unfolding bytes_eq
byte_eq a b = ground arith

byte_lt : (a b : ℕ) → bytes_lt (a ∷ []) (b ∷ []) ≡ ltb a b
unfolding bytes_lt
byte_lt a b = ground arith

bytes_eq-write_be :
    (k m n : ℕ) → Fits k m → Fits k n → bytes_eq (write_be k m) (write_be k n) ≡ (m == n)
unfolding write_be
bytes_eq-write_be zero m n hm hn = (unfold bytes_eq in ground arith)
bytes_eq-write_be (suc k) m n hm hn =
    bytes_eq-append (write_be k (m / 256)) (write_be k (n / 256)) _ _ (same_length k _ _)
    ∙ ground (arith, bytes_eq-write_be k (m / 256) (n / 256) hm hn, byte_eq (m % 256) (n % 256))

bytes_lt-write_be :
    (k m n : ℕ) → Fits k m → Fits k n → bytes_lt (write_be k m) (write_be k n) ≡ ltb m n
unfolding write_be
bytes_lt-write_be zero m n hm hn = (unfold bytes_lt in ground arith)
bytes_lt-write_be (suc k) m n hm hn =
    bytes_lt-append (write_be k (m / 256)) (write_be k (n / 256)) _ _ (same_length k _ _)
    ∙ ground (
      arith,
      bytes_lt-write_be k (m / 256) (n / 256) hm hn,
      bytes_eq-write_be k (m / 256) (n / 256) hm hn,
      byte_lt (m % 256) (n % 256),
    )

Fits-u64 : (n : ℕ) → n < 2 ^ 64 → Fits 8 n
Fits-u64 n h = omega arith

abbrev pub digits_be : BigEndian
digits_be = record { write_u64 = write_be 8; read_u64 = read_be 8 0 }

pub digits_be-laws : BigEndianLaws digits_be
digits_be-laws = record {
  length-write = λ n. length-write_be 8 n;
  read-write = λ n rest h. read_be-write_be 8 n rest 0 (Fits-u64 n h) ∙ (unfold read_be in refl);
  write_order = λ m n hm hn. bytes_lt-write_be 8 m n (Fits-u64 m hm) (Fits-u64 n hn);
}
