-- ===== src/Storage/Memory/Wire.antt =====
-- Encodings that can be read back from the front of a byte string, for a concrete wire format.
use auticuro.Prelude.{
  ℕ, zero, suc, ◌≡◌, refl, Bytes, Str, List, [], ◌∷◌, ◌++◌, Option, none, some, ◌>>?◌, ap, ◌⊎◌, inl,
  inr,
}
use auticuro.Prelude.Lists.{length}
use mathlib.Core.List.{append_assoc}

pub record Codec (A : Type 0) : Type 0 where
  pub encode : A → Bytes
  pub decode : Bytes → Option (A × Bytes)
  pub decode-encode : (a : A) (rest : Bytes) → decode (encode a ++ rest) ≡ some (a, rest)

abbrev decode_number : Bytes → Option (ℕ × Bytes)
decode_number [] = none
decode_number (n ∷ rest) = some (n, rest)

abbrev pub number : Codec ℕ
number = record { encode = λ n. n ∷ []; decode = decode_number; decode-encode = λ n rest. refl }

-- One message after the other.
abbrev decode_pair : {A B : Type 0} → Codec A → Codec B → Bytes → Option ((A × B) × Bytes)
decode_pair c d bytes =
    c.decode bytes >>? λ (a, rest). d.decode rest >>? λ (b, more). some ((a, b), more)

pub decode_pair-encode :
    {A B : Type 0} (c : Codec A) (d : Codec B) (a : A) (b : B) (rest : Bytes)
    → decode_pair c d ((c.encode a ++ d.encode b) ++ rest) ≡ some ((a, b), rest)
decode_pair-encode c d a b rest =
    rw
      (
        append_assoc (c.encode a) (d.encode b) rest,
        c.decode-encode a (d.encode b ++ rest),
        d.decode-encode b rest,
      )
      refl

infixr 4 ◌<&>◌
abbrev pub ◌<&>◌ : {A B : Type 0} → Codec A → Codec B → Codec (A × B)
c <&> d = record {
  encode = λ p. c.encode p.0 ++ d.encode p.1;
  decode = decode_pair c d;
  decode-encode = λ p rest. decode_pair-encode c d p.0 p.1 rest;
}

-- The same bytes for another type.
abbrev pub through :
    {A B : Type 0} → Codec A → (f : A → B) → (g : B → A) → ((b : B) → f (g b) ≡ b) → Codec B
through c f g h = record {
  encode = λ b. c.encode (g b);
  decode = λ bytes. c.decode bytes >>? λ (a, rest). some (f a, rest);
  decode-encode = λ b rest. rw (c.decode-encode (g b) rest) (ap (λ x. some (x, rest)) (h b));
}

abbrev encode_sum : {A B : Type 0} → Codec A → Codec B → A ⊎ B → Bytes
encode_sum c d (inl a) = 0 ∷ c.encode a
encode_sum c d (inr b) = 1 ∷ d.encode b

abbrev decode_sum : {A B : Type 0} → Codec A → Codec B → Bytes → Option ((A ⊎ B) × Bytes)
decode_sum c d [] = none
decode_sum c d (zero ∷ bytes) = c.decode bytes >>? λ (a, rest). some (inl a, rest)
decode_sum c d (suc n ∷ bytes) = d.decode bytes >>? λ (b, rest). some (inr b, rest)

pub decode_sum-encode :
    {A B : Type 0} (c : Codec A) (d : Codec B) (s : A ⊎ B) (rest : Bytes)
    → decode_sum c d (encode_sum c d s ++ rest) ≡ some (s, rest)
decode_sum-encode c d (inl a) rest = rw (c.decode-encode a rest) refl
decode_sum-encode c d (inr b) rest = rw (d.decode-encode b rest) refl

infixr 3 ◌<+>◌
abbrev pub ◌<+>◌ : {A B : Type 0} → Codec A → Codec B → Codec (A ⊎ B)
c <+> d = record {
  encode = encode_sum c d;
  decode = decode_sum c d;
  decode-encode = decode_sum-encode c d;
}

abbrev encode_all : {A : Type 0} → Codec A → List A → Bytes
encode_all c [] = []
encode_all c (a ∷ xs) = c.encode a ++ encode_all c xs

abbrev decode_all : {A : Type 0} → Codec A → ℕ → Bytes → Option (List A × Bytes)
decode_all c zero bytes = some ([], bytes)
decode_all c (suc n) bytes =
    c.decode bytes >>? λ (a, rest). decode_all c n rest >>? λ (xs, more). some (a ∷ xs, more)

pub decode_all-encode :
    {A : Type 0} (c : Codec A) (xs : List A) (rest : Bytes)
    → decode_all c (length xs) (encode_all c xs ++ rest) ≡ some (xs, rest)
decode_all-encode c [] rest = refl
decode_all-encode c (a ∷ xs) rest =
    rw
      (
        append_assoc (c.encode a) (encode_all c xs) rest,
        c.decode-encode a (encode_all c xs ++ rest),
        decode_all-encode c xs rest,
      )
      refl

abbrev decode_list : {A : Type 0} → Codec A → Bytes → Option (List A × Bytes)
decode_list c [] = none
decode_list c (n ∷ bytes) = decode_all c n bytes

-- A list after its length.
abbrev pub many : {A : Type 0} → Codec A → Codec (List A)
many c = record {
  encode = λ xs. length xs ∷ encode_all c xs;
  decode = decode_list c;
  decode-encode = λ xs rest. decode_all-encode c xs rest;
}

abbrev pub str : Codec Str
str = many number

abbrev pub nothing : Codec (Unit {0})
nothing = record {
  encode = λ u. [];
  decode = λ bytes. some (tt, bytes);
  decode-encode = λ u rest. refl;
}

abbrev to_option : {A : Type 0} → Unit {0} ⊎ A → Option A
to_option (inl u) = none
to_option (inr a) = some a

abbrev of_option : {A : Type 0} → Option A → Unit {0} ⊎ A
of_option none = inl tt
of_option (some a) = inr a

pub to-of_option : {A : Type 0} (o : Option A) → to_option (of_option o) ≡ o
to-of_option none = refl
to-of_option (some a) = refl

abbrev pub perhaps : {A : Type 0} → Codec A → Codec (Option A)
perhaps c = through (nothing <+> c) to_option of_option to-of_option
