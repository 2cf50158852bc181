-- ===== src/Decimal/Laws.antt =====
-- The laws of `bigdecimal` that the service relies on, and what they give for the calculator.
use auticuro.Prelude.{
  ◌≡◌, ◌↔◌, ap, sym, ◌∙◌, Str, Ordering, ok, bytes, inl, inr, Result-cases, refl, ok_injective,
  err_ne_ok, >>=-eq-ok, subst, ap₂,
}
use auticuro.Decimal.{BigDecimal, parse, add, neg, cmp}

-- A decimal stands for a value of an ordered commutative group. Parsing what was printed gives a
-- decimal of the same value; normalising keeps the value.
pub record DecimalLaws (bd : BigDecimal) : Type 1 where
  pub Value : Type 0
  pub plus : Value → Value → Value
  pub opp : Value → Value
  pub nil : Value
  pub Lt : Value → Value → Type 0
  pub plus_comm : (v w : Value) → plus v w ≡ plus w v
  pub plus_assoc : (u v w : Value) → plus (plus u v) w ≡ plus u (plus v w)
  pub plus_nil : (v : Value) → plus v nil ≡ v
  pub plus_opp : (v : Value) → plus v (opp v) ≡ nil
  pub Lt_irrefl : (v : Value) → ¬ (Lt v v)
  pub Lt_trans : (u v w : Value) → Lt u v → Lt v w → Lt u w
  pub value : bd.Num → Value
  pub value-add : (d e : bd.Num) → value (bd.add d e) ≡ plus (value d) (value e)
  pub value-neg : (d : bd.Num) → value (bd.neg d) ≡ opp (value d)
  pub value-normalized : (d : bd.Num) → value (bd.normalized d) ≡ value d
  pub cmp_lt : (d e : bd.Num) → (bd.cmp d e ≡ Ordering.lt) ↔ Lt (value d) (value e)
  pub cmp_eq : (d e : bd.Num) → (bd.cmp d e ≡ Ordering.eq) ↔ (value d ≡ value e)
  pub cmp_gt : (d e : bd.Num) → (bd.cmp d e ≡ Ordering.gt) ↔ Lt (value e) (value d)
  pub from_str-to_string :
      (d : bd.Num) → (d' : bd.Num) × (bd.from_str (bd.to_string d) ≡ ok d') × (value d' ≡ value d)
  pub from_str_zero : (d : bd.Num) × (bd.from_str (bytes "0.0") ≡ ok d) × (value d ≡ nil)

module _ {bd : BigDecimal} (laws : DecimalLaws bd) where
  open laws use {Value, plus, opp, nil, value}

  -- The text is a number, and its value is `v`.
  abbrev pub Denotes : Str → Value → Type 0
  Denotes s v = (d : bd.Num) × (bd.from_str s ≡ ok d) × (value d ≡ v)

  pub Denotes-unique : (s : Str) {v w : Value} → Denotes s v → Denotes s w → v ≡ w
  Denotes-unique s (d, p, e) (d', p', e') = cc

  printed : (d : bd.Num) {v : Value} → value d ≡ v → Denotes (bd.to_string d) v
  printed d e = let (d', p, q) = laws.from_str-to_string d in (d', p, q ∙ e)

  parse-eq-ok : (s : Str) {d : bd.Num} → parse bd s ≡ ok d → Denotes s (value d)
  parse-eq-ok s {d} h = elim (Result-cases (bd.from_str s)) [
    | inl (d', p) ↦ (d', p, ap value (ok_injective (rw p at h)))
    | inr (e, p) ↦ absurd (err_ne_ok (rw p at h))
  ]

  -- A sum is a text of the sum of the values, and both texts were numbers.
  pub add-Denotes :
      (a b : Str) {r : Str}
      → add bd a b ≡ ok r
      → (x : Value) × (y : Value) × Denotes a x × Denotes b y × Denotes r (plus x y)
  unfolding add
  add-Denotes a b h =
      let (d, p, k) = >>=-eq-ok (parse bd a) _ h in
      let (d', q, l) = >>=-eq-ok (parse bd b) _ k in
      (
        value d,
        value d',
        parse-eq-ok a p,
        parse-eq-ok b q,
        subst (λ t. Denotes t (plus (value d) (value d'))) (ok_injective l)
            (printed (bd.normalized (bd.add d d')) (laws.value-normalized _ ∙ laws.value-add d d')),
      )

  -- The negative of a text of `v` is a text of `-v`.
  pub neg-Denotes :
      (a : Str) {r : Str} → neg bd a ≡ ok r → (x : Value) × Denotes a x × Denotes r (opp x)
  unfolding neg
  neg-Denotes a h =
      let (d, p, k) = >>=-eq-ok (parse bd a) _ h in
      (
        value d,
        parse-eq-ok a p,
        subst (λ t. Denotes t (opp (value d))) (ok_injective k)
            (printed (bd.neg d) (laws.value-neg d)),
      )

  -- What a comparison says of the values.
  abbrev pub Compares : Ordering → Value → Value → Type 0
  Compares Ordering.lt x y = laws.Lt x y
  Compares Ordering.eq x y = x ≡ y
  Compares Ordering.gt x y = laws.Lt y x

  Compares-cmp : (o : Ordering) (d e : bd.Num) → bd.cmp d e ≡ o → Compares o (value d) (value e)
  Compares-cmp Ordering.lt d e h = (laws.cmp_lt d e).0 h
  Compares-cmp Ordering.eq d e h = (laws.cmp_eq d e).0 h
  Compares-cmp Ordering.gt d e h = (laws.cmp_gt d e).0 h

  pub cmp-Denotes :
      (a b : Str) {o : Ordering}
      → cmp bd a b ≡ ok o
      → (x : Value) × (y : Value) × Denotes a x × Denotes b y × Compares o x y
  unfolding cmp
  cmp-Denotes a b {o} h =
      let (d, p, k) = >>=-eq-ok (parse bd a) _ h in
      let (d', q, l) = >>=-eq-ok (parse bd b) _ k in
      (value d, value d', parse-eq-ok a p, parse-eq-ok b q, Compares-cmp o d d' (ok_injective l))

  -- On texts that are numbers the calculator never fails.
  pub add_total :
      (a b : Str) {x y : Value}
      → Denotes a x
      → Denotes b y
      → (r : Str) × (add bd a b ≡ ok r) × Denotes r (plus x y)
  unfolding add
  add_total a b (d, p, e) (d', q, f) = (
    bd.to_string (bd.normalized (bd.add d d')),
    rw p (rw q refl),
    printed (bd.normalized (bd.add d d'))
        (laws.value-normalized _ ∙ laws.value-add d d' ∙ ap₂ plus e f),
  )

  pub neg_total :
      (a : Str) {x : Value} → Denotes a x → (r : Str) × (neg bd a ≡ ok r) × Denotes r (opp x)
  unfolding neg
  neg_total a (d, p, e) =
      (bd.to_string (bd.neg d), rw p refl, printed (bd.neg d) (laws.value-neg d ∙ ap opp e))

  -- Group facts that the balance lemmas use.
  pub plus-opp-cancel : (v w : Value) → plus (plus v (opp w)) w ≡ v
  plus-opp-cancel v w =
      laws.plus_assoc v (opp w) w
      ∙ ap (plus v) (laws.plus_comm (opp w) w ∙ laws.plus_opp w)
      ∙ laws.plus_nil v

  -- What one side gains and the other loses leaves the sum as it was.
  pub plus_exchange : (u v w : Value) → plus (plus u (opp w)) (plus v w) ≡ plus u v
  plus_exchange u v w =
      laws.plus_comm (plus u (opp w)) (plus v w)
      ∙ laws.plus_assoc v w (plus u (opp w))
      ∙ ap (plus v) (laws.plus_comm w (plus u (opp w)) ∙ plus-opp-cancel u w)
      ∙ laws.plus_comm v u

  pub plus_left_comm : (u v w : Value) → plus u (plus v w) ≡ plus v (plus u w)
  plus_left_comm u v w =
      sym (laws.plus_assoc u v w)
      ∙ ap (λ (t : Value). plus t w) (laws.plus_comm u v)
      ∙ laws.plus_assoc v u w

  -- What is moved out of a part of the second sum and into the first leaves the total.
  pub plus_shift : (x y z w : Value) → plus (plus x y) (plus (plus z (opp y)) w) ≡ plus x (plus z w)
  plus_shift x y z w =
      laws.plus_assoc x y (plus (plus z (opp y)) w)
      ∙ ap (plus x) (
          sym (laws.plus_assoc y (plus z (opp y)) w)
          ∙ ap (λ (t : Value). plus t w) (laws.plus_comm y (plus z (opp y)) ∙ plus-opp-cancel z y))
