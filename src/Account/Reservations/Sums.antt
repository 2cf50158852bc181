-- ===== src/Account/Reservations/Sums.antt =====
-- The sum of the values in a reservation map, and how it moves when the map is updated.
use auticuro.Prelude.{
  ◌≡◌, refl, Str, [], ◌∷◌, some, none, ap, ◌∙◌, subst, bytes_eq, bytes_eq_iff, arith, Bool-cases,
  inl, inr, beq_refl, true, Bytes_eq,
}
use auticuro.Prelude.Map.{Map, IsUnique, get, insert, remove, get-remove}
use auticuro.Decimal.{BigDecimal}
use auticuro.Decimal.Laws.{DecimalLaws, Denotes, plus_left_comm}

pub remove_absent : (m : Map Str Str) (k : Str) → get m k ≡ none → remove k m ≡ m
unfolding get remove
remove_absent [] k h = refl
remove_absent ((j, b) ∷ m) k h = ground (arith, remove_absent m k)

pub IsUnique-remove : (m : Map Str Str) (k : Str) → IsUnique m → IsUnique (remove k m)
unfolding remove
IsUnique-remove [] k u = tt
IsUnique-remove ((j, b) ∷ m) k u = ground (arith, IsUnique-remove m k u.1, get-remove k j m)

found_head :
    (j k b a : Str) (m : Map Str Str) → bytes_eq j k ≡ true → get ((j, b) ∷ m) k ≡ some a → b ≡ a
unfolding get
found_head j k b a m same h = ground arith

pub IsUnique-insert : (m : Map Str Str) (k a : Str) → IsUnique m → IsUnique (insert k a m)
unfolding insert
IsUnique-insert m k a u = (get-remove k k m ∙ (rw (beq_refl k) refl), IsUnique-remove m k u)

module _ {bd : BigDecimal} (laws : DecimalLaws bd) where
  open laws use {Value, plus, nil}

  -- The values in the map, added up.
  abbrev pub SumsTo : Map Str Str → Value → Type 0
  SumsTo [] v = v ≡ nil
  SumsTo ((k, a) ∷ m) v = (x : Value) × (w : Value) × Denotes laws a x × SumsTo m w × (v ≡ plus x w)

  -- Taking an entry out takes its value out of the sum.
  pub SumsTo-remove :
      (m : Map Str Str) (k : Str) {a : Str} {v : Value}
      → get m k ≡ some a
      → IsUnique m
      → SumsTo m v
      → (x : Value) × (w : Value) × Denotes laws a x × SumsTo (remove k m) w × (v ≡ plus x w)
  unfolding get remove
  SumsTo-remove [] k h u s = cc
  SumsTo-remove ((j, b) ∷ m) k {a} h u (x, w, dx, sw, e) = elim (Bool-cases (bytes_eq j k)) [
    | inl same ↦ (
      x,
      w,
      subst (λ t. Denotes laws t x) (found_head j k b a m same h) dx,
      rw (same, remove_absent m k (rw ((bytes_eq_iff j k).0 same) at u.0)) sw,
      e,
    )
    | inr differs ↦
        let (x', w', dx', sw', e') = SumsTo-remove m k (rw differs at h) u.1 sw in
        (
          x',
          plus x w',
          dx',
          rw differs (x, w', dx, sw', refl),
          e ∙ ap (plus x) e' ∙ plus_left_comm laws x x' w',
        )
  ]

  -- A new entry adds its value to the sum.
  pub SumsTo-insert :
      (m : Map Str Str) (k a : Str) {x : Value} (v : Value)
      → get m k ≡ none
      → Denotes laws a x
      → SumsTo m v
      → SumsTo (insert k a m) (plus x v)
  unfolding insert
  SumsTo-insert m k a {x} v h d s = (x, v, d, rw (remove_absent m k h) s, refl)
