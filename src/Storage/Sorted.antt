-- ===== src/Storage/Sorted.antt =====
-- Lists of entries in the order of their keys: what an iterator goes over.
use auticuro.Prelude.{
  ◌≡◌, refl, sym, ◌∙◌, ap, ap₂, Bytes, none, some, [], ◌∷◌, true, false, bytes_lt, bytes_eq,
  bytes_eq_iff, Bytes_eq, arith, Bool-cases, inl, inr, some_injective, none_ne_some, beq_refl,
}
use auticuro.Prelude.Map.{Map, get, IsUnique}
use auticuro.Keys.Order.{bytes_lt_irrefl, bytes_lt_trans, bytes_lt_total}
use auticuro.Storage.{AllAbove, IsSorted}

pub AllAbove-trans :
    (k j : Bytes) (m : Map Bytes Bytes) → bytes_lt k j ≡ true → AllAbove j m → AllAbove k m
AllAbove-trans k j [] h a = tt
AllAbove-trans k j ((i, w) ∷ m) h (b, a) = (bytes_lt_trans k j i h b, AllAbove-trans k j m h a)

pub get_below : (k : Bytes) (m : Map Bytes Bytes) → AllAbove k m → get m k ≡ none
unfolding get
get_below k [] a = refl
get_below k ((j, w) ∷ m) (b, a) =
    ground (arith, get_below k m a, bytes_eq_iff j k, bytes_lt_irrefl k)

pub IsUnique-IsSorted : (m : Map Bytes Bytes) → IsSorted m → IsUnique m
IsUnique-IsSorted [] s = tt
IsUnique-IsSorted ((k, v) ∷ m) (a, s) = (get_below k m a, IsUnique-IsSorted m s)

get_nil : (k : Bytes) → get {V = Bytes} [] k ≡ none
unfolding get
get_nil k = refl

get_head : (k v : Bytes) (m : Map Bytes Bytes) → get ((k, v) ∷ m) k ≡ some v
unfolding get
get_head k v m = rw (beq_refl k) refl

get_skip :
    (k x v : Bytes) (m : Map Bytes Bytes) → bytes_eq k x ≡ false → get ((k, v) ∷ m) x ≡ get m x
unfolding get
get_skip k x v m q = rw q refl

same_tail :
    (k j v w : Bytes) (m n : Map Bytes Bytes) (x : Bytes)
    → AllAbove k m
    → AllAbove j n
    → k ≡ j
    → get ((k, v) ∷ m) x ≡ get ((j, w) ∷ n) x
    → get m x ≡ get n x
same_tail k j v w m n x a b same e = elim (Bool-cases (bytes_eq k x)) [
  | inl q ↦
      let at = (bytes_eq_iff k x).0 q in
      ap (get m) (sym at) ∙ get_below k m a ∙ sym (ap (get n) (sym at ∙ same) ∙ get_below j n b)
  | inr q ↦ sym (get_skip k x v m q) ∙ e ∙ get_skip j x w n (ap (λ y. bytes_eq y x) (sym same) ∙ q)
]

-- Entries in the order of their keys are determined by what stands under each key.
pub sorted_ext :
    (m n : Map Bytes Bytes) → IsSorted m → IsSorted n → ((k : Bytes) → get m k ≡ get n k) → m ≡ n
sorted_ext [] [] s t h = refl
sorted_ext [] ((j, w) ∷ n) s t h = absurd (none_ne_some (sym (get_nil j) ∙ h j ∙ get_head j w n))
sorted_ext ((k, v) ∷ m) [] s t h =
    absurd (none_ne_some (sym (get_nil k) ∙ sym (h k) ∙ get_head k v m))
sorted_ext ((k, v) ∷ m) ((j, w) ∷ n) (a, s) (b, t) h = elim (Bool-cases (bytes_lt k j)) [
  | inl e ↦ absurd (
      none_ne_some
        (sym (get_below k ((j, w) ∷ n) (e, AllAbove-trans k j n e b)) ∙ sym (h k) ∙ get_head k v m))
  | inr e ↦ elim (Bool-cases (bytes_eq k j)) [
    | inr d ↦
        let above = bytes_lt_total k j e d in
        absurd (
          none_ne_some (
            sym (get_below j ((k, v) ∷ m) (above, AllAbove-trans j k m above a))
            ∙ h j
            ∙ get_head j w n))
    | inl q ↦
        let same = (bytes_eq_iff k j).0 q in
        let value =
          some_injective
            (sym (get_head k v m) ∙ h k ∙ ap (get ((j, w) ∷ n)) same ∙ get_head j w n) in
        ap₂ ◌∷◌ (ap₂ (λ (x y : Bytes). (x, y)) same value)
          (sorted_ext m n s t (λ x. same_tail k j v w m n x a b same (h x)))
  ]
]
