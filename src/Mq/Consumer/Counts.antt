-- ===== src/Mq/Consumer/Counts.antt =====
-- How far a consumer gets in its rounds, and the parts of a list that it takes.
use auticuro.Prelude.{
  ℕ, zero, suc, ◌*◌, leb→le, ◌+◌, ◌-◌, ◌<◌, ◌≤◌, ◌^◌, ◌≡◌, refl, sym, ◌∙◌, ap, subst, List, [], ◌∷◌,
  ◌++◌, true, false, ltb, leb, min, max, if◌then◌else◌, arith, Bool-cases, inl, inr, ◌||◌,
}
use auticuro.Prelude.Lists.{length, take, drop}
use auticuro.Mq.{Entry, inc_u64}
use auticuro.Mq.Engine.Stored.{AreFrom}

-- How many entries were sent after a round in which `n` are applied.
abbrev pub count_after : ℕ → ℕ → ℕ
count_after m n = if ltb n m then m else min (m + 1001) n

abbrev pub counts : ℕ → List ℕ → ℕ
counts m [] = m
counts m (n ∷ ns) = counts (count_after m n) ns

-- At least `n` entries are applied in every round.
abbrev pub AllAtLeast : ℕ → List ℕ → Type 0
AllAtLeast n [] = Unit
AllAtLeast n (k ∷ ks) = (n ≤ k) × AllAtLeast n ks

pub further :
    (m n k rounds : ℕ)
    → n ≤ k
    → n ≤ m + 1001 * suc rounds
    → leb n (count_after m k) ≡ false
    → n ≤ count_after m k + 1001 * rounds
further m n k rounds b h e = ground arith

pub suc_add : (m k : ℕ) → suc m + k ≡ suc (m + k)
suc_add m k = omega arith

pub counts_keep : (n m : ℕ) (ns : List ℕ) → n ≤ m → n ≤ counts m ns
counts_keep n m [] h = h
counts_keep n m (k ∷ ks) h = counts_keep n (count_after m k) ks (ground arith)

-- All `n` entries are sent once the rounds are enough.
pub counts_reach :
    (m n : ℕ) (ns : List ℕ) → AllAtLeast n ns → n ≤ m + 1001 * length ns → n ≤ counts m ns
counts_reach m n [] a h = omega arith
counts_reach m n (k ∷ ks) (b, a) h = elim (Bool-cases (leb n (count_after m k))) [
  | inl e ↦ counts_keep n (count_after m k) ks (leb→le n (count_after m k) e)
  | inr e ↦ counts_reach (count_after m k) n ks a (further m n k (length ks) b h e)
]

pub length-take : {A : Type 0} (k : ℕ) (xs : List A) → k ≤ length xs → length (take k xs) ≡ k
length-take zero xs h = refl
length-take (suc k) [] h = absurd (omega arith)
length-take (suc k) (x ∷ xs) h = omega (arith, length-take k xs (omega arith))

pub take_nil : {A : Type 0} (k : ℕ) → take {A = A} k [] ≡ []
take_nil zero = refl
take_nil (suc k) = refl

-- The next `k` elements, and what is behind them.
pub take_more :
    {A : Type 0} (m k : ℕ) (xs : List A) → take (m + k) xs ≡ take m xs ++ take k (drop m xs)
take_more zero k xs = ap (λ n. take n xs) (omega arith)
take_more (suc m) k [] = take_nil (suc m + k) ∙ sym (take_nil k)
take_more (suc m) k (x ∷ xs) =
    ap (λ n. take n (x ∷ xs)) (suc_add m k) ∙ ap (λ t. x ∷ t) (take_more m k xs)

pub take-drop :
    {A : Type 0} (m k n : ℕ) (xs : List A)
    → m + k ≤ n
    → (rest : List A) × (take n xs ≡ (take m xs ++ take k (drop m xs)) ++ rest)
take-drop m k n xs h = (
  take (n - (m + k)) (drop (m + k) xs),
  ap (λ j. take j xs) (omega arith)
      ∙ take_more (m + k) (n - (m + k)) xs
      ∙ ap (λ t. t ++ take (n - (m + k)) (drop (m + k) xs)) (take_more m k xs),
)

pub length-drop : {A : Type 0} (k : ℕ) (xs : List A) → k + length (drop k xs) ≡ max k (length xs)
length-drop zero xs = omega arith
length-drop (suc k) [] = omega arith
length-drop (suc k) (x ∷ xs) = omega (arith, length-drop k xs)

pub not_outside :
    {base n : ℕ} (m k first last truncated applied : ℕ)
    → truncated < base
    → applied + 1 ≡ base + n
    → m + k ≤ n
    → last + 1 ≡ base + m + k
    → (base + n < 2 ^ 64) × (first ≡ base + m)
    → (ltb first (inc_u64 truncated) || ltb applied last) ≡ false
not_outside m k first last truncated applied a b c d e = ground arith

pub not_before :
    {base : ℕ} (first truncated : ℕ)
    → truncated < base
    → (base ≤ first) × (first < 2 ^ 64)
    → ltb first (inc_u64 truncated) ≡ false
not_before first truncated a b = ground arith

pub idle : (first applied : ℕ) → applied < first → ltb applied first ≡ true
idle first applied h = ground arith

pub busy : (first applied : ℕ) → first ≤ applied → ltb applied first ≡ false
busy first applied h = ground arith

pub inc_end : (last j : ℕ) → last + 1 ≡ j → j < 2 ^ 64 → inc_u64 last ≡ j
inc_end last j h k = omega arith

pub grown : (m n : ℕ) → m + (count_after m n - m) ≡ count_after m n
grown m n = ground arith

pub AreFrom-suffix :
    (low : ℕ) (xs ys : List Entry) → AreFrom low (xs ++ ys) → AreFrom (low + length xs) ys
AreFrom-suffix low [] ys a = subst (λ k. AreFrom k ys) (omega arith) a
AreFrom-suffix low (x ∷ xs) ys (_, a) =
    subst (λ k. AreFrom k ys) (omega arith) (AreFrom-suffix (low + 1) xs ys a)
