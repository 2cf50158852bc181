-- ===== src/Service/Query/Range.antt =====
-- The range of a query.
use auticuro.Prelude.{ℕ, ◌+◌, ◌-◌, ◌<◌, ◌≤◌, ◌^◌, ◌≡◌, ◌≢◌, ◌↔◌, ok, arith, min, sym, ◌∙◌}
use auticuro.Service.Query.{maybe_adjust_query_range, last_available_seq_num}

-- The query is for events that the server has.
abbrev pub IsServed : ℕ → ℕ → ℕ → ℕ → Type 0
IsServed first last persisted_first persisted_last =
    (first ≢ 0) × (first ≤ last) × (persisted_first ≤ first) × (first ≤ persisted_last)

-- `b` is the last event of the answer.
abbrev pub IsLastOf : ℕ → ℕ → ℕ → ℕ → ℕ → Type 0
IsLastOf first last persisted_last max_count b =
    (first ≤ b)
    × (b ≤ last)
    × (b ≤ persisted_last)
    × (b < first + max_count)
    × ((c : ℕ) → c ≤ last → c ≤ persisted_last → c < first + max_count → c ≤ b)

last_available_seq_num-eq :
    (first last persisted_last max_count : ℕ)
    → 0 < max_count
    → first + max_count < 2 ^ 64
    → last_available_seq_num first last persisted_last max_count
      ≡ min (min last (first + max_count - 1)) persisted_last
last_available_seq_num-eq first last pl max_count some_room room = omega arith

IsLastOf-iff :
    (first last persisted_last max_count b : ℕ)
    → 0 < max_count
    → first ≤ last
    → first ≤ persisted_last
    → (min (min last (first + max_count - 1)) persisted_last ≡ b)
      ↔ IsLastOf first last persisted_last max_count b
IsLastOf-iff first last pl n b room fl fp = (
  λ h. (omega arith, omega arith, omega arith, omega arith, λ c p q r. omega arith),
  λ (p, q, r, s, t).
      let m = min (min last (first + n - 1)) pl in
      omega (arith, t m (omega arith) (omega arith) (omega arith)),
)

accepted_iff :
    (first last persisted_first persisted_last max_count a b : ℕ)
    → (maybe_adjust_query_range first last persisted_first persisted_last max_count ≡ ok (a, b)) ↔ (
        IsServed first last persisted_first persisted_last
        × (a ≡ first)
        × (last_available_seq_num first last persisted_last max_count ≡ b))
unfolding maybe_adjust_query_range
accepted_iff first last pf pl n a b = (
  λ h. ((ground arith, ground arith, ground arith, ground arith), ground arith, ground arith),
  λ h. ground arith,
)

-- A query is accepted exactly if it starts at an event that the server has and does not end before
-- it starts. The answer then starts where the query does, and ends at the end of the query, at the
-- last stored event, or after as many events as one answer may hold, whichever comes first. The
-- largest answer must hold an event, and its end must be a `u64`.
pub maybe_adjust_query_range_iff :
    (first last persisted_first persisted_last max_count a b : ℕ)
    → 0 < max_count
    → first + max_count < 2 ^ 64
    → (maybe_adjust_query_range first last persisted_first persisted_last max_count ≡ ok (a, b)) ↔ (
        IsServed first last persisted_first persisted_last
        × (a ≡ first)
        × IsLastOf first last persisted_last max_count b)
maybe_adjust_query_range_iff first last pf pl n a b some_room room =
    let same = last_available_seq_num-eq first last pl n some_room room in
    (
      λ h.
          let (served, e, l) = (accepted_iff first last pf pl n a b).0 h in
          (
            served,
            e,
            (IsLastOf-iff first last pl n b some_room served.1 served.3).0 (sym same ∙ l),
          ),
      λ (served, e, l).
          (accepted_iff first last pf pl n a b).1
            (served, e, same ∙ (IsLastOf-iff first last pl n b some_room served.1 served.3).1 l),
    )
