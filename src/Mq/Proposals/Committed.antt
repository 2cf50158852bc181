-- ===== src/Mq/Proposals/Committed.antt =====
-- peer.rs: searching the proposal of a committed entry.
use auticuro.Prelude.{
  ℕ, ◌+◌, ◌<◌, ◌≤◌, ◌≡◌, refl, sym, ◌∙◌, ap, subst, some, none, Option, List, [], ◌∷◌, true, false,
  ◌⊎◌, if◌then◌else◌, Bool-cases, inl, inr, arith, map, ◌==◌,
}
use auticuro.Prelude.Map.{is_empty}
use auticuro.Mq.{Entry, err_resp, stale_command}
use auticuro.Mq.Apply.{no_callback, read, write, Answers, invoke_with_response}
use auticuro.Mq.Apply.Poll.{Proposal, pending_cmd}
use auticuro.Mq.Apply.Callbacks.{calls, queue_calls, answer_calls, answer_calls-invoke}
use auticuro.Mq.Proposals.{searched, pop, comes_after, is_none, answered, Search, find_proposal}
use auticuro.Mq.Proposals.Ordered.{AllAfter, IsOrdered, AllAfter-trans}

-- A proposal for the index of an entry has no later term than the entry; and one for the entry itself
-- is for a command.
abbrev pub IsDue : Proposal → List Entry → Type 0
IsDue p [] = Unit
IsDue p (e ∷ es) =
    (p.index ≡ e.index → (p.term ≤ e.term) × (p.term ≡ e.term → is_empty e.payload ≡ false))
    × IsDue p es

-- Proposals for indices above `i`, that are due.
abbrev pub AllDue : ℕ → List Entry → List Proposal → Type 0
AllDue i es [] = Unit
AllDue i es (p ∷ ps) = (i < p.index) × IsDue p es × AllDue i es ps

abbrev pub found_calls : ℕ → List Proposal → ℕ
found_calls n ps = queue_calls n (map pending_cmd ps)

-- A search for the entry `e`, behind which come `es`.
pub record IsFound (e : Entry) (es : List Entry) (ps : List Proposal) (invoked : Answers)
    (s : Search) : Type 0 where
  pub one :
      (s.found ≡ [])
      ⊎ ((p : Proposal) × (s.found ≡ p ∷ [])
          × (p.index ≡ e.index)
          × (p.term ≡ e.term)
          × (is_empty e.payload ≡ false))
  pub ordered : IsOrdered s.queue
  pub due : AllDue e.index es s.queue
  pub kept :
      (n : ℕ)
      → found_calls n s.found + found_calls n s.queue + answer_calls n s.invoked
        ≡ found_calls n ps + answer_calls n invoked

above_entry :
    (t i : ℕ) (p : Proposal)
    → comes_after p t (i + 1) ≡ true
    → i < p.index
    → (p.index ≡ i + 1 → p.term ≤ t)
    → i + 1 < p.index
above_entry t i p h above same = elim (Bool-cases (p.index == i + 1)) [
  | inl q ↦ let low = same (ground arith) in ground arith
  | inr q ↦ ground arith
]

-- A proposal that is not behind the entry, and has its term, is for its index.
at_entry :
    (t i : ℕ) (p : Proposal)
    → comes_after p t (i + 1) ≡ false
    → (p.term == t) ≡ true
    → i < p.index
    → (p.term ≡ t) × (p.index ≡ i + 1) × ((p.index == i + 1) ≡ true)
at_entry t i p h k above = (ground arith, ground arith, ground arith)

-- What comes after an entry has a higher index.
later-AllDue :
    (i : ℕ) (e : Entry) (es : List Entry) (ps : List Proposal)
    → e.index ≡ i + 1
    → AllAfter e.term e.index ps
    → AllDue i (e ∷ es) ps
    → AllDue e.index es ps
later-AllDue i e es [] at a d = tt
later-AllDue i e es (p ∷ ps) at (h, a) (above, (same, due), d) = (
  subst (λ j. j < p.index) (sym at)
      (above_entry e.term i p (subst (λ j. comes_after p e.term j ≡ true) at h) above
        (λ q. (same (q ∙ sym at)).0)),
  due,
  later-AllDue i e es ps at a d,
)

answered-calls : (n : ℕ) (p : Proposal) → found_calls n (answered p) ≡ calls n p.cb
unfolding queue_calls
answered-calls n p =
    elim p.cb
      as (λ cb. found_calls n (if is_none cb then [] else record p { cb = cb } ∷ []) ≡ calls n cb) [
        | no_callback ↦ refl
        | read m ↦ omega arith
        | write m ↦ omega arith
      ]

answered_cases : (p : Proposal) → (answered p ≡ []) ⊎ (answered p ≡ p ∷ [])
answered_cases p = elim (Bool-cases (is_none p.cb)) [
  | inl q ↦ inl (rw q refl)
  | inr q ↦ inr (rw q refl)
]

pop_stop :
    (term index : ℕ) (p : Proposal) (ps : List Proposal)
    → comes_after p term index ≡ true
    → pop term index (p ∷ ps) ≡ (none, p ∷ ps)
unfolding pop
pop_stop term index p ps h = rw h refl

pop_front :
    (term index : ℕ) (p : Proposal) (ps : List Proposal)
    → comes_after p term index ≡ false
    → pop term index (p ∷ ps) ≡ (some p, ps)
unfolding pop
pop_front term index p ps h = rw h refl

-- The search behind a stale proposal.
abbrev stale_rest : ℕ → ℕ → ℕ → Proposal → List Proposal → Answers → Option Search
stale_rest current term index p ps invoked =
    find_proposal current term index ps
      (invoke_with_response p.cb (err_resp stale_command current) invoked)

step_stop :
    (current term index : ℕ) (p : Proposal) (ps : List Proposal) (invoked : Answers)
    → comes_after p term index ≡ true
    → find_proposal current term index (p ∷ ps) invoked
      ≡ some (record { found = []; queue = p ∷ ps; invoked = invoked })
unfolding find_proposal
step_stop current term index p ps invoked h =
    ap (λ r. searched term index r invoked (stale_rest current term index p ps invoked))
      (pop_stop term index p ps h)

step_hit :
    (current term index : ℕ) (p : Proposal) (ps : List Proposal) (invoked : Answers)
    → comes_after p term index ≡ false
    → (p.term == term) ≡ true
    → (p.index == index) ≡ true
    → find_proposal current term index (p ∷ ps) invoked
      ≡ some (record { found = answered p; queue = ps; invoked = invoked })
unfolding find_proposal
step_hit current term index p ps invoked h k l =
    ap (λ r. searched term index r invoked (stale_rest current term index p ps invoked))
      (pop_front term index p ps h)
    ∙ rw (k, l) refl

step_stale :
    (current term index : ℕ) (p : Proposal) (ps : List Proposal) (invoked : Answers)
    → comes_after p term index ≡ false
    → (p.term == term) ≡ false
    → find_proposal current term index (p ∷ ps) invoked
      ≡ find_proposal current term index ps
          (invoke_with_response p.cb (err_resp stale_command current) invoked)
unfolding find_proposal
step_stale current term index p ps invoked h k =
    ap (λ r. searched term index r invoked (stale_rest current term index p ps invoked))
      (pop_front term index p ps h)
    ∙ rw k refl

pub find_proposal-IsFound :
    (current i : ℕ) (e : Entry) (es : List Entry) (ps : List Proposal) (invoked : Answers)
    → e.index ≡ i + 1
    → IsOrdered ps
    → AllDue i (e ∷ es) ps
    → (s : Search) × (find_proposal current e.term e.index ps invoked ≡ some s)
      × IsFound e es ps invoked s
unfolding find_proposal queue_calls
find_proposal-IsFound current i e es [] invoked at o d = (
  record { found = []; queue = []; invoked = invoked },
  refl,
  record { one = inl refl; ordered = tt; due = tt; kept = λ n. omega arith },
)
find_proposal-IsFound current i e es (p ∷ ps) invoked at (after_p, o) (above, (same, due), d) =
    elim (Bool-cases (comes_after p e.term e.index)) [
      | inl c ↦ (
        record { found = []; queue = p ∷ ps; invoked = invoked },
        step_stop current e.term e.index p ps invoked c,
        record {
          one = inl refl;
          ordered = (after_p, o);
          due =
              later-AllDue i e es (p ∷ ps) at (c, AllAfter-trans p e.term e.index ps after_p c)
                (above, (same, due), d);
          kept = λ n. omega arith;
        },
      )
      | inr c ↦ elim (Bool-cases (p.term == e.term)) [
        | inl k ↦
            let (t, j, l) =
              at_entry e.term i p (subst (λ j. comes_after p e.term j ≡ false) at c) k above in
            (
              record { found = answered p; queue = ps; invoked = invoked },
              step_hit current e.term e.index p ps invoked c k
                  (subst (λ n. (p.index == n) ≡ true) (sym at) l),
              record {
                one = elim (answered_cases p) [
                  | inl none_waits ↦ inl none_waits
                  | inr waits ↦ inr (p, waits, j ∙ sym at, t, (same (j ∙ sym at)).1 t)
                ];
                ordered = o;
                due =
                    later-AllDue i e es ps at
                      (subst (λ n. AllAfter n e.index ps) t
                        (subst (λ n. AllAfter p.term n ps) (j ∙ sym at) after_p))
                      d;
                kept = λ n. omega (arith, answered-calls n p);
              },
            )
        | inr k ↦
            let invoked1 = invoke_with_response p.cb (err_resp stale_command current) invoked in
            let (s, run, f) = find_proposal-IsFound current i e es ps invoked1 at o d in
            (
              s,
              step_stale current e.term e.index p ps invoked c k ∙ run,
              record {
                one = f.one;
                ordered = f.ordered;
                due = f.due;
                kept = λ n. omega (
                  arith,
                  f.kept n,
                  answer_calls-invoke n p.cb (err_resp stale_command current) invoked,
                );
              },
            )
      ]
    ]
