-- ===== src/Mq/Proposals/Ordered.antt =====
-- peer.rs: the proposals are in the order of their terms and, within a term, of their indices.
use auticuro.Prelude.{
  sym, Bool, ℕ, ◌≡◌, refl, subst, some, List, [], ◌∷◌, ◌++◌, true, false, arith, some_injective,
  none_ne_some, >>?-eq-some, assert,
}
use auticuro.Mq.Apply.{is_after}
use auticuro.Mq.Apply.Poll.{Proposal}
use auticuro.Mq.Proposals.{comes_after, back, push}

abbrev pub AllAfter : ℕ → ℕ → List Proposal → Type 0
AllAfter t i [] = Unit
AllAfter t i (p ∷ ps) = (comes_after p t i ≡ true) × AllAfter t i ps

abbrev pub IsOrdered : List Proposal → Type 0
IsOrdered [] = Unit
IsOrdered (p ∷ ps) = AllAfter p.term p.index ps × IsOrdered ps

after_trans :
    (p : Proposal) (t i u j : ℕ)
    → comes_after p t i ≡ true
    → is_after (record { index = i; term = t; cb = p.cb }) u j ≡ true
    → comes_after p u j ≡ true
after_trans p t i u j h k = ground arith

pub AllAfter-trans :
    (q : Proposal) (u j : ℕ) (ps : List Proposal)
    → AllAfter q.term q.index ps
    → comes_after q u j ≡ true
    → AllAfter u j ps
AllAfter-trans q u j [] a h = tt
AllAfter-trans q u j (p ∷ ps) (k, a) h =
    (after_trans p q.term q.index u j k h, AllAfter-trans q u j ps a h)

AllAfter-append :
    (t i : ℕ) (ps : List Proposal) (p : Proposal)
    → AllAfter t i ps
    → comes_after p t i ≡ true
    → AllAfter t i (ps ++ p ∷ [])
AllAfter-append t i [] p a h = (h, tt)
AllAfter-append t i (q ∷ ps) p (k, a) h = (k, AllAfter-append t i ps p a h)

-- A proposal after the last one comes after all of them.
behind_back :
    (q : Proposal) (ps : List Proposal) (p f : Proposal)
    → back (q ∷ ps) ≡ some f
    → IsOrdered (q ∷ ps)
    → comes_after p f.term f.index ≡ true
    → IsOrdered (q ∷ ps ++ p ∷ []) × (comes_after p q.term q.index ≡ true)
behind_back q [] p f h o k =
    let after_q =
      subst (λ (x : Proposal). comes_after p x.term x.index ≡ true) (some_injective (sym h)) k in
    (((after_q, tt), (tt, tt)), after_q)
behind_back q (r ∷ ps) p f h ((a, b), o) k =
    let (ordered, after_r) = behind_back r ps p f h o k in
    let after_q = after_trans p r.term r.index q.term q.index after_r a in
    (((a, AllAfter-append q.term q.index ps p b after_q), ordered), after_q)

back-some : (q : Proposal) (ps : List Proposal) → (f : Proposal) × (back (q ∷ ps) ≡ some f)
back-some q [] = (q, refl)
back-some q (p ∷ ps) = back-some p ps

assert_holds : (b : Bool) (u : Unit {0}) → assert b ≡ some u → b ≡ true
assert_holds true u h = refl
assert_holds false u h = absurd (none_ne_some h)

-- What `push` leaves is in order again, with the new proposal at the end.
pub push-IsOrdered :
    (p : Proposal) (ps ps' : List Proposal)
    → IsOrdered ps
    → push p ps ≡ some ps'
    → IsOrdered ps' × (ps' ≡ ps ++ p ∷ [])
unfolding push
push-IsOrdered p [] ps' o h =
    subst (λ qs. IsOrdered qs × (qs ≡ p ∷ [])) (some_injective h) ((tt, tt), refl)
push-IsOrdered p (q ∷ ps) ps' o h =
    let (f, e) = back-some q ps in
    let (_, k, same) =
      >>?-eq-some (assert (comes_after p f.term f.index)) (λ _. some (q ∷ ps ++ p ∷ []))
        (rw (e, push) at h) in
    subst (λ qs. IsOrdered qs × (qs ≡ q ∷ ps ++ p ∷ [])) (some_injective same)
      ((behind_back q ps p f e o (assert_holds (comes_after p f.term f.index) _ k)).0, refl)
