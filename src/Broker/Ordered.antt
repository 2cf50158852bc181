-- ===== src/Broker/Ordered.antt =====
-- `BTreeMap` by position: an association list in the derived order of positions.
use auticuro.Prelude.{
  ◌≡◌, ◌↔◌, refl, Bool, true, ◌&&◌, ◌||◌, ◌==◌, ltb, [], ◌∷◌, some, arith, if◌then◌else◌, Eq,
}
use auticuro.Prelude.Map.{Map, get}
use auticuro.StateMachine.{Position}

-- The derived `PartialEq` and `Ord`.
abbrev pub position_beq : Position → Position → Bool
position_beq p q = p.log_index == q.log_index && p.offset == q.offset

abbrev pub before : Position → Position → Bool
before p q = ltb p.log_index q.log_index || (p.log_index == q.log_index && ltb p.offset q.offset)

pub position_beq_iff : (p q : Position) → (position_beq p q ≡ true) ↔ (p ≡ q)
position_beq_iff p q = (λ h. ground arith, λ h. ground arith)

instance abbrev pub Position_eq : Eq Position
Position_eq = record { beq = position_beq; beq_iff = position_beq_iff }

unfoldable pub insert_ordered : {V : Type 0} → Position → V → Map Position V → Map Position V
insert_ordered p v [] = (p, v) ∷ []
insert_ordered p v ((q, w) ∷ m) =
    let rest = insert_ordered p v m in
    if before p q
    then (p, v) ∷ (q, w) ∷ m
    else if position_beq p q
    then (p, v) ∷ m
    else (q, w) ∷ rest

pub get-insert_ordered :
    {V : Type 0} (p q : Position) (v : V) (m : Map Position V)
    → get (insert_ordered p v m) q ≡ (if position_beq p q then some v else get m q)
unfolding insert_ordered get
get-insert_ordered p q v [] = refl
get-insert_ordered p q v ((r, w) ∷ m) = ground (
  arith,
  get-insert_ordered p q v m,
  position_beq_iff p q,
  position_beq_iff p r,
  position_beq_iff r q,
)
