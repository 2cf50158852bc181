-- ===== src/Mq/PeerStorage/Sound.antt =====
-- The invariant of a peer's storage: what is in memory describes the log on disk.
use auticuro.Prelude.{
  ℕ, ◌+◌, ◌<◌, ◌≤◌, ◌^◌, ◌≡◌, refl, sym, ap, some, List, [], ◌∷◌, arith, ◌==◌, Bool-cases, inl, inr,
  true, false, some_injective, none_ne_some,
}
use auticuro.Prelude.Lists.{length}
use auticuro.Storage.{Storage}
use auticuro.Keys.{raft_state_key}
use auticuro.Mq.{Entry, RaftLocalState, RaftProtobuf, RaftProtobufLaws}
use auticuro.Mq.Engine.{get_entry}
use auticuro.Mq.Engine.Stored.{Holds, entry_of}
use auticuro.Mq.Consumer.{Engines}
use auticuro.Mq.PeerStorage.{PeerStorage, entry_term, truncated_index, truncated_term, last_index}

-- The term of the last entry, or the one before the first.
abbrev pub last_term_of : ℕ → List Entry → ℕ
last_term_of t [] = t
last_term_of t (e ∷ es) = last_term_of e.term es

-- Terms do not go back.
abbrev pub AreRising : ℕ → List Entry → Type 0
AreRising t [] = Unit
AreRising t (e ∷ es) = (t ≤ e.term) × AreRising e.term es

abbrev pub with_commit : ℕ → RaftLocalState → RaftLocalState
with_commit commit state = record state { hard_state = record state.hard_state { commit = commit } }

last_term_of-le : (t : ℕ) (es : List Entry) → AreRising t es → t ≤ last_term_of t es
last_term_of-le t [] r = omega arith
last_term_of-le t (e ∷ es) (h, r) = omega (arith, last_term_of-le e.term es r)

-- The term of an entry lies between the one before the first and the last.
pub entry_between :
    (t low i : ℕ) (es : List Entry) (e : Entry)
    → AreRising t es
    → entry_of low es i ≡ some e
    → (t ≤ e.term) × (e.term ≤ last_term_of t es)
entry_between t low i [] e r h = absurd (none_ne_some h)
entry_between t low i (x ∷ es) e (a, r) h = elim (Bool-cases (low == i)) [
  | inl q ↦
      let same = ap (λ (y : Entry). y.term) (some_injective (rw q at h)) in
      omega (arith, last_term_of-le x.term es r)
  | inr q ↦ let (b, c) = entry_between x.term (low + 1) i es e r (rw q at h) in (omega arith, c)
]

at_last : (low i : ℕ) → i ≡ low → (low == i) ≡ true
at_last low i h = ground arith

before_last : (low i : ℕ) → low < i → (low == i) ≡ false
before_last low i h = ground arith

-- The last entry has the last term.
pub last_entry :
    (t low : ℕ) (es : List Entry) (e : Entry) (i : ℕ)
    → i + 1 ≡ low + length es
    → entry_of low es i ≡ some e
    → e.term ≡ last_term_of t es
last_entry t low [] e i h k = absurd (none_ne_some k)
last_entry t low (x ∷ []) e i h k =
    sym (ap (λ (y : Entry). y.term) (some_injective (rw (at_last low i (omega arith)) at k)))
last_entry t low (x ∷ y ∷ es) e i h k =
    last_entry x.term (low + 1) (y ∷ es) e i (omega arith)
      (rw (before_last low i (omega arith)) at k)

module _ (st : Storage) (pb : RaftProtobuf) where
  pub record IsSound (self : PeerStorage st) (es : List Entry) : Type 0 where
    -- The log on disk starts behind the truncated index.
    pub holds : Holds st pb self.engines.raft self.region_id (truncated_index self + 1) es
    pub last : last_index self ≡ truncated_index self + length es
    pub last_of_log : self.last_term ≡ last_term_of (truncated_term self) es
    pub rising : AreRising (truncated_term self) es
    -- The raft state on disk may lag behind with its commit index.
    pub saved_commit : ℕ
    pub saved :
        st.rocks.get_opt self.engines.raft (raft_state_key st.be self.region_id)
        ≡ some (pb.raft_state_bytes (with_commit saved_commit self.raft_state))
    pub lags : saved_commit ≤ self.raft_state.hard_state.commit
    pub started : 5 ≤ truncated_index self
    pub start_term : truncated_index self ≡ 5 → truncated_term self ≡ 5
    pub small : last_index self + 1 < 2 ^ 64
    pub region_small : self.region_id < 2 ^ 64

  -- An entry of the log is read with its term.
  pub entry_term-entry_of :
      (laws : RaftProtobufLaws pb) (engines : Engines st) (r low i : ℕ) (es : List Entry)
      (e : Entry)
      → Holds st pb engines.raft r low es
      → low ≤ i
      → i < 2 ^ 64
      → entry_of low es i ≡ some e
      → entry_term st pb engines r i ≡ some e.term
  unfolding get_entry
  entry_term-entry_of laws engines r low i es e holds a b found =
      rw (holds.1 i a b) (rw found (rw (laws.parse-entry_bytes e) refl))
