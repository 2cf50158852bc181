-- ===== src/Mq/Engine/Items.antt =====
-- What is fetched of a raft log, and the entries as they are stored.
use auticuro.Prelude.{
  ℕ, ◌+◌, ◌<◌, ◌≤◌, ◌^◌, ◌≡◌, refl, ◌∙◌, ap, Bytes, Option, some, none, List, [], ◌∷◌, Bool, true,
  false, ◌==◌, if◌then◌else◌, arith, not, ◌&&◌, ◌||◌, ltb, leb, Bytes_eq, ◌⊎◌, inl, inr, Bool-cases,
  ◌>>?◌,
}
use auticuro.Prelude.Lists.{length}
use auticuro.Storage.{Storage}
use auticuro.Keys.{raft_log_key, raft_state_key}
use auticuro.Mq.{Entry, RaftProtobuf}
use auticuro.Mq.Engine.Stored.{AreFrom, entry_of, bytes_of}

pub ==_refl : (a b : ℕ) → a ≡ b → (a == b) ≡ true
==_refl a b h = ground arith

pub not_eq : (a b : ℕ) → a < b → (a == b) ≡ false
not_eq a b h = ground arith

-- After a read of some bytes, the test before the next read is the negation of the one after it.
pub stop_rule :
    {e : Entry} (max_size total n : ℕ) (rest : List Entry)
    → 0 < n
    → (some (if ltb 0 (total + n) && leb max_size (total + n) then [] else rest) >>? λ es.
        some (e ∷ es))
      ≡ some (e ∷ (if ltb (total + n) max_size then rest else []))
stop_rule max_size total n rest h = ground arith

pub all_or_full :
    (max_size total : ℕ) (e : Entry) (rest es : List Entry) (t : Bool)
    → t ≡ true
    → (max_size ≤ total) ⊎ (rest ≡ es)
    → (max_size ≤ total) ⊎ ((e ∷ (if t then rest else [])) ≡ e ∷ es)
all_or_full max_size total e rest es t q (inl h) = inl h
all_or_full max_size total e rest es t q (inr h) = inr (rw (q, h) refl)

pub both_none : (t : Bool) → ◌≡◌ {A = Option Bytes} (if t then none else none) none
both_none true = refl
both_none false = refl

pub between :
    {r low high : ℕ} (s i : ℕ)
    → (not (ltb s r || (s == r && ltb i low)) && (ltb s r || (s == r && ltb i high))) ≡ true
    → (s ≡ r) × (low ≤ i) × (i < high)
between s i h = ground arith

pub enough :
    (max_size total n : ℕ) (es got : List Entry)
    → length es ≡ n
    → (max_size ≤ total) ⊎ (got ≡ es)
    → (if length got == n || leb max_size total then got else []) ≡ got
enough max_size total n es got h (inl q) = ground arith
enough max_size total n es got h (inr q) = rw (==_refl (length got) n (ap length q ∙ h)) refl

module _ (st : Storage) (pb : RaftProtobuf) where
  abbrev pub size : Entry → ℕ
  size e = length (pb.entry_bytes e)

  -- The entries up to the one with which the total size reaches the limit.
  abbrev pub limited : ℕ → ℕ → List Entry → List Entry
  limited max_size total [] = []
  limited max_size total (e ∷ es) =
      let rest = limited max_size (total + size e) es in
      e ∷ (if ltb (total + size e) max_size then rest else [])

  -- The entries as the database stores them.
  abbrev pub items : ℕ → List Entry → List (Bytes × Bytes)
  items r [] = []
  items r (e ∷ es) = (raft_log_key st.be r e.index, pb.entry_bytes e) ∷ items r es

  -- These entries of the region are there, from `low` on.
  abbrev pub Has : st.rocks.Db → ℕ → ℕ → List Entry → Type 0
  Has db r low es =
      AreFrom low es
      × ((j : ℕ)
          → low ≤ j
          → j < low + length es
          → st.rocks.get_opt db (raft_log_key st.be r j) ≡ bytes_of st pb (entry_of low es j))

  -- The database of the raft log holds the keys of raft logs and of raft states only.
  abbrev pub OnlyRaftKeys : st.rocks.Db → Type 0
  OnlyRaftKeys db =
      (key value : Bytes)
      → st.rocks.get_opt db key ≡ some value
      → ((r : ℕ) × (i : ℕ) × (r < 2 ^ 64) × (i < 2 ^ 64) × (key ≡ raft_log_key st.be r i))
        ⊎ ((r : ℕ) × (r < 2 ^ 64) × (key ≡ raft_state_key st.be r))

  pub head_entry :
      (i : ℕ) (e : Entry) (es : List Entry)
      → bytes_of st pb (entry_of i (e ∷ es) i) ≡ some (pb.entry_bytes e)
  head_entry i e es = rw (==_refl i i refl) refl

  pub later_entry :
      (i j : ℕ) (e : Entry) (es : List Entry)
      → i < j
      → bytes_of st pb (entry_of i (e ∷ es) j) ≡ bytes_of st pb (entry_of (i + 1) es j)
  later_entry i j e es h = rw (not_eq i j h) refl

  pub choose :
      (at low j : ℕ) (e : Entry) (es : List Entry)
      → at ≡ low
      → (if at == j then some (pb.entry_bytes e) else bytes_of st pb (entry_of (low + 1) es j))
        ≡ bytes_of st pb (entry_of low (e ∷ es) j)
  choose at low j e es h = elim (Bool-cases (low == j)) [
    | inl q ↦ rw (ap (λ (x : ℕ). x == j) h ∙ q, q) refl
    | inr q ↦ rw (ap (λ (x : ℕ). x == j) h ∙ q, q) refl
  ]

  pub no_entries : (es : List Entry) (max_size : ℕ) → length es ≤ 0 → limited max_size 0 es ≡ []
  no_entries [] max_size h = refl
  no_entries (e ∷ es) max_size h = absurd (omega arith)
