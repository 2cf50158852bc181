-- ===== src/Mq/PeerStorage/Term.antt =====
-- `term` and `entries`: what the raft library reads of the log.
use auticuro.Prelude.{
  ℕ, ◌+◌, ◌-◌, ◌<◌, ◌≤◌, ◌^◌, ◌≡◌, refl, sym, ◌∙◌, ap, some, List, [], ◌∷◌, arith, ==_iff,
  some_injective, none_ne_some, ltb, leb, ◌==◌, ◌||◌, Bool-cases, inl, inr, Bool, true, false, not,
  assert, if◌then◌else◌, not_leb,
}
use auticuro.Storage.{Storage, StorageLaws}
use auticuro.Keys.{raft_log_key}
use auticuro.Mq.{Entry, RaftProtobuf, RaftProtobufLaws, inc_u64}
use auticuro.Mq.Engine.{fetch_entries_to, multi_get, usize_max}
use auticuro.Mq.Engine.Stored.{AreFrom, entry_of, bytes_of, entry_of_in}
use auticuro.Mq.Engine.Items.{size}
use auticuro.Mq.Engine.Fetch.{multi_get-limited}
use auticuro.Mq.PeerStorage.{
  PeerStorage, term, entries, check_range, truncated_index, truncated_term, last_index,
}
use auticuro.Mq.PeerStorage.Sound.{IsSound, entry_between, last_entry}

in_range :
    (low high truncated last : ℕ)
    → low ≤ high
    → truncated < low
    → high ≤ last + 1
    → last + 1 < 2 ^ 64
    → assert (not (ltb high low || leb low truncated || ltb (inc_u64 last) high)) ≡ some tt
in_range low high truncated last a b c d = ground arith

difference : (low high : ℕ) → high ≡ low + 1 → high - low ≡ 1
difference low high h = omega arith

same_index : (i j : ℕ) → j ≡ i → (i == j) ≡ true
same_index i j h = ground arith

one : (low high : ℕ) → high ≡ low + 1 → leb (high - low) 8 ≡ true
one low high h = ground arith

not_eq : (a b : ℕ) → a < b → (a == b) ≡ false
not_eq a b h = ground arith

not_eq_up : (a b : ℕ) → b < a → (a == b) ≡ false
not_eq_up a b h = ground arith

==_refl : (a : ℕ) → (a == a) ≡ true
==_refl a = ground arith

alone : (t : Bool) (e : Entry) → (e ∷ (if t then [] else [])) ≡ e ∷ []
alone true e = refl
alone false e = refl

entry_of_index :
    (low : ℕ) (es : List Entry) (i : ℕ) (e : Entry)
    → AreFrom low es
    → entry_of low es i ≡ some e
    → e.index ≡ i
entry_of_index low [] i e a h = absurd (none_ne_some h)
entry_of_index low (x ∷ es) i e (at, a) h = elim (Bool-cases (low == i)) [
  | inl q ↦ sym (ap (λ (y : Entry). y.index) (some_injective (rw q at h))) ∙ at ∙ (==_iff low i).0 q
  | inr q ↦ entry_of_index (low + 1) es i e a (rw q at h)
]

module _ (st : Storage) (pb : RaftProtobuf) (laws : StorageLaws st) (pb_laws : RaftProtobufLaws pb)
    (self : PeerStorage st) (es : List Entry) (sound : IsSound st pb self es) where
  -- One entry, read by its index.
  there :
      (idx j : ℕ) (e : Entry)
      → (j ≡ idx) × (truncated_index self < idx) × (idx ≤ last_index self)
      → entry_of (truncated_index self + 1) es idx ≡ some e
      → st.rocks.get_opt self.engines.raft (raft_log_key st.be self.region_id j)
        ≡ bytes_of st pb (entry_of idx (e ∷ []) j)
  there idx j e (same, a, b) found =
      let small = sound.small in
      sound.holds.1 j (omega arith) (omega arith)
      ∙ rw (ap (λ i. entry_of (truncated_index self + 1) es i) same ∙ found, same_index idx j same)
          refl

  entries-one :
      (idx high : ℕ) (e : Entry)
      → high ≡ idx + 1
      → truncated_index self < idx
      → idx ≤ last_index self
      → e.index ≡ idx
      → entry_of (truncated_index self + 1) es idx ≡ some e
      → entries st pb self idx high usize_max ≡ some (e ∷ [])
  unfolding entries check_range fetch_entries_to
  entries-one idx high e h a b at found =
      let small = sound.small in
      rw
        (in_range idx high (truncated_index self) (last_index self) (omega arith) a (omega arith)
          small)
        (rw (not_eq idx high (omega arith)) (
          rw (not_leb high idx (omega arith)) (
            rw (one idx high h) (
              ap (λ n. multi_get st pb self.engines.raft self.region_id usize_max idx n 0)
                (difference idx high h)
              ∙ multi_get-limited st pb laws pb_laws self.engines.raft self.region_id usize_max idx
                  0 (e ∷ []) (omega arith) (at, tt)
                  (λ j c d. there idx j e (omega arith, a, b) found)
              ∙ ap some (alone (ltb (0 + size st pb e) usize_max) e)))))

  -- Where the term is not read from disk it is the last one, and so is that of the entry.
  short_cut :
      (idx : ℕ) (e : Entry)
      → entry_of (truncated_index self + 1) es idx ≡ some e
      → (truncated_term self == self.last_term || idx == last_index self) ≡ true
      → self.last_term ≡ e.term
  short_cut idx e found h =
      let (least, most) =
        entry_between (truncated_term self) (truncated_index self + 1) idx es e sound.rising
          found in
      elim (Bool-cases (truncated_term self == self.last_term)) [
        | inl q ↦
            let same = (==_iff (truncated_term self) self.last_term).0 q in
            omega (arith, sound.last_of_log)
        | inr q ↦
            let last = (==_iff idx (last_index self)).0 (rw q at h) in
            sound.last_of_log
            ∙ sym (
                last_entry (truncated_term self) (truncated_index self + 1) es e idx
                  (omega (arith, sound.last)) found)
      ]

  -- In a sound storage, the term of the truncated index is the truncated term; and that of every
  -- index behind it, up to the last, is the term of the entry that the log holds there, also where it
  -- is not read from disk, since the truncated term is the last one, or the index is the last one.
  pub term_lem :
      (term st pb self (truncated_index self) ≡ some (truncated_term self))
      × ((idx : ℕ)
          → truncated_index self < idx
          → idx ≤ last_index self
          → (e : Entry) × (entry_of (truncated_index self + 1) es idx ≡ some e)
            × (term st pb self idx ≡ some e.term))
  unfolding term check_range
  term_lem = (
    rw (==_refl (truncated_index self)) refl,
    λ idx a b.
        let (e, found) =
          entry_of_in (truncated_index self + 1) es idx (omega arith) (omega (arith, sound.last)) in
        let small = sound.small in
        let passed =
          in_range idx (inc_u64 idx) (truncated_index self) (last_index self) (omega arith) a
            (omega arith) small in
        (
          e,
          found,
          rw (not_eq_up idx (truncated_index self) a) (
              rw passed
                (elim (Bool-cases
                  (truncated_term self == self.last_term || idx == last_index self)) [
                    | inl short ↦ rw short (ap some (short_cut idx e found short))
                    | inr long ↦ rw long (
                        rw
                          (entries-one idx (inc_u64 idx) e (omega arith) a b
                            (entry_of_index _ es idx e sound.holds.0 found) found)
                          refl)
                  ])),
        ),
  )
