-- ===== src/Mq/PeerStorage/Restart.antt =====
-- peer_storage.rs: a restart finds the storage that was there.
use auticuro.Prelude.{
  ℕ, ◌+◌, ◌<◌, ◌≤◌, ◌≡◌, refl, sym, ◌∙◌, ap, some, Option, List, [], ◌∷◌, true, false, ltb, ◌==◌,
  if◌then◌else◌, Bool-cases, inl, inr, arith, none_ne_some, lt→ltb, ltb→lt, assert, ◌>>?◌, not_ltb,
  max,
}
use auticuro.Prelude.Lists.{length}
use auticuro.Storage.{Storage}
use auticuro.Keys.{apply_state_key}
use auticuro.Mq.{Entry, RaftLocalState, RaftApplyState, RaftProtobuf, RaftProtobufLaws}
use auticuro.Mq.Engine.{get_raft_state}
use auticuro.Mq.Engine.Stored.{entry_of, entry_of_in, entry_of_past, entry_of_below}
use auticuro.Mq.Consumer.{Engines, init_apply_state}
use auticuro.Mq.PeerStorage.{
  PeerStorage, new_storage, init_raft_state, validate_states, forward_commit, init_last_term,
  init_applied_index_term, entry_term, truncated_index, truncated_term, last_index,
}
use auticuro.Mq.PeerStorage.Sound.{
  IsSound, with_commit, last_entry, entry_term-entry_of, last_term_of,
}

-- The steps of `new_storage`, put together.
new_storage-steps :
    (st : Storage) (pb : RaftProtobuf) (engines : Engines st) (r last_term applied_term : ℕ)
    (found state : RaftLocalState) (a : RaftApplyState)
    → init_raft_state st pb engines r ≡ some found
    → init_apply_state st pb engines r ≡ some a
    → validate_states st pb engines r found a ≡ some state
    → init_last_term st pb engines r state a ≡ some last_term
    → init_applied_index_term st pb engines r a ≡ some applied_term
    → new_storage st pb engines r
      ≡ some (record {
        engines = engines;
        region_id = r;
        raft_state = state;
        apply_state = a;
        applied_index_term = applied_term;
        last_term = last_term;
      })
unfolding new_storage
new_storage-steps st pb engines r last_term applied_term found state a e f g h k =
    rw (e, f) (rw g (rw (h, k) refl))

same_eq : (a b : ℕ) → a ≡ b → (a == b) ≡ true
same_eq a b h = ground arith

above_eq : (a b : ℕ) → b < a → (a == b) ≡ false
above_eq a b h = ground arith

no_entries : (t : ℕ) (es : List Entry) → length es ≡ 0 → last_term_of t es ≡ t
no_entries t [] h = refl
no_entries t (e ∷ es) h = absurd (omega arith)

-- How the term of an index is found, where `disk` is that of the entry.
pick_term :
    (index trunc trunc_term want : ℕ) (disk : Option ℕ)
    → (trunc ≡ 5 → trunc_term ≡ 5)
    → 5 ≤ trunc
    → trunc ≤ index
    → (trunc ≡ index → want ≡ trunc_term)
    → (trunc < index → disk ≡ some want)
    → (if index == 5 then some 5 else if index == trunc then some trunc_term else disk) ≡ some want
pick_term index trunc trunc_term want disk start five le at_start later =
    elim (Bool-cases (index == 5)) [
      | inl q ↦ rw q (ap some (sym (at_start (ground arith) ∙ start (ground arith))))
      | inr q ↦ elim (Bool-cases (index == trunc)) [
        | inl k ↦ rw (q, k) (ap some (sym (at_start (ground arith))))
        | inr k ↦ rw (q, k) (later (ground arith))
      ]
    ]

pick_last :
    (index trunc trunc_term want : ℕ) (disk : Option ℕ)
    → (trunc ≡ 5 → trunc_term ≡ 5)
    → 5 ≤ trunc
    → trunc ≤ index
    → (trunc ≡ index → want ≡ trunc_term)
    → (trunc < index → disk ≡ some want)
    → (if index == 0
        then some 0
        else if index == 5
        then some 5
        else if index == trunc
        then some trunc_term
        else (assert (ltb 5 index) >>? λ _. disk))
      ≡ some want
pick_last index trunc trunc_term want disk start five le at_start later =
    rw (above_eq index 0 (omega arith)) (
      pick_term index trunc trunc_term want (assert (ltb 5 index) >>? λ _. disk) start five le
        at_start (λ h. rw (lt→ltb 5 index (omega arith)) (later h)))

module _ (st : Storage) (pb : RaftProtobuf) (pb_laws : RaftProtobufLaws pb) (self : PeerStorage st)
    (es : List Entry) (sound : IsSound st pb self es) where
  abbrev disk_term : ℕ → Option ℕ
  disk_term = entry_term st pb self.engines self.region_id

  -- The term of an entry of the log, read from disk.
  disk_term-entry_of :
      (i : ℕ) (e : Entry)
      → entry_of (truncated_index self + 1) es i ≡ some e
      → disk_term i ≡ some e.term
  disk_term-entry_of i e found =
      let low = truncated_index self + 1 in
      elim (Bool-cases (ltb i low)) [
        | inl q ↦ absurd (none_ne_some (sym (entry_of_below low es i (ltb→lt i low q)) ∙ found))
        | inr q ↦ elim (Bool-cases (ltb i (low + length es))) [
          | inl k ↦
              entry_term-entry_of st pb pb_laws self.engines self.region_id low i es e sound.holds
                (ground arith)
                (omega (arith, sound.small, sound.last, ltb→lt i (low + length es) k)) found
          | inr k ↦ absurd (none_ne_some (sym (entry_of_past low es i (ground arith)) ∙ found))
        ]
      ]

  init_last_term_sound :
      (state : RaftLocalState)
      → state.last_index ≡ last_index self
      → init_last_term st pb self.engines self.region_id state self.apply_state
        ≡ some self.last_term
  unfolding init_last_term
  init_last_term_sound state same =
      pick_last state.last_index (truncated_index self) (truncated_term self) self.last_term
        (disk_term state.last_index) sound.start_term sound.started (omega (arith, sound.last))
        (λ h. sound.last_of_log ∙ no_entries (truncated_term self) es (omega (arith, sound.last)))
        (λ h.
          let (e, found) =
            entry_of_in (truncated_index self + 1) es state.last_index (omega arith)
              (omega (arith, sound.last)) in
          disk_term-entry_of state.last_index e found
          ∙ ap some (
              last_entry (truncated_term self) (truncated_index self + 1) es e state.last_index
                (omega (arith, sound.last)) found
              ∙ sym sound.last_of_log))

  -- The applied index is in the log or just before it, and its term is the one that is kept.
  pub record IsApplied : Type 0 where
    pub behind : truncated_index self ≤ self.apply_state.applied_index
    pub at_start :
        truncated_index self ≡ self.apply_state.applied_index
        → self.applied_index_term ≡ truncated_term self
    pub in_log :
        truncated_index self < self.apply_state.applied_index
        → (e : Entry) × (entry_of (truncated_index self + 1) es self.apply_state.applied_index
            ≡ some e)
          × (self.applied_index_term ≡ e.term)

  init_applied_index_term_sound :
      IsApplied
      → init_applied_index_term st pb self.engines self.region_id self.apply_state
        ≡ some self.applied_index_term
  unfolding init_applied_index_term
  init_applied_index_term_sound a =
      pick_term self.apply_state.applied_index (truncated_index self) (truncated_term self)
        self.applied_index_term (disk_term self.apply_state.applied_index) sound.start_term
        sound.started a.behind a.at_start
        (λ h.
          let (e, found, same) = a.in_log h in
          disk_term-entry_of self.apply_state.applied_index e found ∙ ap some (sym same))

  -- The commit index after a restart: that of the raft state on disk, or the recorded one, if it is
  -- further.
  abbrev pub commit : ℕ
  commit = max sound.saved_commit self.apply_state.commit_index

  -- The recorded commit index is that of an entry with the recorded term, if the raft state on disk
  -- is behind it.
  abbrev pub IsRecorded : Type 0
  IsRecorded =
      sound.saved_commit < self.apply_state.commit_index
      → (e : Entry) × (entry_of (truncated_index self + 1) es self.apply_state.commit_index
          ≡ some e)
        × (e.term ≡ self.apply_state.commit_term)

  forward_commit_sound :
      IsRecorded
      → forward_commit st pb self.engines self.region_id
          (with_commit sound.saved_commit self.raft_state)
          self.apply_state
        ≡ some commit
  unfolding forward_commit
  forward_commit_sound recorded =
      elim (Bool-cases (ltb sound.saved_commit self.apply_state.commit_index)) [
        | inl q ↦
            let (e, found, same) =
              recorded (ltb→lt sound.saved_commit self.apply_state.commit_index q) in
            rw q (
              rw (disk_term-entry_of self.apply_state.commit_index e found)
                (rw (same_eq e.term self.apply_state.commit_term same) (ap some (ground arith))))
        | inr q ↦ rw q (ap some (ground arith))
      ]

  -- A restart on the engines of a sound storage gives the storage back, under these conditions: the
  -- apply state is on disk; the applied index is in the log or just before it, and the term that is
  -- kept for it is that of the entry there, or of the start of the log; if the commit index in the
  -- raft state on disk is behind the one that is recorded in the apply state, the log has an entry at
  -- the recorded index, with the recorded term; the larger one of these two commit indices is not
  -- behind the applied index, nor beyond the last index; and the recorded commit term is not beyond
  -- the term of the hard state. Then the restart does not panic, and what it gives has the same
  -- engines, states, last term and term of the applied index; only the commit index is the larger one
  -- of the two.
  pub new_storage-restores :
      st.rocks.get_opt self.engines.kv (apply_state_key st.be self.region_id)
        ≡ some (pb.apply_state_bytes self.apply_state)
      → IsApplied
      → IsRecorded
      → self.apply_state.applied_index ≤ commit
      → commit ≤ last_index self
      → self.apply_state.commit_term ≤ self.raft_state.hard_state.term
      → new_storage st pb self.engines self.region_id
        ≡ some (record self { raft_state = with_commit commit self.raft_state })
  unfolding init_raft_state get_raft_state init_apply_state validate_states
  new_storage-restores stored a recorded ac cl terms =
      new_storage-steps st pb self.engines self.region_id self.last_term self.applied_index_term
        (with_commit sound.saved_commit self.raft_state) (with_commit commit self.raft_state)
        self.apply_state
        (rw
          (
            sound.saved,
            pb_laws.parse-raft_state_bytes (with_commit sound.saved_commit self.raft_state),
          )
          refl)
        (rw (stored, pb_laws.parse-apply_state_bytes self.apply_state) refl)
        (rw (forward_commit_sound recorded) (
          rw
            (
              not_ltb commit self.apply_state.applied_index ac,
              not_ltb (last_index self) commit cl,
              not_ltb self.raft_state.hard_state.term self.apply_state.commit_term terms,
            )
            refl))
        (init_last_term_sound (with_commit commit self.raft_state) refl)
        (init_applied_index_term_sound a)
