-- ===== src/Mq/PeerStorage/Written.antt =====
-- `handle_raft_ready` and `post_ready`: what the raft library made ready is on disk and in memory.
use auticuro.Prelude.{
  ℕ, zero, suc, ◌+◌, ◌-◌, ◌<◌, ◌≤◌, ◌^◌, ◌≡◌, refl, sym, ◌∙◌, ap, subst, Bytes, Option, some, List,
  [], ◌∷◌, ◌++◌, arith, Bool-cases, inl, inr, Bool, true, false, if◌then◌else◌, Bytes_eq, beq_refl,
}
use auticuro.Prelude.Lists.{length, length-append}
use auticuro.Storage.{Storage, StorageLaws, WriteBatch, put, delete, after}
use auticuro.Storage.Batch.{after-put, after-delete}
use auticuro.Keys.{raft_state_key, raft_log_key}
use auticuro.Mq.{Entry, HardState, RaftLocalState, RaftProtobuf, inc_u64}
use auticuro.Mq.Engine.{append_impl, delete_logs, cut_logs, put_raft_state}
use auticuro.Mq.Engine.Stored.{Holds, AreFrom, append-Holds}
use auticuro.Mq.Consumer.{Engines}
use auticuro.Mq.Apply.Poll.{last_of}
use auticuro.Mq.PeerStorage.{
  PeerStorage, InvokeContext, Ready, append, handle_raft_ready, post_ready, set_hard_state,
  raft_state_eq, truncated_index, truncated_term, last_index,
}
use auticuro.Mq.PeerStorage.Sound.{IsSound, AreRising, last_term_of, with_commit}
use auticuro.Mq.PeerStorage.Replaced.{
  state_key-ne-log_key, log_key-ne-state_key, inc-eq, last_term_of-append, AreRising-append,
  AreRising-prefix, last_of-index, last_of-term, last_index-set_hard_state, raft_state_eq_sound,
  replaced,
}

module _ (st : Storage) where
  abbrev pub written : PeerStorage st → WriteBatch → Engines st
  written self wb = record self.engines { raft = st.rocks.write_opt self.engines.raft wb }

module _ (st : Storage) (pb : RaftProtobuf) where
  -- The context and the batch are taken over: the batch is written, and then the context is stored.
  abbrev pub taken_over : PeerStorage st → Ready → PeerStorage st
  taken_over self ready =
      let (ctx, wb) = handle_raft_ready st pb self ready [] in
      post_ready ctx (record self { engines = written st self wb })

module _ (st : Storage) (pb : RaftProtobuf) (laws : StorageLaws st) where
  after-append_impl_state :
      (r : ℕ) (new : List Entry) (i : ℕ) (wb : WriteBatch) (old : Option Bytes)
      → r < 2 ^ 64
      → AreFrom i new
      → i + length new ≤ 2 ^ 64
      → after (append_impl st pb r new wb) (raft_state_key st.be r) old
        ≡ after wb (raft_state_key st.be r) old
  unfolding append_impl
  after-append_impl_state r [] i wb old hr a small = refl
  after-append_impl_state r (e ∷ new) i wb old hr (at, a) small =
      after-append_impl_state r new (i + 1)
        (put (raft_log_key st.be r e.index) (pb.entry_bytes e) wb) old hr a (omega arith)
      ∙ after-put wb (raft_log_key st.be r e.index) (pb.entry_bytes e) (raft_state_key st.be r) old
      ∙ rw (log_key-ne-state_key st.be laws.be r e.index hr (omega arith)) refl

  after-delete_logs_state :
      (r i n : ℕ) (wb : WriteBatch) (old : Option Bytes)
      → r < 2 ^ 64
      → i + n ≤ 2 ^ 64
      → after (delete_logs st pb r i n wb) (raft_state_key st.be r) old
        ≡ after wb (raft_state_key st.be r) old
  unfolding delete_logs
  after-delete_logs_state r i zero wb old hr small = refl
  after-delete_logs_state r i (suc n) wb old hr small =
      after-delete_logs_state r (i + 1) n (delete (raft_log_key st.be r i) wb) old hr (omega arith)
      ∙ after-delete wb (raft_log_key st.be r i) (raft_state_key st.be r) old
      ∙ rw (log_key-ne-state_key st.be laws.be r i hr (omega arith)) refl

  -- Writing the raft state too leaves the log as it is.
  Holds-put_raft_state :
      (db : st.rocks.Db) (wb : WriteBatch) (r low : ℕ) (es : List Entry) (state : RaftLocalState)
      → r < 2 ^ 64
      → Holds st pb (st.rocks.write_opt db wb) r low es
      → Holds st pb (st.rocks.write_opt db (put_raft_state st pb r state wb)) r low es
  unfolding put_raft_state
  Holds-put_raft_state db wb r low es state hr (from, at) = (
    from,
    λ i a b.
        laws.rocks.get-write db _ (raft_log_key st.be r i)
        ∙ after-put wb (raft_state_key st.be r) (pb.raft_state_bytes state) (raft_log_key st.be r i)
            _
        ∙ rw (state_key-ne-log_key st.be laws.be r i hr b)
            (sym (laws.rocks.get-write db wb (raft_log_key st.be r i)) ∙ at i a b),
  )

  Holds-write_nil :
      (db : st.rocks.Db) (r low : ℕ) (es : List Entry)
      → Holds st pb db r low es
      → Holds st pb (st.rocks.write_opt db []) r low es
  unfolding after
  Holds-write_nil db r low es (from, at) =
      (from, λ i a b. laws.rocks.get-write db [] (raft_log_key st.be r i) ∙ at i a b)

  module _ (self : PeerStorage st) (hs : Option HardState) (state : RaftLocalState) (last_term : ℕ)
      (wb : WriteBatch) (new : Bool) where
    -- The second half of `handle_raft_ready`: the hard state, and the raft state into the batch.
    abbrev final_state : RaftLocalState
    final_state = set_hard_state hs state

    abbrev final_batch : WriteBatch
    final_batch =
        if raft_state_eq final_state self.raft_state
        then wb
        else put_raft_state st pb self.region_id final_state wb

    abbrev final_context : InvokeContext
    final_context = record {
      raft_state = final_state;
      apply_state = self.apply_state;
      last_term = last_term;
      has_new_entries = new;
    }

    abbrev final_storage : PeerStorage st
    final_storage = post_ready final_context (record self { engines = written st self final_batch })

    last_index-final_state : final_state.last_index ≡ state.last_index
    last_index-final_state = last_index-set_hard_state hs state

    final_Holds :
        (low : ℕ) (es : List Entry)
        → self.region_id < 2 ^ 64
        → Holds st pb (st.rocks.write_opt self.engines.raft wb) self.region_id low es
        → Holds st pb (st.rocks.write_opt self.engines.raft final_batch) self.region_id low es
    final_Holds low es hr h = elim (Bool-cases (raft_state_eq final_state self.raft_state)) [
      | inl e ↦ rw e h
      | inr e ↦
          rw e (Holds-put_raft_state self.engines.raft wb self.region_id low es final_state hr h)
    ]

    -- The raft state on disk is that in memory, but perhaps for the commit index.
    final_saved :
        (commit : ℕ)
        → ((old : Option Bytes) → after wb (raft_state_key st.be self.region_id) old ≡ old)
        → st.rocks.get_opt self.engines.raft (raft_state_key st.be self.region_id)
          ≡ some (pb.raft_state_bytes (with_commit commit self.raft_state))
        → commit ≤ self.raft_state.hard_state.commit
        → (c : ℕ) × (c ≤ final_state.hard_state.commit)
          × (st.rocks.get_opt
                (st.rocks.write_opt self.engines.raft final_batch)
                (raft_state_key st.be self.region_id)
              ≡ some (pb.raft_state_bytes (with_commit c final_state)))
    unfolding put_raft_state
    final_saved commit untouched saved lags =
        let key = raft_state_key st.be self.region_id in
        elim (Bool-cases (raft_state_eq final_state self.raft_state)) [
          | inl e ↦
              let same = raft_state_eq_sound final_state self.raft_state e in
              (
                commit,
                subst (λ (s : RaftLocalState). commit ≤ s.hard_state.commit) (sym same) lags,
                rw e (
                    laws.rocks.get-write self.engines.raft wb key
                    ∙ untouched _
                    ∙ saved
                    ∙ ap (λ s. some (pb.raft_state_bytes (with_commit commit s))) (sym same)),
              )
          | inr e ↦ (
            final_state.hard_state.commit,
            omega arith,
            rw e (
                laws.rocks.get-write self.engines.raft _ key
                ∙ after-put wb key (pb.raft_state_bytes final_state) key _
                ∙ rw (beq_refl key) refl),
          )
        ]

    final-IsSound :
        (before es : List Entry)
        → IsSound st pb self before
        → Holds st pb
            (st.rocks.write_opt self.engines.raft wb)
            self.region_id
            (truncated_index self + 1)
            es
        → ((old : Option Bytes) → after wb (raft_state_key st.be self.region_id) old ≡ old)
        → state.last_index ≡ truncated_index self + length es
        → last_term ≡ last_term_of (truncated_term self) es
        → AreRising (truncated_term self) es
        → state.last_index + 1 < 2 ^ 64
        → IsSound st pb final_storage es
    unfolding post_ready
    final-IsSound before es s holds untouched last of_log rising small =
        let (c, lags, saved) = final_saved s.saved_commit untouched s.saved s.lags in
        record {
          holds = final_Holds (truncated_index self + 1) es s.region_small holds;
          last = last_index-final_state ∙ last;
          last_of_log = of_log;
          rising = rising;
          saved_commit = c;
          saved = saved;
          lags = lags;
          started = s.started;
          start_term = s.start_term;
          small = subst (λ n. n + 1 < 2 ^ 64) (sym last_index-final_state) small;
          region_small = s.region_small;
        }

  taken_over-IsSound :
      (self : PeerStorage st) (xs ys new : List Entry) (hs : Option HardState)
      → IsSound st pb self (xs ++ ys)
      → AreFrom (truncated_index self + 1 + length xs) new
      → AreRising (last_term_of (truncated_term self) xs) new
      → truncated_index self + length xs + length new + 1 < 2 ^ 64
      → IsSound st pb
          (taken_over st pb self (record { entries = new; hs = hs }))
          (replaced xs ys new)
  unfolding handle_raft_ready append after cut_logs
  taken_over-IsSound self xs ys [] hs s from rising small =
      final-IsSound self hs self.raft_state self.last_term [] false (xs ++ ys) (xs ++ ys) s
        (Holds-write_nil self.engines.raft self.region_id (truncated_index self + 1) (xs ++ ys)
          s.holds)
        (λ old. refl) s.last s.last_of_log s.rising s.small
  taken_over-IsSound self xs ys (e ∷ new) hs s from rising small =
      let last = last_of e new in
      let at = last_of-index (truncated_index self + 1 + length xs) e new from in
      let little = s.small in
      let past = inc_u64 last.index in
      let cut = inc_u64 (last_index self) in
      let log_cut = inc-eq (last_index self) little ∙ ap (λ n. n + 1) s.last in
      let wb =
        cut_logs st pb self.region_id past cut (append_impl st pb self.region_id (e ∷ new) []) in
      final-IsSound self hs (record self.raft_state { last_index = last.index }) last.term wb true
        (xs ++ ys) (xs ++ e ∷ new) s
        (append-Holds st pb laws self.region_id s.region_small self.engines.raft []
          (truncated_index self + 1) past cut xs ys (e ∷ new)
          (Holds-write_nil self.engines.raft self.region_id (truncated_index self + 1) (xs ++ ys)
            s.holds)
          from (omega arith) (omega arith) (omega arith) (omega arith))
        (λ old.
          after-delete_logs_state self.region_id past (cut - past) _ old s.region_small
            (omega arith)
          ∙ after-append_impl_state self.region_id (e ∷ new) (truncated_index self + 1 + length xs)
              [] old s.region_small from (omega arith))
        (omega (arith, length-append xs (e ∷ new)))
        (last_of-term (last_term_of (truncated_term self) xs) e new
          ∙ sym (last_term_of-append (truncated_term self) xs (e ∷ new)))
        (AreRising-append (truncated_term self) xs (e ∷ new)
          (AreRising-prefix (truncated_term self) xs ys s.rising) rising)
        (omega arith)

  -- In a sound storage, new entries that follow the first ones of the log, and whose terms do not go
  -- back, are taken over: after the batch was written and the context was stored, the storage is
  -- sound with the log of the first entries and the new ones, the old ones behind them gone; without
  -- new entries, with the same log. Indices are `u64`.
  pub handle_raft_ready-IsSound :
      (self : PeerStorage st) (xs ys : List Entry) (ready : Ready)
      → IsSound st pb self (xs ++ ys)
      → AreFrom (truncated_index self + 1 + length xs) ready.entries
      → AreRising (last_term_of (truncated_term self) xs) ready.entries
      → truncated_index self + length xs + length ready.entries + 1 < 2 ^ 64
      → IsSound st pb (taken_over st pb self ready) (replaced xs ys ready.entries)
  handle_raft_ready-IsSound self xs ys ready s from rising small =
      taken_over-IsSound self xs ys ready.entries ready.hs s from rising small
