-- ===== src/StateMachine/Sync/Total.antt =====
-- The machine never stops on a command: what the duplicate check looks up is always there.
use auticuro.Prelude.{
  ℕ, ◌+◌, ◌<◌, ◌^◌, ◌≡◌, refl, Str, false, none, some, ok, err, arith, ◌∙◌, subst, some_injective,
  >>?-eq-some, bytes_eq, bytes_eq_iff, Bytes_eq, Option-cases, Bool-cases, inl, inr, ◌⊎◌,
}
use auticuro.Prelude.Map.{get, get-insert}
use auticuro.Proto.{Event, EventPayload, Command, CommandPayload}
use auticuro.Decimal.{BigDecimal}
use auticuro.Keys.{dedup_key}
use auticuro.Storage.{Storage, StorageLaws, read_seq_num_from_db, from_bytes}
use auticuro.Internal.{command_id, set_header}
use auticuro.StateMachine.{World, Position, get_seq_num}
use auticuro.StateMachine.Handlers.{Handled}
use auticuro.StateMachine.Commands.{
  dispatch, finish_command, handle_command, handle_new_command, finish_entry,
  maybe_handle_duplicate_command,
}
use auticuro.StateMachine.Flush.{flushed}
use auticuro.StateMachine.Commit.Shape.{IsSafe, dispatch-err}
use auticuro.StateMachine.Commit.Updates.{dispatch-Commit}
use auticuro.StateMachine.Commit.Answers.{dispatch-Answers}
use auticuro.StateMachine.Sync.Invariant.{Synced}
use auticuro.StateMachine.Sync.Steps.{
  Step, command, entry, flush, Reach, here, next, Reach-Synced, last_seq_num-Commit,
}
use auticuro.StateMachine.Sync.Dedup.{
  Remembers, Commit-SameReads, Remembers-flushed, first-Remembers, duplicate-answered,
}
use auticuro.StateMachine.Sync.Lasting.{Remembers-send, Remembers-finish, Remembers-finish_entry}
use auticuro.StateMachine.Sync.Once.{handle_first}

module _ (bd : BigDecimal) (st : Storage) where
  -- An id is unknown, or its event is stored and has a payload.
  abbrev pub IsKnown : World bd st → Str → Type 0
  IsKnown w id =
      (get_seq_num bd st w.machine id ≡ some none)
      ⊎ ((ev : Event) × (t : EventPayload) × Remembers bd st w id ev × (ev.payload ≡ some t))

  abbrev pub IsConsistent : World bd st → Type 0
  IsConsistent w = (id : Str) → IsKnown w id

  flush_none :
      (laws : StorageLaws st) (w : World bd st) (now : ℕ) (id : Str)
      → Synced bd st w
      → get_seq_num bd st w.machine id ≡ some none
      → get_seq_num bd st (flushed bd st w now).machine id ≡ some none
  unfolding get_seq_num flushed read_seq_num_from_db from_bytes get
  flush_none laws w now id s h =
      let read =
        laws.rocks.get-write w.machine.rocksdb_state w.context.wb (dedup_key id)
        ∙ s.seq_nums id (st.rocks.get_opt w.machine.rocksdb_state (dedup_key id)) in
      ground (arith, read)

  finish_none :
      (w w1 : World bd st) (payload : CommandPayload) (position : Position) (c : Command)
      (ev : Event) (id : Str)
      → Synced bd st w
      → IsSafe w.machine.accounts payload
      → dispatch bd st w payload position.log_index position.offset ≡ (ok ev, w1)
      → bytes_eq (command_id c) id ≡ false
      → get_seq_num bd st w.machine id ≡ some none
      → get_seq_num bd st (finish_command bd st position c (ok ev, w1)).machine id ≡ some none
  unfolding get_seq_num finish_command
  finish_none w w1 payload position c ev id s safe h ne old =
      let (a, b, d) =
        Commit-SameReads bd st (
          dispatch-Commit bd st w payload position.log_index position.offset ev w1 s.keyed safe
            h) in
      ground (
        arith,
        a,
        d,
        ne,
        get-insert (command_id c) id w1.machine.last_seq_num w1.machine.seq_num_cache,
      )

  IsConsistent-finish :
      (w : World bd st) (payload : CommandPayload) (position : Position) (c : Command)
      (h : Handled bd st)
      → Synced bd st w
      → w.machine.last_seq_num + 1 < 2 ^ 64
      → IsSafe w.machine.accounts payload
      → IsConsistent w
      → dispatch bd st w payload position.log_index position.offset ≡ h
      → IsConsistent (finish_command bd st position c h)
  IsConsistent-finish w payload position c (err e, w1) s room safe k h id =
      let same = dispatch-err bd st w payload position.log_index position.offset h in
      elim (k id) [
        | inl old ↦ inl (unfold finish_command in rw same old)
        | inr (ev, t, m, p) ↦ inr (
          ev,
          t,
          (unfold finish_command in Remembers-send bd st w1 position (err e) id ev (rw same m)),
          p,
        )
      ]
  IsConsistent-finish w payload position c (ok new, w1) s room safe k h id =
      elim (Bool-cases (bytes_eq (command_id c) id)) [
        | inl same ↦
            let (t, p, _) =
              dispatch-Answers bd st w payload position.log_index position.offset new w1 h in
            let last = last_seq_num-Commit bd st (
              dispatch-Commit bd st w payload position.log_index position.offset new w1 s.keyed safe
                h) in
            let stamped =
              set_header new c.header position.log_index position.offset w1.machine.last_seq_num in
            inr (
              stamped,
              t,
              subst (λ i. Remembers bd st (finish_command bd st position c (ok new, w1)) i stamped)
                  ((bytes_eq_iff (command_id c) id).0 same)
                  (first-Remembers bd st w1 position c new (omega (arith, last, room))),
              p,
            )
        | inr differs ↦ elim (k id) [
          | inl old ↦ inl (finish_none w w1 payload position c new id s safe h differs old)
          | inr (ev, t, m, p) ↦ inr (
            ev,
            t,
            Remembers-finish bd st w payload position c id ev (ok new, w1) s room safe
                (ground (arith, bytes_eq_iff (command_id c) id)) m h,
            p,
          )
        ]
      ]

  Step-IsConsistent :
      (laws : StorageLaws st) (w w' : World bd st)
      → Synced bd st w
      → Step bd st w w'
      → IsConsistent w
      → IsConsistent w'
  unfolding handle_command handle_new_command get_seq_num
  Step-IsConsistent laws w w' s (command li off c room safe h) k =
      let (found, e, h1) = >>?-eq-some (maybe_handle_duplicate_command bd st w.machine c) _ h in
      elim (Option-cases found) [
        | inr (r, f) ↦ subst IsConsistent (some_injective (rw f at h1)) λ id. elim (k id) [
          | inl old ↦ inl old
          | inr (ev, t, m, p) ↦
              inr (
                ev,
                t,
                Remembers-send bd st w (record { log_index = li; offset = off }) r id ev m,
                p,
              )
        ]
        | inl new ↦
            let (payload, p, h2) = >>?-eq-some c.payload _ (rw new at h1) in
            subst IsConsistent (some_injective h2) (
              IsConsistent-finish w payload (record { log_index = li; offset = off }) c
                (dispatch bd st w payload li off) s room (safe payload p) k refl)
      ]
  Step-IsConsistent laws w w' s (entry li) k = λ id. elim (k id) [
    | inl old ↦ inl (unfold finish_entry in old)
    | inr (ev, t, m, p) ↦ inr (ev, t, Remembers-finish_entry bd st w li id ev m, p)
  ]
  Step-IsConsistent laws w w' s (flush now) k = λ id. elim (k id) [
    | inl old ↦ inl (flush_none laws w now id s old)
    | inr (ev, t, m, p) ↦ inr (ev, t, Remembers-flushed bd st laws w now id ev s m, p)
  ]

  Reach-IsConsistent :
      (laws : StorageLaws st) (w : World bd st) {v : World bd st}
      → Synced bd st w
      → Reach bd st w v
      → IsConsistent w
      → IsConsistent v
  Reach-IsConsistent laws w s here k = k
  Reach-IsConsistent laws w s (next {v = v} {u = u} r t) k =
      Step-IsConsistent laws v u (Reach-Synced bd st laws w r s) t (Reach-IsConsistent laws w s r k)

  total :
      (v : World bd st) (log_index offset : ℕ) (c : Command) (p : CommandPayload)
      → IsKnown v (command_id c)
      → c.payload ≡ some p
      → (v' : World bd st) × (handle_command bd st v log_index offset c ≡ some v')
  unfolding maybe_handle_duplicate_command
  total v li off c p (inl fresh) hp = (_, handle_first bd st v li off c p (rw fresh refl) hp)
  total v li off c p (inr (ev, t, m, e)) hp = (_, duplicate-answered bd st v li off c ev p t m hp e)

  -- The machine does not stop: in every state that is reached from one in which the invariant
  -- `Synced` holds and each id is unknown or has its event stored, a command that has a payload is
  -- handled without a panic. Sequence numbers must not run out, and no deleted account is
  -- configured on the way.
  pub handle_command_total :
      (laws : StorageLaws st) (w v : World bd st) (log_index offset : ℕ) (c : Command)
      (p : CommandPayload)
      → Synced bd st w
      → IsConsistent w
      → Reach bd st w v
      → c.payload ≡ some p
      → (v' : World bd st) × (handle_command bd st v log_index offset c ≡ some v')
  handle_command_total laws w v li off c p s k r hp =
      total v li off c p (Reach-IsConsistent laws w s r k (command_id c)) hp
