-- ===== src/StateMachine/Sync/Lasting.antt =====
-- What is remembered stays remembered: every step of the apply loop keeps it.
use auticuro.Prelude.{
  ℕ, ◌+◌, ◌<◌, ◌^◌, ◌≡◌, ◌≢◌, refl, Str, none, some, ok, err, Bytes_eq, ℕ_eq, arith, Option-cases,
  inl, inr, ◌∙◌, some_injective, subst, sym, ap, >>?-eq-some, Result,
}
use auticuro.Proto.{Event, Command, CommandPayload}
use auticuro.Errors.{Error}
use auticuro.Decimal.{BigDecimal}
use auticuro.Storage.{Storage, StorageLaws}
use auticuro.Internal.{command_id, assert_command_and_event_match}
use auticuro.StateMachine.{World, Position, send_event, get_seq_num, get_event}
use auticuro.StateMachine.Handlers.{Handled}
use auticuro.StateMachine.Commands.{
  dispatch, finish_command, handle_command, finish_entry, maybe_handle_duplicate_command,
}
use auticuro.StateMachine.Commit.Shape.{dispatch-err, IsSafe}
use auticuro.StateMachine.Commit.Updates.{dispatch-Commit}
use auticuro.StateMachine.Sync.Invariant.{Synced}
use auticuro.StateMachine.Sync.Steps.{
  IsSafeCommand, Step, command, entry, flush, Reach, here, next, Reach-Synced,
}
use auticuro.StateMachine.Sync.Dedup.{Remembers, Remembers-flushed, Remembers-stored}

module _ (bd : BigDecimal) (st : Storage) where
  pub Remembers-send :
      (w : World bd st) (position : Position) (r : Result (Error bd.ParseBigDecimalError) Event)
      (id : Str) (ev : Event)
      → Remembers bd st w id ev
      → Remembers bd st (record w { context = send_event w.context position r }) id ev
  Remembers-send w position r id ev m = record {
    seq = m.seq;
    bounded = m.bounded;
    small = m.small;
    by_id = m.by_id;
    stored = m.stored;
  }

  pub Remembers-finish :
      (w : World bd st) (payload : CommandPayload) (position : Position) (c : Command) (id : Str)
      (ev : Event) (h : Handled bd st)
      → Synced bd st w
      → w.machine.last_seq_num + 1 < 2 ^ 64
      → IsSafe w.machine.accounts payload
      → command_id c ≢ id
      → Remembers bd st w id ev
      → dispatch bd st w payload position.log_index position.offset ≡ h
      → Remembers bd st (finish_command bd st position c h) id ev
  unfolding finish_command
  Remembers-finish w payload position c id ev (err e, w1) s room safe ne m h =
      Remembers-send w1 position (err e) id ev
        (rw (dispatch-err bd st w payload position.log_index position.offset h) m)
  Remembers-finish w payload position c id ev (ok new, w1) s room safe ne m h =
      Remembers-send _ position _ id ev (
        Remembers-stored bd st w w1 id (command_id c) ev _ room
          (dispatch-Commit bd st w payload position.log_index position.offset new w1 s.keyed safe h)
          ne m)

  never_new :
      (w : World bd st) (c : Command) (ev : Event)
      → Remembers bd st w (command_id c) ev
      → maybe_handle_duplicate_command bd st w.machine c ≢ some none
  unfolding maybe_handle_duplicate_command assert_command_and_event_match
  never_new w c ev m h = elim (Option-cases c.payload) [
    | inl e ↦ ground (arith, m.by_id, m.stored)
    | inr (p, e) ↦ elim (Option-cases ev.payload) [
      | inl f ↦ ground (arith, m.by_id, m.stored)
      | inr (t, f) ↦ ground (arith, m.by_id, m.stored)
    ]
  ]

  -- Only a command that is not found is new.
  new_id :
      (w : World bd st) (c : Command) (id : Str) (ev : Event)
      → Remembers bd st w id ev
      → maybe_handle_duplicate_command bd st w.machine c ≡ some none
      → command_id c ≢ id
  new_id w c id ev m h same = never_new w c ev (subst (λ i. Remembers bd st w i ev) (sym same) m) h

  Remembers-handle_command :
      (w w' : World bd st) (log_index offset : ℕ) (c : Command) (id : Str) (ev : Event)
      → Synced bd st w
      → w.machine.last_seq_num + 1 < 2 ^ 64
      → IsSafeCommand w.machine.accounts c
      → Remembers bd st w id ev
      → handle_command bd st w log_index offset c ≡ some w'
      → Remembers bd st w' id ev
  unfolding handle_command
  Remembers-handle_command w w' li off c id ev s room safe m h =
      let (found, e, h1) = >>?-eq-some (maybe_handle_duplicate_command bd st w.machine c) _ h in
      elim (Option-cases found) [
        | inr (r, f) ↦
            subst (λ t. Remembers bd st t id ev) (some_injective (rw f at h1))
              (Remembers-send w (record { log_index = li; offset = off }) r id ev m)
        | inl new ↦
            let (payload, p, h2) = >>?-eq-some c.payload _ (rw new at h1) in
            subst (λ t. Remembers bd st t id ev) (some_injective h2)
              (Remembers-finish w payload (record { log_index = li; offset = off }) c id ev
                (dispatch bd st w payload li off) s room (safe payload p)
                (new_id w c id ev m (e ∙ ap some new)) m refl)
      ]

  pub Remembers-finish_entry :
      (w : World bd st) (log_index : ℕ) (id : Str) (ev : Event)
      → Remembers bd st w id ev
      → Remembers bd st (finish_entry bd st w log_index) id ev
  unfolding finish_entry get_seq_num get_event
  Remembers-finish_entry w li id ev m = record {
    seq = m.seq;
    bounded = m.bounded;
    small = m.small;
    by_id = m.by_id;
    stored = m.stored;
  }

  Step-Remembers :
      (laws : StorageLaws st) (w w' : World bd st) (id : Str) (ev : Event)
      → Synced bd st w
      → Step bd st w w'
      → Remembers bd st w id ev
      → Remembers bd st w' id ev
  Step-Remembers laws w w' id ev s (command li off c room safe h) m =
      Remembers-handle_command w w' li off c id ev s room safe m h
  Step-Remembers laws w w' id ev s (entry li) m = Remembers-finish_entry w li id ev m
  Step-Remembers laws w w' id ev s (flush now) m = Remembers-flushed bd st laws w now id ev s m

  -- What is remembered once is remembered in every state that is reached from there, across
  -- commands, entries and flushes.
  pub Reach-Remembers :
      (laws : StorageLaws st) (w : World bd st) {w' : World bd st} (id : Str) (ev : Event)
      → Synced bd st w
      → Reach bd st w w'
      → Remembers bd st w id ev
      → Remembers bd st w' id ev
  Reach-Remembers laws w id ev s here m = m
  Reach-Remembers laws w id ev s (next {v = v} {u = u} r t) m =
      Step-Remembers laws v u id ev (Reach-Synced bd st laws w r s) t
        (Reach-Remembers laws w id ev s r m)
