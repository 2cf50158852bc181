-- ===== src/StateMachine/Answering.antt =====
-- `handle_command`: what a command is answered with.
use auticuro.Prelude.{
  ℕ, ◌≡◌, refl, ok, err, List, [], ◌∷◌, ◌++◌, some, none, true, false, sym, ap, ◌∙◌, subst,
  some_injective, >>?-eq-some, Option-cases, inl, inr, Bytes_eq, ℕ_eq, none_ne_some, Result,
  Bool-cases, arith,
}
use auticuro.Prelude.Map.{get-insert_self}
use auticuro.Proto.{Command, CommandPayload, Event, EventPayload}
use auticuro.Errors.{Error, common_error, conflict_dedup_id}
use auticuro.Decimal.{BigDecimal}
use auticuro.Storage.{Storage}
use auticuro.Internal.{types_match, set_header, command_id, assert_command_and_event_match}
use auticuro.StateMachine.{World, InflightEvent, get_seq_num, get_event}
use auticuro.StateMachine.Handlers.{Handled, Res}
use auticuro.StateMachine.Commands.{
  dispatch, finish_command, handle_command, handle_new_command, maybe_handle_duplicate_command,
}
use auticuro.StateMachine.Commit.Shape.{dispatch-err}
use auticuro.StateMachine.Positions.{dispatch-channel}

module _ (bd : BigDecimal) (st : Storage) where
  -- What is sent to the waiting clients.
  abbrev pub Answer : Type 0
  Answer = InflightEvent bd.ParseBigDecimalError

  abbrev pub sent : World bd st → List Answer
  sent w = w.context.inflight_event_tx

  abbrev pub answer_at : ℕ → ℕ → Result (Error bd.ParseBigDecimalError) Event → Answer
  answer_at log_index offset event = record {
    position = record { log_index = log_index; offset = offset };
    event = event;
  }

  -- The answer to a command, between the state before it and the state after it.
  pub data IsAnswered (w : World bd st) (log_index offset : ℕ) (c : Command)
      : Result (Error bd.ParseBigDecimalError) Event → World bd st → Type 0 where
    -- A new command whose handler succeeds gets the event of the handler with its header, and both
    -- the accounts of the handler and the event stay.
    handled :
        (p : CommandPayload) (ev : Event) (w1 w' : World bd st)
        → get_seq_num bd st w.machine (command_id c) ≡ some none
        → c.payload ≡ some p
        → dispatch bd st w p log_index offset ≡ (ok ev, w1)
        → w'.machine.accounts ≡ w1.machine.accounts
        → w'.machine.last_seq_num ≡ w1.machine.last_seq_num
        → get_seq_num bd st w'.machine (command_id c) ≡ some (some w1.machine.last_seq_num)
        → get_event bd st w'.machine w1.machine.last_seq_num
          ≡ some (some (set_header ev c.header log_index offset w1.machine.last_seq_num))
        → IsAnswered w log_index offset c
            (ok (set_header ev c.header log_index offset w1.machine.last_seq_num))
            w'
    -- A new command whose handler fails gets its error, and machine and batch stay.
    refused :
        (p : CommandPayload) (e : Error bd.ParseBigDecimalError) (w1 w' : World bd st)
        → get_seq_num bd st w.machine (command_id c) ≡ some none
        → c.payload ≡ some p
        → dispatch bd st w p log_index offset ≡ (err e, w1)
        → w'.machine ≡ w.machine
        → w'.context.wb ≡ w.context.wb
        → IsAnswered w log_index offset c (err e) w'
    -- A command whose id was seen gets the stored event, if this answers its type.
    repeated :
        (n : ℕ) (p : CommandPayload) (ev : Event) (t : EventPayload) (w' : World bd st)
        → get_seq_num bd st w.machine (command_id c) ≡ some (some n)
        → get_event bd st w.machine n ≡ some (some ev)
        → c.payload ≡ some p
        → ev.payload ≡ some t
        → types_match p t ≡ true
        → w'.machine ≡ w.machine
        → w'.context.wb ≡ w.context.wb
        → IsAnswered w log_index offset c (ok ev) w'
    -- An error, if the stored event is one for another type of command.
    conflicting :
        (n : ℕ) (p : CommandPayload) (ev : Event) (t : EventPayload) (w' : World bd st)
        → get_seq_num bd st w.machine (command_id c) ≡ some (some n)
        → get_event bd st w.machine n ≡ some (some ev)
        → c.payload ≡ some p
        → ev.payload ≡ some t
        → types_match p t ≡ false
        → w'.machine ≡ w.machine
        → w'.context.wb ≡ w.context.wb
        → IsAnswered w log_index offset c (err (common_error (conflict_dedup_id (command_id c)))) w'

  -- One command is answered once.
  abbrev pub IsAnsweredOnce : World bd st → ℕ → ℕ → Command → World bd st → Type 0
  IsAnsweredOnce w li off c w' =
      (event : Result (Error bd.ParseBigDecimalError) Event) × (sent w'
        ≡ sent w ++ answer_at li off event ∷ [])
      × IsAnswered w li off c event w'

  finish_command-IsAnsweredOnce :
      (w : World bd st) (li off : ℕ) (c : Command) (p : CommandPayload) (h : Handled bd st)
      → get_seq_num bd st w.machine (command_id c) ≡ some none
      → c.payload ≡ some p
      → dispatch bd st w p li off ≡ h
      → sent h.1 ≡ sent w
      → IsAnsweredOnce w li off c
          (finish_command bd st (record { log_index = li; offset = off }) c h)
  unfolding finish_command get_seq_num get_event
  finish_command-IsAnsweredOnce w li off c p (ok ev, w1) new hp run same =
      let stamped = set_header ev c.header li off w1.machine.last_seq_num in
      (
        ok stamped,
        ap (λ tx. tx ++ answer_at li off (ok stamped) ∷ []) same,
        IsAnswered.handled p ev w1 _ new hp run refl refl
            (ground (
              arith,
              get-insert_self (command_id c) w1.machine.last_seq_num w1.machine.seq_num_cache,
            ))
            (ground
              (arith, get-insert_self w1.machine.last_seq_num stamped w1.machine.event_cache)),
      )
  finish_command-IsAnsweredOnce w li off c p (err e, w1) new hp run same =
      let still = dispatch-err bd st w p li off run in
      (
        err e,
        ap (λ tx. tx ++ answer_at li off (err e) ∷ []) same,
        IsAnswered.refused p e w1 _ new hp run (ap (λ (v : World bd st). v.machine) still)
            (ap (λ (v : World bd st). v.context.wb) still),
      )

  new_command :
      (w : World bd st) (c : Command)
      → maybe_handle_duplicate_command bd st w.machine c ≡ some none
      → get_seq_num bd st w.machine (command_id c) ≡ some none
  unfolding maybe_handle_duplicate_command
  new_command w c h =
      let (found, e, h1) = >>?-eq-some (get_seq_num bd st w.machine (command_id c)) _ h in
      elim (Option-cases found) [
        | inl unknown ↦ rw e (ap some unknown)
        | inr (n, f) ↦
            let (stored, _, h2) = >>?-eq-some (get_event bd st w.machine n) _ (rw f at h1) in
            let (ev, _, h3) = >>?-eq-some stored _ h2 in
            let (r, _, h4) = >>?-eq-some (assert_command_and_event_match c ev) _ h3 in
            absurd (none_ne_some (sym (some_injective h4)))
      ]

  -- What a duplicate check that answers gives.
  duplicate-IsAnswered :
      (w w' : World bd st) (li off : ℕ) (c : Command) (r : Res bd st Event)
      → maybe_handle_duplicate_command bd st w.machine c ≡ some (some r)
      → w'.machine ≡ w.machine
      → w'.context.wb ≡ w.context.wb
      → IsAnswered w li off c r w'
  unfolding maybe_handle_duplicate_command assert_command_and_event_match
  duplicate-IsAnswered w w' li off c r h same wb =
      let (found, e, h1) = >>?-eq-some (get_seq_num bd st w.machine (command_id c)) _ h in
      elim (Option-cases found) [
        | inl unknown ↦ absurd (none_ne_some (some_injective (rw unknown at h1)))
        | inr (n, f) ↦
            let (stored, g, h2) = >>?-eq-some (get_event bd st w.machine n) _ (rw f at h1) in
            let (ev, i, h3) = >>?-eq-some stored _ h2 in
            let (r', j, h4) = >>?-eq-some (assert_command_and_event_match c ev) _ h3 in
            let (p, hp, j1) = >>?-eq-some c.payload _ j in
            let (t, ht, j2) = >>?-eq-some ev.payload _ j1 in
            let result = some_injective j2 ∙ some_injective (some_injective h4) in
            let seen = e ∙ ap some f in
            let read = g ∙ ap some i in
            elim (Bool-cases (types_match p t)) [
              | inl fits ↦
                  subst (λ x. IsAnswered w li off c x w') (rw fits at result)
                    (IsAnswered.repeated n p ev t w' seen read hp ht fits same wb)
              | inr other ↦
                  subst (λ x. IsAnswered w li off c x w') (rw other at result)
                    (IsAnswered.conflicting n p ev t w' seen read hp ht other same wb)
            ]
      ]

  pub handle_command-IsAnsweredOnce :
      (w w' : World bd st) (li off : ℕ) (c : Command)
      → handle_command bd st w li off c ≡ some w'
      → IsAnsweredOnce w li off c w'
  unfolding handle_command handle_new_command
  handle_command-IsAnsweredOnce w w' li off c h =
      let (found, e, h1) = >>?-eq-some (maybe_handle_duplicate_command bd st w.machine c) _ h in
      elim (Option-cases found) [
        | inr (r, f) ↦
            subst (IsAnsweredOnce w li off c) (some_injective (rw f at h1))
              (r, refl, duplicate-IsAnswered w _ li off c r (e ∙ ap some f) refl refl)
        | inl new ↦
            let (p, hp, h2) = >>?-eq-some c.payload _ (rw new at h1) in
            subst (IsAnsweredOnce w li off c) (some_injective h2) (
              finish_command-IsAnsweredOnce w li off c p (dispatch bd st w p li off)
                (new_command w c (e ∙ ap some new)) hp refl (dispatch-channel bd st w p li off))
      ]
