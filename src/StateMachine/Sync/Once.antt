-- ===== src/StateMachine/Sync/Once.antt =====
-- The whole life of a command id: the first success, anything after it, and a repetition.
use auticuro.Prelude.{ℕ, ◌+◌, ◌<◌, ◌^◌, ◌≡◌, some, subst, some_injective, none, ok, arith, sym, ◌∙◌}
use auticuro.Proto.{Event, Command, CommandPayload}
use auticuro.Decimal.{BigDecimal}
use auticuro.Storage.{Storage, StorageLaws}
use auticuro.Internal.{command_id, set_header}
use auticuro.StateMachine.{World, Position}
use auticuro.StateMachine.Commands.{
  dispatch, finish_command, handle_command, maybe_handle_duplicate_command,
}
use auticuro.StateMachine.Commit.Shape.{IsSafe}
use auticuro.StateMachine.Commit.Answers.{dispatch-Answers}
use auticuro.StateMachine.Commit.Updates.{dispatch-Commit}
use auticuro.StateMachine.Sync.Invariant.{Synced}
use auticuro.StateMachine.Sync.Steps.{command, Reach, Step-Synced, last_seq_num-Commit}
use auticuro.StateMachine.Sync.Dedup.{Remembers, answered, duplicate-answered, first-Remembers}
use auticuro.StateMachine.Sync.Lasting.{Reach-Remembers}

module _ (bd : BigDecimal) (st : Storage) where
  abbrev pub first_world : World bd st → ℕ → ℕ → Command → CommandPayload → World bd st
  first_world w log_index offset c p =
      finish_command bd st (record { log_index = log_index; offset = offset }) c
        (dispatch bd st w p log_index offset)

  abbrev pub stamped : World bd st → ℕ → ℕ → Command → Event → Event
  stamped w1 log_index offset c ev = set_header ev c.header log_index offset w1.machine.last_seq_num

  pub handle_first :
      (w : World bd st) (log_index offset : ℕ) (c : Command) (p : CommandPayload)
      → maybe_handle_duplicate_command bd st w.machine c ≡ some none
      → c.payload ≡ some p
      → handle_command bd st w log_index offset c ≡ some (first_world w log_index offset c p)
  unfolding handle_command
  handle_first w li off c p new hp = ground arith

  -- A new command is handled and succeeds, in a state in which the invariant `Synced` holds. Then,
  -- in every state that is reached from there by other commands, ends of entries and flushes, a
  -- command with the same id and payload is answered with the event of the first time, and changes
  -- neither the machine nor the batch. Sequence numbers must not run out, and no deleted account
  -- is configured on the way.
  pub exactly_once :
      (laws : StorageLaws st) (w w1 v : World bd st) (log_index offset log_index' offset' : ℕ)
      (c c' : Command) (p : CommandPayload) (ev : Event)
      → Synced bd st w
      → w.machine.last_seq_num + 1 < 2 ^ 64
      → maybe_handle_duplicate_command bd st w.machine c ≡ some none
      → c.payload ≡ some p
      → IsSafe w.machine.accounts p
      → dispatch bd st w p log_index offset ≡ (ok ev, w1)
      → Reach bd st (first_world w log_index offset c p) v
      → c'.payload ≡ some p
      → command_id c' ≡ command_id c
      → (handle_command bd st w log_index offset c ≡ some (first_world w log_index offset c p))
        × (handle_command bd st v log_index' offset' c'
            ≡ some (answered bd st v log_index' offset' (ok (stamped w1 log_index offset c ev))))
  exactly_once laws w w1 v li off li' off' c c' p ev s room new hp safe h r hp' same =
      let first = handle_first w li off c p new hp in
      let s1 : Synced bd st (first_world w li off c p) =
        Step-Synced bd st laws w _
          (command li off c room
            (λ q e. subst (IsSafe w.machine.accounts) (some_injective (sym hp ∙ e)) safe) first)
          s in
      let last =
        last_seq_num-Commit bd st (dispatch-Commit bd st w p li off ev w1 s.keyed safe h) in
      let position : Position = record { log_index = li; offset = off } in
      let event = stamped w1 li off c ev in
      let m1 : Remembers bd st (first_world w li off c p) (command_id c) event =
        subst (λ x. Remembers bd st (finish_command bd st position c x) (command_id c) event)
          (sym h) (first-Remembers bd st w1 position c ev (omega (arith, last, room))) in
      let mv = Reach-Remembers bd st laws _ (command_id c) event s1 r m1 in
      let (t, et, matches) = dispatch-Answers bd st w p li off ev w1 h in
      (
        first,
        rw matches at (
            duplicate-answered bd st v li' off' c' event p t
              (subst (λ i. Remembers bd st v i event) (sym same) mv) hp' et),
      )
