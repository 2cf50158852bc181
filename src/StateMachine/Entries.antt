-- ===== src/StateMachine/Entries.antt =====
-- `apply_entry` and the apply loop: what every command of every entry is answered with.
use auticuro.Prelude.{
  ℕ, ◌+◌, ◌≡◌, List, [], ◌∷◌, ◌++◌, some, true, sym, ap, ◌∙◌, subst, some_injective, >>?-eq-some,
  Option-cases, inl, inr, Bytes_eq, ℕ_eq, ◌==◌, assert, none_ne_some, Result,
}
use auticuro.Proto.{Command, Event}
use auticuro.Errors.{Error}
use auticuro.Decimal.{BigDecimal}
use auticuro.Storage.{Storage}
use auticuro.StateMachine.{World, inc_u64}
use auticuro.StateMachine.Commands.{handle_command, handle_commands, finish_entry, apply_entry}
use auticuro.StateMachine.Flush.{ApplyLoop, receive_entry, receive_entries}
use auticuro.StateMachine.Positions.{
  answered_at, all_positions, receive_entries-positions, assert_passed,
}
use mathlib.Core.List.{append_assoc, append-nil}
use auticuro.StateMachine.Answering.{
  Answer, sent, answer_at, IsAnswered, handle_command-IsAnsweredOnce,
}

module _ (bd : BigDecimal) (st : Storage) where
  -- One answer to each command of an entry, at its position; each command starts from where the
  -- one before it has stopped.
  pub data AreAnswered (log_index : ℕ)
      : World bd st → ℕ → List Command → List (Answer bd st) → World bd st → Type 0 where
    done : (w : World bd st) (offset : ℕ) → AreAnswered log_index w offset [] [] w
    answer :
        (w w1 w' : World bd st) (offset : ℕ) (c : Command) (cs : List Command)
        (event : Result (Error bd.ParseBigDecimalError) Event) (events : List (Answer bd st))
        → IsAnswered bd st w log_index offset c event w1
        → AreAnswered log_index w1 (offset + 1) cs events w'
        → AreAnswered log_index w offset
            (c ∷ cs)
            (answer_at bd st log_index offset event ∷ events)
            w'

  -- The entries one after the other, each with the index after the applied one, which it becomes.
  pub data EntriesAnswered
      : World bd st → List (ℕ × List Command) → List (Answer bd st) → World bd st → Type 0 where
    done : (w : World bd st) → EntriesAnswered w [] [] w
    entry :
        (w w1 w2 w' : World bd st) (log_index : ℕ) (cs : List Command)
        (entries : List (ℕ × List Command)) (events later : List (Answer bd st))
        → (inc_u64 w.machine.applied_index == log_index) ≡ true
        → AreAnswered log_index w 0 cs events w1
        → w2.machine ≡ record w1.machine { applied_index = log_index }
        → EntriesAnswered w2 entries later w'
        → EntriesAnswered w ((log_index, cs) ∷ entries) (events ++ later) w'

  handle_commands-AreAnswered :
      (cs : List Command) (w w' : World bd st) (li off : ℕ)
      → handle_commands bd st w li off cs ≡ some w'
      → (events : List (Answer bd st)) × (sent bd st w' ≡ sent bd st w ++ events)
        × AreAnswered li w off cs events w'
  unfolding handle_commands
  handle_commands-AreAnswered [] w w' li off h =
      subst
        (λ (v : World bd st).
          (events : List (Answer bd st)) × (sent bd st v ≡ sent bd st w ++ events)
          × AreAnswered li w off [] events v)
        (some_injective h) ([], sym (append-nil (sent bd st w)), AreAnswered.done w off)
  handle_commands-AreAnswered (c ∷ cs) w w' li off h =
      elim (Option-cases (handle_command bd st w li off c)) [
        | inl e ↦ absurd (none_ne_some (rw (e, handle_commands) at h))
        | inr (w1, e) ↦
            let (event, first, a) = handle_command-IsAnsweredOnce bd st w w1 li off c e in
            let (events, others, run) =
              handle_commands-AreAnswered cs w1 w' li (off + 1) (rw (e, handle_commands) at h) in
            (
              answer_at bd st li off event ∷ events,
              others
                  ∙ ap (λ tx. tx ++ events) first
                  ∙ append_assoc (sent bd st w) (answer_at bd st li off event ∷ []) events,
              AreAnswered.answer w w1 w' off c cs event events a run,
            )
      ]

  apply_entry-AreAnswered :
      (w w' : World bd st) (li : ℕ) (cs : List Command)
      → apply_entry bd st w li cs ≡ some w'
      → (w1 : World bd st) × (events : List (Answer bd st)) × ((inc_u64 w.machine.applied_index
            == li)
          ≡ true)
        × (sent bd st w' ≡ sent bd st w ++ events)
        × AreAnswered li w 0 cs events w1
        × (w'.machine ≡ record w1.machine { applied_index = li })
  unfolding apply_entry finish_entry
  apply_entry-AreAnswered w w' li cs h =
      let (_, a, h1) = >>?-eq-some (assert (inc_u64 w.machine.applied_index == li)) _ h in
      let (w1, e, h2) = >>?-eq-some (handle_commands bd st w li 0 cs) _ h1 in
      let same = sym (some_injective h2) in
      let (events, all, run) = handle_commands-AreAnswered cs w w1 li 0 e in
      (
        w1,
        events,
        assert_passed bd st (inc_u64 w.machine.applied_index == li) a,
        ap (sent bd st) same ∙ all,
        run,
        ap (λ (v : World bd st). v.machine) same,
      )

  entries-EntriesAnswered :
      (entries : List (ℕ × List Command)) (l l' : ApplyLoop bd st)
      → receive_entries bd st l entries ≡ some l'
      → (events : List (Answer bd st)) × (sent bd st l'.world ≡ sent bd st l.world ++ events)
        × EntriesAnswered l.world entries events l'.world
  unfolding receive_entries receive_entry
  entries-EntriesAnswered [] l l' h =
      subst
        (λ (k : ApplyLoop bd st).
          (events : List (Answer bd st)) × (sent bd st k.world ≡ sent bd st l.world ++ events)
          × EntriesAnswered l.world [] events k.world)
        (some_injective h) ([], sym (append-nil (sent bd st l.world)), EntriesAnswered.done l.world)
  entries-EntriesAnswered ((li, cs) ∷ entries) l l' h =
      elim (Option-cases (receive_entry bd st l (li, cs))) [
        | inl e ↦ absurd (none_ne_some (rw (e, receive_entries) at h))
        | inr (l1, e) ↦
            let (_, _, h1) = >>?-eq-some (assert (inc_u64 l.applied_index == li)) _ e in
            let (w2, a, h2) = >>?-eq-some (apply_entry bd st l.world li cs) _ h1 in
            let same = ap (λ (k : ApplyLoop bd st). k.world) (some_injective h2) in
            let (w1, events, at, all, run, ended) = apply_entry-AreAnswered l.world w2 li cs a in
            let (later, others, rest) =
              entries-EntriesAnswered entries l1 l' (rw (e, receive_entries) at h) in
            (
              events ++ later,
              others
                  ∙ ap (λ tx. tx ++ later) (ap (sent bd st) (sym same) ∙ all)
                  ∙ append_assoc (sent bd st l.world) events later,
              EntriesAnswered.entry l.world w1 l1.world l'.world li cs entries events later at run
                  (ap (λ (v : World bd st). v.machine) (sym same) ∙ ended) rest,
            )
      ]

  -- Where the loop takes a sequence of entries without a panic, each entry has the index after the
  -- one that was applied before, and becomes the applied one. What the loop has sent for them is one
  -- answer for each command, at its own position, in the order of the log. A command whose id was not
  -- seen is answered with what its handler gives in the state that the commands before it have left:
  -- the event with its header, which is then stored under the id and the sequence number beside the
  -- accounts of the handler, or the error. A command whose id was seen is answered with the stored
  -- event, or, if this is one for another type of command, with the error for a conflicting id. An
  -- error of the handler, and both answers to an id that was seen, leave machine and batch as they
  -- are.
  pub receive_entries-answers :
      (entries : List (ℕ × List Command)) (l l' : ApplyLoop bd st)
      → receive_entries bd st l entries ≡ some l'
      → (answered_at bd st l'.world ≡ answered_at bd st l.world ++ all_positions entries)
        × ((events : List (Answer bd st)) × (sent bd st l'.world ≡ sent bd st l.world ++ events)
            × EntriesAnswered l.world entries events l'.world)
  receive_entries-answers entries l l' h =
      (receive_entries-positions bd st entries l l' h, entries-EntriesAnswered entries l l' h)
