-- ===== src/StateMachine/Positions.antt =====
-- `apply_entry` and the apply loop: the positions at which the commands of entries are answered.
use auticuro.Prelude.{
  ℕ, ◌+◌, ◌≡◌, refl, ok, err, List, [], ◌∷◌, ◌++◌, some, true, sym, ap, ◌∙◌, subst, map,
  some_injective, >>?-eq-some, Option-cases, inl, inr, Bytes_eq, ◌==◌, assert, none_ne_some, Bool,
  false,
}
use auticuro.Proto.{
  Account, Command, CommandPayload, transfer_request, batch_balance_operation_request,
  reserve_request, release_request, create_account_request, delete_account_request,
  lock_account_request, unlock_account_request, update_account_config_request,
}
use auticuro.Decimal.{BigDecimal}
use auticuro.Storage.{Storage}
use auticuro.StateMachine.{World, Position, InflightEvent, inc_u64, update_account, delete_account}
use auticuro.StateMachine.Handlers.{
  Handled, Res, attempt, update_accounts, transfer_updates, batch_updates, reserve_updates,
  release_updates, create_updates, lock_updates, unlock_updates, delete_updates, config_updates,
  handle_transfer, handle_batch_balance_operation, handle_reserve, handle_release,
  handle_create_account, handle_lock_account, handle_unlock_account, handle_delete_account,
  handle_update_account_config,
}
use auticuro.StateMachine.Commands.{
  dispatch, finish_command, handle_command, handle_new_command, handle_commands, finish_entry,
  apply_entry, maybe_handle_duplicate_command,
}
use auticuro.StateMachine.Flush.{ApplyLoop, receive_entry, receive_entries}
use mathlib.Core.List.{append_assoc, append-nil}

-- The positions of the commands of an entry.
unfoldable pub positions : ℕ → ℕ → List Command → List Position
positions log_index offset [] = []
positions log_index offset (c ∷ cs) =
    record { log_index = log_index; offset = offset } ∷ positions log_index (offset + 1) cs

-- The positions of the commands of a sequence of entries.
unfoldable pub all_positions : List (ℕ × List Command) → List Position
all_positions [] = []
all_positions ((log_index, cs) ∷ entries) = positions log_index 0 cs ++ all_positions entries

map-append : {A B : Type 0} (f : A → B) (xs ys : List A) → map f (xs ++ ys) ≡ map f xs ++ map f ys
map-append f [] ys = refl
map-append f (x ∷ xs) ys = ap (λ zs. f x ∷ zs) (map-append f xs ys)

module _ (bd : BigDecimal) (st : Storage) where
  abbrev pub position_of : InflightEvent bd.ParseBigDecimalError → Position
  position_of e = e.position

  -- The positions that were answered so far.
  abbrev pub answered_at : World bd st → List Position
  answered_at w = map position_of w.context.inflight_event_tx

  attempt-channel :
      {A : Type 0} (w : World bd st) (r : Res bd st A) (rest : A → Handled bd st)
      → ((a : A) → (rest a).1.context.inflight_event_tx ≡ w.context.inflight_event_tx)
      → (attempt bd st w r rest).1.context.inflight_event_tx ≡ w.context.inflight_event_tx
  attempt-channel w (ok a) rest h = h a
  attempt-channel w (err e) rest h = refl

  update_accounts-channel :
      (accs : List Account) (w : World bd st)
      → (update_accounts bd st w accs).context.inflight_event_tx ≡ w.context.inflight_event_tx
  unfolding update_accounts update_account
  update_accounts-channel [] w = refl
  update_accounts-channel (a ∷ accs) w = update_accounts-channel accs (update_account bd st w a)

  -- No handler sends.
  pub dispatch-channel :
      (w : World bd st) (p : CommandPayload) (log_index offset : ℕ)
      → (dispatch bd st w p log_index offset).1.context.inflight_event_tx
        ≡ w.context.inflight_event_tx
  unfolding dispatch update_account delete_account handle_transfer handle_batch_balance_operation
      handle_reserve handle_release handle_create_account handle_lock_account handle_unlock_account
      handle_delete_account handle_update_account_config
  dispatch-channel w (transfer_request r) li off =
      attempt-channel w (transfer_updates bd st w.machine r) _ (λ a. refl)
  dispatch-channel w (batch_balance_operation_request r) li off =
      attempt-channel w (batch_updates bd st w.machine r.balance_operation_spec) _
        (λ a. update_accounts-channel _ _)
  dispatch-channel w (reserve_request r) li off =
      attempt-channel w (reserve_updates bd st w.machine r) _ (λ a. refl)
  dispatch-channel w (release_request r) li off =
      attempt-channel w (release_updates bd st w.machine r) _ (λ a. refl)
  dispatch-channel w (create_account_request r) li off =
      attempt-channel w (create_updates bd st w.machine r) _ (λ a. refl)
  dispatch-channel w (lock_account_request r) li off =
      attempt-channel w (lock_updates bd st w.machine r) _ (λ a. refl)
  dispatch-channel w (unlock_account_request r) li off =
      attempt-channel w (unlock_updates bd st w.machine r) _ (λ a. refl)
  dispatch-channel w (delete_account_request r) li off =
      attempt-channel w (delete_updates bd st w.machine r) _ (λ a. refl)
  dispatch-channel w (update_account_config_request r) li off =
      attempt-channel w (config_updates bd st w.machine r) _ (λ a. refl)

  AnswersAt : World bd st → Position → World bd st → Type 0
  AnswersAt w p w' = answered_at w' ≡ answered_at w ++ p ∷ []

  finish_command-positions :
      (w : World bd st) (position : Position) (c : Command) (h : Handled bd st)
      → h.1.context.inflight_event_tx ≡ w.context.inflight_event_tx
      → AnswersAt w position (finish_command bd st position c h)
  unfolding finish_command AnswersAt
  finish_command-positions w position c (ok ev, w1) h =
      map-append position_of w1.context.inflight_event_tx _
      ∙ ap (λ tx. map position_of tx ++ position ∷ []) h
  finish_command-positions w position c (err e, w1) h =
      map-append position_of w1.context.inflight_event_tx _
      ∙ ap (λ tx. map position_of tx ++ position ∷ []) h

  handle_command-positions :
      (w w' : World bd st) (log_index offset : ℕ) (c : Command)
      → handle_command bd st w log_index offset c ≡ some w'
      → AnswersAt w (record { log_index = log_index; offset = offset }) w'
  unfolding handle_command handle_new_command AnswersAt
  handle_command-positions w w' li off c h =
      let (found, e, h1) = >>?-eq-some (maybe_handle_duplicate_command bd st w.machine c) _ h in
      let position : Position = record { log_index = li; offset = off } in
      elim (Option-cases found) [
        | inr (r, f) ↦
            subst (AnswersAt w position) (some_injective (rw f at h1))
              (map-append position_of w.context.inflight_event_tx _)
        | inl new ↦
            let (payload, p, h2) = >>?-eq-some c.payload _ (rw new at h1) in
            subst (AnswersAt w position) (some_injective h2) (
              finish_command-positions w position c (dispatch bd st w payload li off)
                (dispatch-channel w payload li off))
      ]

  handle_commands-positions :
      (cs : List Command) (w w' : World bd st) (log_index offset : ℕ)
      → handle_commands bd st w log_index offset cs ≡ some w'
      → answered_at w' ≡ answered_at w ++ positions log_index offset cs
  unfolding handle_commands positions AnswersAt
  handle_commands-positions [] w w' li off h =
      ap answered_at (sym (some_injective h)) ∙ sym (append-nil (answered_at w))
  handle_commands-positions (c ∷ cs) w w' li off h =
      elim (Option-cases (handle_command bd st w li off c)) [
        | inl e ↦ absurd (none_ne_some (rw (e, handle_commands) at h))
        | inr (w1, e) ↦
            handle_commands-positions cs w1 w' li (off + 1) (rw (e, handle_commands) at h)
            ∙ ap (λ ps. ps ++ positions li (off + 1) cs) (handle_command-positions w w1 li off c e)
            ∙ append_assoc (answered_at w) (record { log_index = li; offset = off } ∷ [])
                (positions li (off + 1) cs)
      ]

  pub assert_passed : (b : Bool) {u : Unit {0}} → assert b ≡ some u → b ≡ true
  assert_passed true h = refl
  assert_passed false h = absurd (none_ne_some h)

  -- An entry is answered at the positions of its commands.
  apply_entry-positions :
      (w w' : World bd st) (log_index : ℕ) (cs : List Command)
      → apply_entry bd st w log_index cs ≡ some w'
      → ((inc_u64 w.machine.applied_index == log_index) ≡ true)
        × (w'.machine.applied_index ≡ log_index)
        × (answered_at w' ≡ answered_at w ++ positions log_index 0 cs)
  unfolding apply_entry finish_entry
  apply_entry-positions w w' li cs h =
      let (_, a, h1) = >>?-eq-some (assert (inc_u64 w.machine.applied_index == li)) _ h in
      let (w1, e, h2) = >>?-eq-some (handle_commands bd st w li 0 cs) _ h1 in
      let same = sym (some_injective h2) in
      (
        assert_passed (inc_u64 w.machine.applied_index == li) a,
        ap (λ (v : World bd st). v.machine.applied_index) same,
        ap answered_at same ∙ handle_commands-positions cs w w1 li 0 e,
      )

  -- So is a sequence of entries, in the order of the log.
  pub receive_entries-positions :
      (entries : List (ℕ × List Command)) (l l' : ApplyLoop bd st)
      → receive_entries bd st l entries ≡ some l'
      → answered_at l'.world ≡ answered_at l.world ++ all_positions entries
  unfolding receive_entries receive_entry all_positions
  receive_entries-positions [] l l' h =
      ap (λ (x : ApplyLoop bd st). answered_at x.world) (sym (some_injective h))
      ∙ sym (append-nil (answered_at l.world))
  receive_entries-positions ((li, cs) ∷ entries) l l' h =
      elim (Option-cases (receive_entry bd st l (li, cs))) [
        | inl e ↦ absurd (none_ne_some (rw (e, receive_entries) at h))
        | inr (l1, e) ↦
            let (_, _, h1) = >>?-eq-some (assert (inc_u64 l.applied_index == li)) _ e in
            let (w1, a, h2) = >>?-eq-some (apply_entry bd st l.world li cs) _ h1 in
            let (_, _, each) = apply_entry-positions l.world w1 li cs a in
            receive_entries-positions entries l1 l' (rw (e, receive_entries) at h)
            ∙ ap (λ ps. ps ++ all_positions entries)
                (ap (λ (x : ApplyLoop bd st). answered_at x.world) (sym (some_injective h2)) ∙ each)
            ∙ append_assoc (answered_at l.world) (positions li 0 cs) (all_positions entries)
      ]
