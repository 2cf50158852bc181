-- ===== src/StateMachine/Sync/Consumes.antt =====
-- The apply loop takes whatever the message queue hands over, and does not stop.
use auticuro.Prelude.{
  ℕ, ◌+◌, ◌<◌, ◌≤◌, ◌^◌, ◌≡◌, refl, sym, ◌∙◌, ap, subst, Str, List, [], ◌∷◌, ◌++◌, some, ok, err,
  arith, some_injective, >>?-eq-some, Option-cases, inl, inr, ◌==◌, true,
}
use auticuro.Prelude.Lists.{length}
use auticuro.Prelude.Map.{Map}
use auticuro.Proto.{Account, Command, CommandPayload}
use auticuro.Decimal.{BigDecimal}
use auticuro.Storage.{Storage, StorageLaws}
use auticuro.StateMachine.{World, Position, inc_u64, update_account, delete_account}
use auticuro.StateMachine.Handlers.{Handled, next_seq_num, update_accounts}
use auticuro.StateMachine.Commands.{
  dispatch, finish_command, handle_command, handle_new_command, handle_commands, finish_entry,
  apply_entry, maybe_handle_duplicate_command,
}
use auticuro.StateMachine.Flush.{ApplyLoop, receive_entry, receive_entries}
use auticuro.StateMachine.Positions.{all_positions, answered_at, receive_entries-positions}
use auticuro.StateMachine.Commit.Shape.{IsSafe, Commit, updates, deletes, dispatch-err}
use auticuro.StateMachine.Commit.Updates.{dispatch-Commit}
use auticuro.StateMachine.Sync.Invariant.{Synced}
use auticuro.StateMachine.Sync.Steps.{
  command, entry, Reach, next, Reach-Synced, last_seq_num-Commit, IsSafeCommand,
}
use auticuro.StateMachine.Sync.Total.{IsConsistent, handle_command_total}

-- A command with a payload that is no change of a configuration.
abbrev pub IsPlain : Command → Type 0
IsPlain c = (p : CommandPayload) × (c.payload ≡ some p) × ((m : Map Str Account) → IsSafe m p)

abbrev pub AllPlain : List Command → Type 0
AllPlain [] = Unit
AllPlain (c ∷ cs) = IsPlain c × AllPlain cs

-- Entries with consecutive indices from `i` on.
abbrev pub AreNumbered : ℕ → List (ℕ × List Command) → Type 0
AreNumbered i [] = Unit
AreNumbered i ((index, cs) ∷ entries) = (index ≡ i) × AllPlain cs × AreNumbered (i + 1) entries

abbrev pub command_count : List (ℕ × List Command) → ℕ
command_count [] = 0
command_count ((_, cs) ∷ entries) = length cs + command_count entries

follows : (a b : ℕ) → b ≡ a + 1 → b < 2 ^ 64 → (inc_u64 a == b) ≡ true
follows a b h small = ground arith

plain-IsSafeCommand : (c : Command) (m : Map Str Account) → IsPlain c → IsSafeCommand m c
plain-IsSafeCommand c m (p, h, safe) q hq =
    subst (λ x. IsSafe m x) (some_injective (sym h ∙ hq)) (safe m)

module _ (bd : BigDecimal) (st : Storage) where
  -- What a command does to the two numbers.
  record IsCounted (w w' : World bd st) : Type 0 where
    seq_num : w'.machine.last_seq_num ≤ w.machine.last_seq_num + 1
    index_kept : w'.machine.applied_index ≡ w.machine.applied_index

  applied-update_accounts :
      (accs : List Account) (w : World bd st)
      → (update_accounts bd st w accs).machine.applied_index ≡ w.machine.applied_index
  unfolding update_accounts update_account
  applied-update_accounts [] w = refl
  applied-update_accounts (a ∷ accs) w = applied-update_accounts accs (update_account bd st w a)

  applied-Commit :
      {w w' : World bd st} → Commit bd st w w' → w'.machine.applied_index ≡ w.machine.applied_index
  unfolding delete_account
  applied-Commit {w} (updates accs alive) = applied-update_accounts accs (next_seq_num bd st w)
  applied-Commit {w} (deletes a alive gone) = refl

  finish-IsCounted :
      (w : World bd st) (p : CommandPayload) (position : Position) (c : Command) (h : Handled bd st)
      → Synced bd st w
      → IsSafe w.machine.accounts p
      → w.machine.last_seq_num + 1 < 2 ^ 64
      → dispatch bd st w p position.log_index position.offset ≡ h
      → IsCounted w (finish_command bd st position c h)
  unfolding finish_command
  finish-IsCounted w p position c (err e, w1) s safe room h =
      let same = dispatch-err bd st w p position.log_index position.offset h in
      record {
        seq_num = omega (arith, ap (λ (v : World bd st). v.machine.last_seq_num) same);
        index_kept = ap (λ (v : World bd st). v.machine.applied_index) same;
      }
  finish-IsCounted w p position c (ok ev, w1) s safe room h =
      let commit =
        dispatch-Commit bd st w p position.log_index position.offset ev w1 s.keyed safe h in
      record {
        seq_num = omega (arith, last_seq_num-Commit bd st commit);
        index_kept = applied-Commit commit;
      }

  handle_command-IsCounted :
      (w w' : World bd st) (log_index offset : ℕ) (c : Command)
      → Synced bd st w
      → IsPlain c
      → w.machine.last_seq_num + 1 < 2 ^ 64
      → handle_command bd st w log_index offset c ≡ some w'
      → IsCounted w w'
  unfolding handle_command handle_new_command
  handle_command-IsCounted w w' li off c s plain room h =
      let (found, e, h1) = >>?-eq-some (maybe_handle_duplicate_command bd st w.machine c) _ h in
      elim (Option-cases found) [
        | inr (ev, f) ↦
            subst (IsCounted w) (some_injective (rw f at h1))
              (record { seq_num = omega arith; index_kept = refl })
        | inl new ↦
            let (p, hp, h2) = >>?-eq-some c.payload _ (rw new at h1) in
            subst (IsCounted w) (some_injective h2) (
              finish-IsCounted w p (record { log_index = li; offset = off }) c
                (dispatch bd st w p li off) s (plain-IsSafeCommand c w.machine.accounts plain p hp)
                room refl)
      ]

  module _ (laws : StorageLaws st) (w0 : World bd st) (synced : Synced bd st w0)
      (known : IsConsistent bd st w0) where
    -- A run of commands from a state that is reached.
    record IsRun (w w' : World bd st) (commands : ℕ) : Type 0 where
      reached : Reach bd st w0 w'
      seq_num : w'.machine.last_seq_num ≤ w.machine.last_seq_num + commands

    handle_commands_total :
        (cs : List Command) (w : World bd st) (log_index offset : ℕ)
        → Reach bd st w0 w
        → AllPlain cs
        → w.machine.last_seq_num + length cs < 2 ^ 64
        → (w' : World bd st) × (handle_commands bd st w log_index offset cs ≡ some w')
          × IsRun w w' (length cs)
          × (w'.machine.applied_index ≡ w.machine.applied_index)
    unfolding handle_commands
    handle_commands_total [] w li off r a room =
        (w, refl, record { reached = r; seq_num = omega arith }, refl)
    handle_commands_total (c ∷ cs) w li off r (plain, a) room =
        let (p, hp, _) = plain in
        let (w1, e) = handle_command_total bd st laws w0 w li off c p synced known r hp in
        let counted =
          handle_command-IsCounted w w1 li off c (Reach-Synced bd st laws w0 r synced) plain
            (omega arith) e in
        let step =
          command li off c (omega arith) (plain-IsSafeCommand c w.machine.accounts plain) e in
        let (w2, run, d, same) =
          handle_commands_total cs w1 li (off + 1) (next r step) a
            (omega (arith, counted.seq_num)) in
        (
          w2,
          rw (e, handle_commands) run,
          record { reached = d.reached; seq_num = omega (arith, counted.seq_num, d.seq_num) },
          same ∙ counted.index_kept,
        )

    receive_entry_total :
        (l : ApplyLoop bd st) (index : ℕ) (cs : List Command)
        → Reach bd st w0 l.world
        → AllPlain cs
        → l.world.machine.last_seq_num + length cs < 2 ^ 64
        → l.world.machine.applied_index ≡ l.applied_index
        → index ≡ l.applied_index + 1
        → index < 2 ^ 64
        → (l' : ApplyLoop bd st) × (receive_entry bd st l (index, cs) ≡ some l')
          × IsRun l.world l'.world (length cs)
          × (l'.world.machine.applied_index ≡ index)
          × (l'.applied_index ≡ index)
    unfolding receive_entry apply_entry finish_entry
    receive_entry_total l index cs r a room same next_index small =
        let (w1, run, d, _) = handle_commands_total cs l.world index 0 r a room in
        (
          record { world = finish_entry bd st w1 index; applied_index = index },
          rw (follows l.applied_index index next_index small) (
              rw
                (follows l.world.machine.applied_index index
                  (next_index ∙ ap (λ n. n + 1) (sym same)) small)
                (rw run refl)),
          record { reached = next d.reached (entry index); seq_num = d.seq_num },
          refl,
          refl,
        )

    receive_entries_total :
        (entries : List (ℕ × List Command)) (l : ApplyLoop bd st)
        → Reach bd st w0 l.world
        → l.world.machine.applied_index ≡ l.applied_index
        → AreNumbered (l.applied_index + 1) entries
        → l.applied_index + length entries < 2 ^ 64
        → l.world.machine.last_seq_num + command_count entries < 2 ^ 64
        → (l' : ApplyLoop bd st) × (receive_entries bd st l entries ≡ some l')
          × Reach bd st w0 l'.world
          × (l'.applied_index ≡ l.applied_index + length entries)
          × (l'.world.machine.applied_index ≡ l'.applied_index)
    unfolding receive_entries
    receive_entries_total [] l r same a small room = (l, refl, r, omega arith, same)
    receive_entries_total ((index, cs) ∷ entries) l r same (at, plain, a) small room =
        let (l1, e, d, i, j) =
          receive_entry_total l index cs r plain (omega arith) same at (omega arith) in
        let (l2, run, r2, k, m) =
          receive_entries_total entries l1 d.reached (i ∙ sym j)
            (subst (λ n. AreNumbered (n + 1) entries) (sym at ∙ sym j) a) (omega arith)
            (omega (arith, d.seq_num)) in
        (l2, rw (e, receive_entries) run, r2, omega arith, m)

    -- Entries that follow the applied index, of commands with a payload none of which configures an
    -- account, are taken without a panic, from every state that is reached from one in which the
    -- invariant `Synced` holds and each id is unknown or has its event stored. The applied index is
    -- then that of the last entry, every command was answered at its own position, in the order of
    -- the log, and the invariant holds again. The indices are `u64`, and the sequence numbers do not
    -- run out.
    pub receive_entries-served :
        (entries : List (ℕ × List Command)) (l : ApplyLoop bd st)
        → Reach bd st w0 l.world
        → l.world.machine.applied_index ≡ l.applied_index
        → AreNumbered (l.applied_index + 1) entries
        → l.applied_index + length entries < 2 ^ 64
        → l.world.machine.last_seq_num + command_count entries < 2 ^ 64
        → (l' : ApplyLoop bd st) × (receive_entries bd st l entries ≡ some l')
          × (l'.applied_index ≡ l.applied_index + length entries)
          × (l'.world.machine.applied_index ≡ l'.applied_index)
          × (answered_at bd st l'.world ≡ answered_at bd st l.world ++ all_positions entries)
          × Synced bd st l'.world
    receive_entries-served entries l r same a small room =
        let (l', run, r', i, j) = receive_entries_total entries l r same a small room in
        (
          l',
          run,
          i,
          j,
          receive_entries-positions bd st entries l l' run,
          Reach-Synced bd st laws w0 r' synced,
        )
