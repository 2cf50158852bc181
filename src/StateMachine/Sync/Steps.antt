-- ===== src/StateMachine/Sync/Steps.antt =====
-- The steps of the state machine, as a relation, and that each of them keeps the invariant.
use auticuro.Prelude.{
  ℕ, ◌+◌, ◌<◌, ◌^◌, ◌≡◌, refl, Str, false, none, some, List, [], ◌∷◌, ok, err, bytes_eq, Bytes_eq,
  arith, if◌then◌else◌, Bool-cases, Option-cases, inl, inr, ◌∙◌, some_injective, false_ne_true,
  subst, >>?-eq-some, Result,
}
use auticuro.Prelude.Map.{Map, get, remove, get-remove}
use auticuro.Proto.{Account, Event, Command, CommandPayload}
use auticuro.Errors.{Error}
use auticuro.Decimal.{BigDecimal}
use auticuro.Keys.{data_key, dedup_key, event_key}
use auticuro.Storage.Batch.{after-put}
use auticuro.Storage.{Storage, StorageLaws, after, applied_index_kind, persisted_last_seq_num, put}
use auticuro.Internal.{command_id}
use auticuro.StateMachine.{World, Position, update_account, delete_account, send_event}
use auticuro.StateMachine.Handlers.{next_seq_num, update_accounts, Handled}
use auticuro.StateMachine.Commands.{
  dispatch, finish_command, handle_command, finish_entry, maybe_handle_duplicate_command,
}
use auticuro.StateMachine.Flush.{flushed, remove_accounts}
use auticuro.StateMachine.Commit.Alive.{IsAlive}
use auticuro.StateMachine.Commit.Shape.{Commit, updates, deletes, AllAlive, IsSafe, dispatch-err}
use auticuro.StateMachine.Commit.Updates.{dispatch-Commit}
use auticuro.StateMachine.Sync.Invariant.{
  Synced, listed, Synced-next_seq_num, Synced-update_account, Synced-delete_account,
  Synced-update_seq_num_and_event,
}

-- A command whose payload is safe.
abbrev pub IsSafeCommand : Map Str Account → Command → Type 0
IsSafeCommand m command =
    (payload : CommandPayload) → command.payload ≡ some payload → IsSafe m payload

pub get-remove_accounts :
    (ids : List Str) (m : Map Str Account) (id : Str)
    → get (remove_accounts ids m) id ≡ (if listed id ids then none else get m id)
unfolding remove_accounts
get-remove_accounts [] m id = refl
get-remove_accounts (j ∷ ids) m id =
    ground (arith, get-remove_accounts ids (remove j m) id, get-remove j id m)

module _ (bd : BigDecimal) (st : Storage) where
  -- One step of the apply loop: a command, the end of an entry, or a flush. The sequence number has
  -- room, and no deleted account is configured.
  pub data Step (w : World bd st) : World bd st → Type 0 where
    command :
        {w' : World bd st} (log_index offset : ℕ) (c : Command)
        → w.machine.last_seq_num + 1 < 2 ^ 64
        → IsSafeCommand w.machine.accounts c
        → handle_command bd st w log_index offset c ≡ some w'
        → Step w w'
    entry : (log_index : ℕ) → Step w (finish_entry bd st w log_index)
    flush : (now : ℕ) → Step w (flushed bd st w now)

  pub data Reach (w : World bd st) : World bd st → Type 0 where
    here : Reach w w
    next : {v u : World bd st} → Reach w v → Step v u → Reach w u

  free_of_alive :
      (w : World bd st) (id : Str)
      → Synced bd st w
      → IsAlive w.machine.accounts id
      → listed id w.context.to_be_deleted_account_ids ≡ false
  free_of_alive w id s alive = elim (Bool-cases (listed id w.context.to_be_deleted_account_ids)) [
    | inl present ↦ let (a, f, d) = s.tombstones id present in absurd (alive a f d)
    | inr absent ↦ absent
  ]

  AllFree : List Str → List Account → Type 0
  AllFree ids [] = Unit
  AllFree ids (a ∷ accs) = (listed a.account_id ids ≡ false) × AllFree ids accs

  Synced-update_accounts :
      (accs : List Account) (w : World bd st)
      → AllFree w.context.to_be_deleted_account_ids accs
      → Synced bd st w
      → Synced bd st (update_accounts bd st w accs)
  unfolding update_accounts AllFree
  Synced-update_accounts [] w f s = s
  Synced-update_accounts (a ∷ accs) w f s =
      Synced-update_accounts accs (update_account bd st w a) (unfold update_account in f.1)
        (Synced-update_account bd st w a f.0 s)

  AllFree-of_alive :
      (w : World bd st) (accs : List Account)
      → Synced bd st w
      → AllAlive w.machine.accounts accs
      → AllFree w.context.to_be_deleted_account_ids accs
  unfolding AllFree
  AllFree-of_alive w [] s alive = tt
  AllFree-of_alive w (a ∷ accs) s alive =
      (free_of_alive w a.account_id s alive.0, AllFree-of_alive w accs s alive.1)

  pub Synced-Commit : {w w' : World bd st} → Synced bd st w → Commit bd st w w' → Synced bd st w'
  Synced-Commit {w} s (updates accs alive) =
      Synced-update_accounts accs (next_seq_num bd st w) (AllFree-of_alive w accs s alive)
        (Synced-next_seq_num bd st w s)
  Synced-Commit {w} s (deletes a alive gone) =
      Synced-delete_account bd st (next_seq_num bd st w) a gone (Synced-next_seq_num bd st w s)

  last_seq_num-update_accounts :
      (accs : List Account) (w : World bd st)
      → (update_accounts bd st w accs).machine.last_seq_num ≡ w.machine.last_seq_num
  unfolding update_accounts update_account
  last_seq_num-update_accounts [] w = refl
  last_seq_num-update_accounts (a ∷ accs) w =
      last_seq_num-update_accounts accs (update_account bd st w a)

  -- A success takes the next sequence number.
  pub last_seq_num-Commit :
      {w w' : World bd st}
      → Commit bd st w w'
      → w'.machine.last_seq_num ≡ (next_seq_num bd st w).machine.last_seq_num
  unfolding delete_account
  last_seq_num-Commit {w} (updates accs alive) =
      last_seq_num-update_accounts accs (next_seq_num bd st w)
  last_seq_num-Commit {w} (deletes a alive gone) = refl

  -- The channel is no part of the invariant.
  Synced-send :
      (w : World bd st) (position : Position) (ev : Result (Error bd.ParseBigDecimalError) Event)
      → Synced bd st w
      → Synced bd st (record w { context = send_event w.context position ev })
  Synced-send w position ev s = record {
    keyed = s.keyed;
    seq_nums = s.seq_nums;
    events = s.events;
    accounts = s.accounts;
    tombstones = s.tombstones;
  }

  Synced-finish_command :
      (laws : StorageLaws st) (w : World bd st) (payload : CommandPayload) (position : Position)
      (c : Command) (h : Handled bd st)
      → Synced bd st w
      → IsSafe w.machine.accounts payload
      → dispatch bd st w payload position.log_index position.offset ≡ h
      → Synced bd st (finish_command bd st position c h)
  unfolding finish_command
  Synced-finish_command laws w payload position c (err e, w') s safe h =
      Synced-send w' position (err e)
        (rw (dispatch-err bd st w payload position.log_index position.offset h) s)
  Synced-finish_command laws w payload position c (ok ev, w') s safe h =
      let commit =
        dispatch-Commit bd st w payload position.log_index position.offset ev w' s.keyed safe h in
      Synced-send _ position _ (
        Synced-update_seq_num_and_event bd st laws w' (command_id c) _
          (rw (last_seq_num-Commit commit) (omega arith)) (Synced-Commit s commit))

  Synced-handle_command :
      (laws : StorageLaws st) (w w' : World bd st) (log_index offset : ℕ) (c : Command)
      → Synced bd st w
      → IsSafeCommand w.machine.accounts c
      → handle_command bd st w log_index offset c ≡ some w'
      → Synced bd st w'
  unfolding handle_command
  Synced-handle_command laws w w' li off c s safe h =
      let (found, e, h1) = >>?-eq-some (maybe_handle_duplicate_command bd st w.machine c) _ h in
      elim (Option-cases found) [
        | inr (ev, f) ↦ subst (Synced bd st) (some_injective (rw f at h1)) (Synced-send w _ ev s)
        | inl new ↦
            let (payload, p, h2) = >>?-eq-some c.payload _ (rw new at h1) in
            subst (Synced bd st) (some_injective h2) (
              Synced-finish_command laws w payload (record { log_index = li; offset = off }) c
                (dispatch bd st w payload li off) s (safe payload p) refl)
      ]

  Synced-finish_entry :
      (w : World bd st) (log_index : ℕ)
      → Synced bd st w
      → Synced bd st (finish_entry bd st w log_index)
  unfolding finish_entry bytes_eq
  Synced-finish_entry w li s =
      let applied = st.be.write_u64 li in
      let last = st.be.write_u64 w.machine.last_seq_num in
      let wb1 = put applied_index_kind.key applied w.context.wb in
      record {
        keyed = s.keyed;
        seq_nums = λ id old.
            after-put wb1 persisted_last_seq_num.key last (dedup_key id) old
            ∙ after-put w.context.wb applied_index_kind.key applied (dedup_key id) old
            ∙ s.seq_nums id old;
        events = λ n old small.
            after-put wb1 persisted_last_seq_num.key last (event_key (st.be.write_u64 n)) old
            ∙ after-put w.context.wb applied_index_kind.key applied (event_key (st.be.write_u64 n))
                old
            ∙ s.events n old small;
        accounts = λ id.
            after-put wb1 persisted_last_seq_num.key last (data_key id) _
            ∙ after-put w.context.wb applied_index_kind.key applied (data_key id) _
            ∙ s.accounts id;
        tombstones = s.tombstones;
      }

  Synced-flushed :
      (laws : StorageLaws st) (w : World bd st) (now : ℕ)
      → Synced bd st w
      → Synced bd st (flushed bd st w now)
  unfolding flushed after get
  Synced-flushed laws w now s = record {
    keyed = λ id a f. s.keyed id a (kept id a f);
    seq_nums = λ id old. refl;
    events = λ n old small. refl;
    accounts = λ id.
        laws.rocks.get-write w.machine.rocksdb_state w.context.wb (data_key id)
        ∙ s.accounts id
        ∙ rw (get-remove_accounts w.context.to_be_deleted_account_ids w.machine.accounts id)
            (ground arith);
    tombstones = λ id h. absurd (false_ne_true h);
  }
    where
      kept :
          (id : Str) (a : Account)
          → get (remove_accounts w.context.to_be_deleted_account_ids w.machine.accounts) id ≡ some a
          → get w.machine.accounts id ≡ some a
      kept id a f =
          ground
            (arith, get-remove_accounts w.context.to_be_deleted_account_ids w.machine.accounts id)

  -- Every step keeps the invariant.
  pub Step-Synced :
      (laws : StorageLaws st) (w w' : World bd st) → Step w w' → Synced bd st w → Synced bd st w'
  Step-Synced laws w w' (command li off c room safe h) s =
      Synced-handle_command laws w w' li off c s safe h
  Step-Synced laws w w' (entry li) s = Synced-finish_entry w li s
  Step-Synced laws w w' (flush now) s = Synced-flushed laws w now s

  -- Every state that is reached from one in which the invariant holds, by commands, ends of entries
  -- and flushes, has it too: the batch over the database holds exactly the accounts in memory that
  -- do not wait for their removal, the batch holds exactly what the two caches hold, every account
  -- is stored under its own id, and what waits for its removal is marked as deleted. Sequence
  -- numbers must not run out, and no deleted account is configured on the way.
  pub Reach-Synced :
      (laws : StorageLaws st) (w : World bd st) {w' : World bd st}
      → Reach w w'
      → Synced bd st w
      → Synced bd st w'
  Reach-Synced laws w here s = s
  Reach-Synced laws w (next {v = v} {u = u} r t) s =
      Step-Synced laws v u t (Reach-Synced laws w r s)
