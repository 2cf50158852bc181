-- ===== src/StateMachine/Sync/Dedup.antt =====
-- Exactly once: a command that was handled is remembered, in the caches and after a flush in the
-- database, and a duplicate is answered from memory without any effect.
use auticuro.Prelude.{
  ℕ, ◌+◌, ◌<◌, ◌≤◌, ◌^◌, ◌≡◌, ◌≢◌, refl, Str, some, List, [], ◌∷◌, ok, err, bytes_eq_iff, Bytes_eq,
  ℕ_eq, arith, if◌then◌else◌, ◌∙◌, Result,
}
use auticuro.Prelude.Map.{get, get-insert, get-insert_self}
use auticuro.Proto.{Account, Event, Command, CommandPayload, EventPayload}
use auticuro.Errors.{Error, common_error, conflict_dedup_id}
use auticuro.Decimal.{BigDecimal}
use auticuro.Keys.{dedup_key, event_key}
use auticuro.Keys.RaftLog.{read_whole}
use auticuro.Storage.{Storage, StorageLaws, read_seq_num_from_db, read_event_from_db, from_bytes}
use auticuro.Internal.{command_id, set_header, types_match, assert_command_and_event_match}
use auticuro.StateMachine.{
  World, Position, update_account, delete_account, send_event, get_seq_num, get_event,
}
use auticuro.StateMachine.Handlers.{next_seq_num, update_accounts}
use auticuro.StateMachine.Commands.{finish_command, handle_command, update_seq_num_and_event}
use auticuro.StateMachine.Flush.{flushed}
use auticuro.StateMachine.Commit.Shape.{Commit, updates, deletes}
use auticuro.StateMachine.Sync.Invariant.{Synced}
use auticuro.StateMachine.Sync.Steps.{last_seq_num-Commit}

module _ (bd : BigDecimal) (st : Storage) where
  -- The command id leads to a sequence number, and that to the event.
  pub record Remembers (w : World bd st) (id : Str) (ev : Event) : Type 0 where
    pub seq : ℕ
    pub bounded : seq ≤ w.machine.last_seq_num
    pub small : w.machine.last_seq_num < 2 ^ 64
    pub by_id : get_seq_num bd st w.machine id ≡ some (some seq)
    pub stored : get_event bd st w.machine seq ≡ some (some ev)

  -- What a duplicate does: it is answered, and nothing else.
  abbrev pub answered :
      World bd st → ℕ → ℕ → Result (Error bd.ParseBigDecimalError) Event → World bd st
  answered w log_index offset ev = record w {
    context = send_event w.context (record { log_index = log_index; offset = offset }) ev;
  }

  -- A command whose id is remembered with an event gets that event, if it is of the type that the
  -- event answers, and an error if not; both have a payload. In both cases the machine and the
  -- batch stay as they are.
  pub duplicate-answered :
      (w : World bd st) (log_index offset : ℕ) (c : Command) (ev : Event) (p : CommandPayload)
      (t : EventPayload)
      → Remembers w (command_id c) ev
      → c.payload ≡ some p
      → ev.payload ≡ some t
      → handle_command bd st w log_index offset c
        ≡ some (
            answered w log_index offset (
              if types_match p t
              then ok ev
              else err (common_error (conflict_dedup_id (command_id c)))))
  unfolding handle_command assert_command_and_event_match
  duplicate-answered w li off c ev p t m hp ht = ground (arith, m.by_id, m.stored)

  -- The values that a flush reads back.
  pub flush_seq :
      (laws : StorageLaws st) (w : World bd st) (now : ℕ) (id : Str) (seq : ℕ)
      → Synced bd st w
      → seq < 2 ^ 64
      → get_seq_num bd st w.machine id ≡ some (some seq)
      → get_seq_num bd st (flushed bd st w now).machine id ≡ some (some seq)
  unfolding get_seq_num flushed read_seq_num_from_db from_bytes get
  flush_seq laws w now id seq s small h =
      let read =
        laws.rocks.get-write w.machine.rocksdb_state w.context.wb (dedup_key id)
        ∙ s.seq_nums id (st.rocks.get_opt w.machine.rocksdb_state (dedup_key id)) in
      ground (arith, read, laws.be.length-write seq, read_whole st.be laws.be seq small)

  pub flush_event :
      (laws : StorageLaws st) (w : World bd st) (now : ℕ) (seq : ℕ) (ev : Event)
      → Synced bd st w
      → seq < 2 ^ 64
      → get_event bd st w.machine seq ≡ some (some ev)
      → get_event bd st (flushed bd st w now).machine seq ≡ some (some ev)
  unfolding get_event flushed read_event_from_db get
  flush_event laws w now seq ev s small h =
      let read =
        laws.rocks.get-write w.machine.rocksdb_state w.context.wb (event_key (st.be.write_u64 seq))
        ∙ s.events seq (st.rocks.get_opt w.machine.rocksdb_state (event_key (st.be.write_u64 seq)))
            small in
      ground (arith, read, laws.pb.parse-event_bytes ev)

  pub Remembers-flushed :
      (laws : StorageLaws st) (w : World bd st) (now : ℕ) (id : Str) (ev : Event)
      → Synced bd st w
      → Remembers w id ev
      → Remembers (flushed bd st w now) id ev
  Remembers-flushed laws w now id ev s m = record {
    seq = m.seq;
    bounded = (unfold flushed in m.bounded);
    small = (unfold flushed in m.small);
    by_id = flush_seq laws w now id m.seq s (omega (arith, m.bounded, m.small)) m.by_id;
    stored = flush_event laws w now m.seq ev s (omega (arith, m.bounded, m.small)) m.stored;
  }

  -- What the accesses read: the caches and the database.
  abbrev pub SameReads : World bd st → World bd st → Type 0
  SameReads w w' =
      (w'.machine.seq_num_cache ≡ w.machine.seq_num_cache)
      × (w'.machine.event_cache ≡ w.machine.event_cache)
      × (w'.machine.rocksdb_state ≡ w.machine.rocksdb_state)

  update_accounts-SameReads :
      (accs : List Account) (w : World bd st) → SameReads w (update_accounts bd st w accs)
  unfolding update_accounts update_account
  update_accounts-SameReads [] w = (refl, refl, refl)
  update_accounts-SameReads (a ∷ accs) w = update_accounts-SameReads accs (update_account bd st w a)

  pub Commit-SameReads : {w w' : World bd st} → Commit bd st w w' → SameReads w w'
  unfolding delete_account
  Commit-SameReads {w} (updates accs alive) = update_accounts-SameReads accs (next_seq_num bd st w)
  Commit-SameReads {w} (deletes a alive gone) = (refl, refl, refl)

  -- A new command with another id leaves what is remembered.
  pub Remembers-stored :
      (w w1 : World bd st) (id other : Str) (ev new : Event)
      → w.machine.last_seq_num + 1 < 2 ^ 64
      → Commit bd st w w1
      → other ≢ id
      → Remembers w id ev
      → Remembers (update_seq_num_and_event bd st w1 other new) id ev
  Remembers-stored w w1 id other ev new room c ne m =
      let (a, b, d) = Commit-SameReads c in
      let last = last_seq_num-Commit bd st c in
      record {
        seq = m.seq;
        bounded = (unfold update_seq_num_and_event in omega (arith, last, m.bounded));
        small = (unfold update_seq_num_and_event in omega (arith, last));
        by_id =
            (unfold update_seq_num_and_event get_seq_num in
              ground (
                arith,
                m.by_id,
                a,
                d,
                get-insert other id w1.machine.last_seq_num w1.machine.seq_num_cache,
                bytes_eq_iff other id,
              ));
        stored =
            (unfold update_seq_num_and_event get_event in
              ground (
                arith,
                m.stored,
                b,
                d,
                last,
                m.bounded,
                get-insert w1.machine.last_seq_num m.seq new w1.machine.event_cache,
              ));
      }

  -- A first execution that succeeds is remembered, with the event that was sent.
  pub first-Remembers :
      (w1 : World bd st) (position : Position) (c : Command) (ev : Event)
      → w1.machine.last_seq_num < 2 ^ 64
      → Remembers
          (finish_command bd st position c (ok ev, w1))
          (command_id c)
          (set_header ev c.header position.log_index position.offset w1.machine.last_seq_num)
  unfolding finish_command get_seq_num get_event
  first-Remembers w1 position c ev small = record {
    seq = w1.machine.last_seq_num;
    bounded = omega arith;
    small = small;
    by_id =
        ground
          (arith, get-insert_self (command_id c) w1.machine.last_seq_num w1.machine.seq_num_cache);
    stored = ground (
      arith,
      get-insert_self w1.machine.last_seq_num
          (set_header ev c.header position.log_index position.offset w1.machine.last_seq_num)
          w1.machine.event_cache,
    );
  }
