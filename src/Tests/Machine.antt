-- ===== src/Tests/Machine.antt =====
-- Examples for state_machine.rs, over whole numbers and the storage in memory.
use auticuro.Prelude.{
  ℕ, List, ◌≡◌, ◌≢◌, refl, Str, bytes, bytes_eq, ok, err, none, some, [], ◌∷◌, ◌++◌, arith,
  Bytes_eq, ap, false_ne_true,
}
use auticuro.Prelude.Int.{ℤ, ◌+ℤ◌, neg_ℤ}
use auticuro.Prelude.Map.{Map, get, insert}
use auticuro.Proto.{
  Account, Event, Command, CommandPayload, lock_account_request, UpdateAccountConfigRequest,
  TransferRequest, deleted,
}
use auticuro.Errors.{account_management_error, AccountManagementError}
use auticuro.Decimal
use auticuro.Decimal.Laws.{Denotes}
use auticuro.Decimal.Whole.{whole, whole-laws, from_str, to_string}
use auticuro.Keys.{data_key}
use auticuro.Storage.{read_seq_num_from_db}
use auticuro.Storage.Memory.{memory, memory-laws}
use auticuro.Account.{new, with_available, default_config}
use auticuro.Internal.{build_transfer_event}
use auticuro.StateMachine.{
  get_seq_num, World, Position, inc_u64, update_account, delete_account, recover_from_db,
  assert_account_exists,
}
use auticuro.StateMachine.Handlers.{
  handle_create_account, create_updates, handle_lock_account, lock_updates, next_seq_num,
  handle_transfer, handle_update_account_config,
}
use auticuro.StateMachine.Commands.{
  handle_new_command, dispatch, handle_command, finish_command, finish_entry, apply_entry,
  maybe_handle_duplicate_command,
}
use auticuro.StateMachine.Flush.{flushed, ApplyLoop, receive_entries}
use auticuro.StateMachine.Commit.Shape.{Commit, dispatch-err}
use auticuro.StateMachine.Commit.Updates.{dispatch-Commit}
use auticuro.StateMachine.Commit.Answers.{Answers, dispatch-Answers}
use auticuro.StateMachine.Sync.Invariant.{Synced, Synced-update_account, Synced-delete_account}
use auticuro.StateMachine.Sync.Steps.{flush, here, next, Reach-Synced}
use auticuro.StateMachine.Sync.Dedup.{answered}
use auticuro.StateMachine.Sync.Once.{exactly_once, first_world, stamped}
use auticuro.StateMachine.Sync.Recovery.{recovered, persisted, recover_from_db-flushed}
use auticuro.StateMachine.Transfer.{Available, handle_transfer-conserves, handle_transfer-to_itself}
use auticuro.StateMachine.Tombstones.{handle_update_account_config-revives}
use auticuro.StateMachine.Positions.{answered_at, all_positions}
use auticuro.StateMachine.Answering.{Answer, sent}
use auticuro.StateMachine.Entries.{EntriesAnswered, receive_entries-answers}
use auticuro.Tests.Setup.{
  Wallet, start, start-Synced, request, payload, create, created, creation, dispatch_run, new_run,
  again, create_step, first, first-Synced, first_last,
}

exactly_once_example :
    (handle_command whole memory start 6 0 create
      ≡ some (first_world whole memory start 6 0 create payload))
    × (handle_command whole memory
          (flushed whole memory (first_world whole memory start 6 0 create payload) 3)
          8
          1
          again
        ≡ some (
            answered whole memory
              (flushed whole memory (first_world whole memory start 6 0 create payload) 3)
              8
              1
              (ok (stamped whole memory created 6 0 create creation))))
exactly_once_example =
    exactly_once whole memory memory-laws start created
      (flushed whole memory (first_world whole memory start 6 0 create payload) 3) 6 0 8 1 create
      again payload creation start-Synced (omega arith) new_run refl tt dispatch_run
      (next here (flush 3)) refl refl

Reach-Synced_example :
    Synced whole memory (flushed whole memory (first_world whole memory start 6 0 create payload) 3)
Reach-Synced_example =
    Reach-Synced whole memory memory-laws start (next (next here create_step) (flush 3))
      start-Synced

abbrev lock_missing : CommandPayload
lock_missing = lock_account_request (record { header = request.header })

lock_run :
    dispatch whole memory start lock_missing 6 0
    ≡ (err (account_management_error (AccountManagementError.account_not_exist (bytes "a"))), start)
unfolding dispatch handle_lock_account lock_updates assert_account_exists get
lock_run = refl

dispatch-err_example : start ≡ start
dispatch-err_example = dispatch-err whole memory start lock_missing 6 0 lock_run

dispatch-Answers_example : Answers payload creation
dispatch-Answers_example =
    dispatch-Answers whole memory start payload 6 0 creation created dispatch_run

dispatch-Commit_example : Commit whole memory start created
dispatch-Commit_example =
    dispatch-Commit whole memory start payload 6 0 creation created start-Synced.keyed tt
      dispatch_run

-- The flush after the entry of the first command, and the restart.
recover_from_db-flushed_example :
    (m : Map Str Account) × (recover_from_db whole memory
        (persisted whole memory first 6 3).machine.rocksdb_state
        10
        4
      ≡ some (
          recovered whole memory
            (persisted whole memory first 6 3).machine.rocksdb_state
            m
            6
            first.machine.last_seq_num
            10
            4))
    × ((id : Str) → get m id ≡ get (persisted whole memory first 6 3).machine.accounts id)
    × Synced whole memory (
        recovered whole memory
          (persisted whole memory first 6 3).machine.rocksdb_state
          m
          6
          first.machine.last_seq_num
          10
          4)
recover_from_db-flushed_example =
    recover_from_db-flushed whole memory memory-laws first 6 3 10 4 first-Synced (omega arith)
      (omega (arith, first_last))

-- Two accounts: ten in `a`, nothing in `b`.
abbrev both : Wallet
both =
    update_account whole memory
      (update_account whole memory start (with_available (new (bytes "a")) (bytes "10")))
      (new (bytes "b"))

both-Synced : Synced whole memory both
unfolding update_account
both-Synced =
    Synced-update_account whole memory
      (update_account whole memory start (with_available (new (bytes "a")) (bytes "10")))
      (new (bytes "b")) refl
      (Synced-update_account whole memory start (with_available (new (bytes "a")) (bytes "10")) refl
        start-Synced)

abbrev transfer : Str → TransferRequest
transfer to = record {
  dedup_id = bytes "t";
  transfer_spec = record {
    amount = bytes "3";
    from_account_id = bytes "a";
    to_account_id = to;
    metadata = [];
  };
}

abbrev moved : Str → Str → Wallet
moved to sum =
    update_account whole memory
      (update_account whole memory (next_seq_num whole memory both) (with_available (new to) sum))
      (with_available (new (bytes "a")) (bytes "7"))

abbrev moved_event : Str → Str → Str → Event
moved_event to before sum =
    build_transfer_event 1 6 0 (transfer to)
      (record {
        account_id = bytes "a";
        prev_balance = (with_available (new (bytes "a")) (bytes "10")).balance;
        curr_balance = (with_available (new (bytes "a")) (bytes "7")).balance;
      })
      (record {
        account_id = to;
        prev_balance = (with_available (new to) before).balance;
        curr_balance = (with_available (new to) sum).balance;
      })

transfer_run :
    handle_transfer whole memory both (transfer (bytes "b")) 6 0
    ≡ (ok (moved_event (bytes "b") (bytes "0.0") (bytes "3")), moved (bytes "b") (bytes "3"))
unfolding handle_transfer auticuro.StateMachine.Handlers.transfer_updates
    auticuro.Account.validate_asset_class_compatibility auticuro.StateMachine.get_or_create_account
    get update_account insert bytes_eq auticuro.Account.increase_balance_by
    auticuro.Account.assert_state_is_normal Decimal.add from_str
    auticuro.Account.validate_balance_limitation Decimal.neg to_string neg_ℤ ◌+ℤ◌
transfer_run = refl

a_ne_b : bytes "a" ≢ bytes "b"
unfolding bytes_eq
a_ne_b e = false_ne_true (ap (λ s. bytes_eq s (bytes "b")) e)

handle_transfer-conserves_example :
    (x : ℤ) × (y : ℤ) × (z : ℤ) × Available whole memory whole-laws both.machine (bytes "a") x
    × Available whole memory whole-laws both.machine (bytes "b") y
    × Denotes whole-laws (bytes "3") z
    × Available whole memory whole-laws
        (moved (bytes "b") (bytes "3")).machine
        (bytes "a")
        (x +ℤ neg_ℤ z)
    × Available whole memory whole-laws (moved (bytes "b") (bytes "3")).machine (bytes "b") (y +ℤ z)
    × ((x +ℤ neg_ℤ z) +ℤ (y +ℤ z) ≡ x +ℤ y)
    × ((id : Str)
        → id ≢ bytes "a"
        → id ≢ bytes "b"
        → get (moved (bytes "b") (bytes "3")).machine.accounts id ≡ get both.machine.accounts id)
    × ((moved (bytes "b") (bytes "3")).machine.last_seq_num ≡ inc_u64 both.machine.last_seq_num)
handle_transfer-conserves_example =
    handle_transfer-conserves whole memory whole-laws both (transfer (bytes "b")) 6 0
      (moved_event (bytes "b") (bytes "0.0") (bytes "3")) (moved (bytes "b") (bytes "3"))
      both-Synced.keyed a_ne_b transfer_run

itself_run :
    handle_transfer whole memory both (transfer (bytes "a")) 6 0
    ≡ (ok (moved_event (bytes "a") (bytes "10") (bytes "13")), moved (bytes "a") (bytes "13"))
unfolding handle_transfer auticuro.StateMachine.Handlers.transfer_updates
    auticuro.Account.validate_asset_class_compatibility auticuro.StateMachine.get_or_create_account
    get update_account insert bytes_eq auticuro.Account.increase_balance_by
    auticuro.Account.assert_state_is_normal Decimal.add from_str
    auticuro.Account.validate_balance_limitation Decimal.neg to_string neg_ℤ ◌+ℤ◌
itself_run = refl

handle_transfer-to_itself_example :
    (x : ℤ) × (z : ℤ) × Available whole memory whole-laws both.machine (bytes "a") x
    × Denotes whole-laws (bytes "3") z
    × Available whole memory whole-laws
        (moved (bytes "a") (bytes "13")).machine
        (bytes "a")
        (x +ℤ neg_ℤ z)
    × ((id : Str)
        → id ≢ bytes "a"
        → get (moved (bytes "a") (bytes "13")).machine.accounts id ≡ get both.machine.accounts id)
handle_transfer-to_itself_example =
    handle_transfer-to_itself whole memory whole-laws both (transfer (bytes "a")) 6 0
      (moved_event (bytes "a") (bytes "10") (bytes "13")) (moved (bytes "a") (bytes "13"))
      both-Synced.keyed refl itself_run

entry_run :
    apply_entry whole memory start 6 (create ∷ []) ≡ some (finish_entry whole memory first 6)
unfolding apply_entry auticuro.StateMachine.Commands.handle_commands handle_command get_seq_num get
    read_seq_num_from_db
entry_run = refl

abbrev loop_at : Wallet → ℕ → ApplyLoop whole memory
loop_at w n = record { world = w; applied_index = n }

-- The command, and the same one again in the same entry.
abbrev two_entries : List (ℕ × List Command)
two_entries = (6, create ∷ again ∷ []) ∷ []

abbrev both_done : Wallet
both_done =
    finish_entry whole memory
      (answered whole memory first 6 1 (ok (stamped whole memory created 6 0 create creation))) 6

entries_run :
    receive_entries whole memory (loop_at start 5) two_entries ≡ some (loop_at both_done 6)
unfolding receive_entries auticuro.StateMachine.Flush.receive_entry apply_entry
    auticuro.StateMachine.Commands.handle_commands handle_command get_seq_num get
    read_seq_num_from_db finish_command handle_create_account create_updates insert bytes_eq
    auticuro.StateMachine.get_event update_account auticuro.Internal.assert_command_and_event_match
    maybe_handle_duplicate_command auticuro.Internal.types_match dispatch
entries_run = refl

receive_entries-answers_example :
    (answered_at whole memory both_done
      ≡ answered_at whole memory start ++ all_positions two_entries)
    × ((events : List (Answer whole memory)) × (sent whole memory both_done
          ≡ sent whole memory start ++ events)
        × EntriesAnswered whole memory start two_entries events both_done)
receive_entries-answers_example =
    receive_entries-answers whole memory two_entries (loop_at start 5) (loop_at both_done 6)
      entries_run

-- An account that was just deleted.
abbrev without : Wallet
without = delete_account whole memory start (record (new (bytes "a")) { state = deleted })

without-Synced : Synced whole memory without
without-Synced =
    Synced-delete_account whole memory start (record (new (bytes "a")) { state = deleted }) refl
      start-Synced

abbrev config_request : UpdateAccountConfigRequest
config_request = record {
  header = record { dedup_id = bytes "c"; account_id = bytes "a" };
  balance_limit = record { upper = bytes "5"; lower = bytes "0" };
}

handle_update_account_config-revives_example :
    (ev : Event) × (w' : Wallet) × (a : Account) × (handle_update_account_config whole memory
        without config_request 7 0
      ≡ (ok ev, w'))
    × (a.state ≡ deleted)
    × (get (flushed whole memory w' 3).machine.accounts (bytes "a") ≡ none)
    × (memory.rocks.get_opt (flushed whole memory w' 3).machine.rocksdb_state (data_key (bytes "a"))
        ≡ some (memory.pb.account_bytes a))
unfolding delete_account bytes_eq
handle_update_account_config-revives_example =
    handle_update_account_config-revives whole memory memory-laws without config_request 7 0 3
      without-Synced refl
