-- ===== src/Tests/Setup.antt =====
-- A first command on an empty database, on which the examples build.
use auticuro.Prelude.{◌≡◌, refl, bytes, ok, none, some, [], Bytes_eq, subst, some_injective, arith}
use auticuro.Prelude.Map.{get}
use auticuro.Proto.{Event, Command, CommandPayload, create_account_request, CreateAccountRequest}
use auticuro.Decimal.Whole.{whole}
use auticuro.Storage.{read_seq_num_from_db}
use auticuro.Storage.Memory.{memory, memory-laws}
use auticuro.Account.{new, default_config}
use auticuro.Internal.{build_create_account_event, build_command_header}
use auticuro.StateMachine.{get_seq_num, World, update_account}
use auticuro.StateMachine.Handlers.{handle_create_account, create_updates, next_seq_num}
use auticuro.StateMachine.Commands.{finish_command, dispatch, maybe_handle_duplicate_command}
use auticuro.StateMachine.Commit.Shape.{IsSafe}
use auticuro.StateMachine.Sync.Steps.{Step, command, here, next, Reach-Synced}
use auticuro.StateMachine.Sync.Once.{handle_first, first_world}
use auticuro.StateMachine.Sync.Invariant.{Synced}
use auticuro.StateMachine.Sync.Recovery.{recovered, Synced-empty}

abbrev pub Wallet : Type 0
Wallet = World whole memory

-- The state over an empty database.
abbrev pub start : Wallet
start = recovered whole memory [] [] 5 0 10 0

pub start-Synced : Synced whole memory start
unfolding get
start-Synced = Synced-empty whole memory [] 10 0 5 0 (λ id. refl)

abbrev pub request : CreateAccountRequest
request = record {
  header = record { dedup_id = bytes "p"; account_id = bytes "a" };
  account_config = default_config;
}

abbrev pub payload : CommandPayload
payload = create_account_request request

abbrev pub create : Command
create = record { header = build_command_header (bytes "p") 7; payload = some payload }

abbrev pub created : Wallet
created = update_account whole memory (next_seq_num whole memory start) (new (bytes "a"))

abbrev pub creation : Event
creation = build_create_account_event created.machine.last_seq_num 6 0 request (new (bytes "a"))

pub dispatch_run : dispatch whole memory start payload 6 0 ≡ (ok creation, created)
unfolding dispatch handle_create_account create_updates get
dispatch_run = refl

pub new_run : maybe_handle_duplicate_command whole memory start.machine create ≡ some none
unfolding maybe_handle_duplicate_command get_seq_num get read_seq_num_from_db
new_run = refl

abbrev pub again : Command
again = record {
  header = record { command_id = bytes "p"; process_time_in_sec = 9 };
  payload = some payload;
}

-- The first command, as a step.
pub create_step : Step whole memory start (first_world whole memory start 6 0 create payload)
create_step =
    command 6 0 create (omega arith)
      (λ p e. subst (IsSafe start.machine.accounts) (some_injective {a = payload} {b = p} e) tt)
      (handle_first whole memory start 6 0 create payload new_run refl)

abbrev pub first : Wallet
first = first_world whole memory start 6 0 create payload

pub first-Synced : Synced whole memory first
first-Synced = Reach-Synced whole memory memory-laws start (next here create_step) start-Synced

pub first_last : first.machine.last_seq_num ≡ 1
unfolding dispatch finish_command handle_create_account create_updates get update_account
first_last = refl
