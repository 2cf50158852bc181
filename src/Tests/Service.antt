-- ===== src/Tests/Service.antt =====
-- Examples for service.rs.
use auticuro.Prelude.{inl, ◌≡◌, ◌≤◌, ◌<◌, ℕ, refl, Str, bytes, ok, none, some, [], arith, Bytes_eq}
use auticuro.Prelude.Map.{get}
use auticuro.Proto.{Account, Balance}
use auticuro.Errors.{Error, common_error, data_not_ready}
use auticuro.Errors.Wire.{into_proto}
use auticuro.Decimal.Whole.{whole}
use auticuro.Storage.Memory.{memory, memory-laws}
use auticuro.Storage.{read_seq_num_from_db}
use auticuro.StateMachine.{get_seq_num}
use auticuro.StateMachine.Commands.{handle_command}
use auticuro.StateMachine.Sync.Total.{IsConsistent, handle_command_total}
use auticuro.StateMachine.Flush.{flushed}
use auticuro.StateMachine.Sync.Steps.{here, next, flush}
use auticuro.Service.Reads.{get_account, query_balance}
use auticuro.Service.Reads.Fresh.{ask, get_account-fresh}
use auticuro.Service.Writes.{MessageQueue, Broker}
use auticuro.Service.Writes.Served.{IsServed, sent_event, dispatch-IsServed}
use auticuro.Tests.Setup.{
  create, Wallet, start, start-Synced, payload, created, creation, dispatch_run, first,
  first-Synced, first_last,
}

-- The texts of errors do not matter here.
abbrev no_text : Error whole.ParseBigDecimalError → Str
no_text err = []

abbrev same_text : Str → Str
same_text s = s

-- After the first command and a flush; a client has seen that the number is 1.
abbrev seen : Wallet
seen = flushed whole memory first 3

get_account-fresh_example :
    (1 ≤ (get_account no_text same_text memory seen.machine (ask 1 (bytes "a"))).seq_num)
    × ((get_account no_text same_text memory seen.machine (ask 1 (bytes "a"))).seq_num
        ≡ (query_balance no_text same_text memory seen.machine (ask 1 (bytes "a"))).seq_num)
    × ((get_account no_text same_text memory seen.machine (ask 1 (bytes "a"))).account
        ≡ get seen.machine.accounts (bytes "a"))
    × ((a : Account)
        → get seen.machine.accounts (bytes "a") ≡ some a
        → ((get_account no_text same_text memory seen.machine (ask 1 (bytes "a"))).error ≡ none)
          × ((query_balance no_text same_text memory seen.machine (ask 1 (bytes "a"))).error ≡ none)
          × ((query_balance no_text same_text memory seen.machine (ask 1 (bytes "a"))).balance
              ≡ some a.balance))
    × ((m : ℕ) (a : Account)
        → (get_account no_text same_text memory seen.machine (ask m (bytes "a"))).account ≡ some a
        → (m ≤ seen.machine.last_seq_num) × (get seen.machine.accounts (bytes "a") ≡ some a))
    × ((m : ℕ) (b : Balance)
        → (query_balance no_text same_text memory seen.machine (ask m (bytes "a"))).balance ≡ some b
        → (m ≤ seen.machine.last_seq_num)
          × ((a : Account) × (get seen.machine.accounts (bytes "a") ≡ some a) × (a.balance ≡ b)))
    × ((m : ℕ)
        → seen.machine.last_seq_num < m
        → let e =
            into_proto no_text same_text
              (common_error (data_not_ready m seen.machine.last_seq_num)) in
          ((get_account no_text same_text memory seen.machine (ask m (bytes "a"))).error ≡ some e)
          × ((get_account no_text same_text memory seen.machine (ask m (bytes "a"))).account ≡ none)
          × ((query_balance no_text same_text memory seen.machine (ask m (bytes "a"))).error
              ≡ some e)
          × ((query_balance no_text same_text memory seen.machine (ask m (bytes "a"))).balance
              ≡ none))
get_account-fresh_example =
    get_account-fresh whole memory memory-laws no_text same_text first seen 1 (bytes "a")
      first-Synced (next here (flush 3)) (omega (arith, first_last))

abbrev later : Wallet
later = flushed whole memory start 3

abbrev queue : MessageQueue
queue command = ok (6, 0)

abbrev broker : Broker whole.ParseBigDecimalError
broker position = ok (sent_event payload 7 6 0 created.machine.last_seq_num creation)

dispatch-IsServed_example : IsServed whole memory no_text same_text queue broker 7 payload
dispatch-IsServed_example =
    dispatch-IsServed whole memory no_text same_text queue broker start payload 7 6 0 creation
      created refl dispatch_run refl

start-IsConsistent : IsConsistent whole memory start
unfolding get_seq_num get read_seq_num_from_db
start-IsConsistent id = inl refl

handle_command_total_example :
    (v' : Wallet) × (handle_command whole memory later 6 0 create ≡ some v')
handle_command_total_example =
    handle_command_total whole memory memory-laws start later 6 0 create payload start-Synced
      start-IsConsistent (next here (flush 3)) refl
