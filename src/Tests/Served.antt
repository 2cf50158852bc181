-- ===== src/Tests/Served.antt =====
-- An example for the wallet behind the queue.
use auticuro.Prelude.{◌≡◌, refl, ◌++◌, some, [], ◌∷◌, inl, arith}
use auticuro.Prelude.Map.{get}
use auticuro.Decimal.Whole.{whole}
use auticuro.Storage.{read_seq_num_from_db}
use auticuro.Storage.Memory.{memory, memory-laws}
use auticuro.StateMachine.{get_seq_num}
use auticuro.StateMachine.Positions.{answered_at, all_positions}
use auticuro.StateMachine.Flush.{ApplyLoop, receive_entries}
use auticuro.StateMachine.Sync.Invariant.{Synced}
use auticuro.StateMachine.Sync.Steps.{here}
use auticuro.StateMachine.Sync.Consumes.{IsPlain, receive_entries-served}
use auticuro.StateMachine.Sync.Total.{IsConsistent}
use auticuro.Tests.Setup.{start, start-Synced, create, payload}

abbrev ready : ApplyLoop whole memory
ready = record { world = start; applied_index = 5 }

start-IsConsistent : IsConsistent whole memory start
unfolding get_seq_num get read_seq_num_from_db
start-IsConsistent id = inl refl

create-IsPlain : IsPlain create
create-IsPlain = (payload, refl, λ m. tt)

receive_entries-served_example :
    (l' : ApplyLoop whole memory) × (receive_entries whole memory ready
        ((6, create ∷ []) ∷ (7, []) ∷ [])
      ≡ some l')
    × (l'.applied_index ≡ 7)
    × (l'.world.machine.applied_index ≡ l'.applied_index)
    × (answered_at whole memory l'.world
        ≡ answered_at whole memory start ++ all_positions ((6, create ∷ []) ∷ (7, []) ∷ []))
    × Synced whole memory l'.world
receive_entries-served_example =
    receive_entries-served whole memory memory-laws start start-Synced start-IsConsistent
      ((6, create ∷ []) ∷ (7, []) ∷ []) ready here refl (refl, (create-IsPlain, tt), (refl, tt, tt))
      (omega arith) (omega arith)
