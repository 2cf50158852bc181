-- ===== src/StateMachine/Commands.antt =====
-- state_machine.rs: `handle_command`, with its duplicate check, and `apply_entry`. `none` is a
-- panic.
use auticuro.Prelude.{
  ℕ, ◌+◌, Str, [], ◌∷◌, List, Option, none, some, ok, err, ◌>>?◌, ◌==◌, assert, Bytes_eq, ℕ_eq,
}
use auticuro.Prelude.Map.{insert}
use auticuro.Proto.{
  Event, Command, CommandPayload, transfer_request, batch_balance_operation_request,
  reserve_request, release_request, create_account_request, delete_account_request,
  lock_account_request, unlock_account_request, update_account_config_request,
}
use auticuro.Decimal.{BigDecimal}
use auticuro.Keys.{dedup_key, event_key}
use auticuro.Storage.{Storage, put, applied_index_kind, persisted_last_seq_num}
use auticuro.Internal.{assert_command_and_event_match, set_header, command_id}
use auticuro.StateMachine.{
  StateMachine, World, Position, inc_u64, get_event, get_seq_num, send_event,
}
use auticuro.StateMachine.Handlers.{
  Res, Handled, handle_transfer, handle_batch_balance_operation, handle_reserve, handle_release,
  handle_create_account, handle_lock_account, handle_unlock_account, handle_delete_account,
  handle_update_account_config,
}

module _ (bd : BigDecimal) (st : Storage) where
  -- The match on the payload.
  unfoldable pub dispatch : World bd st → CommandPayload → ℕ → ℕ → Handled bd st
  dispatch w (transfer_request request) log_index offset =
      handle_transfer bd st w request log_index offset
  dispatch w (reserve_request request) log_index offset =
      handle_reserve bd st w request log_index offset
  dispatch w (release_request request) log_index offset =
      handle_release bd st w request log_index offset
  dispatch w (batch_balance_operation_request request) log_index offset =
      handle_batch_balance_operation bd st w request log_index offset
  dispatch w (create_account_request request) log_index offset =
      handle_create_account bd st w request log_index offset
  dispatch w (lock_account_request request) log_index offset =
      handle_lock_account bd st w request log_index offset
  dispatch w (unlock_account_request request) log_index offset =
      handle_unlock_account bd st w request log_index offset
  dispatch w (delete_account_request request) log_index offset =
      handle_delete_account bd st w request log_index offset
  dispatch w (update_account_config_request request) log_index offset =
      handle_update_account_config bd st w request log_index offset

  -- The stored event of a command that was seen before, or the error that it is of another type.
  unfoldable pub maybe_handle_duplicate_command :
      StateMachine st → Command → Option (Option (Res bd st Event))
  maybe_handle_duplicate_command self command =
      get_seq_num bd st self (command_id command) >>? λ found. elim found [
        | none ↦ some none
        | some seq_num ↦ get_event bd st self seq_num >>? λ stored. stored >>? λ event.
            assert_command_and_event_match command event >>? λ result. some (some result)
      ]

  unfoldable pub update_seq_num_and_event : World bd st → Str → Event → World bd st
  update_seq_num_and_event w command_id event =
      let seq_num = w.machine.last_seq_num in
      let seq_num_bytes = st.be.write_u64 seq_num in
      record {
        machine = record w.machine {
          seq_num_cache = insert command_id seq_num w.machine.seq_num_cache;
          event_cache = insert seq_num event w.machine.event_cache;
        };
        context = record w.context {
          wb =
              put (event_key seq_num_bytes) (st.pb.event_bytes event)
                (put (dedup_key command_id) seq_num_bytes w.context.wb);
        };
      }

  -- What follows the handler: the event gets its header, is stored, and is sent.
  unfoldable pub finish_command : Position → Command → Handled bd st → World bd st
  unfolding update_seq_num_and_event
  finish_command position command (err e, w) = record w {
    context = send_event w.context position (err e);
  }
  finish_command position command (ok event, w) =
      let stamped =
        set_header event command.header position.log_index position.offset w.machine.last_seq_num in
      let w1 = update_seq_num_and_event w (command_id command) stamped in
      record w1 { context = send_event w1.context position (ok stamped) }

  -- What a command does that was not seen before.
  unfoldable pub handle_new_command : World bd st → ℕ → ℕ → Command → Option (World bd st)
  unfolding dispatch
  handle_new_command w log_index offset command = command.payload >>? λ payload. some (
      finish_command (record { log_index = log_index; offset = offset }) command
        (dispatch w payload log_index offset))

  unfoldable pub handle_command : World bd st → ℕ → ℕ → Command → Option (World bd st)
  unfolding maybe_handle_duplicate_command handle_new_command
  handle_command w log_index offset command =
      maybe_handle_duplicate_command w.machine command >>? λ duplicate. elim duplicate [
        | some event ↦ some (record w {
          context = send_event w.context (record { log_index = log_index; offset = offset }) event;
        })
        | none ↦ handle_new_command w log_index offset command
      ]

  -- The loop over the commands of one entry; `offset` counts them.
  unfoldable pub handle_commands : World bd st → ℕ → ℕ → List Command → Option (World bd st)
  handle_commands w log_index offset [] = some w
  handle_commands w log_index offset (command ∷ commands) =
      elim (handle_command w log_index offset command) [
        | none ↦ none
        | some w1 ↦ handle_commands w1 log_index (offset + 1) commands
      ]

  -- After the commands: the new applied index, and both hard states in the batch.
  unfoldable pub finish_entry : World bd st → ℕ → World bd st
  finish_entry w log_index = record {
    machine = record w.machine { applied_index = log_index };
    context = record w.context {
      wb =
          put persisted_last_seq_num.key (st.be.write_u64 w.machine.last_seq_num)
            (put applied_index_kind.key (st.be.write_u64 log_index) w.context.wb);
    };
  }

  unfoldable pub apply_entry : World bd st → ℕ → List Command → Option (World bd st)
  unfolding finish_entry
  apply_entry w log_index commands = assert (inc_u64 w.machine.applied_index == log_index) >>? λ _.
      handle_commands w log_index 0 commands >>? λ w1. some (finish_entry w1 log_index)
