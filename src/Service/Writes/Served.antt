-- ===== src/Service/Writes/Served.antt =====
-- The answer to a write request that was applied.
use auticuro.Prelude.{
  ℕ, Str, ◌≡◌, refl, ok, some, Option, arith, ap, sym, ◌∙◌, ok_injective, bytes_eq_iff, Bytes_eq,
}
use auticuro.Proto.{
  Event, Reply, CommandPayload, CommandHeader, create_account_request, lock_account_request,
  unlock_account_request, delete_account_request, update_account_config_request, reserve_request,
  release_request, batch_balance_operation_request, transfer_request,
}
use auticuro.Errors.{Error}
use auticuro.Decimal.{BigDecimal}
use auticuro.Storage.{Storage}
use auticuro.Internal.{from_payload, command_id, set_header}
use auticuro.StateMachine.{World}
use auticuro.StateMachine.Handlers.{
  Handled, Res, attempt, transfer_updates, batch_updates, reserve_updates, release_updates,
  create_updates, lock_updates, unlock_updates, delete_updates, config_updates, handle_transfer,
  handle_batch_balance_operation, handle_reserve, handle_release, handle_create_account,
  handle_lock_account, handle_unlock_account, handle_delete_account, handle_update_account_config,
}
use auticuro.StateMachine.Commands.{dispatch}
use auticuro.StateMachine.Commit.Shape.{attempt-eq-ok}
use auticuro.Service.Writes.{
  Broker, MessageQueue, Response, reply_response, serve, wait_for_response, create_account_response,
  create_account, lock_account_response, lock_account, unlock_account_response, unlock_account,
  delete_account_response, delete_account, update_account_config_response, update_account_config,
  reserve_response, reserve, release_response, release, batch_balance_operation_response,
  batch_balance_operation, transfer_response, transfer,
}

-- The client gets a reply to its own request, and no error.
abbrev pub IsReplyTo : {Request Body : Type 0} → Request → Option (Response Request Body) → Type 0
IsReplyTo {Request} {Body} request response =
    (reply : Reply Request Body) × (response ≡ some (reply_response reply))
    × (reply.request ≡ request)

-- The event that is sent for a command of the service.
abbrev pub sent_event : CommandPayload → ℕ → ℕ → ℕ → ℕ → Event → Event
sent_event p now log_index offset seq_num ev =
    set_header ev (from_payload p now).header log_index offset seq_num

module _ (bd : BigDecimal) (st : Storage) (debug : Error bd.ParseBigDecimalError → Str)
    (debug_str : Str → Str) (queue : MessageQueue) (broker : Broker bd.ParseBigDecimalError) where
  -- The handler of the payload's method answers with a reply.
  abbrev pub IsServed : ℕ → CommandPayload → Type 0
  IsServed now (create_account_request r) =
      IsReplyTo r (create_account debug debug_str queue broker r now)
  IsServed now (lock_account_request r) =
      IsReplyTo r (lock_account debug debug_str queue broker r now)
  IsServed now (unlock_account_request r) =
      IsReplyTo r (unlock_account debug debug_str queue broker r now)
  IsServed now (delete_account_request r) =
      IsReplyTo r (delete_account debug debug_str queue broker r now)
  IsServed now (update_account_config_request r) =
      IsReplyTo r (update_account_config debug debug_str queue broker r now)
  IsServed now (reserve_request r) = IsReplyTo r (reserve debug debug_str queue broker r now)
  IsServed now (release_request r) = IsReplyTo r (release debug debug_str queue broker r now)
  IsServed now (batch_balance_operation_request r) =
      IsReplyTo r (batch_balance_operation debug debug_str queue broker r now)
  IsServed now (transfer_request r) = IsReplyTo r (transfer debug debug_str queue broker r now)

  serve_lem :
      {R B : Type 0} (response : Event → Response R B) (p : CommandPayload)
      (now log_index offset : ℕ) (ev : Event)
      → queue (from_payload p now) ≡ ok (log_index, offset)
      → broker (record { log_index = log_index; offset = offset }) ≡ ok ev
      → ev.header.command_id ≡ command_id (from_payload p now)
      → serve debug debug_str queue broker response p now ≡ some (response ev)
  unfolding serve wait_for_response
  serve_lem response p now li off ev q b same =
      ground
        (arith, q, b, bytes_eq_iff ev.header.command_id (command_id (from_payload p now)), same)

  served :
      {A R B : Type 0} (response : Event → Response R B) (p : CommandPayload) (r : R)
      (now log_index offset : ℕ) (w : World bd st) (res : Res bd st A) (event : A → Event)
      (world : A → World bd st) (ev : Event) (w' : World bd st)
      → ((a : A) (header : CommandHeader) (n : ℕ)
          → IsReplyTo r (some (response (set_header (event a) header log_index offset n))))
      → attempt bd st w res (λ a. (ok (event a), world a)) ≡ (ok ev, w')
      → queue (from_payload p now) ≡ ok (log_index, offset)
      → broker (record { log_index = log_index; offset = offset })
        ≡ ok (sent_event p now log_index offset w'.machine.last_seq_num ev)
      → IsReplyTo r (serve debug debug_str queue broker response p now)
  served response p r now li off w res event world ev w' each h q b =
      let (a, _, e) = attempt-eq-ok bd st w res (λ a. (ok (event a), world a)) h in
      let same : event a ≡ ev = ok_injective (ap (λ (x : Handled bd st). x.0) e) in
      let (reply, x, y) = each a (from_payload p now).header w'.machine.last_seq_num in
      (
        reply,
        serve_lem response p now li off (sent_event p now li off w'.machine.last_seq_num ev) q b
              refl
            ∙ ap (λ v. some (response (sent_event p now li off w'.machine.last_seq_num v)))
                (sym same)
            ∙ x,
        y,
      )

  -- Each of the nine write requests: the queue puts the command at a position, the state machine
  -- handles it there with success, and the broker hands over the event that was sent for the
  -- position. Then the client gets a reply to its own request, and no error.
  pub dispatch-IsServed :
      (w : World bd st) (p : CommandPayload) (now log_index offset : ℕ) (ev : Event)
      (w' : World bd st)
      → queue (from_payload p now) ≡ ok (log_index, offset)
      → dispatch bd st w p log_index offset ≡ (ok ev, w')
      → broker (record { log_index = log_index; offset = offset })
        ≡ ok (sent_event p now log_index offset w'.machine.last_seq_num ev)
      → IsServed now p
  unfolding dispatch handle_transfer handle_batch_balance_operation handle_reserve handle_release
      handle_create_account handle_lock_account handle_unlock_account handle_delete_account
      handle_update_account_config
  dispatch-IsServed w (create_account_request r) now li off ev w' q h b =
      served create_account_response (create_account_request r) r now li off w
        (create_updates bd st w.machine r) _ _ ev w' (λ a header n. (_, refl, refl)) h q b
  dispatch-IsServed w (lock_account_request r) now li off ev w' q h b =
      served lock_account_response (lock_account_request r) r now li off w
        (lock_updates bd st w.machine r) _ _ ev w' (λ a header n. (_, refl, refl)) h q b
  dispatch-IsServed w (unlock_account_request r) now li off ev w' q h b =
      served unlock_account_response (unlock_account_request r) r now li off w
        (unlock_updates bd st w.machine r) _ _ ev w' (λ a header n. (_, refl, refl)) h q b
  dispatch-IsServed w (delete_account_request r) now li off ev w' q h b =
      served delete_account_response (delete_account_request r) r now li off w
        (delete_updates bd st w.machine r) _ _ ev w' (λ a header n. (_, refl, refl)) h q b
  dispatch-IsServed w (update_account_config_request r) now li off ev w' q h b =
      served update_account_config_response (update_account_config_request r) r now li off w
        (config_updates bd st w.machine r) _ _ ev w' (λ a header n. (_, refl, refl)) h q b
  dispatch-IsServed w (reserve_request r) now li off ev w' q h b =
      served reserve_response (reserve_request r) r now li off w (reserve_updates bd st w.machine r)
        _ _ ev w' (λ a header n. (_, refl, refl)) h q b
  dispatch-IsServed w (release_request r) now li off ev w' q h b =
      served release_response (release_request r) r now li off w (release_updates bd st w.machine r)
        _ _ ev w' (λ a header n. (_, refl, refl)) h q b
  dispatch-IsServed w (batch_balance_operation_request r) now li off ev w' q h b =
      served batch_balance_operation_response (batch_balance_operation_request r) r now li off w
        (batch_updates bd st w.machine r.balance_operation_spec) _ _ ev w'
        (λ a header n. (_, refl, refl)) h q b
  dispatch-IsServed w (transfer_request r) now li off ev w' q h b =
      served transfer_response (transfer_request r) r now li off w
        (transfer_updates bd st w.machine r) _ _ ev w' (λ a header n. (_, refl, refl)) h q b
