-- ===== src/Storage/Memory/Events.antt =====
-- A concrete wire format of the events.
use auticuro.Prelude.{◌≡◌, refl, List, ◌⊎◌, inl, inr}
use auticuro.Proto.{
  Account, Reply, EventPayload, Event, BalanceChange, ResponseHeader, TransferChanges, PrevCurr,
  EventHeader, transfer_event, batch_balance_operation_event, reserve_event, release_event,
  account_created_event, account_deleted_event, account_locked_event, account_unlock_event,
  account_config_update_event, BatchBalanceOperationRequest, CreateAccountRequest,
  DeleteAccountRequest, LockAccountRequest, ReleaseRequest, ReserveRequest, TransferRequest,
  UnlockAccountRequest, UpdateAccountConfigRequest,
}
use auticuro.Storage.Memory.Wire.{Codec, number, str, many, perhaps, through, ◌<&>◌, ◌<+>◌}
use auticuro.Storage.Memory.Requests.{
  account, balance, transfer_request, batch_balance_operation_request, reserve_request,
  release_request, create_account_request, delete_account_request, lock_account_request,
  unlock_account_request, update_account_config_request,
}

abbrev pub balance_change : Codec BalanceChange
balance_change =
    through (str <&> balance <&> balance)
      (λ x. record { account_id = x.0; prev_balance = (x.1).0; curr_balance = (x.1).1 })
      (λ r. (r.account_id, (r.prev_balance, r.curr_balance))) (λ r. refl)

abbrev pub response_header : Codec ResponseHeader
response_header =
    through (number <&> number <&> number)
      (λ x. record { seq_num = x.0; log_index = (x.1).0; offset = (x.1).1 })
      (λ r. (r.seq_num, (r.log_index, r.offset))) (λ r. refl)

abbrev pub transfer_changes : Codec TransferChanges
transfer_changes =
    through (balance_change <&> balance_change) (λ x. record { from = x.0; to = x.1 })
      (λ r. (r.from, r.to)) (λ r. refl)

abbrev pub prev_curr : Codec PrevCurr
prev_curr =
    through (balance <&> balance) (λ x. record { prev_balance = x.0; curr_balance = x.1 })
      (λ r. (r.prev_balance, r.curr_balance)) (λ r. refl)

abbrev pub event_header : Codec EventHeader
event_header =
    through (number <&> number <&> number <&> str <&> number)
      (λ x. record {
        seq_num = x.0;
        log_index = (x.1).0;
        offset = ((x.1).1).0;
        command_id = (((x.1).1).1).0;
        process_time_in_sec = (((x.1).1).1).1;
      })
      (λ r. (r.seq_num, (r.log_index, (r.offset, (r.command_id, r.process_time_in_sec)))))
      (λ r. refl)

abbrev reply : {R S : Type 0} → Codec R → Codec S → Codec (Reply R S)
reply c d =
    through (response_header <&> c <&> d)
      (λ x. record { header = x.0; request = (x.1).0; body = (x.1).1 })
      (λ r. (r.header, (r.request, r.body))) (λ r. refl)

abbrev Payloads : Type 0
Payloads =
    Reply TransferRequest TransferChanges
    ⊎ Reply BatchBalanceOperationRequest (List BalanceChange)
    ⊎ Reply ReserveRequest PrevCurr
    ⊎ Reply ReleaseRequest PrevCurr
    ⊎ Reply CreateAccountRequest Account
    ⊎ Reply DeleteAccountRequest Account
    ⊎ Reply LockAccountRequest Account
    ⊎ Reply UnlockAccountRequest Account
    ⊎ Reply UpdateAccountConfigRequest Account

abbrev to_payload : Payloads → EventPayload
to_payload (inl x) = transfer_event x
to_payload (inr (inl x)) = batch_balance_operation_event x
to_payload (inr (inr (inl x))) = reserve_event x
to_payload (inr (inr (inr (inl x)))) = release_event x
to_payload (inr (inr (inr (inr (inl x))))) = account_created_event x
to_payload (inr (inr (inr (inr (inr (inl x)))))) = account_deleted_event x
to_payload (inr (inr (inr (inr (inr (inr (inl x))))))) = account_locked_event x
to_payload (inr (inr (inr (inr (inr (inr (inr (inl x)))))))) = account_unlock_event x
to_payload (inr (inr (inr (inr (inr (inr (inr (inr x)))))))) = account_config_update_event x

abbrev of_payload : EventPayload → Payloads
of_payload (transfer_event x) = inl x
of_payload (batch_balance_operation_event x) = inr (inl x)
of_payload (reserve_event x) = inr (inr (inl x))
of_payload (release_event x) = inr (inr (inr (inl x)))
of_payload (account_created_event x) = inr (inr (inr (inr (inl x))))
of_payload (account_deleted_event x) = inr (inr (inr (inr (inr (inl x)))))
of_payload (account_locked_event x) = inr (inr (inr (inr (inr (inr (inl x))))))
of_payload (account_unlock_event x) = inr (inr (inr (inr (inr (inr (inr (inl x)))))))
of_payload (account_config_update_event x) = inr (inr (inr (inr (inr (inr (inr (inr x)))))))

pub to-of_payload : (p : EventPayload) → to_payload (of_payload p) ≡ p
to-of_payload (transfer_event x) = refl
to-of_payload (batch_balance_operation_event x) = refl
to-of_payload (reserve_event x) = refl
to-of_payload (release_event x) = refl
to-of_payload (account_created_event x) = refl
to-of_payload (account_deleted_event x) = refl
to-of_payload (account_locked_event x) = refl
to-of_payload (account_unlock_event x) = refl
to-of_payload (account_config_update_event x) = refl

abbrev event_payload : Codec EventPayload
event_payload =
    through
      (reply transfer_request transfer_changes
        <+> reply batch_balance_operation_request (many balance_change)
        <+> reply reserve_request prev_curr
        <+> reply release_request prev_curr
        <+> reply create_account_request account
        <+> reply delete_account_request account
        <+> reply lock_account_request account
        <+> reply unlock_account_request account
        <+> reply update_account_config_request account)
      to_payload of_payload to-of_payload

abbrev pub event : Codec Event
event =
    through (event_header <&> (perhaps event_payload)) (λ x. record { header = x.0; payload = x.1 })
      (λ r. (r.header, r.payload)) (λ r. refl)
