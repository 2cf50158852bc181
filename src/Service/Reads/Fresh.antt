-- ===== src/Service/Reads/Fresh.antt =====
-- Reading one's own writes.
use auticuro.Prelude.{
  ℕ, ◌+◌, ◌<◌, ◌≤◌, ◌^◌, ◌≡◌, refl, sym, ◌∙◌, none_ne_some, Str, some, none, ok, err, arith, ap,
  subst, some_injective, >>?-eq-some, Option-cases, inl, inr, Bytes_eq,
}
use auticuro.Prelude.Map.{get}
use auticuro.Proto.{Account, Balance, Command, CommandPayload}
use auticuro.Errors.{Error, common_error, data_not_ready}
use auticuro.Errors.Wire.{into_proto}
use auticuro.Decimal.{BigDecimal}
use auticuro.Storage.{Storage, StorageLaws}
use auticuro.StateMachine.{StateMachine, World, Position}
use auticuro.StateMachine.Handlers.{Handled}
use auticuro.StateMachine.Commands.{
  dispatch, finish_command, handle_command, handle_new_command, finish_entry,
  maybe_handle_duplicate_command,
}
use auticuro.StateMachine.Flush.{flushed}
use auticuro.StateMachine.Commit.Shape.{IsSafe, dispatch-err}
use auticuro.StateMachine.Commit.Updates.{dispatch-Commit}
use auticuro.StateMachine.Sync.Invariant.{Synced}
use auticuro.StateMachine.Sync.Steps.{
  Step, command, entry, flush, Reach, here, next, Reach-Synced, last_seq_num-Commit,
}
use auticuro.Service.Reads.{GetAccountRequest, get_account, query_balance}

abbrev pub ask : ℕ → Str → GetAccountRequest
ask seq_num account_id = record { seq_num = seq_num; account_id = account_id }

module _ (bd : BigDecimal) (st : Storage) where
  finish_command-grows :
      (w : World bd st) (payload : CommandPayload) (position : Position) (c : Command)
      (h : Handled bd st)
      → Synced bd st w
      → w.machine.last_seq_num + 1 < 2 ^ 64
      → IsSafe w.machine.accounts payload
      → dispatch bd st w payload position.log_index position.offset ≡ h
      → w.machine.last_seq_num ≤ (finish_command bd st position c h).machine.last_seq_num
  unfolding finish_command
  finish_command-grows w payload position c (err e, w1) s room safe h =
      let same =
        ap (λ (v : World bd st). v.machine.last_seq_num)
          (dispatch-err bd st w payload position.log_index position.offset h) in
      omega (arith, same)
  finish_command-grows w payload position c (ok ev, w1) s room safe h =
      let last =
        last_seq_num-Commit bd st (
          dispatch-Commit bd st w payload position.log_index position.offset ev w1 s.keyed safe
            h) in
      omega (arith, last)

  Step-grows :
      (w w' : World bd st)
      → Synced bd st w
      → Step bd st w w'
      → w.machine.last_seq_num ≤ w'.machine.last_seq_num
  unfolding handle_command handle_new_command flushed finish_entry
  Step-grows w w' s (command li off c room safe h) =
      let (found, e, h1) = >>?-eq-some (maybe_handle_duplicate_command bd st w.machine c) _ h in
      elim (Option-cases found) [
        | inr (r, f) ↦
            let same =
              ap (λ (v : World bd st). v.machine.last_seq_num) (some_injective (rw f at h1)) in
            omega (arith, same)
        | inl new ↦
            let (payload, p, h2) = >>?-eq-some c.payload _ (rw new at h1) in
            subst (λ (v : World bd st). w.machine.last_seq_num ≤ v.machine.last_seq_num)
              (some_injective h2)
              (finish_command-grows w payload (record { log_index = li; offset = off }) c
                (dispatch bd st w payload li off) s room (safe payload p) refl)
      ]
  Step-grows w w' s (entry li) = omega arith
  Step-grows w w' s (flush now) = omega arith

  -- The sequence number never goes back.
  pub Reach-grows :
      (laws : StorageLaws st) (w : World bd st) {v : World bd st}
      → Synced bd st w
      → Reach bd st w v
      → w.machine.last_seq_num ≤ v.machine.last_seq_num
  Reach-grows laws w s here = omega arith
  Reach-grows laws w s (next {v = v} {u = u} r t) =
      omega (arith, Reach-grows laws w s r, Step-grows v u (Reach-Synced bd st laws w r s) t)

  -- The guard: a state that has not reached the number that is asked for gives nothing but the
  -- error that says so.
  not_ready :
      (debug : Error bd.ParseBigDecimalError → Str) (debug_str : Str → Str) (m : StateMachine st)
      (request : GetAccountRequest)
      → m.last_seq_num < request.seq_num
      → let e =
          into_proto debug debug_str
            (common_error (data_not_ready request.seq_num m.last_seq_num)) in
        ((get_account debug debug_str st m request).error ≡ some e)
        × ((get_account debug debug_str st m request).account ≡ none)
        × ((query_balance debug debug_str st m request).error ≡ some e)
        × ((query_balance debug debug_str st m request).balance ≡ none)
  unfolding get_account query_balance
  not_ready debug debug_str m request h =
      (ground (arith, h), ground (arith, h), ground (arith, h), ground (arith, h))

  -- What is given out comes from a state that has reached the number.
  account_ready :
      (debug : Error bd.ParseBigDecimalError → Str) (debug_str : Str → Str) (m : StateMachine st)
      (request : GetAccountRequest) (a : Account)
      → (get_account debug debug_str st m request).account ≡ some a
      → (request.seq_num ≤ m.last_seq_num) × (get m.accounts request.account_id ≡ some a)
  unfolding get_account
  account_ready debug debug_str m request a h =
      elim (Option-cases (get m.accounts request.account_id)) [
        | inl e ↦ (ground arith, ground arith)
        | inr (b, e) ↦ (ground arith, ground arith)
      ]

  balance_missing :
      (debug : Error bd.ParseBigDecimalError → Str) (debug_str : Str → Str) (m : StateMachine st)
      (request : GetAccountRequest)
      → get m.accounts request.account_id ≡ none
      → (query_balance debug debug_str st m request).balance ≡ none
  unfolding query_balance
  balance_missing debug debug_str m request h = ground arith

  balance_ready :
      (debug : Error bd.ParseBigDecimalError → Str) (debug_str : Str → Str) (m : StateMachine st)
      (request : GetAccountRequest) (b : Balance)
      → (query_balance debug debug_str st m request).balance ≡ some b
      → (request.seq_num ≤ m.last_seq_num)
        × ((a : Account) × (get m.accounts request.account_id ≡ some a) × (a.balance ≡ b))
  unfolding query_balance
  balance_ready debug debug_str m request b h =
      elim (Option-cases (get m.accounts request.account_id)) [
        | inl e ↦ absurd (none_ne_some (sym (balance_missing debug debug_str m request e) ∙ h))
        | inr (a, e) ↦ (ground arith, (a, e, ground arith))
      ]

  -- A client asks with a sequence number `n` that the machine had reached in a state where the
  -- invariant `Synced` holds. Wherever the machine has gone from there by its steps, the answer
  -- carries a sequence number of at least `n`, the same for both queries, and the account that is
  -- in memory; if there is one, both queries answer without an error, one with the account and one
  -- with its balance. And whatever number a client asks with: an account or a balance is given out
  -- only by a machine that has reached this number, and is that of the account in memory; where the
  -- machine has not reached it, both answers are the error that says so.
  pub get_account-fresh :
      (laws : StorageLaws st) (debug : Error bd.ParseBigDecimalError → Str) (debug_str : Str → Str)
      (w v : World bd st) (n : ℕ) (id : Str)
      → Synced bd st w
      → Reach bd st w v
      → n ≤ w.machine.last_seq_num
      → let request = ask n id in
        let found = get_account debug debug_str st v.machine request in
        let balance = query_balance debug debug_str st v.machine request in
        (n ≤ found.seq_num)
        × (found.seq_num ≡ balance.seq_num)
        × (found.account ≡ get v.machine.accounts id)
        × ((a : Account)
            → get v.machine.accounts id ≡ some a
            → (found.error ≡ none) × (balance.error ≡ none) × (balance.balance ≡ some a.balance))
        × ((m : ℕ) (a : Account)
            → (get_account debug debug_str st v.machine (ask m id)).account ≡ some a
            → (m ≤ v.machine.last_seq_num) × (get v.machine.accounts id ≡ some a))
        × ((m : ℕ) (b : Balance)
            → (query_balance debug debug_str st v.machine (ask m id)).balance ≡ some b
            → (m ≤ v.machine.last_seq_num)
              × ((a : Account) × (get v.machine.accounts id ≡ some a) × (a.balance ≡ b)))
        × ((m : ℕ)
            → v.machine.last_seq_num < m
            → let e =
                into_proto debug debug_str
                  (common_error (data_not_ready m v.machine.last_seq_num)) in
              ((get_account debug debug_str st v.machine (ask m id)).error ≡ some e)
              × ((get_account debug debug_str st v.machine (ask m id)).account ≡ none)
              × ((query_balance debug debug_str st v.machine (ask m id)).error ≡ some e)
              × ((query_balance debug debug_str st v.machine (ask m id)).balance ≡ none))
  unfolding get_account query_balance
  get_account-fresh laws debug debug_str w v n id s r seen =
      let grown = Reach-grows laws w s r in
      elim (Option-cases (get v.machine.accounts id)) [
        | inl e ↦ (
          ground (arith, grown),
          ground arith,
          ground (arith, grown),
          λ a f. ground (arith, grown),
          λ m a. account_ready debug debug_str v.machine (ask m id) a,
          λ m b. balance_ready debug debug_str v.machine (ask m id) b,
          λ m. not_ready debug debug_str v.machine (ask m id),
        )
        | inr (b, e) ↦ (
          ground (arith, grown),
          ground arith,
          ground (arith, grown),
          λ a f. (ground (arith, grown), ground (arith, grown), ground (arith, grown)),
          λ m a. account_ready debug debug_str v.machine (ask m id) a,
          λ m b. balance_ready debug debug_str v.machine (ask m id) b,
          λ m. not_ready debug debug_str v.machine (ask m id),
        )
      ]
