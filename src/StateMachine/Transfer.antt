-- ===== src/StateMachine/Transfer.antt =====
-- `handle_transfer` and `handle_batch_balance_operation`: where the money goes.
use auticuro.Prelude.{
  ℕ, ◌≡◌, ◌≢◌, refl, Str, ok, some, arith, sym, ap, subst, ◌∙◌, bytes_eq, bytes_eq_iff, Bytes_eq,
  >>=-eq-ok, ok_injective, Option-cases, inl, inr, if◌then◌else◌,
}
use auticuro.Prelude.Map.{Map, get, insert, get-insert}
use auticuro.Proto.{Account, BalanceChange, TransferRequest, Event}
use auticuro.Decimal
use auticuro.Decimal.{BigDecimal}
use auticuro.Decimal.Laws.{DecimalLaws, Denotes, Denotes-unique, neg-Denotes, plus_exchange}
use auticuro.Storage.{Storage}
use auticuro.Account.{increase_balance_by, validate_asset_class_compatibility}
use auticuro.Account.Balances.{increase_balance_by-Denotes}
use auticuro.Account.Kept.{increase_balance_by-Kept}
use auticuro.StateMachine.{World, StateMachine, get_or_create_account, update_account, inc_u64}
use auticuro.StateMachine.Handlers.{handle_transfer, transfer_updates, Handled}
use auticuro.StateMachine.Commit.Alive.{IsKeyed}
use auticuro.StateMachine.Commit.Shape.{attempt-eq-ok}

module _ (bd : BigDecimal) (st : Storage) (laws : DecimalLaws bd) where
  open laws use {Value, plus, opp}

  -- The value that is available to an id; an id with no account counts as a new account.
  abbrev pub Available : StateMachine st → Str → Value → Type 0
  Available self id v = Denotes laws (get_or_create_account bd st self id).balance.available v

  account_id_of :
      (self : StateMachine st) (id : Str)
      → IsKeyed self.accounts
      → (get_or_create_account bd st self id).account_id ≡ id
  unfolding get_or_create_account
  account_id_of self id keyed = elim (Option-cases (get self.accounts id)) [
    | inl e ↦ ground arith
    | inr (a, e) ↦ ground (arith, keyed id a)
  ]

  get_or_create_found :
      (self : StateMachine st) (id : Str) (a : Account)
      → get self.accounts id ≡ some a
      → get_or_create_account bd st self id ≡ a
  unfolding get_or_create_account
  get_or_create_found self id a h = ground arith

  -- What a transfer that succeeds has computed.
  pub record Transferred (self : StateMachine st) (r : TransferRequest) (to from : Account)
      : Type 0 where
    pub x : Value
    pub y : Value
    pub z : Value
    pub from_before : Available self r.transfer_spec.from_account_id x
    pub to_before : Available self r.transfer_spec.to_account_id y
    pub amount : Denotes laws r.transfer_spec.amount z
    pub from_after : Denotes laws from.balance.available (plus x (opp z))
    pub to_after : Denotes laws to.balance.available (plus y z)
    pub from_id : from.account_id ≡ r.transfer_spec.from_account_id
    pub to_id : to.account_id ≡ r.transfer_spec.to_account_id

  transfer_updates-Transferred :
      (self : StateMachine st) (r : TransferRequest)
      (u : (Account × BalanceChange) × (Account × BalanceChange))
      → IsKeyed self.accounts
      → transfer_updates bd st self r ≡ ok u
      → Transferred self r (u.0).0 (u.1).0
  unfolding transfer_updates
  transfer_updates-Transferred self r u keyed h =
      let s = r.transfer_spec in
      let from_account = get_or_create_account bd st self s.from_account_id in
      let to_account = get_or_create_account bd st self s.to_account_id in
      let (_, _, h1) =
        >>=-eq-ok (validate_asset_class_compatibility bd from_account to_account) _ h in
      let ((t, tc), p, h2) = >>=-eq-ok (increase_balance_by bd to_account s.amount) _ h1 in
      let (n, q, h3) = >>=-eq-ok (Decimal.neg bd s.amount) _ h2 in
      let ((f, fc), k, h4) = >>=-eq-ok (increase_balance_by bd from_account n) _ h3 in
      let (y, z, dy, dz, dt, _, _, _, _, _) =
        increase_balance_by-Denotes bd laws to_account s.amount t tc p in
      let (x, m, dx, dm, df, _, _, _, _, _) =
        increase_balance_by-Denotes bd laws from_account n f fc k in
      let (z', dz', dn) = neg-Denotes laws s.amount q in
      let em : m ≡ opp z =
        Denotes-unique laws n dm dn ∙ ap opp (Denotes-unique laws s.amount dz' dz) in
      rw (← ok_injective h4) (record {
        x = x;
        y = y;
        z = z;
        from_before = dx;
        to_before = dy;
        amount = dz;
        from_after = subst (λ v. Denotes laws f.balance.available (plus x v)) em df;
        to_after = dt;
        from_id =
            (increase_balance_by-Kept bd from_account n (f, fc) k).same_id
            ∙ account_id_of self s.from_account_id keyed;
        to_id =
            (increase_balance_by-Kept bd to_account s.amount (t, tc) p).same_id
            ∙ account_id_of self s.to_account_id keyed;
      })

  -- The accounts after a transfer: first the receiver is stored, then the sender.
  pub record Moved (w : World bd st) (r : TransferRequest) (w' : World bd st) : Type 0 where
    pub to : Account
    pub from : Account
    pub transferred : Transferred w.machine r to from
    pub accounts :
        w'.machine.accounts
        ≡ insert from.account_id from (insert to.account_id to w.machine.accounts)
    pub seq_num : w'.machine.last_seq_num ≡ inc_u64 w.machine.last_seq_num

  handle_transfer-Moved :
      (w : World bd st) (r : TransferRequest) (log_index offset : ℕ) (ev : Event) (w' : World bd st)
      → IsKeyed w.machine.accounts
      → handle_transfer bd st w r log_index offset ≡ (ok ev, w')
      → Moved w r w'
  unfolding handle_transfer update_account
  handle_transfer-Moved w r li off ev w' keyed h =
      let (u, e, k) = attempt-eq-ok bd st w (transfer_updates bd st w.machine r) _ h in
      let ew = ap (λ (p : Handled bd st). p.1) k in
      record {
        to = (u.0).0;
        from = (u.1).0;
        transferred = transfer_updates-Transferred w.machine r u keyed e;
        accounts = ap (λ (v : World bd st). v.machine.accounts) (sym ew);
        seq_num = ap (λ (v : World bd st). v.machine.last_seq_num) (sym ew);
      }

  get-Moved :
      (w : World bd st) (r : TransferRequest) (w' : World bd st) (m : Moved w r w') (id : Str)
      → get w'.machine.accounts id ≡ (
          if bytes_eq r.transfer_spec.from_account_id id
          then some m.from
          else if bytes_eq r.transfer_spec.to_account_id id
          then some m.to
          else get w.machine.accounts id)
  get-Moved w r w' m id =
      ap (λ (a : Map Str Account). get a id) m.accounts
      ∙ get-insert m.from.account_id id m.from (insert m.to.account_id m.to w.machine.accounts)
      ∙ rw (get-insert m.to.account_id id m.to w.machine.accounts)
          (rw (m.transferred.from_id, m.transferred.to_id) refl)

  -- A transfer between two different accounts that succeeds moves the amount: the sender has it
  -- less, the receiver has it more, their sum is what it was, every other account is untouched,
  -- and one sequence number is used. The accounts are stored under their own ids.
  pub handle_transfer-conserves :
      (w : World bd st) (r : TransferRequest) (log_index offset : ℕ) (ev : Event) (w' : World bd st)
      → IsKeyed w.machine.accounts
      → r.transfer_spec.from_account_id ≢ r.transfer_spec.to_account_id
      → handle_transfer bd st w r log_index offset ≡ (ok ev, w')
      → (x : Value) × (y : Value) × (z : Value) × Available w.machine
          r.transfer_spec.from_account_id x
        × Available w.machine r.transfer_spec.to_account_id y
        × Denotes laws r.transfer_spec.amount z
        × Available w'.machine r.transfer_spec.from_account_id (plus x (opp z))
        × Available w'.machine r.transfer_spec.to_account_id (plus y z)
        × (plus (plus x (opp z)) (plus y z) ≡ plus x y)
        × ((id : Str)
            → id ≢ r.transfer_spec.from_account_id
            → id ≢ r.transfer_spec.to_account_id
            → get w'.machine.accounts id ≡ get w.machine.accounts id)
        × (w'.machine.last_seq_num ≡ inc_u64 w.machine.last_seq_num)
  handle_transfer-conserves w r li off ev w' keyed ne h =
      let m = handle_transfer-Moved w r li off ev w' keyed h in
      let t = m.transferred in
      let s = r.transfer_spec in
      let in_from : get w'.machine.accounts s.from_account_id ≡ some m.from = ground (
        arith,
        get-Moved w r w' m s.from_account_id,
        bytes_eq_iff s.from_account_id s.from_account_id,
      ) in
      let in_to : get w'.machine.accounts s.to_account_id ≡ some m.to = ground (
        arith,
        get-Moved w r w' m s.to_account_id,
        bytes_eq_iff s.from_account_id s.to_account_id,
        bytes_eq_iff s.to_account_id s.to_account_id,
      ) in
      (
        t.x,
        t.y,
        t.z,
        t.from_before,
        t.to_before,
        t.amount,
        rw (get_or_create_found w'.machine s.from_account_id m.from in_from) t.from_after,
        rw (get_or_create_found w'.machine s.to_account_id m.to in_to) t.to_after,
        plus_exchange laws t.x t.y t.z,
        λ id nf nt. ground (
          arith,
          get-Moved w r w' m id,
          bytes_eq_iff s.from_account_id id,
          bytes_eq_iff s.to_account_id id,
        ),
        m.seq_num,
      )

  -- A transfer from an account to itself that succeeds takes the amount away: the account then has
  -- the amount less, and every other account is untouched. The accounts are stored under their own
  -- ids.
  pub handle_transfer-to_itself :
      (w : World bd st) (r : TransferRequest) (log_index offset : ℕ) (ev : Event) (w' : World bd st)
      → IsKeyed w.machine.accounts
      → r.transfer_spec.from_account_id ≡ r.transfer_spec.to_account_id
      → handle_transfer bd st w r log_index offset ≡ (ok ev, w')
      → (x : Value) × (z : Value) × Available w.machine r.transfer_spec.from_account_id x
        × Denotes laws r.transfer_spec.amount z
        × Available w'.machine r.transfer_spec.from_account_id (plus x (opp z))
        × ((id : Str)
            → id ≢ r.transfer_spec.from_account_id
            → get w'.machine.accounts id ≡ get w.machine.accounts id)
  handle_transfer-to_itself w r li off ev w' keyed same h =
      let m = handle_transfer-Moved w r li off ev w' keyed h in
      let t = m.transferred in
      let s = r.transfer_spec in
      let in_from : get w'.machine.accounts s.from_account_id ≡ some m.from = ground (
        arith,
        get-Moved w r w' m s.from_account_id,
        bytes_eq_iff s.from_account_id s.from_account_id,
      ) in
      (
        t.x,
        t.z,
        t.from_before,
        t.amount,
        rw (get_or_create_found w'.machine s.from_account_id m.from in_from) t.from_after,
        λ id nf. ground (
          arith,
          get-Moved w r w' m id,
          same,
          bytes_eq_iff s.from_account_id id,
          bytes_eq_iff s.to_account_id id,
        ),
      )
