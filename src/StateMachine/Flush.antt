-- ===== src/StateMachine/Flush.antt =====
-- state_machine.rs: flushing the batch to RocksDB, and the apply loop. `none` is a panic.
use auticuro.Prelude.{
  ℕ, ◌+◌, ◌-◌, ◌%◌, ◌^◌, Str, [], ◌∷◌, List, Option, none, some, ◌>>?◌, ◌==◌, ltb, leb, ◌&&◌, ◌||◌,
  Bool, assert, Bytes_eq, if◌then◌else◌,
}
use auticuro.Prelude.Map.{Map, remove}
use auticuro.Proto.{Account, Command}
use auticuro.Decimal.{BigDecimal}
use auticuro.Storage.{Storage}
use auticuro.StateMachine.{World, inc_u64}
use auticuro.StateMachine.Commands.{apply_entry}

-- `a - b` on `u64`.
abbrev pub sub_u64 : ℕ → ℕ → ℕ
sub_u64 a b = (a + 2 ^ 64 - b) % 2 ^ 64

-- `mem::take(&mut context.to_be_deleted_account_ids)`, each removed from memory.
unfoldable pub remove_accounts : List Str → Map Str Account → Map Str Account
remove_accounts [] accounts = accounts
remove_accounts (id ∷ ids) accounts = remove_accounts ids (remove id accounts)

module _ (bd : BigDecimal) (st : Storage) where
  -- `elapsed` is the time since the last flush in milliseconds.
  unfoldable pub should_flush : World bd st → ℕ → Bool
  should_flush w elapsed =
      leb w.context.batch_size (sub_u64 w.machine.applied_index w.context.flushed_applied_index)
      || (ltb w.context.flushed_applied_index w.machine.applied_index && ltb 100 elapsed)

  -- The batch is written whole; tombstones and caches go.
  unfoldable pub flushed : World bd st → ℕ → World bd st
  flushed w now = record {
    machine = record w.machine {
      accounts = remove_accounts w.context.to_be_deleted_account_ids w.machine.accounts;
      seq_num_cache = [];
      event_cache = [];
      rocksdb_state = st.rocks.write_opt w.machine.rocksdb_state w.context.wb;
    };
    context = record w.context {
      wb = [];
      to_be_deleted_account_ids = [];
      flushed_applied_index = w.machine.applied_index;
      flushed_timestamp = now;
    };
  }

  unfoldable pub flush : World bd st → ℕ → Option (World bd st)
  unfolding flushed
  flush w now = assert (ltb w.context.flushed_applied_index w.machine.applied_index) >>? λ _.
      some (flushed w now)

  unfoldable pub maybe_flush : World bd st → ℕ → Option (World bd st)
  unfolding should_flush flush
  maybe_flush w now =
      if should_flush w (now - w.context.flushed_timestamp) then flush w now else some w

  -- The loop's own `applied_index` beside the state.
  pub record ApplyLoop : Type 0 where
    pub world : World bd st
    pub applied_index : ℕ

  -- The body of the loop for one received entry.
  unfoldable pub receive_entry : ApplyLoop → ℕ × List Command → Option ApplyLoop
  receive_entry self (index, messages) = assert (inc_u64 self.applied_index == index) >>? λ _.
      apply_entry bd st self.world index messages >>? λ world.
      some (record { world = world; applied_index = index })

  unfoldable pub receive_entries : ApplyLoop → List (ℕ × List Command) → Option ApplyLoop
  receive_entries self [] = some self
  receive_entries self (entry ∷ entries) = elim (receive_entry self entry) [
    | none ↦ none
    | some self1 ↦ receive_entries self1 entries
  ]

  -- One round of `ApplyLoop::run`: a batch of entries, then perhaps a flush.
  unfoldable pub run_round : ApplyLoop → List (ℕ × List Command) → ℕ → Option ApplyLoop
  run_round self buf now = receive_entries self buf >>? λ self1.
      maybe_flush self1.world now >>? λ w. some (record self1 { world = w })
