-- ===== src/Mq/PeerStorage.antt =====
-- dependencies/tiny-mq/src/peer_storage.rs: the raft log and its states, in memory and on disk. What
-- the raft library reads is `entries` and `term`; what it has made ready is written by
-- `handle_raft_ready`. `none` is a panic. The region is its id.
pub mod Sound
pub mod Term
pub mod Replaced
pub mod Written
pub mod Restart
use auticuro.Prelude.{
  ℕ, Option, some, none, List, [], ◌∷◌, Bool, true, false, ◌&&◌, ◌||◌, not, ltb, leb, ◌==◌,
  if◌then◌else◌, ◌>>?◌, assert,
}
use auticuro.Storage.{Storage, WriteBatch, put}
use auticuro.Keys.{apply_state_key}
use auticuro.Mq.{Entry, HardState, RaftLocalState, RaftApplyState, RaftProtobuf, inc_u64}
use auticuro.Mq.Engine.{
  get_raft_state, get_entry, fetch_entries_to, append_impl, cut_logs, put_raft_state, usize_max,
}
use auticuro.Mq.Consumer.{Engines, init_apply_state}
use auticuro.Mq.Apply.Poll.{last_of}

abbrev pub raft_init_log_term : ℕ
raft_init_log_term = 5

abbrev pub raft_init_log_index : ℕ
raft_init_log_index = 5

pub record PeerStorage (st : Storage) : Type 0 where
  pub engines : Engines st
  pub region_id : ℕ
  pub raft_state : RaftLocalState
  pub apply_state : RaftApplyState
  pub applied_index_term : ℕ
  pub last_term : ℕ

pub record InvokeContext : Type 0 where
  pub raft_state : RaftLocalState
  pub apply_state : RaftApplyState
  pub last_term : ℕ
  pub has_new_entries : Bool

-- `raft::Ready` with the parts that are read here.
pub record Ready : Type 0 where
  pub entries : List Entry
  pub hs : Option HardState

-- The derived equality.
abbrev pub hard_state_eq : HardState → HardState → Bool
hard_state_eq a b = a.term == b.term && a.vote == b.vote && a.commit == b.commit

abbrev pub raft_state_eq : RaftLocalState → RaftLocalState → Bool
raft_state_eq a b = hard_state_eq a.hard_state b.hard_state && a.last_index == b.last_index

module _ {st : Storage} where
  abbrev pub truncated_index : PeerStorage st → ℕ
  truncated_index self = self.apply_state.truncated_state.index

  abbrev pub truncated_term : PeerStorage st → ℕ
  truncated_term self = self.apply_state.truncated_state.term

  abbrev pub last_index : PeerStorage st → ℕ
  last_index self = self.raft_state.last_index

  unfoldable pub check_range : PeerStorage st → ℕ → ℕ → Option (Unit {0})
  check_range self low high =
      assert (
        not
          (ltb high low || leb low (truncated_index self) || ltb (inc_u64 (last_index self)) high))

  -- `InvokeContext::new`
  abbrev pub new_context : PeerStorage st → InvokeContext
  new_context store = record {
    raft_state = store.raft_state;
    apply_state = store.apply_state;
    last_term = store.last_term;
    has_new_entries = false;
  }

  unfoldable pub post_ready : InvokeContext → PeerStorage st → PeerStorage st
  post_ready ctx self = record self {
    raft_state = ctx.raft_state;
    apply_state = ctx.apply_state;
    last_term = ctx.last_term;
  }

  -- `none` is the failed assertion that the index does not go back.
  unfoldable pub set_commit_index : ℕ → PeerStorage st → Option (PeerStorage st)
  set_commit_index commit self = assert (leb self.raft_state.hard_state.commit commit) >>? λ _.
      some (record self {
        raft_state = record self.raft_state {
          hard_state = record self.raft_state.hard_state { commit = commit };
        };
      })

abbrev pub first_of : List Entry → Option Entry
first_of [] = none
first_of (e ∷ es) = some e

-- A persisted hard state replaces the old one, unless the log is empty.
abbrev pub set_hard_state : Option HardState → RaftLocalState → RaftLocalState
set_hard_state none state = state
set_hard_state (some hs) state =
    if ltb 0 state.last_index then record state { hard_state = hs } else state

module _ (st : Storage) (pb : RaftProtobuf) where
  unfoldable pub entries : PeerStorage st → ℕ → ℕ → ℕ → Option (List Entry)
  entries self low high max_size = check_range self low high >>? λ _.
      if low == high
      then some []
      else fetch_entries_to st pb self.engines.raft self.region_id low high (some max_size)

  -- `none` is also the index out of bounds, if nothing was fetched.
  unfoldable pub term : PeerStorage st → ℕ → Option ℕ
  term self idx =
      if idx == truncated_index self
      then some (truncated_term self)
      else (check_range self idx (inc_u64 idx) >>? λ _.
          if truncated_term self == self.last_term || idx == last_index self
          then some self.last_term
          else (entries self idx (inc_u64 idx) usize_max >>? λ es.
              first_of es >>? λ e. some e.term))

  -- `append`, on the batch of the raft log.
  unfoldable pub append :
      PeerStorage st → List Entry → InvokeContext → WriteBatch → InvokeContext × WriteBatch
  append self [] ctx raft_wb = (ctx, raft_wb)
  append self (e ∷ es) ctx raft_wb =
      let last = last_of e es in
      (
        record ctx {
          has_new_entries = true;
          raft_state = record ctx.raft_state { last_index = last.index };
          last_term = last.term;
        },
        cut_logs st pb self.region_id (inc_u64 last.index) (inc_u64 ctx.raft_state.last_index)
            (append_impl st pb self.region_id (e ∷ es) raft_wb),
      )

  unfoldable pub handle_raft_ready :
      PeerStorage st → Ready → WriteBatch → InvokeContext × WriteBatch
  unfolding append
  handle_raft_ready self ready raft_wb =
      let (ctx, wb) = append self ready.entries (new_context self) raft_wb in
      let ctx1 = record ctx { raft_state = set_hard_state ready.hs ctx.raft_state } in
      (
        ctx1,
        if raft_state_eq ctx1.raft_state self.raft_state
            then wb
            else put_raft_state st pb self.region_id ctx1.raft_state wb,
      )

  unfoldable pub init_raft_state : Engines st → ℕ → Option RaftLocalState
  init_raft_state engines region_id = get_raft_state st pb engines.raft region_id >>? λ state. state

  -- The term of an entry that must be there.
  abbrev pub entry_term : Engines st → ℕ → ℕ → Option ℕ
  entry_term engines region_id index =
      get_entry st pb engines.raft region_id index >>? λ found. found >>? λ e. some e.term

  unfoldable pub init_last_term : Engines st → ℕ → RaftLocalState → RaftApplyState → Option ℕ
  init_last_term engines region_id raft_state apply_state =
      let last_idx = raft_state.last_index in
      if last_idx == 0
      then some 0
      else if last_idx == raft_init_log_index
      then some raft_init_log_term
      else if last_idx == apply_state.truncated_state.index
      then some apply_state.truncated_state.term
      else (assert (ltb raft_init_log_index last_idx) >>? λ _.
          entry_term engines region_id last_idx)

  unfoldable pub init_applied_index_term : Engines st → ℕ → RaftApplyState → Option ℕ
  init_applied_index_term engines region_id apply_state =
      if apply_state.applied_index == raft_init_log_index
      then some raft_init_log_term
      else if apply_state.applied_index == apply_state.truncated_state.index
      then some apply_state.truncated_state.term
      else entry_term engines region_id apply_state.applied_index

  -- The commit index that `validate_states` goes on with.
  unfoldable pub forward_commit : Engines st → ℕ → RaftLocalState → RaftApplyState → Option ℕ
  forward_commit engines region_id raft_state apply_state =
      if ltb raft_state.hard_state.commit apply_state.commit_index
      then (entry_term engines region_id apply_state.commit_index >>? λ t.
          assert (t == apply_state.commit_term) >>? λ _. some apply_state.commit_index)
      else some raft_state.hard_state.commit

  unfoldable pub validate_states :
      Engines st → ℕ → RaftLocalState → RaftApplyState → Option RaftLocalState
  unfolding forward_commit
  validate_states engines region_id raft_state apply_state =
      forward_commit engines region_id raft_state apply_state >>? λ commit.
      assert (not (ltb commit apply_state.applied_index)) >>? λ _.
      assert (not (ltb raft_state.last_index commit)) >>? λ _.
      assert (not (ltb raft_state.hard_state.term apply_state.commit_term)) >>? λ _.
      some (record raft_state { hard_state = record raft_state.hard_state { commit = commit } })

  -- `PeerStorage::new`
  unfoldable pub new_storage : Engines st → ℕ → Option (PeerStorage st)
  unfolding init_raft_state validate_states init_last_term init_applied_index_term
  new_storage engines region_id = init_raft_state engines region_id >>? λ raft_state.
      init_apply_state st pb engines region_id >>? λ apply_state.
      validate_states engines region_id raft_state apply_state >>? λ raft_state1.
      init_last_term engines region_id raft_state1 apply_state >>? λ last_term.
      init_applied_index_term engines region_id apply_state >>? λ applied_index_term. some (record {
        engines = engines;
        region_id = region_id;
        raft_state = raft_state1;
        apply_state = apply_state;
        applied_index_term = applied_index_term;
        last_term = last_term;
      })

  unfoldable pub write_initial_raft_state : ℕ → WriteBatch → WriteBatch
  write_initial_raft_state region_id raft_wb =
      put_raft_state st pb region_id
        (record {
          hard_state = record { term = raft_init_log_term; vote = 0; commit = raft_init_log_index };
          last_index = raft_init_log_index;
        })
        raft_wb

  unfoldable pub write_initial_apply_state : ℕ → WriteBatch → WriteBatch
  write_initial_apply_state region_id kv_wb =
      put (apply_state_key st.be region_id)
        (pb.apply_state_bytes (record {
          applied_index = raft_init_log_index;
          commit_index = 0;
          commit_term = 0;
          truncated_state = record { index = raft_init_log_index; term = raft_init_log_term };
        }))
        kv_wb
