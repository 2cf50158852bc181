-- ===== src/Mq/Apply/Saved.antt =====
-- apply.rs: what a round of the thread leaves in the database, and that nothing waits between rounds.
use auticuro.Prelude.{
  ℕ, suc, ◌+◌, ◌≡◌, refl, subst, ◌∙◌, ap, Option, some, none, List, [], ◌∷◌, true, false, ◌==◌,
  arith, Option-cases, inl, inr, some_injective, none_ne_some, >>?-eq-some, assert, ◌-◌, ◌^◌, ◌⊎◌,
  Bytes, Bytes_eq, beq_refl, Bool-cases, ltb, not,
}
use auticuro.Prelude.Lists.{take, length}
use auticuro.Prelude.Map.{is_empty}
use auticuro.Storage.{Storage, StorageLaws, WriteBatch, WriteOp, after, put}
use auticuro.Storage.Batch.{after-put}
use auticuro.Mq.Apply.Callbacks.{
  entries_cases, all_calls, queue_calls, answer_calls, message_calls, end_round-calls,
  handle_tasks-calls,
}
use auticuro.Keys.{apply_state_key}
use auticuro.Mq.{
  RaftProtobuf, Entry, RaftCmdRequest, RaftCmdResponse, err_resp, stale_command, inc_u64, bind_term,
}
use auticuro.Mq.Apply.{
  Callback, PendingCmd, ApplyContext, pop_stale, find_pending, Found, push, push_cb, is_after,
  notify_stale_command, ExecResult, ApplyResult,
}
use auticuro.Mq.Apply.Exec.{
  Poll, handle_entries, handle_committed_entry, handle_raft_committed_entries, finish_for,
  add_count, process_raft_cmd, apply_raft_cmd, apply_empty_entry, exec_raft_cmd, is_normal,
  handle_raft_entry_normal,
}
use auticuro.Mq.Apply.Poll.{
  Msg, apply, registration, noop, Apply, handle_apply, handle_tasks, poll_round, end_round, flush,
  write_to_db, messages_per_tick, set_commit, last_of, start_apply,
}

-- What no command touches.
record Kept {st : Storage} (c c' : ApplyContext st) : Type 0 where
  timer : c'.timer ≡ c.timer
  wb : c'.kv_wb ≡ c.kv_wb
  engine : c'.engine ≡ c.engine

after-put_self :
    (wb : WriteBatch) (key value : Bytes) (old : Option Bytes)
    → after (put key value wb) key old ≡ some value
after-put_self wb key value old = after-put wb key value key old ∙ rw (beq_refl key) refl

batch_cases :
    (wb : WriteBatch) → (wb ≡ []) ⊎ ((op : WriteOp) × (rest : WriteBatch) × (wb ≡ op ∷ rest))
batch_cases [] = inl refl
batch_cases (op ∷ wb) = inr (op, wb, refl)

module _ {st : Storage} where
  Kept-refl : (c : ApplyContext st) → Kept c c
  Kept-refl c = record { timer = refl; wb = refl; engine = refl }

  Kept-trans : {a b c : ApplyContext st} → Kept a b → Kept b c → Kept a c
  Kept-trans p q = record {
    timer = q.timer ∙ p.timer;
    wb = q.wb ∙ p.wb;
    engine = q.engine ∙ p.engine;
  }

  pop_stale-Kept :
      (term : ℕ) (cmds : List PendingCmd) (ctx : ApplyContext st)
      → Kept ctx (pop_stale term cmds ctx).1
  unfolding pop_stale
  pop_stale-Kept term [] ctx = Kept-refl ctx
  pop_stale-Kept term (cmd ∷ cmds) ctx =
      let ctx1 = push_cb cmd.cb (err_resp stale_command term) ctx in
      elim (Bool-cases (is_after cmd (term - 1) (2 ^ 64 - 1))) [
        | inl e ↦ rw e (Kept-refl ctx)
        | inr e ↦ rw e (
            Kept-trans (record { timer = refl; wb = refl; engine = refl })
              (pop_stale-Kept term cmds ctx1))
      ]

  find_pending-Kept :
      (t i term : ℕ) (cmds : List PendingCmd) (ctx : ApplyContext st) (f : Found st)
      → find_pending t i term cmds ctx ≡ some f
      → Kept ctx f.ctx
  unfolding find_pending
  find_pending-Kept t i term [] ctx f h = rw (← some_injective h) (Kept-refl ctx)
  find_pending-Kept t i term (head ∷ cmds) ctx f h = elim (Bool-cases (is_after head term i)) [
    | inl e ↦ rw (← some_injective (rw e at h)) (Kept-refl ctx)
    | inr e ↦ elim (Bool-cases (head.term == term)) [
      | inl e1 ↦ elim (Bool-cases (head.index == i)) [
        | inl e2 ↦ rw (← some_injective (rw (e, e1, e2) at h)) (Kept-refl ctx)
        | inr e2 ↦ absurd (none_ne_some (rw (e, e1, e2) at h))
      ]
      | inr e1 ↦
          Kept-trans (record { timer = refl; wb = refl; engine = refl })
            (find_pending-Kept t i term cmds (notify_stale_command t head ctx) f (rw (e, e1) at h))
    ]
  ]

  push-Kept :
      (cb : Option Callback) (resp : RaftCmdResponse) (ctx : ApplyContext st)
      → Kept ctx (push cb resp ctx)
  push-Kept none resp ctx = Kept-refl ctx
  push-Kept (some cb) resp ctx = record { timer = refl; wb = refl; engine = refl }

  no_answers :
      (n : ℕ) (p : Poll st) → p.ctx.applied_batch ≡ [] → answer_calls n p.ctx.applied_batch ≡ 0
  no_answers n p e = ap (answer_calls n) e ∙ (unfold answer_calls in refl)

  module _ (pb : RaftProtobuf) where
    process-Kept :
        (p : Poll st) (index term : ℕ) (cmd : RaftCmdRequest) (out : ApplyResult × Poll st)
        → process_raft_cmd st pb p index term cmd ≡ some out
        → Kept p.ctx out.1.ctx × (out.1.delegate.region_id ≡ p.delegate.region_id)
    unfolding process_raft_cmd apply_raft_cmd
    process-Kept p index term cmd out h =
        let (_, _, h1) = >>?-eq-some (assert (not (index == 0))) _ h in
        let (a, e, h2) = >>?-eq-some (apply_raft_cmd p.delegate index term cmd) _ h1 in
        let (_, _, e1) = >>?-eq-some (exec_raft_cmd p.delegate.apply_state index cmd) _ e in
        let (f, found, h3) =
          >>?-eq-some (find_pending a.2.term index term a.2.pending_cmds p.ctx) _ h2 in
        rw (← some_injective h3) (
          Kept-trans (find_pending-Kept a.2.term index term a.2.pending_cmds p.ctx f found)
              (push-Kept f.callback (bind_term a.0 a.2.term) f.ctx),
          rw (← some_injective e1) refl,
        )

    normal-Kept :
        (p : Poll st) (entry : Entry) (out : ApplyResult × Poll st)
        → handle_raft_entry_normal st pb p entry ≡ some out
        → Kept p.ctx out.1.ctx × (out.1.delegate.region_id ≡ p.delegate.region_id)
    unfolding handle_raft_entry_normal apply_empty_entry
    normal-Kept p entry out h = elim (Bool-cases (is_empty entry.payload)) [
      | inl e ↦
          let (_, _, h1) = >>?-eq-some (assert (ltb 0 entry.term)) _ (rw e at h) in
          rw (← some_injective h1) (pop_stale-Kept entry.term p.delegate.pending_cmds p.ctx, refl)
      | inr e ↦
          let (cmd, _, h1) = >>?-eq-some (pb.parse_cmd entry.payload) _ (rw e at h) in
          process-Kept p entry.index entry.term cmd out h1
    ]

    handle_entries-Kept :
        (entries : List Entry) (p : Poll st) (results : List ExecResult)
        (out : List ExecResult × Poll st)
        → handle_entries st pb p results entries ≡ some out
        → Kept p.ctx out.1.ctx × (out.1.delegate.region_id ≡ p.delegate.region_id)
    unfolding handle_entries handle_committed_entry
    handle_entries-Kept [] p results out h = rw (← some_injective h) (Kept-refl p.ctx, refl)
    handle_entries-Kept (entry ∷ entries) p results out h =
        elim (Option-cases (handle_committed_entry st pb p entry)) [
          | inl e ↦ absurd (none_ne_some (rw (e, handle_entries) at h))
          | inr ((r, p1), e) ↦
              let (_, _, e1) =
                >>?-eq-some (assert (inc_u64 p.delegate.apply_state.applied_index == entry.index)) _
                  e in
              let (_, _, e2) = >>?-eq-some (assert (is_normal entry.entry_type)) _ e1 in
              let (k, same) = handle_entries-Kept entries p1 _ out (rw (e, handle_entries) at h) in
              let (k1, same1) = normal-Kept p entry (r, p1) e2 in (Kept-trans k1 k, same ∙ same1)
        ]

    abbrev pub state_key : Poll st → Bytes
    state_key p = apply_state_key st.be p.delegate.region_id

    -- The apply state is what the database holds once the batch is written.
    IsWaiting : Poll st → Type 0
    IsWaiting p =
        (p.ctx.timer ≡ true)
        × (after p.ctx.kv_wb (state_key p) (st.rocks.get_opt p.ctx.engine (state_key p))
            ≡ some (pb.apply_state_bytes p.delegate.apply_state))

    -- Between rounds: nothing waits, and the database holds the apply state.
    pub record IsResting (p : Poll st) : Type 0 where
      pub stopped : p.ctx.timer ≡ false
      pub answered : p.ctx.applied_batch ≡ []
      pub written : p.ctx.kv_wb ≡ []
      pub saved :
          st.rocks.get_opt p.ctx.engine (state_key p)
          ≡ some (pb.apply_state_bytes p.delegate.apply_state)

    handle_apply-IsWaiting :
        (p : Poll st) (a : Apply) (p' : Poll st) → handle_apply st pb p a ≡ some p' → IsWaiting p'
    unfolding handle_apply handle_raft_committed_entries finish_for IsWaiting
    handle_apply-IsWaiting p a p' h = elim (entries_cases a.entries) [
      | inl e ↦ absurd (none_ne_some (rw (e, handle_apply) at h))
      | inr (first, rest, e) ↦
          let (state, _, h1) =
            >>?-eq-some (set_commit (last_of first rest) p.delegate.apply_state) _
              (rw (e, handle_apply) at h) in
          let q = add_count st pb (suc (length rest)) (start_apply a state p) in
          let (r, e1, h2) = >>?-eq-some (handle_entries st pb q [] (first ∷ rest)) _ h1 in
          let (k, _) = handle_entries-Kept (first ∷ rest) q [] r e1 in
          rw (← some_injective h2) (k.timer, after-put_self r.1.ctx.kv_wb (state_key r.1) _ _)
    ]

    handle_tasks-IsWaiting :
        (msgs : List Msg) (p p' : Poll st)
        → handle_tasks st pb p msgs ≡ some p'
        → IsWaiting p ⊎ IsResting p
        → IsWaiting p' ⊎ IsResting p'
    unfolding handle_tasks
    handle_tasks-IsWaiting [] p p' h i = subst (λ q. IsWaiting q ⊎ IsResting q) (some_injective h) i
    handle_tasks-IsWaiting (apply a ∷ msgs) p p' h i =
        elim (Option-cases (handle_apply st pb p a)) [
          | inl e ↦ absurd (none_ne_some (rw (e, handle_tasks) at h))
          | inr (p1, e) ↦
              handle_tasks-IsWaiting msgs p1 p' (rw (e, handle_tasks) at h)
                (inl (handle_apply-IsWaiting p a p1 e))
        ]
    handle_tasks-IsWaiting (registration ∷ msgs) p p' h i = absurd (none_ne_some h)
    handle_tasks-IsWaiting (noop ∷ msgs) p p' h i = handle_tasks-IsWaiting msgs p p' h i

    module _ (laws : StorageLaws st) where
      write_to_db-engine :
          (ctx : ApplyContext st) (key : Bytes)
          → st.rocks.get_opt (write_to_db st pb ctx).engine key
            ≡ after ctx.kv_wb key (st.rocks.get_opt ctx.engine key)
      unfolding write_to_db after
      write_to_db-engine ctx key = elim (batch_cases ctx.kv_wb) [
        | inl e ↦ rw e refl
        | inr (op, wb, e) ↦ rw e (laws.rocks.get-write ctx.engine (op ∷ wb) key)
      ]

      end_round-IsResting :
          (p : Poll st) → IsWaiting p ⊎ IsResting p → IsResting (end_round st pb p)
      unfolding end_round flush IsWaiting
      end_round-IsResting p (inl (t, w)) = rw t (record {
        stopped = refl;
        answered = refl;
        written = refl;
        saved = write_to_db-engine p.ctx (state_key p) ∙ w;
      })
      end_round-IsResting p (inr r) =
          rw r.stopped
            (record { stopped = refl; answered = r.answered; written = r.written; saved = r.saved })

      -- A round of the apply thread that does not panic, from a state between rounds: again nothing
      -- waits to be written or answered, and the database holds the apply state. Every callback
      -- that came with the round or was waiting before is still waiting, or was invoked, as often as
      -- it came; and nothing else was invoked.
      pub poll_round-IsResting :
          (p p' : Poll st) (channel left : List Msg)
          → IsResting p
          → poll_round st pb p channel ≡ some (p', left)
          → IsResting p'
            × (p'.delegate.last_flush_applied_index ≡ p'.delegate.apply_state.applied_index)
            × ((n : ℕ)
                → queue_calls n p'.delegate.pending_cmds + answer_calls n p'.ctx.invoked
                  ≡ message_calls n (take messages_per_tick channel)
                    + queue_calls n p.delegate.pending_cmds
                    + answer_calls n p.ctx.invoked)
      unfolding poll_round
      poll_round-IsResting p p' channel left resting h =
          let (p1, e, h1) =
            >>?-eq-some (handle_tasks st pb p (take messages_per_tick channel)) _ h in
          let same = ap (λ (q : Poll st × List Msg). q.0) (some_injective h1) in
          let rests =
            subst (λ q. IsResting q) same
              (end_round-IsResting p1
                (handle_tasks-IsWaiting (take messages_per_tick channel) p p1 e (inr resting))) in
          (
            rests,
            subst
                (λ (q : Poll st).
                  q.delegate.last_flush_applied_index ≡ q.delegate.apply_state.applied_index)
                same (unfold end_round in refl),
            λ n. omega (
              arith,
              ap (all_calls n) same,
              end_round-calls pb n p1,
              handle_tasks-calls pb n (take messages_per_tick channel) p p1 e,
              no_answers n p resting.answered,
              no_answers n p' rests.answered,
            ),
          )
