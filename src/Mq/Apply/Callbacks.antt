-- ===== src/Mq/Apply/Callbacks.antt =====
-- apply.rs: no callback is lost and none is invoked twice, counted over the queue of waiting
-- commands, the batch of answers and the log of what was invoked.
use auticuro.Prelude.{
  ℕ, suc, ◌+◌, ◌≡◌, refl, ◌∙◌, ap, Option, some, none, List, [], ◌∷◌, ◌++◌, ◌==◌, if◌then◌else◌,
  arith, Option-cases, inl, inr, some_injective, none_ne_some, >>?-eq-some, map, assert, ◌-◌, ◌^◌,
  ◌⊎◌, Bool-cases, ltb, not,
}
use auticuro.Prelude.Lists.{length}
use auticuro.Prelude.Map.{is_empty}
use auticuro.Storage.{Storage}
use auticuro.Mq.{
  RaftCmdResponse, RaftProtobuf, Entry, RaftCmdRequest, err_resp, stale_command, inc_u64, bind_term,
}
use auticuro.Mq.Apply.{
  Callback, no_callback, read, write, PendingCmd, Answers, ApplyContext, invoke_with_response,
  pop_stale, find_pending, Found, push, push_cb, is_after, notify_stale_command, ApplyDelegate,
  ExecResult, ApplyResult,
}
use auticuro.Mq.Apply.Exec.{
  Poll, handle_entries, handle_committed_entry, handle_raft_committed_entries, finish_for,
  add_count, process_raft_cmd, apply_raft_cmd, apply_empty_entry, exec_raft_cmd, is_normal,
  handle_raft_entry_normal,
}
use auticuro.Mq.Apply.Poll.{
  Msg, apply, registration, noop, Apply, handle_apply, handle_tasks, end_round, flush, write_to_db,
  invoke_all, pending_cmd, set_commit, append_proposal, last_of, start_apply,
}

-- One if the callback has the number `n`.
abbrev pub calls : ℕ → Callback → ℕ
calls n no_callback = 0
calls n (read m) = if m == n then 1 else 0
calls n (write m) = if m == n then 1 else 0

abbrev option_calls : ℕ → Option Callback → ℕ
option_calls n none = 0
option_calls n (some cb) = calls n cb

unfoldable pub queue_calls : ℕ → List PendingCmd → ℕ
queue_calls n [] = 0
queue_calls n (cmd ∷ cmds) = calls n cmd.cb + queue_calls n cmds

unfoldable pub answer_calls : ℕ → Answers → ℕ
answer_calls n [] = 0
answer_calls n ((cb, _) ∷ answers) = calls n cb + answer_calls n answers

-- The callbacks with the number `n` that the messages bring.
unfoldable pub message_calls : ℕ → List Msg → ℕ
unfolding queue_calls
message_calls n [] = 0
message_calls n (apply a ∷ msgs) = queue_calls n (map pending_cmd a.cbs) + message_calls n msgs
message_calls n (registration ∷ msgs) = message_calls n msgs
message_calls n (noop ∷ msgs) = message_calls n msgs

answer_calls-append :
    (n : ℕ) (xs ys : Answers) → answer_calls n (xs ++ ys) ≡ answer_calls n xs + answer_calls n ys
unfolding answer_calls
answer_calls-append n [] ys = omega arith
answer_calls-append n ((cb, r) ∷ xs) ys = omega (arith, answer_calls-append n xs ys)

queue_calls-append :
    (n : ℕ) (xs ys : List PendingCmd)
    → queue_calls n (xs ++ ys) ≡ queue_calls n xs + queue_calls n ys
unfolding queue_calls
queue_calls-append n [] ys = omega arith
queue_calls-append n (x ∷ xs) ys = omega (arith, queue_calls-append n xs ys)

pub answer_calls-invoke :
    (n : ℕ) (cb : Callback) (resp : RaftCmdResponse) (invoked : Answers)
    → answer_calls n (invoke_with_response cb resp invoked) ≡ answer_calls n invoked + calls n cb
answer_calls-invoke n no_callback resp invoked = omega arith
answer_calls-invoke n (read m) resp invoked =
    (unfold answer_calls in answer_calls-append n invoked ((read m, resp) ∷ []) ∙ omega arith)
answer_calls-invoke n (write m) resp invoked =
    (unfold answer_calls in answer_calls-append n invoked ((write m, resp) ∷ []) ∙ omega arith)

answer_calls-invoke_all :
    (n : ℕ) (batch invoked : Answers)
    → answer_calls n (invoke_all batch invoked) ≡ answer_calls n batch + answer_calls n invoked
unfolding invoke_all answer_calls
answer_calls-invoke_all n [] invoked = omega arith
answer_calls-invoke_all n ((cb, r) ∷ batch) invoked = omega (
  arith,
  answer_calls-invoke_all n batch (invoke_with_response cb r invoked),
  answer_calls-invoke n cb r invoked,
)

apply_raft_cmd-queue :
    (d : ApplyDelegate) (index term : ℕ) (req : RaftCmdRequest)
    (a : RaftCmdResponse × ApplyResult × ApplyDelegate)
    → apply_raft_cmd d index term req ≡ some a
    → a.2.pending_cmds ≡ d.pending_cmds
unfolding apply_raft_cmd
apply_raft_cmd-queue d index term req a h =
    let (e, _, h1) = >>?-eq-some (exec_raft_cmd d.apply_state index req) _ h in
    rw (← some_injective h1) refl

pub entries_cases :
    (es : List Entry) → (es ≡ []) ⊎ ((e : Entry) × (rest : List Entry) × (es ≡ e ∷ rest))
entries_cases [] = inl refl
entries_cases (e ∷ es) = inr (e, es, refl)

module _ {st : Storage} where
  -- The callbacks with the number `n` in a context, and in a thread.
  abbrev pub context_calls : ℕ → ApplyContext st → ℕ
  context_calls n ctx = answer_calls n ctx.applied_batch + answer_calls n ctx.invoked

  abbrev pub all_calls : ℕ → Poll st → ℕ
  all_calls n p = queue_calls n p.delegate.pending_cmds + context_calls n p.ctx

  context_calls-push_cb :
      (n : ℕ) (cb : Callback) (resp : RaftCmdResponse) (ctx : ApplyContext st)
      → context_calls n (push_cb cb resp ctx) ≡ calls n cb + context_calls n ctx
  context_calls-push_cb n cb resp ctx =
      (unfold answer_calls in
        omega (arith, answer_calls-append n ctx.applied_batch ((cb, resp) ∷ [])))

  pop_stale-calls :
      (n term : ℕ) (cmds : List PendingCmd) (ctx : ApplyContext st)
      → queue_calls n (pop_stale term cmds ctx).0 + context_calls n (pop_stale term cmds ctx).1
        ≡ queue_calls n cmds + context_calls n ctx
  unfolding pop_stale queue_calls
  pop_stale-calls n term [] ctx = refl
  pop_stale-calls n term (cmd ∷ cmds) ctx =
      let ctx1 = push_cb cmd.cb (err_resp stale_command term) ctx in
      elim (Bool-cases (is_after cmd (term - 1) (2 ^ 64 - 1))) [
        | inl e ↦ rw e refl
        | inr e ↦ rw e (
            omega (
              arith,
              pop_stale-calls n term cmds ctx1,
              context_calls-push_cb n cmd.cb (err_resp stale_command term) ctx,
            ))
      ]

  notify-calls :
      (n term : ℕ) (cmd : PendingCmd) (ctx : ApplyContext st)
      → context_calls n (notify_stale_command term cmd ctx) ≡ calls n cmd.cb + context_calls n ctx
  notify-calls n term cmd ctx =
      omega (arith, answer_calls-invoke n cmd.cb (err_resp stale_command term) ctx.invoked)

  find_pending-calls :
      (n self_term index term : ℕ) (cmds : List PendingCmd) (ctx : ApplyContext st) (f : Found st)
      → find_pending self_term index term cmds ctx ≡ some f
      → option_calls n f.callback + queue_calls n f.queue + context_calls n f.ctx
        ≡ queue_calls n cmds + context_calls n ctx
  unfolding find_pending queue_calls
  find_pending-calls n t i term [] ctx f h = rw (← some_injective h) (omega arith)
  find_pending-calls n t i term (head ∷ cmds) ctx f h = elim (Bool-cases (is_after head term i)) [
    | inl e ↦ rw (← some_injective (rw e at h)) (omega arith)
    | inr e ↦ elim (Bool-cases (head.term == term)) [
      | inl e1 ↦ elim (Bool-cases (head.index == i)) [
        | inl e2 ↦ rw (← some_injective (rw (e, e1, e2) at h)) (omega arith)
        | inr e2 ↦ absurd (none_ne_some (rw (e, e1, e2) at h))
      ]
      | inr e1 ↦ omega (
        arith,
        find_pending-calls n t i term cmds (notify_stale_command t head ctx) f (rw (e, e1) at h),
        notify-calls n t head ctx,
      )
    ]
  ]

  push-calls :
      (n : ℕ) (cb : Option Callback) (resp : RaftCmdResponse) (ctx : ApplyContext st)
      → context_calls n (push cb resp ctx) ≡ option_calls n cb + context_calls n ctx
  push-calls n none resp ctx = omega arith
  push-calls n (some cb) resp ctx = context_calls-push_cb n cb resp ctx

  module _ (pb : RaftProtobuf) where
    process-calls :
        (n : ℕ) (p : Poll st) (index term : ℕ) (cmd : RaftCmdRequest) (out : ApplyResult × Poll st)
        → process_raft_cmd st pb p index term cmd ≡ some out
        → all_calls n out.1 ≡ all_calls n p
    unfolding process_raft_cmd
    process-calls n p index term cmd out h =
        let (_, _, h1) = >>?-eq-some (assert (not (index == 0))) _ h in
        let (a, e, h2) = >>?-eq-some (apply_raft_cmd p.delegate index term cmd) _ h1 in
        let (f, found, h3) =
          >>?-eq-some (find_pending a.2.term index term a.2.pending_cmds p.ctx) _ h2 in
        rw (← some_injective h3) (
          omega (
            arith,
            ap (queue_calls n) (apply_raft_cmd-queue p.delegate index term cmd a e),
            find_pending-calls n a.2.term index term a.2.pending_cmds p.ctx f found,
            push-calls n f.callback (bind_term a.0 a.2.term) f.ctx,
          ))

    normal-calls :
        (n : ℕ) (p : Poll st) (entry : Entry) (out : ApplyResult × Poll st)
        → handle_raft_entry_normal st pb p entry ≡ some out
        → all_calls n out.1 ≡ all_calls n p
    unfolding handle_raft_entry_normal apply_empty_entry
    normal-calls n p entry out h = elim (Bool-cases (is_empty entry.payload)) [
      | inl e ↦
          let (_, _, h1) = >>?-eq-some (assert (ltb 0 entry.term)) _ (rw e at h) in
          rw (← some_injective h1) (pop_stale-calls n entry.term p.delegate.pending_cmds p.ctx)
      | inr e ↦
          let (cmd, _, h1) = >>?-eq-some (pb.parse_cmd entry.payload) _ (rw e at h) in
          process-calls n p entry.index entry.term cmd out h1
    ]

    handle_entries-calls :
        (n : ℕ) (entries : List Entry) (p : Poll st) (results : List ExecResult)
        (out : List ExecResult × Poll st)
        → handle_entries st pb p results entries ≡ some out
        → all_calls n out.1 ≡ all_calls n p
    unfolding handle_entries handle_committed_entry
    handle_entries-calls n [] p results out h = rw (← some_injective h) refl
    handle_entries-calls n (entry ∷ entries) p results out h =
        elim (Option-cases (handle_committed_entry st pb p entry)) [
          | inl e ↦ absurd (none_ne_some (rw (e, handle_entries) at h))
          | inr ((r, p1), e) ↦
              let (_, _, e1) =
                >>?-eq-some (assert (inc_u64 p.delegate.apply_state.applied_index == entry.index)) _
                  e in
              let (_, _, e2) = >>?-eq-some (assert (is_normal entry.entry_type)) _ e1 in
              handle_entries-calls n entries p1 _ out (rw (e, handle_entries) at h)
              ∙ normal-calls n p entry (r, p1) e2
        ]

    committed-calls :
        (n : ℕ) (p : Poll st) (entries : List Entry) (p' : Poll st)
        → handle_raft_committed_entries st pb p entries ≡ some p'
        → all_calls n p' ≡ all_calls n p
    unfolding handle_raft_committed_entries finish_for
    committed-calls n p [] p' h = rw (← some_injective h) refl
    committed-calls n p (entry ∷ entries) p' h =
        let q = add_count st pb (suc (length entries)) p in
        let (r, e, h1) = >>?-eq-some (handle_entries st pb q [] (entry ∷ entries)) _ h in
        rw (← some_injective h1) (handle_entries-calls n (entry ∷ entries) q [] r e)

    handle_apply-calls :
        (n : ℕ) (p : Poll st) (a : Apply) (p' : Poll st)
        → handle_apply st pb p a ≡ some p'
        → all_calls n p' ≡ queue_calls n (map pending_cmd a.cbs) + all_calls n p
    unfolding handle_apply append_proposal
    handle_apply-calls n p a p' h = elim (entries_cases a.entries) [
      | inl e ↦ absurd (none_ne_some (rw (e, handle_apply) at h))
      | inr (first, rest, e) ↦
          let (state, _, h1) =
            >>?-eq-some (set_commit (last_of first rest) p.delegate.apply_state) _
              (rw (e, handle_apply) at h) in
          omega (
            arith,
            committed-calls n (start_apply a state p) (first ∷ rest) p' h1,
            queue_calls-append n p.delegate.pending_cmds (map pending_cmd a.cbs),
          )
    ]

    pub handle_tasks-calls :
        (n : ℕ) (msgs : List Msg) (p p' : Poll st)
        → handle_tasks st pb p msgs ≡ some p'
        → all_calls n p' ≡ message_calls n msgs + all_calls n p
    unfolding handle_tasks message_calls
    handle_tasks-calls n [] p p' h = rw (← some_injective h) (omega arith)
    handle_tasks-calls n (apply a ∷ msgs) p p' h = elim (Option-cases (handle_apply st pb p a)) [
      | inl e ↦ absurd (none_ne_some (rw (e, handle_tasks) at h))
      | inr (p1, e) ↦ omega (
        arith,
        handle_tasks-calls n msgs p1 p' (rw (e, handle_tasks) at h),
        handle_apply-calls n p a p1 e,
      )
    ]
    handle_tasks-calls n (registration ∷ msgs) p p' h = absurd (none_ne_some h)
    handle_tasks-calls n (noop ∷ msgs) p p' h = handle_tasks-calls n msgs p p' h

    pub end_round-calls : (n : ℕ) (p : Poll st) → all_calls n (end_round st pb p) ≡ all_calls n p
    unfolding end_round flush write_to_db answer_calls
    end_round-calls n p = elim (Bool-cases p.ctx.timer) [
      | inl e ↦ rw e (omega (arith, answer_calls-invoke_all n p.ctx.applied_batch p.ctx.invoked))
      | inr e ↦ rw e refl
    ]
