-- ===== src/Mq/Apply/Total.antt =====
-- apply.rs: `handle_apply` does not stop on a task whose entries follow the applied index.
use auticuro.Prelude.{
  ℕ, suc, ◌+◌, ◌≤◌, ◌≡◌, refl, sym, ◌∙◌, ap, subst, some, List, [], ◌∷◌, ◌++◌, arith, map,
}
use mathlib.Core.List.{append-nil, append_assoc}
use auticuro.Storage.{Storage}
use auticuro.Mq.{RaftProtobuf, Entry}
use auticuro.Mq.Apply.{PendingCmd, Answers, ExecResult}
use auticuro.Mq.Apply.Exec.{
  Poll, handle_entries, push_result, handle_raft_committed_entries, finish_for, add_count,
}
use auticuro.Mq.Apply.Poll.{Apply, handle_apply, set_commit, last_of, start_apply, pending_cmd}
use auticuro.Prelude.Lists.{length}
use auticuro.Mq.Apply.Answered.{IsLog, Matches, Answered}
use auticuro.Mq.Apply.Stepped.{not_before, IsLog-after, IsLater-queue, entry_unasked, entry_asked}

module _ {st : Storage} where
  module _ (pb : RaftProtobuf) where
    -- What a run over entries leaves, if every waiting command belongs to one of them.
    pub record IsDone (p : Poll st) (es : List Entry) (ps : List PendingCmd) (new : Answers)
        (p' : Poll st) : Type 0 where
      pub queue_left : p'.delegate.pending_cmds ≡ []
      pub answered : p'.ctx.applied_batch ≡ p.ctx.applied_batch ++ new
      pub not_invoked : p'.ctx.invoked ≡ p.ctx.invoked
      pub applied :
          p'.delegate.apply_state.applied_index ≡ p.delegate.apply_state.applied_index + length es
      pub each : Answered pb es ps new

    handle_entries_total :
        (es : List Entry) (ps : List PendingCmd) (p : Poll st) (results : List ExecResult) (t : ℕ)
        → p.delegate.pending_cmds ≡ ps
        → Matches pb es ps
        → IsLog pb p.delegate.apply_state.applied_index t es
        → (out : List ExecResult × Poll st) × (new : Answers) × (handle_entries st pb p results es
            ≡ some out)
          × IsDone p es ps new out.1
    unfolding handle_entries
    handle_entries_total [] ps p results t eq Matches.done l = (
      (results, p),
      [],
      refl,
      record {
        queue_left = eq;
        answered = sym (append-nil p.ctx.applied_batch);
        not_invoked = refl;
        applied = omega arith;
        each = Answered.done;
      },
    )
    handle_entries_total (e ∷ es) ps p results t eq (Matches.unasked _ m) l =
        let (_, _, _, _, _, _, rest) = l in
        let ((r, p1), step, st1) =
          entry_unasked pb p e es t l ps eq (IsLater-queue pb es ps e.index e.term m rest) in
        let (out, new, run, d) =
          handle_entries_total es ps p1 (push_result r results) e.term st1.queue_left m
            (IsLog-after pb e es _ _ t st1.applied l) in
        (
          out,
          new,
          rw (step, handle_entries) run,
          record {
            queue_left = d.queue_left;
            answered =
                d.answered ∙ ap (λ b. b ++ new) (st1.answered ∙ append-nil p.ctx.applied_batch);
            not_invoked = d.not_invoked ∙ st1.not_invoked;
            applied = omega (arith, d.applied, st1.applied, l);
            each = Answered.unasked e d.each;
          },
        )
    handle_entries_total (e ∷ es) (cmd ∷ ps) p results t eq (Matches.asked _ _ full hi ht m) l =
        let ((r, p1), resp, step, outcome, good, st1) =
          entry_asked pb p e es t l cmd ps eq full hi ht in
        let (out, new, run, d) =
          handle_entries_total es ps p1 (push_result r results) e.term st1.queue_left m
            (IsLog-after pb e es _ _ t st1.applied l) in
        (
          out,
          (cmd.cb, resp) ∷ new,
          rw (step, handle_entries) run,
          record {
            queue_left = d.queue_left;
            answered =
                d.answered
                ∙ ap (λ b. b ++ new) st1.answered
                ∙ append_assoc p.ctx.applied_batch ((cmd.cb, resp) ∷ []) new;
            not_invoked = d.not_invoked ∙ st1.not_invoked;
            applied = omega (arith, d.applied, st1.applied, l);
            each = Answered.asked e cmd resp hi ht outcome good d.each;
          },
        )

    -- A task whose entries follow the applied index, are of the known kinds, and can be parsed, is
    -- done without a panic. If no command waits, and each proposal of the task belongs to an entry of
    -- it that holds a command, in the order of the log, then none waits afterwards, the applied index
    -- has gone up by the number of entries, no callback is invoked as stale, and each of them is
    -- answered with the outcome of executing the entry that has its own index and term: for a command
    -- of messages no error, and the index of the entry with the offset of each message. The commit index and term must not jump back.
    pub handle_apply_total :
        (p : Poll st) (a : Apply) (first : Entry) (rest : List Entry) (t : ℕ)
        → a.entries ≡ first ∷ rest
        → p.delegate.pending_cmds ≡ []
        → Matches pb a.entries (map pending_cmd a.cbs)
        → IsLog pb p.delegate.apply_state.applied_index t a.entries
        → p.delegate.apply_state.commit_index ≤ (last_of first rest).index
        → p.delegate.apply_state.commit_term ≤ (last_of first rest).term
        → (p' : Poll st) × (new : Answers) × (handle_apply st pb p a ≡ some p')
          × IsDone p a.entries (map pending_cmd a.cbs) new p'
    unfolding handle_apply set_commit handle_raft_committed_entries finish_for
    handle_apply_total p a first rest t es none_waits m log ci ct =
        let state = record p.delegate.apply_state {
          commit_index = (last_of first rest).index;
          commit_term = (last_of first rest).term;
        } in
        let q = add_count st pb (suc (length rest)) (start_apply a state p) in
        let (out, new, run, d) =
          handle_entries_total (first ∷ rest) (map pending_cmd a.cbs) q [] t
            (ap (λ c. c ++ map pending_cmd a.cbs) none_waits)
            (subst (λ x. Matches pb x (map pending_cmd a.cbs)) es m)
            (subst (λ x. IsLog pb p.delegate.apply_state.applied_index t x) es log) in
        (
          finish_for st pb out.1 out.0,
          new,
          rw es (rw (not_before _ _ _ _ ci ct) (rw run refl)),
          rw es (record {
            queue_left = d.queue_left;
            answered = d.answered;
            not_invoked = d.not_invoked;
            applied = d.applied;
            each = d.each;
          }),
        )
