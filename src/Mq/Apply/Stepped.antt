-- ===== src/Mq/Apply/Stepped.antt =====
-- apply.rs: one entry, with the command that waits for it or without.
use auticuro.Prelude.{
  ℕ, ◌+◌, ◌<◌, ◌≤◌, ◌≡◌, refl, sym, ◌∙◌, ap, subst, not, some, none, List, [], ◌∷◌, ◌++◌, true,
  false, ◌==◌, arith, inl, inr, lt→ltb, false_ne_true, ◌-◌, ◌^◌, ltb, ◌||◌, assert,
}
use auticuro.Prelude.Map.{is_empty}
use mathlib.Core.List.{append-nil}
use auticuro.Storage.{Storage}
use auticuro.Mq.{
  RaftProtobuf, Entry, RaftCmdRequest, RaftCmdResponse, bind_term, inc_u64, entry_normal,
}
use auticuro.Mq.Apply.{
  PendingCmd, Answers, ApplyContext, pop_stale, find_pending, push, is_after, ApplyResult,
}
use auticuro.Mq.Apply.Exec.{
  Poll, handle_committed_entry, process_raft_cmd, apply_raft_cmd, apply_empty_entry,
  handle_raft_entry_normal, set_applied_index,
}
use auticuro.Mq.Apply.Answered.{
  IsLog, Matches, matches_later, bind_term-IsAnswer, exec_raft_cmd-IsAnswer, IsAnswer, IsServed,
  IsOutcome,
}

pub ==_refl : (a b : ℕ) → a ≡ b → (a == b) ≡ true
==_refl a b h = ground arith

pub inc_u64-eq : (a b : ℕ) → b ≡ a + 1 → b < 2 ^ 64 → (inc_u64 a == b) ≡ true
inc_u64-eq a b h small = ground arith

pub not_zero : (a b : ℕ) → b ≡ a + 1 → (b == 0) ≡ false
not_zero a b h = ground arith

pub not_before : (i t j u : ℕ) → j ≤ i → u ≤ t → assert (not (ltb i j || ltb t u)) ≡ some tt
not_before i t j u h k = ground arith

pub after_later : (p : PendingCmd) (i t : ℕ) → i < p.index → t ≤ p.term → is_after p t i ≡ true
after_later p i t a b = ground arith

pub after_same : (p : PendingCmd) (i t : ℕ) → p.index ≡ i → p.term ≡ t → is_after p t i ≡ false
after_same p i t a b = ground arith

-- Commands that wait for later entries stay where they are.
abbrev pub IsLater : ℕ → ℕ → List PendingCmd → Type 0
IsLater i t [] = Unit
IsLater i t (p ∷ ps) = (i < p.index) × (t ≤ p.term)

pub IsLog-after :
    (pb : RaftProtobuf) (e : Entry) (es : List Entry) (i j t : ℕ)
    → j ≡ e.index
    → IsLog pb i t (e ∷ es)
    → IsLog pb j e.term es
IsLog-after pb e es i j t h (_, _, _, _, _, _, rest) =
    subst (λ k. IsLog pb k e.term es) (sym h) rest

pub IsLater-queue :
    (pb : RaftProtobuf) (es : List Entry) (ps : List PendingCmd) (i t : ℕ)
    → Matches pb es ps
    → IsLog pb i t es
    → IsLater i t ps
IsLater-queue pb es [] i t m l = tt
IsLater-queue pb es (p ∷ ps) i t m l = matches_later pb es p ps i t m l

module _ {st : Storage} where
  pub pop_stale-IsLater :
      (i t : ℕ) (ps : List PendingCmd) (ctx : ApplyContext st)
      → 0 < t
      → IsLater i t ps
      → pop_stale t ps ctx ≡ (ps, ctx)
  unfolding pop_stale
  pop_stale-IsLater i t [] ctx h l = refl
  pop_stale-IsLater i t (p ∷ ps) ctx h (_, l) = rw (lt→ltb (t - 1) p.term (omega arith)) refl

  pub find_pending-IsLater :
      (self_term i t : ℕ) (ps : List PendingCmd) (ctx : ApplyContext st)
      → IsLater i t ps
      → find_pending self_term i t ps ctx ≡ some (record { callback = none; queue = ps; ctx = ctx })
  unfolding find_pending
  find_pending-IsLater s i t [] ctx l = refl
  find_pending-IsLater s i t (p ∷ ps) ctx (a, b) = rw (after_later p i t a b) refl

  pub find_pending-asked :
      (self_term i t : ℕ) (p : PendingCmd) (ps : List PendingCmd) (ctx : ApplyContext st)
      → p.index ≡ i
      → p.term ≡ t
      → find_pending self_term i t (p ∷ ps) ctx
        ≡ some (record { callback = some p.cb; queue = ps; ctx = ctx })
  unfolding find_pending
  find_pending-asked s i t p ps ctx hi ht =
      rw (after_same p i t hi ht, ==_refl p.term t ht, ==_refl p.index i hi) refl

  -- What applying one entry does to the thread.
  pub record IsStepped (p : Poll st) (e : Entry) (queue : List PendingCmd) (new : Answers)
      (p' : Poll st) : Type 0 where
    pub queue_left : p'.delegate.pending_cmds ≡ queue
    pub answered : p'.ctx.applied_batch ≡ p.ctx.applied_batch ++ new
    pub not_invoked : p'.ctx.invoked ≡ p.ctx.invoked
    pub applied : p'.delegate.apply_state.applied_index ≡ e.index

  module _ (pb : RaftProtobuf) (p : Poll st) (e : Entry) (req : RaftCmdRequest)
      (follows : e.index ≡ p.delegate.apply_state.applied_index + 1)
      (parsed : pb.parse_cmd e.payload ≡ some req) (served : IsServed req) where
    pub process_unasked :
        (queue : List PendingCmd)
        → p.delegate.pending_cmds ≡ queue
        → IsLater e.index e.term queue
        → (out : ApplyResult × Poll st) × (process_raft_cmd st pb p e.index e.term req ≡ some out)
          × IsStepped p e queue [] out.1
    unfolding process_raft_cmd apply_raft_cmd
    process_unasked queue eq later =
        let (x, executed, _) =
          exec_raft_cmd-IsAnswer pb p.delegate.apply_state e req parsed served in
        let find =
          ap (λ q. find_pending p.delegate.term e.index e.term q p.ctx) eq
          ∙ find_pending-IsLater p.delegate.term e.index e.term queue p.ctx later in
        (
          (
            x.1,
            record {
              delegate = record p.delegate {
                apply_state = set_applied_index e.index x.2;
                applied_index_term = e.term;
                pending_cmds = queue;
              };
              ctx = p.ctx;
            },
          ),
          rw (not_zero _ e.index follows) (rw executed (rw find refl)),
          record {
            queue_left = refl;
            answered = sym (append-nil p.ctx.applied_batch);
            not_invoked = refl;
            applied = refl;
          },
        )

    pub process_asked :
        (cmd : PendingCmd) (queue : List PendingCmd)
        → p.delegate.pending_cmds ≡ cmd ∷ queue
        → cmd.index ≡ e.index
        → cmd.term ≡ e.term
        → (out : ApplyResult × Poll st) × (resp : RaftCmdResponse) × (process_raft_cmd st pb p
              e.index e.term req
            ≡ some out)
          × IsOutcome pb e resp
          × IsAnswer pb e resp
          × IsStepped p e queue ((cmd.cb, resp) ∷ []) out.1
    unfolding process_raft_cmd apply_raft_cmd
    process_asked cmd queue eq hi ht =
        let (x, executed, good) =
          exec_raft_cmd-IsAnswer pb p.delegate.apply_state e req parsed served in
        let find =
          ap (λ q. find_pending p.delegate.term e.index e.term q p.ctx) eq
          ∙ find_pending-asked p.delegate.term e.index e.term cmd queue p.ctx hi ht in
        let resp = bind_term x.0 p.delegate.term in
        (
          (
            x.1,
            record {
              delegate = record p.delegate {
                apply_state = set_applied_index e.index x.2;
                applied_index_term = e.term;
                pending_cmds = queue;
              };
              ctx = push (some cmd.cb) resp p.ctx;
            },
          ),
          resp,
          rw (not_zero _ e.index follows) (rw executed (rw find refl)),
          record {
            req = req;
            state = p.delegate.apply_state;
            term = p.delegate.term;
            x = x;
            parsed = parsed;
            executes = executed;
            bound = refl;
          },
          bind_term-IsAnswer pb e x.0 p.delegate.term good,
          record { queue_left = refl; answered = refl; not_invoked = refl; applied = refl },
        )

  pub committed_step :
      (pb : RaftProtobuf) (p : Poll st) (e : Entry)
      → e.index ≡ p.delegate.apply_state.applied_index + 1
      → e.index < 2 ^ 64
      → e.entry_type ≡ entry_normal
      → handle_committed_entry st pb p e ≡ handle_raft_entry_normal st pb p e
  unfolding handle_committed_entry
  committed_step pb p e follows small normal =
      rw (inc_u64-eq p.delegate.apply_state.applied_index e.index follows small) (rw normal refl)

  pub data_step :
      (pb : RaftProtobuf) (p : Poll st) (e : Entry) (req : RaftCmdRequest)
      → is_empty e.payload ≡ false
      → pb.parse_cmd e.payload ≡ some req
      → handle_raft_entry_normal st pb p e ≡ process_raft_cmd st pb p e.index e.term req
  unfolding handle_raft_entry_normal
  data_step pb p e req full parsed = rw full (rw parsed refl)

  module _ (pb : RaftProtobuf) (p : Poll st) (e : Entry) (es : List Entry) (t : ℕ)
      (log : IsLog pb p.delegate.apply_state.applied_index t (e ∷ es)) where
    pub entry_unasked :
        (queue : List PendingCmd)
        → p.delegate.pending_cmds ≡ queue
        → IsLater e.index e.term queue
        → (out : ApplyResult × Poll st) × (handle_committed_entry st pb p e ≡ some out)
          × IsStepped p e queue [] out.1
    unfolding handle_raft_entry_normal apply_empty_entry
    entry_unasked queue eq later =
        let (follows, small, _, pos, normal, known, _) = log in
        let first = committed_step pb p e follows small normal in
        elim known [
          | inl empty ↦
              let pops =
                ap (λ q. pop_stale e.term q p.ctx) eq
                ∙ pop_stale-IsLater e.index e.term queue p.ctx pos later in
              (
                (
                  none,
                  record {
                    delegate = record p.delegate {
                      apply_state = set_applied_index e.index p.delegate.apply_state;
                      applied_index_term = e.term;
                      pending_cmds = (pop_stale e.term p.delegate.pending_cmds p.ctx).0;
                    };
                    ctx = (pop_stale e.term p.delegate.pending_cmds p.ctx).1;
                  },
                ),
                first ∙ rw empty (rw (lt→ltb 0 e.term pos) refl),
                record {
                  queue_left = ap (λ (x : List PendingCmd × ApplyContext st). x.0) pops;
                  answered =
                      ap (λ (x : List PendingCmd × ApplyContext st). x.1.applied_batch) pops
                      ∙ sym (append-nil p.ctx.applied_batch);
                  not_invoked = ap (λ (x : List PendingCmd × ApplyContext st). x.1.invoked) pops;
                  applied = refl;
                },
              )
          | inr (req, full, parsed, served) ↦
              let (out, done, stepped) =
                process_unasked pb p e req follows parsed served queue eq later in
              (out, first ∙ data_step pb p e req full parsed ∙ done, stepped)
        ]

    pub entry_asked :
        (cmd : PendingCmd) (queue : List PendingCmd)
        → p.delegate.pending_cmds ≡ cmd ∷ queue
        → is_empty e.payload ≡ false
        → cmd.index ≡ e.index
        → cmd.term ≡ e.term
        → (out : ApplyResult × Poll st) × (resp : RaftCmdResponse) × (handle_committed_entry st pb p
              e
            ≡ some out)
          × IsOutcome pb e resp
          × IsAnswer pb e resp
          × IsStepped p e queue ((cmd.cb, resp) ∷ []) out.1
    entry_asked cmd queue eq full hi ht =
        let (follows, small, _, pos, normal, known, _) = log in
        let first = committed_step pb p e follows small normal in
        elim known [
          | inl empty ↦ absurd (false_ne_true (sym full ∙ empty))
          | inr (req, _, parsed, served) ↦
              let (out, resp, done, outcome, good, stepped) =
                process_asked pb p e req follows parsed served cmd queue eq hi ht in
              (out, resp, first ∙ data_step pb p e req full parsed ∙ done, outcome, good, stepped)
        ]
