-- ===== src/Mq/Apply/Answered.antt =====
-- apply.rs: which proposals of a task belong to which of its entries, and what they are answered with.
use auticuro.Prelude.{
  ℕ, zero, suc, ◌+◌, ◌<◌, ◌≤◌, ◌≡◌, refl, sym, ◌∙◌, ap, some, none, List, [], ◌∷◌, true, false,
  arith, inl, inr, map, some_injective, ◌^◌, ◌⊎◌, bytes,
}
use auticuro.Prelude.Map.{is_empty}
use auticuro.Mq.{
  RaftProtobuf, Entry, RaftCmdRequest, RaftCmdResponse, Request, Response, message_queue,
  RaftApplyState, AdminRequest, bind_term, entry_normal,
}
use auticuro.Mq.Apply.{PendingCmd, Answers}
use auticuro.Mq.Apply.Exec.{
  exec_raft_cmd, exec_write_cmd, write_responses, executed, exec_admin_cmd, Executed,
}

abbrev pub AllMessages : List Request → Type 0
AllMessages [] = Unit
AllMessages (r ∷ rs) = (r.cmd_type ≡ message_queue) × AllMessages rs

-- The positions of the messages of an entry.
abbrev pub message_positions : ℕ → ℕ → List Request → List (ℕ × ℕ)
message_positions index offset [] = []
message_positions index offset (r ∷ rs) = (index, offset) ∷ message_positions index (offset + 1) rs

abbrev pub response_position : Response → ℕ × ℕ
response_position r = (r.message_queue.index, r.message_queue.offset)

-- An administrator's command, or messages only.
abbrev pub IsServed : RaftCmdRequest → Type 0
IsServed req =
    ((r : AdminRequest) × (req.admin_request ≡ some r))
    ⊎ ((req.admin_request ≡ none) × AllMessages req.requests)

module _ (pb : RaftProtobuf) where
  -- Entries follow the index `i` and the term `t`, and hold nothing that the thread does not know.
  abbrev pub IsLog : ℕ → ℕ → List Entry → Type 0
  IsLog i t [] = Unit
  IsLog i t (e ∷ es) =
      (e.index ≡ i + 1)
      × (e.index < 2 ^ 64)
      × (t ≤ e.term)
      × (0 < e.term)
      × (e.entry_type ≡ entry_normal)
      × ((is_empty e.payload ≡ true)
          ⊎ ((req : RaftCmdRequest) × (is_empty e.payload ≡ false)
              × (pb.parse_cmd e.payload ≡ some req)
              × IsServed req))
      × IsLog e.index e.term es

  -- A command of messages is answered without an error, with the positions of its messages.
  abbrev pub IsAnswer : Entry → RaftCmdResponse → Type 0
  IsAnswer e resp =
      (req : RaftCmdRequest)
      → pb.parse_cmd e.payload ≡ some req
      → req.admin_request ≡ none
      → (resp.error ≡ none)
        × (map response_position resp.responses ≡ message_positions e.index 0 req.requests)

  -- What executing the command of an entry at the index of this entry gives.
  pub record IsOutcome (e : Entry) (resp : RaftCmdResponse) : Type 0 where
    pub req : RaftCmdRequest
    pub state : RaftApplyState
    pub term : ℕ
    pub x : Executed
    pub parsed : pb.parse_cmd e.payload ≡ some req
    pub executes : exec_raft_cmd state e.index req ≡ some x
    pub bound : resp ≡ bind_term x.0 term

  -- Which commands wait for which entries, in the order of the log.
  pub data Matches : List Entry → List PendingCmd → Type 0 where
    done : Matches [] []
    unasked :
        (e : Entry) {es : List Entry} {ps : List PendingCmd} → Matches es ps → Matches (e ∷ es) ps
    asked :
        (e : Entry) (p : PendingCmd) {es : List Entry} {ps : List PendingCmd}
        → is_empty e.payload ≡ false
        → p.index ≡ e.index
        → p.term ≡ e.term
        → Matches es ps
        → Matches (e ∷ es) (p ∷ ps)

  -- Each waiting command has its callback answered, with the outcome of the entry that has its index
  -- and its term.
  pub data Answered : List Entry → List PendingCmd → Answers → Type 0 where
    done : Answered [] [] []
    unasked :
        (e : Entry) {es : List Entry} {ps : List PendingCmd} {given : Answers}
        → Answered es ps given
        → Answered (e ∷ es) ps given
    asked :
        (e : Entry) (p : PendingCmd) (resp : RaftCmdResponse) {es : List Entry}
        {ps : List PendingCmd} {given : Answers}
        → p.index ≡ e.index
        → p.term ≡ e.term
        → IsOutcome e resp
        → IsAnswer e resp
        → Answered es ps given
        → Answered (e ∷ es) (p ∷ ps) ((p.cb, resp) ∷ given)

  -- A command that waits for a later entry comes after every earlier one.
  pub matches_later :
      (es : List Entry) (p : PendingCmd) (ps : List PendingCmd) (i t : ℕ)
      → Matches es (p ∷ ps)
      → IsLog i t es
      → (i < p.index) × (t ≤ p.term)
  matches_later [] p ps i t m l = elim m [ ]
  matches_later (e ∷ es) p ps i t (Matches.unasked _ m) (hi, _, ht, _, _, _, l) =
      let later = matches_later es p ps e.index e.term m l in omega arith
  matches_later (e ∷ es) p ps i t (Matches.asked _ _ _ pi pt m) (hi, _, ht, _, _, _, _) =
      omega arith

pub write_responses-positions :
    (index offset : ℕ) (reqs : List Request)
    → AllMessages reqs
    → (rs : List Response) × (write_responses index offset reqs ≡ some rs)
      × (map response_position rs ≡ message_positions index offset reqs)
unfolding write_responses
write_responses-positions index offset [] h = ([], refl, refl)
write_responses-positions index offset (r ∷ reqs) (m, h) =
    let (rs, e, same) = write_responses-positions index (offset + 1) reqs h in
    (
      record {
        cmd_type = message_queue;
        message_queue = record { index = index; offset = offset; error = bytes "OK" };
      }
          ∷ rs,
      rw (m, e) refl,
      ap (λ ps. (index, offset) ∷ ps) same,
    )

pub bind_term-IsAnswer :
    (pb : RaftProtobuf) (e : Entry) (resp : RaftCmdResponse) (term : ℕ)
    → IsAnswer pb e resp
    → IsAnswer pb e (bind_term resp term)
bind_term-IsAnswer pb e resp zero h = h
bind_term-IsAnswer pb e resp (suc term) h = h

-- A command that is known is executed.
pub exec_raft_cmd-IsAnswer :
    (pb : RaftProtobuf) (state : RaftApplyState) (e : Entry) (req : RaftCmdRequest)
    → pb.parse_cmd e.payload ≡ some req
    → IsServed req
    → (x : Executed) × (exec_raft_cmd state e.index req ≡ some x) × IsAnswer pb e x.0
unfolding exec_raft_cmd exec_write_cmd
exec_raft_cmd-IsAnswer pb state e req parsed (inl (r, admin)) =
    (executed state (exec_admin_cmd state req r), rw admin refl, λ req' parsed' no_admin. cc)
exec_raft_cmd-IsAnswer pb state e req parsed (inr (no_admin, messages)) =
    let (rs, wrote, same) = write_responses-positions e.index 0 req.requests messages in
    (
      (
        record {
          error = none;
          uuid = req.uuid;
          current_term = 0;
          responses = rs;
          admin_response = none;
        },
        none,
        state,
      ),
      rw (no_admin, wrote) refl,
      λ req' parsed' _. (
        refl,
        same
            ∙ ap (λ (q : RaftCmdRequest). message_positions e.index 0 q.requests)
                (some_injective (sym parsed ∙ parsed')),
      ),
    )
