-- ===== src/Mq/Batching/Building.antt =====
-- peer.rs: what a builder holds, and that a batch of commands serves all of them.
use auticuro.Prelude.{
  ℕ, zero, suc, ◌≡◌, refl, sym, ◌∙◌, ap, ap₂, Option, some, none, List, [], ◌∷◌, ◌++◌, arith, map,
}
use auticuro.Prelude.Lists.{length}
use mathlib.Core.List.{append-nil, append_assoc}
use auticuro.Mq.{RaftCmdRequest, RaftCmdResponse, Error, RaftApplyState, bind_term}
use auticuro.Mq.Apply.Exec.{Executed, exec_raft_cmd, exec_write_cmd}
use auticuro.Mq.Apply.Answered.{
  AllMessages, message_positions, response_position, write_responses-positions,
}
use auticuro.Mq.Batching.{
  join_request, RaftCommand, Builder, add, built_callback, invoke_built, alone,
}
use auticuro.Mq.Batching.Parts.{
  length-map, length-message_positions, IsClient, AreClients, all_requests, IsServing, counted,
  invoke-write, invoke_shared-positions, clients-AllMessages, map-append,
}

-- The request of a batch of commands.
abbrev pub joined : List RaftCommand → Option RaftCmdRequest
joined [] = none
joined (c ∷ cs) = some (record c.request { requests = all_requests (c ∷ cs) })

-- The builder holds these commands.
pub record IsBuilding (self : Builder) (cmds : List RaftCommand) : Type 0 where
  pub request : self.request ≡ joined cmds
  pub callbacks : self.callbacks ≡ map counted cmds

pub bind_term-fields :
    (resp : RaftCmdResponse) (term : ℕ)
    → ((bind_term resp term).error ≡ resp.error)
      × ((bind_term resp term).responses ≡ resp.responses)
bind_term-fields resp zero = (refl, refl)
bind_term-fields resp (suc term) = (refl, refl)

-- What a command of messages gives, wherever it is applied.
pub exec-positions :
    (state : RaftApplyState) (index term : ℕ) (req : RaftCmdRequest)
    → req.admin_request ≡ none
    → AllMessages req.requests
    → (x : Executed) × (exec_raft_cmd state index req ≡ some x)
      × ((bind_term x.0 term).error ≡ none)
      × (map response_position (bind_term x.0 term).responses
          ≡ message_positions index 0 req.requests)
unfolding exec_raft_cmd exec_write_cmd
exec-positions state index term req no_admin messages =
    let (rs, wrote, same) = write_responses-positions index 0 req.requests messages in
    let resp : RaftCmdResponse = record {
      error = none;
      uuid = req.uuid;
      current_term = 0;
      responses = rs;
      admin_response = none;
    } in
    let (e, r) = bind_term-fields resp term in
    ((resp, none, state), rw (no_admin, wrote) refl, e, ap (map response_position) r ∙ same)

pub AreClients-append :
    (xs ys : List RaftCommand) → AreClients xs → AreClients ys → AreClients (xs ++ ys)
AreClients-append [] ys a b = b
AreClients-append (x ∷ xs) ys (h, a) b = (h, AreClients-append xs ys a b)

pub all_requests-append :
    (xs ys : List RaftCommand) → all_requests (xs ++ ys) ≡ all_requests xs ++ all_requests ys
all_requests-append [] ys = refl
all_requests-append (x ∷ xs) ys =
    ap (λ rs. x.request.requests ++ rs) (all_requests-append xs ys)
    ∙ sym (append_assoc x.request.requests (all_requests xs) (all_requests ys))

pub alone-IsServing : (c : RaftCommand) → IsClient c → IsServing (alone c) (c ∷ [])
unfolding invoke_built
alone-IsServing c h = (
  sym (append-nil c.request.requests),
  λ state index term.
      let (x, run, e, same) = exec-positions state index term c.request h.no_admin h.messages in
      (
        x,
        (c.callback, bind_term x.0 term) ∷ [],
        run,
        ap some (invoke-write c.callback h.sender (bind_term x.0 term) [] h.waits),
        ap₂ (λ (r : Option Error) ps. (c.callback, r, ps) ∷ []) e same,
      ),
)

-- A batch serves all of its clients.
pub built-IsServing :
    (c : RaftCommand) (cs : List RaftCommand)
    → AreClients (c ∷ cs)
    → IsServing
        (record {
          request = record c.request { requests = all_requests (c ∷ cs) };
          callback = built_callback (map counted (c ∷ cs));
        })
        (c ∷ cs)
unfolding invoke_built
built-IsServing c [] (h, a) = (
  refl,
  λ state index term.
      let rs = c.request.requests in
      let req : RaftCmdRequest = record c.request { requests = rs ++ [] } in
      let (x, run, e, same) =
        exec-positions state index term req h.no_admin (clients-AllMessages (c ∷ []) (h, a)) in
      (
        x,
        (c.callback, bind_term x.0 term) ∷ [],
        run,
        ap some (invoke-write c.callback h.sender (bind_term x.0 term) [] h.waits),
        ap₂ (λ (r : Option Error) ps. (c.callback, r, ps) ∷ []) e
            (same ∙ ap (message_positions index 0) (append-nil rs)),
      ),
)
built-IsServing c (d ∷ cs) (h, a) = (
  refl,
  λ state index term.
      let req : RaftCmdRequest = record c.request { requests = all_requests (c ∷ d ∷ cs) } in
      let (x, run, e, same) =
        exec-positions state index term req h.no_admin (clients-AllMessages (c ∷ d ∷ cs) (h, a)) in
      let (given, gave, d1) =
        invoke_shared-positions (c ∷ d ∷ cs) index 0 (bind_term x.0 term) [] (h, a) e
          (omega (
            arith,
            length-map response_position (bind_term x.0 term).responses,
            ap length same,
            length-message_positions index 0 (all_requests (c ∷ d ∷ cs)),
          ))
          same in
      (x, given, run, gave, d1),
)

pub join_request-joined :
    (cmds : List RaftCommand) (cmd : RaftCommand)
    → join_request (joined cmds) cmd.request ≡ joined (cmds ++ cmd ∷ [])
join_request-joined [] cmd =
    ap (λ rs. some (record cmd.request { requests = rs })) (sym (append-nil cmd.request.requests))
join_request-joined (c ∷ cs) cmd =
    ap (λ rs. some (record c.request { requests = rs }))
      (append_assoc c.request.requests (all_requests cs) cmd.request.requests
        ∙ ap (λ rs. c.request.requests ++ rs)
            (ap (λ rs. all_requests cs ++ rs) (sym (append-nil cmd.request.requests))
              ∙ sym (all_requests-append cs (cmd ∷ []))))

pub add-IsBuilding :
    (self : Builder) (cmds : List RaftCommand) (cmd : RaftCommand) (size : ℕ)
    → IsBuilding self cmds
    → IsBuilding (add self cmd size) (cmds ++ cmd ∷ [])
unfolding add
add-IsBuilding self cmds cmd size i = record {
  request = ap (λ r. join_request r cmd.request) i.request ∙ join_request-joined cmds cmd;
  callbacks =
      ap (λ cbs. cbs ++ counted cmd ∷ []) i.callbacks ∙ sym (map-append counted cmds (cmd ∷ []));
}
