-- ===== src/Mq/Proposals.antt =====
-- dependencies/tiny-mq/src/peer.rs: the queue of the proposals that wait, and the committed entries
-- that a peer hands to the apply thread with the proposals that belong to them. `none` is a panic;
-- the front of the queue is the head of the list. The hooks on a callback for proposed and committed
-- commands are left out.
pub mod Ordered
pub mod Committed
pub mod Answered
use auticuro.Prelude.{
  ℕ, ◌^◌, ◌-◌, Option, some, none, List, [], ◌∷◌, ◌++◌, Bool, true, false, leb, ◌==◌, if◌then◌else◌,
  ◌>>?◌, assert,
}
use auticuro.Mq.{Entry, err_resp, stale_command}
use auticuro.Mq.Apply.{Callback, no_callback, read, write, Answers, invoke_with_response, is_after}
use auticuro.Mq.Apply.Poll.{Proposal, Apply, pending_cmd, last_of}

-- `(p.term, p.index) > (term, index)`
abbrev pub comes_after : Proposal → ℕ → ℕ → Bool
comes_after p term index = is_after (pending_cmd p) term index

-- msg.rs
abbrev pub is_none : Callback → Bool
is_none no_callback = true
is_none (read n) = false
is_none (write n) = false

-- `ProposalQueue::pop`, and the queue after it.
unfoldable pub pop : ℕ → ℕ → List Proposal → Option Proposal × List Proposal
pop term index [] = (none, [])
pop term index (p ∷ ps) = if comes_after p term index then (none, p ∷ ps) else (some p, ps)

-- The last element.
abbrev pub back : List Proposal → Option Proposal
back [] = none
back (p ∷ []) = some p
back (p ∷ q ∷ ps) = back (q ∷ ps)

-- `ProposalQueue::push`
unfoldable pub push : Proposal → List Proposal → Option (List Proposal)
push p queue = elim (back queue) [
  | none ↦ some (queue ++ p ∷ [])
  | some f ↦ assert (comes_after p f.term f.index) >>? λ _. some (queue ++ p ∷ [])
]

-- What a search in the queue gives: what was found, the queue, and what was invoked.
pub record Search : Type 0 where
  pub found : List Proposal
  pub queue : List Proposal
  pub invoked : Answers

abbrev pub answered : Proposal → List Proposal
answered p = if is_none p.cb then [] else p ∷ []

-- A round of the loop of `find_proposal` on what was popped; `rest` are the later rounds.
abbrev pub searched :
    ℕ → ℕ → Option Proposal × List Proposal → Answers → Option Search → Option Search
searched term index (none, queue) invoked rest =
    some (record { found = []; queue = queue; invoked = invoked })
searched term index (some p, queue) invoked rest =
    if p.term == term
    then if p.index == index
      then some (record { found = answered p; queue = queue; invoked = invoked })
      else none
    else rest

-- `ProposalQueue::find_proposal`: at most one is found. Every round pops one proposal.
unfoldable pub find_proposal : ℕ → ℕ → ℕ → List Proposal → Answers → Option Search
find_proposal current_term term index [] invoked =
    some (record { found = []; queue = []; invoked = invoked })
find_proposal current_term term index (p ∷ ps) invoked =
    let rest =
      find_proposal current_term term index ps
        (invoke_with_response p.cb (err_resp stale_command current_term) invoked) in
    searched term index (pop term index (p ∷ ps)) invoked rest

-- The proposals of committed entries; an empty queue gives none.
unfoldable pub find_proposals : ℕ → List Entry → List Proposal → Answers → Option Search
unfolding find_proposal
find_proposals current_term [] queue invoked =
    some (record { found = []; queue = queue; invoked = invoked })
find_proposals current_term (e ∷ es) queue invoked =
    elim (find_proposal current_term e.term e.index queue invoked) [
      | none ↦ none
      | some s ↦ find_proposals current_term es s.queue s.invoked >>? λ later.
          some (record later { found = s.found ++ later.found })
    ]

-- The parts of `Peer` that this reads or writes; `invoked` logs the invoked callbacks, `scheduled`
-- what was sent to the apply thread.
pub record Peer : Type 0 where
  pub term : ℕ
  pub last_applying_idx : ℕ
  pub last_urgent_proposal_idx : ℕ
  pub skip_bcast_commit : Bool
  pub proposals : List Proposal
  pub invoked : Answers
  pub scheduled : List Apply

-- `u64::MAX`
abbrev pub no_urgent_proposal : ℕ
no_urgent_proposal = 2 ^ 64 - 1

-- Urgent requests are flushed once the last of them is applied.
abbrev pub reset_urgent : ℕ → Peer → Peer
reset_urgent last self =
    if leb self.last_urgent_proposal_idx last
    then record self {
      last_applying_idx = last;
      last_urgent_proposal_idx = no_urgent_proposal;
      skip_bcast_commit = true;
    }
    else record self { last_applying_idx = last }

unfoldable pub handle_raft_committed_entries : Peer → List Entry → Option Peer
unfolding find_proposals
handle_raft_committed_entries self [] = some self
handle_raft_committed_entries self (e ∷ es) =
    find_proposals self.term (e ∷ es) self.proposals self.invoked >>? λ s.
    some (record (reset_urgent (last_of e es).index self) {
      proposals = s.queue;
      invoked = s.invoked;
      scheduled =
          self.scheduled ++ record { term = self.term; entries = e ∷ es; cbs = s.found } ∷ [];
    })
