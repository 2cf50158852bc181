-- ===== src/Mq/Proposals/Answered.antt =====
-- peer.rs and apply.rs together: committed entries go to the apply thread with the proposals that
-- belong to them, and there each of these is answered with its own entry.
use auticuro.Prelude.{ℕ, ◌+◌, ◌≡◌, List, [], map}
use auticuro.Storage.{Storage}
use auticuro.Mq.{Entry, RaftProtobuf}
use auticuro.Mq.Apply.{Answers}
use auticuro.Mq.Apply.Exec.{Poll}
use auticuro.Mq.Apply.Poll.{Proposal, Apply, pending_cmd}
use auticuro.Mq.Apply.Callbacks.{answer_calls}
use auticuro.Mq.Apply.Answered.{Matches}
use auticuro.Mq.Proposals.{Search}
use auticuro.Mq.Proposals.Ordered.{IsOrdered}
use auticuro.Mq.Proposals.Committed.{AllDue, found_calls}

module _ (pb : RaftProtobuf) where
  -- What the search for the entries, whose last one has the index `j`, gives.
  record IsHanded (j : ℕ) (es : List Entry) (ps : List Proposal) (invoked : Answers) (s : Search)
      : Type 0 where
    matches : Matches pb es (map pending_cmd s.found)
    ordered : IsOrdered s.queue
    later : AllDue j [] s.queue
    kept :
        (n : ℕ)
        → found_calls n s.found + found_calls n s.queue + answer_calls n s.invoked
          ≡ found_calls n ps + answer_calls n invoked
