-- ===== src/Tests/Proposing.antt =====
-- Examples for the commands and the proposals of a peer.
use auticuro.Prelude.{◌≡◌, refl, none, List, [], ◌∷◌, true, false, bytes}
use auticuro.Mq.{message_queue}
use auticuro.Mq.Apply.{write}
use auticuro.Mq.Apply.Exec.{Poll}
use auticuro.Mq.Apply.Poll.{Proposal, Apply}
use auticuro.Mq.Batching.{Builder, RaftCommand, handle_commands}
use auticuro.Mq.Batching.Parts.{IsClient, AreServing, concat}
use auticuro.Mq.Batching.Built.{handle_commands-serves}
use auticuro.Mq.Proposals.{Peer}

abbrev builder : Builder
builder = record {
  entry_limit = 100;
  batch_limit = 200;
  batch_req_size = 0;
  request = none;
  callbacks = [];
}

-- Two clients, the second of which sends two messages.
abbrev one : RaftCommand
one = record {
  request = record {
    uuid = [];
    requests = record { cmd_type = message_queue; payload = bytes "a" } ∷ [];
    admin_request = none;
  };
  callback = write 1;
}

abbrev two : RaftCommand
two = record {
  request = record {
    uuid = [];
    requests =
        record { cmd_type = message_queue; payload = bytes "b" }
        ∷ record { cmd_type = message_queue; payload = bytes "c" }
        ∷ [];
    admin_request = none;
  };
  callback = write 2;
}

one-IsClient : IsClient one
one-IsClient = record { no_admin = refl; messages = (refl, tt); sender = 1; waits = refl }

two-IsClient : IsClient two
two-IsClient = record { no_admin = refl; messages = (refl, (refl, tt)); sender = 2; waits = refl }

handle_commands-serves_example :
    (groups : List (List RaftCommand)) × (concat groups ≡ one ∷ two ∷ [])
    × AreServing (handle_commands (λ a b. true) (λ r. 3) builder (one ∷ two ∷ [])).0 groups
    × ((handle_commands (λ a b. true) (λ r. 3) builder (one ∷ two ∷ [])).1.request ≡ none)
handle_commands-serves_example =
    handle_commands-serves (λ a b. true) (λ r. 3) (one ∷ two ∷ []) builder refl refl
      (one-IsClient, (two-IsClient, tt))

abbrev proposal : Proposal
proposal = record { index = 6; term = 6; cb = write 3 }

-- A proposal of an earlier term is before it, for an index that another leader has filled.
abbrev stale : Proposal
stale = record { index = 6; term = 5; cb = write 4 }

abbrev peer : Peer
peer = record {
  term = 6;
  last_applying_idx = 5;
  last_urgent_proposal_idx = 6;
  skip_bcast_commit = false;
  proposals = stale ∷ proposal ∷ [];
  invoked = [];
  scheduled = [];
}
