-- ===== src/Mq/Batching/Built.antt =====
-- peer.rs: every command goes into one built command, in order, and is answered through it.
use auticuro.Prelude.{
  ℕ, ◌≡◌, refl, sym, ◌∙◌, ap, ap₂, subst, some, none, List, [], ◌∷◌, ◌++◌, Bool, true, false,
  Bool-cases, inl, inr, ◌⊎◌,
}
use mathlib.Core.List.{append-nil, append_assoc}
use auticuro.Mq.{RaftCmdRequest}
use auticuro.Mq.Batching.{
  RaftCommand, BuiltCommand, Builder, add, should_finish, build, built_callback, can_batch,
  on_raft_command, handle_commands, alone,
}
use auticuro.Mq.Batching.Parts.{IsClient, AreClients, all_requests, IsServing, AreServing, concat}
use auticuro.Mq.Batching.Building.{
  IsBuilding, AreClients-append, alone-IsServing, built-IsServing, add-IsBuilding,
}

build-none : (self : Builder) → self.request ≡ none → build self ≡ ([], self)
unfolding build
build-none self h = rw h refl

build-some :
    (self : Builder) (req : RaftCmdRequest)
    → self.request ≡ some req
    → build self ≡ (
      record { request = req; callback = built_callback self.callbacks } ∷ [],
      record self { request = none; batch_req_size = 0; callbacks = [] },
    )
unfolding build
build-some self req h = rw h refl

-- What was proposed serves these commands, and these are left in the builder.
abbrev IsProposed : List RaftCommand → List RaftCommand → List BuiltCommand × Builder → Type 0
IsProposed cmds left (proposed, self) =
    (groups : List (List RaftCommand)) × (concat groups ≡ cmds)
    × AreServing proposed groups
    × IsBuilding self left

-- What `build` proposes serves the commands that the builder held, and nothing is left in it.
build-IsProposed :
    (self : Builder) (cmds : List RaftCommand)
    → IsBuilding self cmds
    → AreClients cmds
    → IsProposed cmds [] (build self)
build-IsProposed self [] i a =
    subst (IsProposed [] []) (sym (build-none self i.request)) ([], refl, tt, i)
build-IsProposed self (c ∷ cs) i a =
    subst (IsProposed (c ∷ cs) [])
      (sym (build-some self (record c.request { requests = all_requests (c ∷ cs) }) i.request))
      (
        (c ∷ cs) ∷ [],
        append-nil (c ∷ cs),
        (
          subst
              (λ cbs.
                IsServing
                  (record {
                    request = record c.request { requests = all_requests (c ∷ cs) };
                    callback = built_callback cbs;
                  })
                  (c ∷ cs))
              (sym i.callbacks) (built-IsServing c cs a),
          tt,
        ),
        record { request = refl; callbacks = refl },
      )

concat-append : (xs ys : List (List RaftCommand)) → concat (xs ++ ys) ≡ concat xs ++ concat ys
concat-append [] ys = refl
concat-append (x ∷ xs) ys =
    ap (λ t. x ++ t) (concat-append xs ys) ∙ sym (append_assoc x (concat xs) (concat ys))

AreServing-append :
    (xs ys : List BuiltCommand) (gs hs : List (List RaftCommand))
    → AreServing xs gs
    → AreServing ys hs
    → AreServing (xs ++ ys) (gs ++ hs)
AreServing-append [] ys [] hs a b = b
AreServing-append [] ys (g ∷ gs) hs a b = absurd a
AreServing-append (x ∷ xs) ys [] hs a b = absurd a
AreServing-append (x ∷ xs) ys (g ∷ gs) hs (h, a) b = (h, AreServing-append xs ys gs hs a b)

-- What is proposed one after the other.
IsProposed-join :
    (cmds mid later left : List RaftCommand) (r s : List BuiltCommand × Builder)
    → IsProposed cmds mid r
    → IsProposed later left s
    → IsProposed (cmds ++ later) left (r.0 ++ s.0, s.1)
IsProposed-join cmds mid later left r s (gs, e, a, _) (hs, f, b, i) = (
  gs ++ hs,
  concat-append gs hs ∙ ap₂ (λ x y. x ++ y) e f,
  AreServing-append r.0 s.0 gs hs a b,
  i,
)

module _ (header_eq : RaftCmdRequest → RaftCmdRequest → Bool)
    (compute_size : RaftCmdRequest → ℕ) where
  step_alone :
      (self : Builder) (cmd : RaftCommand)
      → can_batch header_eq compute_size self cmd.request (compute_size cmd.request) ≡ false
      → on_raft_command header_eq compute_size self cmd
        ≡ ((build self).0 ++ alone cmd ∷ [], (build self).1)
  unfolding on_raft_command
  step_alone self cmd q = rw q refl

  step_finish :
      (self : Builder) (cmd : RaftCommand)
      → can_batch header_eq compute_size self cmd.request (compute_size cmd.request) ≡ true
      → should_finish (add self cmd (compute_size cmd.request)) ≡ true
      → on_raft_command header_eq compute_size self cmd
        ≡ build (add self cmd (compute_size cmd.request))
  unfolding on_raft_command
  step_finish self cmd q full = rw q (rw full refl)

  step_wait :
      (self : Builder) (cmd : RaftCommand)
      → can_batch header_eq compute_size self cmd.request (compute_size cmd.request) ≡ true
      → should_finish (add self cmd (compute_size cmd.request)) ≡ false
      → on_raft_command header_eq compute_size self cmd
        ≡ ([], add self cmd (compute_size cmd.request))
  unfolding on_raft_command
  step_wait self cmd q more = rw q (rw more refl)

  -- A command is proposed, after those before it, or waits with them.
  on_raft_command-IsProposed :
      (self : Builder) (cmds : List RaftCommand) (cmd : RaftCommand)
      → IsBuilding self cmds
      → AreClients cmds
      → IsClient cmd
      → IsProposed (cmds ++ cmd ∷ []) [] (on_raft_command header_eq compute_size self cmd)
        ⊎ IsProposed [] (cmds ++ cmd ∷ []) (on_raft_command header_eq compute_size self cmd)
  on_raft_command-IsProposed self cmds cmd i a h =
      let size = compute_size cmd.request in
      let all = cmds ++ cmd ∷ [] in
      let j = add-IsBuilding self cmds cmd size i in
      elim (Bool-cases (can_batch header_eq compute_size self cmd.request size)) [
        | inl q ↦ elim (Bool-cases (should_finish (add self cmd size))) [
          | inl full ↦ inl (
              subst (IsProposed all []) (sym (step_finish self cmd q full)) (
                build-IsProposed (add self cmd size) all j
                  (AreClients-append cmds (cmd ∷ []) a (h, tt))))
          | inr more ↦
              inr (subst (IsProposed [] all) (sym (step_wait self cmd q more)) ([], refl, tt, j))
        ]
        | inr q ↦ inl (
            subst (IsProposed all []) (sym (step_alone self cmd q)) (
              IsProposed-join cmds [] (cmd ∷ []) [] (build self) (alone cmd ∷ [], (build self).1)
                (build-IsProposed self cmds i a)
                (
                  (cmd ∷ []) ∷ [],
                  refl,
                  (alone-IsServing cmd h, tt),
                  (build-IsProposed self cmds i a).3,
                )))
      ]

  handle_commands-IsProposed :
      (cmds waiting : List RaftCommand) (self : Builder)
      → IsBuilding self waiting
      → AreClients waiting
      → AreClients cmds
      → IsProposed (waiting ++ cmds) [] (handle_commands header_eq compute_size self cmds)
  unfolding handle_commands
  handle_commands-IsProposed [] waiting self i w a =
      subst (λ cs. IsProposed cs [] (build self)) (sym (append-nil waiting))
        (build-IsProposed self waiting i w)
  handle_commands-IsProposed (cmd ∷ cmds) waiting self i w (h, a) =
      let step = on_raft_command header_eq compute_size self cmd in
      let all = waiting ++ cmd ∷ [] in
      subst (λ cs. IsProposed cs [] (handle_commands header_eq compute_size self (cmd ∷ cmds)))
        (append_assoc waiting (cmd ∷ []) cmds)
        (elim (on_raft_command-IsProposed self waiting cmd i w h) [
          | inl done ↦
              IsProposed-join all [] cmds [] step _ done
                (handle_commands-IsProposed cmds [] step.1 done.3 tt a)
          | inr waits ↦ IsProposed-join [] all (all ++ cmds) [] step _ waits (
              handle_commands-IsProposed cmds all step.1 waits.3
                (AreClients-append waiting (cmd ∷ []) w (h, tt)) a)
        ])

  -- A round over commands of messages, whose clients wait, from an empty builder: each command goes
  -- into one proposed command, in order, and nothing is left. The messages of a proposed command are
  -- those of its clients, one client after the other. Wherever a proposed command is applied, it is
  -- executed without a panic, and its callback answers each of its clients once, without an
  -- error, with the positions of the messages of this client: those of an entry follow one another,
  -- over all of its clients.
  pub handle_commands-serves :
      (cmds : List RaftCommand) (self : Builder)
      → self.request ≡ none
      → self.callbacks ≡ []
      → AreClients cmds
      → (groups : List (List RaftCommand)) × (concat groups ≡ cmds)
        × AreServing (handle_commands header_eq compute_size self cmds).0 groups
        × ((handle_commands header_eq compute_size self cmds).1.request ≡ none)
  handle_commands-serves cmds self e f a =
      let (groups, same, serving, i) =
        handle_commands-IsProposed cmds [] self (record { request = e; callbacks = f }) tt a in
      (groups, same, serving, i.request)
