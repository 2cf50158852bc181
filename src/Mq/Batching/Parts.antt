-- ===== src/Mq/Batching/Parts.antt =====
-- peer.rs: each client of a batch is answered with the positions of its own messages.
use auticuro.Prelude.{
  ℕ, zero, suc, ◌+◌, ◌≤◌, ◌≡◌, refl, sym, ◌∙◌, ap, Option, some, none, List, [], ◌∷◌, ◌++◌, arith,
  map, ap₂, le→leb,
}
use auticuro.Prelude.Lists.{length, take, drop, length-append, take-append, drop-append}
use mathlib.Core.List.{append-nil, append_assoc}
use auticuro.Mq.{RaftCmdResponse, Request, Response, Error, RaftApplyState, bind_term}
use auticuro.Mq.Apply.{invoke_with_response, Callback, write, Answers}
use auticuro.Mq.Apply.Exec.{Executed, exec_raft_cmd}
use auticuro.Mq.Apply.Answered.{AllMessages, message_positions, response_position}
use auticuro.Mq.Batching.{RaftCommand, BuiltCommand, invoke_shared, invoke_built, slice, part_of}

-- A command of messages, whose client waits.
pub record IsClient (cmd : RaftCommand) : Type 0 where
  pub no_admin : cmd.request.admin_request ≡ none
  pub messages : AllMessages cmd.request.requests
  pub sender : ℕ
  pub waits : cmd.callback ≡ write sender

abbrev pub AreClients : List RaftCommand → Type 0
AreClients [] = Unit
AreClients (c ∷ cs) = IsClient c × AreClients cs

abbrev pub all_requests : List RaftCommand → List Request
all_requests [] = []
all_requests (c ∷ cs) = c.request.requests ++ all_requests cs

-- What the clients are told: no error, and the positions of their messages, which follow one another.
abbrev pub Told : Type 0
Told = Callback × Option Error × List (ℕ × ℕ)

abbrev pub told : Callback × RaftCmdResponse → Told
told (cb, resp) = (cb, resp.error, map response_position resp.responses)

abbrev pub positions : ℕ → ℕ → List RaftCommand → List Told
positions index offset [] = []
positions index offset (c ∷ cs) =
    (c.callback, none, message_positions index offset c.request.requests)
    ∷ positions index (offset + length c.request.requests) cs

-- The built command holds the messages of these clients, one client after the other, and wherever it
-- is applied, they are told the positions of their own messages in it.
abbrev pub IsServing : BuiltCommand → List RaftCommand → Type 0
IsServing b cmds =
    (b.request.requests ≡ all_requests cmds)
    × ((state : RaftApplyState) (index term : ℕ)
        → (x : Executed) × (given : Answers) × (exec_raft_cmd state index b.request ≡ some x)
          × (invoke_built b.callback (bind_term x.0 term) [] ≡ some given)
          × (map told given ≡ positions index 0 cmds))

abbrev pub AreServing : List BuiltCommand → List (List RaftCommand) → Type 0
AreServing [] [] = Unit
AreServing [] (g ∷ gs) = ⊥
AreServing (b ∷ bs) [] = ⊥
AreServing (b ∷ bs) (g ∷ gs) = IsServing b g × AreServing bs gs

abbrev pub concat : List (List RaftCommand) → List RaftCommand
concat [] = []
concat (g ∷ gs) = g ++ concat gs

abbrev pub counted : RaftCommand → Callback × ℕ
counted c = (c.callback, length c.request.requests)

pub length-map : {A B : Type 0} (f : A → B) (xs : List A) → length (map f xs) ≡ length xs
length-map f [] = refl
length-map f (x ∷ xs) = ap suc (length-map f xs)

pub map-append :
    {A B : Type 0} (f : A → B) (xs ys : List A) → map f (xs ++ ys) ≡ map f xs ++ map f ys
map-append f [] ys = refl
map-append f (x ∷ xs) ys = ap (λ t. f x ∷ t) (map-append f xs ys)

message_positions-append :
    (index offset : ℕ) (xs ys : List Request)
    → message_positions index offset (xs ++ ys)
      ≡ message_positions index offset xs ++ message_positions index (offset + length xs) ys
message_positions-append index offset [] ys = ap (λ n. message_positions index n ys) (omega arith)
message_positions-append index offset (x ∷ xs) ys =
    ap (λ t. (index, offset) ∷ t)
      (message_positions-append index (offset + 1) xs ys
        ∙ ap (λ n. message_positions index (offset + 1) xs ++ message_positions index n ys)
            (omega arith))

pub length-message_positions :
    (index offset : ℕ) (rs : List Request) → length (message_positions index offset rs) ≡ length rs
length-message_positions index offset [] = refl
length-message_positions index offset (r ∷ rs) =
    ap suc (length-message_positions index (offset + 1) rs)

AllMessages-append :
    (xs ys : List Request) → AllMessages xs → AllMessages ys → AllMessages (xs ++ ys)
AllMessages-append [] ys a b = b
AllMessages-append (x ∷ xs) ys (h, a) b = (h, AllMessages-append xs ys a b)

pub clients-AllMessages :
    (cmds : List RaftCommand) → AreClients cmds → AllMessages (all_requests cmds)
clients-AllMessages [] a = tt
clients-AllMessages (c ∷ cs) (h, a) =
    AllMessages-append c.request.requests (all_requests cs) h.messages (clients-AllMessages cs a)

-- Cutting a list where its first `n` elements are mapped to `xs`.
map-take : {A B : Type 0} (f : A → B) (n : ℕ) (xs : List A) → map f (take n xs) ≡ take n (map f xs)
map-take f zero xs = refl
map-take f (suc n) [] = refl
map-take f (suc n) (x ∷ xs) = ap (λ t. f x ∷ t) (map-take f n xs)

map-drop : {A B : Type 0} (f : A → B) (n : ℕ) (xs : List A) → map f (drop n xs) ≡ drop n (map f xs)
map-drop f zero xs = refl
map-drop f (suc n) [] = refl
map-drop f (suc n) (x ∷ xs) = map-drop f n xs

suc_add : (m n : ℕ) → suc m + n ≡ suc (m + n)
suc_add m n = omega arith

drop_nil : {A : Type 0} (n : ℕ) → drop {A = A} n [] ≡ []
drop_nil zero = refl
drop_nil (suc n) = refl

drop-drop : {A : Type 0} (m n : ℕ) (xs : List A) → drop n (drop m xs) ≡ drop (m + n) xs
drop-drop zero n xs = ap (λ k. drop k xs) (omega arith)
drop-drop (suc m) n [] = drop_nil n ∙ sym (drop_nil (suc m + n))
drop-drop (suc m) n (x ∷ xs) = drop-drop m n xs ∙ ap (λ k. drop k (x ∷ xs)) (sym (suc_add m n))

pub invoke-write :
    (cb : Callback) (k : ℕ) (resp : RaftCmdResponse) (invoked : Answers)
    → cb ≡ write k
    → invoke_with_response cb resp invoked ≡ invoked ++ (cb, resp) ∷ []
invoke-write cb k resp invoked h = rw h refl

slice_whole :
    (e : Option Error) (from n : ℕ) (rs : List Response)
    → e ≡ none
    → from + n ≤ length rs
    → slice e from n rs ≡ some (take n (drop from rs))
unfolding slice
slice_whole e from n rs h k = rw (h, le→leb (from + n) (length rs) k) refl

invoke_shared-step :
    (cb : Callback) (k offset n : ℕ) (cbs : List (Callback × ℕ)) (resp : RaftCmdResponse)
    (invoked : Answers)
    → cb ≡ write k
    → resp.error ≡ none
    → offset + n ≤ length resp.responses
    → invoke_shared ((cb, n) ∷ cbs) offset resp invoked
      ≡ invoke_shared cbs
          (offset + n)
          resp
          (invoked ++ (cb, part_of resp (take n (drop offset resp.responses))) ∷ [])
unfolding invoke_shared
invoke_shared-step cb k offset n cbs resp invoked waits ok_resp long =
    rw (slice_whole resp.error offset n resp.responses ok_resp long, invoke_shared)
      (ap (invoke_shared cbs (offset + n) resp) (invoke-write cb k _ invoked waits))

-- The closure over the clients answers each of them with its part.
pub invoke_shared-positions :
    (cmds : List RaftCommand) (index offset : ℕ) (resp : RaftCmdResponse) (invoked : Answers)
    → AreClients cmds
    → resp.error ≡ none
    → offset + length (all_requests cmds) ≤ length resp.responses
    → map response_position (drop offset resp.responses)
      ≡ message_positions index offset (all_requests cmds)
    → (given : Answers) × (invoke_shared (map counted cmds) offset resp invoked
        ≡ some (invoked ++ given))
      × (map told given ≡ positions index offset cmds)
unfolding invoke_shared
invoke_shared-positions [] index offset resp invoked a ok_resp long same =
    ([], ap some (sym (append-nil invoked)), refl)
invoke_shared-positions (c ∷ cs) index offset resp invoked (h, a) ok_resp long same =
    let n = length c.request.requests in
    let total = length-append c.request.requests (all_requests cs) in
    let part = take n (drop offset resp.responses) in
    let split = same ∙ message_positions-append index offset c.request.requests (all_requests cs) in
    let size = length-message_positions index offset c.request.requests in
    let (given, run, d) =
      invoke_shared-positions cs index (offset + n) resp
        (invoked ++ (c.callback, part_of resp part) ∷ []) a ok_resp (omega (arith, total))
        (ap (map response_position) (sym (drop-drop offset n resp.responses))
          ∙ map-drop response_position n (drop offset resp.responses)
          ∙ ap (drop n) split
          ∙ drop-append n (message_positions index offset c.request.requests)
              (message_positions index (offset + n) (all_requests cs)) size) in
    (
      (c.callback, part_of resp part) ∷ given,
      invoke_shared-step c.callback h.sender offset n (map counted cs) resp invoked h.waits ok_resp
            (omega (arith, total))
          ∙ run
          ∙ ap some (append_assoc invoked ((c.callback, part_of resp part) ∷ []) given),
      ap₂ (λ (t : Told) ts. t ∷ ts)
          (ap₂ (λ (e : Option Error) ps. (c.callback, e, ps)) ok_resp
            (map-take response_position n (drop offset resp.responses)
              ∙ ap (take n) split
              ∙ take-append n (message_positions index offset c.request.requests)
                  (message_positions index (offset + n) (all_requests cs)) size))
          d,
    )
