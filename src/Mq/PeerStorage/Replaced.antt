-- ===== src/Mq/PeerStorage/Replaced.antt =====
-- peer_storage.rs: keys and terms of a log whose end is replaced.
use auticuro.Prelude.{
  ℕ, ◌+◌, ◌<◌, ◌^◌, ◌≡◌, refl, sym, ◌∙◌, ap, Option, some, none, List, [], ◌∷◌, ◌++◌, arith, true,
  false, bytes_eq, bytes_eq_iff, Bytes_eq,
}
use auticuro.Prelude.Lists.{length}
use mathlib.Core.List.{append-nil}
use auticuro.Keys.{BigEndian, BigEndianLaws, raft_state_key, raft_log_key, decode_raft_log_key}
use auticuro.Keys.RaftLog.{decode_raft_log_key-raft_log_key, decode_raft_log_key_refuses}
use auticuro.Mq.{Entry, HardState, RaftLocalState, inc_u64}
use auticuro.Mq.Engine.Stored.{AreFrom}
use auticuro.Mq.Apply.Poll.{last_of}
use auticuro.Mq.PeerStorage.{set_hard_state, raft_state_eq}
use auticuro.Mq.PeerStorage.Sound.{AreRising, last_term_of}

pub decode_none :
    (be : BigEndian) (laws : BigEndianLaws be) (r : ℕ)
    → decode_raft_log_key be (raft_state_key be r) ≡ none
decode_none be laws r =
    ap (decode_raft_log_key be) (sym (append-nil (raft_state_key be r)))
    ∙ (decode_raft_log_key_refuses be laws r []).0

-- The key of a raft state is no key of an entry.
pub state_key-ne-log_key :
    (be : BigEndian) (laws : BigEndianLaws be) (r i : ℕ)
    → r < 2 ^ 64
    → i < 2 ^ 64
    → bytes_eq (raft_state_key be r) (raft_log_key be r i) ≡ false
state_key-ne-log_key be laws r i hr hi = ground (
  arith,
  bytes_eq_iff (raft_state_key be r) (raft_log_key be r i),
  decode_raft_log_key-raft_log_key be laws r i hr hi,
  decode_none be laws r,
)

pub log_key-ne-state_key :
    (be : BigEndian) (laws : BigEndianLaws be) (r i : ℕ)
    → r < 2 ^ 64
    → i < 2 ^ 64
    → bytes_eq (raft_log_key be r i) (raft_state_key be r) ≡ false
log_key-ne-state_key be laws r i hr hi = ground (
  arith,
  bytes_eq_iff (raft_state_key be r) (raft_log_key be r i),
  bytes_eq_iff (raft_log_key be r i) (raft_state_key be r),
  state_key-ne-log_key be laws r i hr hi,
)

pub inc-eq : (n : ℕ) → n + 1 < 2 ^ 64 → inc_u64 n ≡ n + 1
inc-eq n h = omega arith

pub last_term_of-append :
    (t : ℕ) (xs ys : List Entry) → last_term_of t (xs ++ ys) ≡ last_term_of (last_term_of t xs) ys
last_term_of-append t [] ys = refl
last_term_of-append t (x ∷ xs) ys = last_term_of-append x.term xs ys

pub AreRising-append :
    (t : ℕ) (xs ys : List Entry)
    → AreRising t xs
    → AreRising (last_term_of t xs) ys
    → AreRising t (xs ++ ys)
AreRising-append t [] ys a b = b
AreRising-append t (x ∷ xs) ys (h, a) b = (h, AreRising-append x.term xs ys a b)

pub AreRising-prefix : (t : ℕ) (xs ys : List Entry) → AreRising t (xs ++ ys) → AreRising t xs
AreRising-prefix t [] ys a = tt
AreRising-prefix t (x ∷ xs) ys (h, a) = (h, AreRising-prefix x.term xs ys a)

-- The last of new entries.
pub last_of-index :
    (i : ℕ) (e : Entry) (es : List Entry)
    → AreFrom i (e ∷ es)
    → (last_of e es).index ≡ i + length es
last_of-index i e [] (h, a) = omega arith
last_of-index i e (x ∷ es) (h, a) = last_of-index (i + 1) x es a ∙ omega arith

pub last_of-term :
    (t : ℕ) (e : Entry) (es : List Entry) → (last_of e es).term ≡ last_term_of t (e ∷ es)
last_of-term t e [] = refl
last_of-term t e (x ∷ es) = last_of-term e.term x es

pub last_index-set_hard_state :
    (hs : Option HardState) (state : RaftLocalState)
    → (set_hard_state hs state).last_index ≡ state.last_index
last_index-set_hard_state none state = refl
last_index-set_hard_state (some hs) state = ground arith

pub raft_state_eq_sound : (a b : RaftLocalState) → raft_state_eq a b ≡ true → a ≡ b
raft_state_eq_sound a b h = ground arith

-- The log after new entries replaced what stood behind the first ones.
abbrev pub replaced : List Entry → List Entry → List Entry → List Entry
replaced xs ys [] = xs ++ ys
replaced xs ys (e ∷ es) = xs ++ e ∷ es
