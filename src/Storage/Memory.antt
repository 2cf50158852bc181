-- ===== src/Storage/Memory.antt =====
-- A storage in memory, which shows that the laws of the interfaces can hold, and on which examples
-- are evaluated.
pub mod Wire
mod Requests
mod Events
mod Engine
use auticuro.Prelude.{◌≡◌, refl, sym, [], Bytes, Option, none, some, ap, ◌∙◌, ◌>>?◌}
use auticuro.Keys.Digits.{digits_be, digits_be-laws}
use auticuro.Storage.{Storage, StorageLaws, Protobuf, ProtobufLaws}
use auticuro.Storage.Memory.Wire.{Codec}
use auticuro.Storage.Memory.Requests.{account}
use auticuro.Storage.Memory.Events.{event}
use auticuro.Storage.Memory.Engine.{memory_db, memory_db-laws}
use mathlib.Core.List.{append-nil}

-- A message that is followed by nothing.
abbrev parse : {A : Type 0} → Codec A → Bytes → Option A
parse c bytes = c.decode bytes >>? λ (a, rest). some a

parse-encode : {A : Type 0} (c : Codec A) (a : A) → parse c (c.encode a) ≡ some a
parse-encode c a =
    ap (λ bytes. parse c bytes) (sym (append-nil (c.encode a))) ∙ (rw (c.decode-encode a []) refl)

abbrev memory_pb : Protobuf
memory_pb = record {
  account_bytes = account.encode;
  parse_account = parse account;
  event_bytes = event.encode;
  parse_event = parse event;
}

memory_pb-laws : ProtobufLaws memory_pb
memory_pb-laws = record {
  parse-account_bytes = parse-encode account;
  parse-event_bytes = parse-encode event;
}

abbrev pub memory : Storage
memory = record { rocks = memory_db; be = digits_be; pb = memory_pb }

pub memory-laws : StorageLaws memory
memory-laws = record { rocks = memory_db-laws; be = digits_be-laws; pb = memory_pb-laws }
