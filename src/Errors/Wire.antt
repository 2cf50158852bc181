-- ===== src/Errors/Wire.antt =====
-- `into_proto` of the errors: what a client sees. The texts that the derived `Debug` writes for an
-- error and for a string are arguments.
use auticuro.Prelude.{Str, bytes, contains, if◌then◌else◌, Bool}
use auticuro.Proto.{ErrorPb, not_leader, other_error}
use auticuro.Errors.{Error, common_error, message_queue_error}

abbrev pub is_not_leader_error : Str → Bool
is_not_leader_error err = contains (bytes "not_leader: Some(NotLeader") err

module _ {P : Type 0} (debug : Error P → Str) (debug_str : Str → Str) where
  -- `debug err` is the text of the error that stands in the wrapper.
  unfoldable pub into_proto : Error P → ErrorPb
  into_proto (common_error (message_queue_error err)) =
      if is_not_leader_error err then not_leader err else other_error (debug_str err)
  into_proto error = other_error (debug error)
