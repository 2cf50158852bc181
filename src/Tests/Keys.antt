-- ===== src/Tests/Keys.antt =====
-- Examples for the keys, over a concrete big-endian encoding.
use auticuro.Prelude.{◌≡◌, bytes_lt, ◌&&◌, ◌||◌, ◌==◌, ltb, some, arith}
use auticuro.Keys.{raft_log_key, decode_raft_log_key}
use auticuro.Keys.Digits.{digits_be, digits_be-laws}
use auticuro.Keys.RaftLog.{decode_raft_log_key-raft_log_key, raft_log_key_order}

decode_raft_log_key-raft_log_key_example :
    decode_raft_log_key digits_be (raft_log_key digits_be 1 300) ≡ some (1, 300)
decode_raft_log_key-raft_log_key_example =
    decode_raft_log_key-raft_log_key digits_be digits_be-laws 1 300 (omega arith) (omega arith)

raft_log_key_order_example :
    bytes_lt (raft_log_key digits_be 1 300) (raft_log_key digits_be 2 7)
    ≡ (ltb 1 2 || (1 == 2 && ltb 300 7))
raft_log_key_order_example =
    raft_log_key_order digits_be digits_be-laws 1 300 2 7 (omega arith) (omega arith) (omega arith)
      (omega arith)
