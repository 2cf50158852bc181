-- ===== src/Lib.antt =====
-- Auticuro: the wallet service, a replicated in-memory ledger over a raft log and RocksDB.
--
-- A command reaches every replica through the raft log, which the queue keeps in RocksDB
-- (Mq/PeerStorage, Mq/Engine). The commands of several clients share an entry (Mq/Batching). A peer
-- hands the committed entries to the apply thread, with the proposals that wait for them
-- (Mq/Proposals); the thread answers the waiting clients with their positions (Mq/Apply), and a
-- consumer hands the applied entries to the wallet (Mq/Consumer). The apply loop of the wallet
-- takes the entries of the log in order (StateMachine/Flush, StateMachine/Commands), each command
-- is handled against the accounts in memory (StateMachine/Handlers, with the account operations of
-- Account), and what it changes is collected in a write batch beside memory. Its answer, an event,
-- is remembered under the id of the command and sent to the waiting client. Now and then the batch
-- is flushed to RocksDB (StateMachine/Flush), from which a restart recovers (StateMachine,
-- Storage). Old events are truncated in the background (Gc), and stored ones are queried
-- (Service/Query). The broker (Broker) brings the events to the waiting handlers (Service/Writes).
--
-- The files and what they model:
--   Account      firm-wallet-service/src/account.rs, one function per method, over Decimal.
--   Decimal      firm-wallet-service/src/balance_calculator.rs. The bigdecimal crate is a record of
--                operations with their laws; Decimal/Whole is an instance over whole numbers.
--   Proto        the messages of dependencies/hologram-protos/src/proto/firm_wallet as records.
--   Errors       firm-wallet-service/src/errors.
--   Internal     firm-wallet-service/src/internal.rs.
--   Keys         dependencies/tiny-mq/src/keys.rs, over an interface for the byteorder crate.
--   Storage      firm-wallet-service/src/rocksdb_state.rs, over interfaces for RocksDB and for the
--                generated protobuf code; Storage/Memory implements all three.
--   StateMachine firm-wallet-service/src/state_machine.rs. Commit says what a handler may do, Sync
--                relates memory, batch and database, Positions, Answering and Entries say what is sent
--                for the commands of the log, and Transfer and Tombstones are about single
--                operations.
--   Service      firm-wallet-service/src/service.rs: Query is about events, Reads about accounts, and
--                Writes is the path of a write request through the queue and the broker.
--   Broker       firm-wallet-service/src/message_broker.rs.
--   Gc           firm-wallet-service/src/gc.rs.
--   Mq           dependencies/tiny-mq/src: Apply is apply.rs, Engine the raft log part of
--                rocks_engine.rs, Consumer the reading part of message_queue_adapter.rs,
--                PeerStorage is peer_storage.rs, and Batching and Proposals are the parts of peer.rs
--                that batch commands and keep the proposals. The messages are those of
--                dependencies/tiny-mq/kvproto/proto; Mq/Memory is a concrete wire format for them.
--   Tests        runs on concrete inputs.
--
-- Conventions. A result with an error is the type Result, and `?` is its bind. A panic is `none`:
-- it stops the process. Numbers are u64 with their wrap-around written out. A HashMap is an
-- association list that is only looked at through `get`. The channel to the broker is the list of
-- what was sent. Loops over lists are structural; the loops of a query and of a truncation take
-- fuel, and their theorems say how much is enough and that the loop then ends.
--
-- Not modelled: the consensus itself, which is the raft crate, and the code of the peer that drives
-- it, so that committed entries and what is made ready for the storage are arguments; routing,
-- network, start-up, configuration and metrics; time, which is an argument; the locks, since the
-- apply loop is the only writer; the check of the UTF-8 encoding of account ids that are read back,
-- which are written from strings; and, in the apply thread, the maps that nothing reads and the save
-- points of a batch to which nothing was written.
pub mod Prelude
pub mod Proto
pub mod Errors
pub mod Decimal
pub mod Account
pub mod Keys
pub mod Storage
pub mod Internal
pub mod StateMachine
pub mod Service
pub mod Gc
pub mod Broker
pub mod Mq
pub mod Tests
