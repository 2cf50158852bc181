-- ===== src/Service.antt =====
-- firm-wallet-service/src/service.rs: the requests that are answered from the state directly, and
-- the path of a write request through the log.
pub mod Query
pub mod Reads
pub mod Writes
