-- ===== src/StateMachine/Sync.antt =====
-- The state in memory against the batch and the database: the invariant, that every step keeps it,
-- and what it gives for flushing, recovery and duplicate commands.
mod Keys
pub mod Invariant
pub mod Steps
pub mod Dedup
pub mod Lasting
pub mod Total
pub mod Once
pub mod Recovery
pub mod Consumes
