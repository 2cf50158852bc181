-- ===== src/StateMachine/Commit.antt =====
-- The shape of what a handler does: an error changes nothing, and a success takes the next sequence
-- number and then writes accounts that are not tombstones, or deletes one account.
pub mod Alive
pub mod Shape
pub mod Updates
pub mod Answers
