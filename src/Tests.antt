-- ===== src/Tests.antt =====
-- Runs of the code on concrete inputs.
mod Accounts
mod Keys
mod Setup
mod RaftLog
mod Queue
mod Served
mod Proposing
mod Applying
mod PeerStorage
mod Machine
mod Service
mod Broker
mod Events
