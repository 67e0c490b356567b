-- ===== src/Store.antt =====
-- internal/store: the mailbox database, a table of messages and a table of agents.
-- `Tables` has the rows; the other modules have the operations, and their children the proofs.
pub mod Schedule
pub mod Tables
pub mod Insert
pub mod Claim
pub mod Deliver
pub mod Backlog
pub mod Reap
pub mod Reset
pub mod Agents
pub mod Aliases
pub mod Pulse
pub mod Queries
pub mod Thread
pub mod Evolution
pub mod Integrity
pub mod Moves
pub mod History
