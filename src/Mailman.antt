-- ===== src/Mailman.antt =====
-- internal/cli: the mailman's loop. `Panes` finds the pane and `Preflight` checks a claimed message
-- before the gate, `Attempt` takes it to the paste, `Outcome` records how it ended, `Round` composes them
-- with the claim. `Backoff` has the delays between attempts, `Spin` the guard against a loop that does
-- not sleep, `Resume` the machine that resumes a chamber after a rate limit.
pub mod Backoff
pub mod Spin
pub mod Resume
pub mod Panes
pub mod Preflight
pub mod Round
pub mod Attempt
pub mod Outcome
