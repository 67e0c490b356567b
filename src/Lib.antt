-- ===== src/Lib.antt =====
-- tmux-tell carries messages between agents that live in tmux panes. A sender inserts a row in a
-- SQLite table; the mailman of the recipient claims the row, pastes it into the recipient's pane and
-- marks how the delivery ended. This library models the store and the decisions of the mailman that
-- are functions of their arguments.
--
-- Parts, with the files of the repository that they model:
-- * `Names` (internal/store/types.go): the canonical form of agent names.
-- * `Store` (internal/store): the mailbox. `Tables` has the rows and the state; the state is passed from
--   operation to operation, and each operation is one transaction.
--   - `Schedule` (priority.go): priorities and the choice of the next row, `selectScheduled`.
--   - `Insert` (messages.go, recipientcap.go): `InsertMessage`, `InsertNotice`, `InsertMessagePair`, with
--     the cap checks, the retry on a taken public id, the refused rows and the rollback.
--   - `Claim`, `Deliver`, `Backlog`, `Reap` (messages.go): claims and recovery; the ends of a delivery,
--     promotion and dedupe; floors and acknowledgements; the reaper of undeliverable rows.
--   - `Agents`, `Aliases` (agents.go, provider.go): `UpsertAgent`, the paused flag, the self-compact signal,
--     the setters of the other columns, aliases.
--   - `Pulse`, `Queries` (messages.go, reply.go): the time of the oldest pending row; lists, tails, refused
--     rows and replies.
--   - `Thread` (thread.go): `GetThread`, which finds the root of a message and all replies below it.
--   - `Reset` (reset.go): the DELETE statements, under the foreign key of schema.sql.
--   - `Evolution`, `Integrity`, `Moves`, `History`: how rows may change, the constraints of schema.sql as
--     an invariant, and runs of all these operations.
-- * `Gate` (internal/tmuxio/observe_gate.go, state.go): `ObserveGate`, which polls a pane until a paste is
--   safe; `gate_step` is one round, `gate_loop` the loop over the polls.
-- * `Mailman` (internal/cli/serve.go, internal/cli/spinguard.go): `Panes` and `Preflight` take a claimed
--   message through the checks before the gate: the session and drift checks, the bare-shell gate, the
--   absorption of duplicates. `Attempt` takes it through the gate, the archive of a stale draft and the
--   last probe to the paste, `Outcome` records how the paste ended, and `Round` composes them with the
--   claim, the answer to a ping and the auto-heal of a pane; backoff delays, the machine that resumes
--   after a rate limit, the guard against a loop that does not sleep.
-- * `Control` (internal/control/control.go): which slash commands an agent may aim at whom.
-- * `Flags` (internal/cli/flagorder.go): `reorderFlagsFirst`, which moves flags before other arguments.
-- * `Fanout` (internal/cli/fanoutthrottle.go): the stagger of a message to many recipients.
-- * `Common` has the shared lists, tests and texts; `Examples` has concrete stores and runs.
--
-- How it is modelled. A table is a list in the order of ids. A timestamp is a number. A SQL statement is
-- a selection, count or update of the list; an UPDATE that checks the number of rows does so here. The
-- random source of public ids is a function from the number of the draw; a doorbell is an entry in a
-- list. What tmux answers, the hash of a draft, the float factor of the poll interval and the random
-- delay after a rate limit are parameters. The loop of `selectScheduled` runs on fuel that is the number
-- of rows, of which each round uses at least one; the loops of `GetThread` on that number and one, since
-- each round visits a row for the first time or takes an id from the queue; the loop of `ObserveGate`
-- recurs on the polls that tmux answers, and without an outcome it would poll again; the retry of public
-- ids has the source's bound of 20. 64-bit shifts wrap around.
--
-- Not modelled: failures of the database driver other than the two constraints, letters outside ASCII
-- in names, the statistics and the search by prefix, budgets, configuration, the classifier of a
-- captured pane, the relaunch and respawn of chambers, what the mailman's loop does before it claims
-- (parks, pauses, throttles, alerts), the count behind the provider cap, the process table, tmux and
-- all other I/O, logs and metrics, the rest of the command line.
mod Common
pub mod Names
pub mod Store
pub mod Mailman
pub mod Fanout
pub mod Control
pub mod Gate
pub mod Flags
mod Examples
