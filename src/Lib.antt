-- ===== src/Lib.antt =====
-- Agent-Colab: the rules of the server on Tasks, work items, Schedules, brainstorms, approvals and budgets.
--
-- The server records what happens as Events. A Task is the fold of its Events; a Task may have sub-Tasks,
-- whose join decides when it may go on, and a row of a projection. Work for an Agent is a row of the
-- durable inbox, which the Agent polls, acknowledges, starts and answers, and which a sweep expires or
-- queues again. A Schedule starts Runs; an approval is a grant that eligible accounts decide and whose uses
-- are counted; a brainstorm has limits on its turns, and a scope has a budget that usage and reservations
-- share. Each component changes its rows and appends its Events in one database transaction.
--
-- Which file models what:
--   Task/Status, Task/State, Task/Completion: server/domain/task.py. `TaskState`, `apply_event`, `fold`,
--     `next_status`, `completion_prerequisites`, with the registry of checks as a list.
--   Tasks/Graph: server/tasks/graph.py. `validate_new_child`, `limits_from_policy`, `join_mode`,
--     `evaluate_join`. Snapshot has `GraphSnapshot`, Ancestors is about its walk.
--   Schedules/Contract: server/schedules/contract.py, all of it.
--   Usage/Budget: server/usage/budget.py, and `usage_for` of server/usage/records.py.
--   Schedules/Budget: `settle_for_run`, `release_for_run` and `raise_alert` of
--     server/schedules/budget.py, and `enqueue` of server/notifications/outbox.py.
--   Events/Store: server/events/store.py. `AppendRequest`, `AppendResult`, and the `EventStore` protocol
--     as a record of a state and its `append`, which Work and Approvals take as a parameter.
--   Events/Hashing: server/events/hashing.py, with SHA-256 of canonical JSON as a function.
--   Events/Log: server/events/postgres_store.py. `append`, `stream`, `read_since` and `get` on the rows of
--     `events`. Effect says what a call has done, Chain is about the hash chain, Streams, Keys and Views
--     about the streams, the idempotency keys and the two readings of the clock.
--   Projections/Tasks: server/projections/tasks.py, and the replay of server/projections/runner.py. Core,
--     Kept, Fold, Rows and Applied are the lemmas, Replay compares the rows with the fold.
--   Work/State: server/work/state.py, all of it but `TRANSITION_EVENTS`, whose names Work/Inbox writes out.
--   Work/Inbox: server/work/inbox.py, receipts.py and timeouts.py. Rows has the tables and their helpers,
--     Delivery `enqueue`, `poll` and `open_items`, Steps the operations on one item, Results `result`,
--     Sweep `sweep`. Rules, Moves, Commands, ResultMoves, OtherMoves, Guarantees, Timely, Polls,
--     FirstResult and ExactlyOnce are about them.
--   Brainstorm/Limits: server/brainstorm/limits.py.
--   Approvals/Model: server/approvals/model.py.
--   Approvals/Eligibility: server/approvals/eligibility.py, with the policy as a record.
--   Approvals/Decide: `decide_approval`, `cancel_approval` and `revoke_approval` of
--     server/approvals/service.py, with `expire_approvals` in Expire. Entitled, Outcome, Deciders and
--     Quorum are about them.
--   Approvals/Consume: `consume_approval` of server/approvals/service.py.
--   Verification/Independence: server/verification/independence.py. Roots is about it.
--   Prelude: shared tests, lists, dicts, results and the monad of transactions.
--   A module Samples has the concrete inputs of its component.
--
-- Conventions. An operation that raises is a `Result`, or an `Exec` where it also changes rows: an error
-- carries no state, since the caller's transaction is rolled back. Instants and durations are numbers of
-- microseconds, in Schedules/Contract since the year 1, where a `datetime` starts, else since the epoch. What the clock reads, a fresh id and the rows that other transactions have locked are
-- arguments. Loops are recursions over lists. Only the loops over the aliases and over the ancestors have
-- fuel, one and two turns more than the dict has items: all turns but the last ones see another key. A
-- table is a list, read and written at the first row of a key, as the primary keys make it the only one.
-- The code outside these files is the record `Outside` of Work/Inbox/Rows: the Event store, the length of canonical JSON, SHA-256, the text of
-- instants and numbers, the adapter schema and the collation of ids.
--
-- The Postgres store of Events/Log takes the hash functions, the encryption, the schema registry and the
-- text of an instant as the record `Backend`, and the rows that other transactions commit during a call as
-- part of its `Tick`. The retries of Schedules/Contract take the floats that the code uses as the record
-- `Floats`.
--
-- Not modelled: the anchors of the hash chains, the projector of approvals, verification runs, the
-- brainstorm engine, the execution of Schedules, requests of approvals, prices of usage,
-- policies, and the parts that are input and output (HTTP, chat channels, documents, secrets, setup). The
-- texts of error details are left out; an error is its code.
mod Prelude
pub mod Task
pub mod Tasks
pub mod Schedules
pub mod Events
pub mod Usage
pub mod Verification
pub mod Projections
pub mod Work
pub mod Brainstorm
pub mod Approvals
