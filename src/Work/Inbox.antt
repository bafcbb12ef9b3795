-- ===== src/Work/Inbox.antt =====
-- server/work/inbox.py, receipts.py and timeouts.py: the durable inbox. Rows and helpers are in Rows,
-- one module per group of operations stands on them.
pub mod Rows
pub mod Delivery
pub mod Steps
pub mod Results
pub mod Sweep
mod Moves
mod Rules
mod Commands
mod ResultMoves
mod OtherMoves
mod Guarantees
mod ExactlyOnce
mod Timely
mod Polls
mod FirstResult
mod Samples
