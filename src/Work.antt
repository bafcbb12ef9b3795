-- ===== src/Work.antt =====
-- server/work: the durable inbox of the Agents.
pub mod State
pub mod Inbox
