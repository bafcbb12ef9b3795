-- ===== src/Events.antt =====
-- server/events: the append-only store of Events.
pub mod Store
pub mod Hashing
pub mod Log
