-- ===== src/Projections.antt =====
-- server/projections: the read models that are folded from the Events.
pub mod Tasks
