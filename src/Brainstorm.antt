-- ===== src/Brainstorm.antt =====
-- server/brainstorm: the limits of a brainstorm session.
pub mod Limits
