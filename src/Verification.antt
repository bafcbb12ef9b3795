-- ===== src/Verification.antt =====
-- server/verification: who may verify a Task.
pub mod Independence
