-- ===== src/Approvals.antt =====
-- server/approvals: grants, their decisions and their consumption.
pub mod Model
pub mod Consume
pub mod Eligibility
pub mod Decide
