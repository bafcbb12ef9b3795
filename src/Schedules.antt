-- ===== src/Schedules.antt =====
-- server/schedules: schedules and their runs.
pub mod Contract
pub mod Budget
