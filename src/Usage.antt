-- ===== src/Usage.antt =====
-- server/usage: the recorded usage and the budgets.
pub mod Budget
