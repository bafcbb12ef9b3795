-- ===== src/Task.antt =====
-- server/domain/task.py: the Task state machine and the fold of a Task's events.
pub mod Status
pub mod State
pub mod Completion
