-- ===== src/Tasks.antt =====
-- server/tasks: rules over the Tasks of a graph.
pub mod Graph
