-- ===== src/RunGraph.antt =====
-- The graph of a run (angelus/modules/run_graph_module/): its model, and its reduction from the
-- facts of an execution journal.
pub mod Types
pub mod Reducer
pub mod Snapshots
pub mod Keyed
pub mod Replay
pub mod Attempts
pub mod Events
pub mod Feed
pub mod Resume
pub mod Tests
