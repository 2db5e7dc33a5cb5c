-- ===== src/Console.antt =====
-- The durable console state of a Session
-- (angelus/modules/console_module/console_state.py): the Swarm topology and the task plans.
pub mod Types
pub mod Topology
pub mod Reach
pub mod Acyclic
pub mod Integrity
pub mod Connections
pub mod Sessions
pub mod Plans
pub mod Bindings
pub mod Leaves
pub mod Updates
pub mod Accepts
pub mod Tests
