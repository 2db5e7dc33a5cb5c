-- ===== src/Execution.antt =====
-- One execution attempt of a Session and its owner (angelus/modules/execution_module/ and
-- angelus/modules/swarm_module/session_executor.py).
pub mod Trace
pub mod Durability
pub mod Retention
pub mod Types
pub mod Attempt
pub mod Steps
pub mod Lifecycle
pub mod Outcomes
pub mod Final
pub mod Stopping
pub mod Moves
pub mod Executor
pub mod Hosts
pub mod Serial
pub mod Shutdown
pub mod Reconcile
pub mod Settled
pub mod Restart
pub mod Tests
