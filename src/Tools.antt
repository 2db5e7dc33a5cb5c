-- ===== src/Tools.antt =====
-- The registry of Agent tools and the policy of a Session (angelus/modules/tool_module/), and the
-- registry of Composer context sources that the policy gates (angelus/modules/context_module/).
pub mod Types
pub mod Policy
pub mod Registry
pub mod Lifecycle
pub mod Materialize
pub mod Grants
pub mod Contexts
pub mod Tests
