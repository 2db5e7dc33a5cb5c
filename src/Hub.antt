-- ===== src/Hub.antt =====
-- The hub of external Agents (angelus/modules/external_agent_hub_module/): the store of their
-- definitions, the registry of protocol adapters, and the service over both.
pub mod Types
pub mod Store
pub mod Adapters
pub mod Service
pub mod Codec
pub mod Packages
pub mod Documents
pub mod Finite
pub mod Requests
pub mod Tests
