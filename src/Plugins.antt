-- ===== src/Plugins.antt =====
-- angelus/modules/plugin_module: the manifests of plugins, and their discovery.
pub mod Types
pub mod Patterns
pub mod Values
pub mod Fields
pub mod Forms
pub mod Manifest
pub mod Discovery
pub mod Sound
pub mod Guards
pub mod Accepted
pub mod Decoding
pub mod Rescans
mod Tests
