-- ===== src/Settings.antt =====
-- angelus/modules/settings_module: how persisted documents are encoded and decoded.
pub mod Json
pub mod Schema
pub mod Decode
pub mod Encoding
pub mod Fits
pub mod Parts
pub mod RoundTrip
pub mod Typing
pub mod Decoding
mod Tests
