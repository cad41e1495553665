-- ===== src/Bridge.antt =====
-- modules/drone_bridge: from the radio's channels to commands for the drone, and telemetry back.
pub mod VisionLock
pub mod Translator
pub mod Rpc
pub mod Services
pub mod Digest
