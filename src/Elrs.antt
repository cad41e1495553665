-- ===== src/Elrs.antt =====
-- modules/elrs_telemetry: the bridge between the ELRS radio's serial link and the local network.
pub mod Mux
pub mod Crsf
pub mod Service
