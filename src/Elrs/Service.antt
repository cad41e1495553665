-- ===== src/Elrs/Service.antt =====
-- modules/elrs_telemetry/service.py: the service around the serial port.
pub mod Transmit
pub mod Broker
pub mod Channels
pub mod Rate
pub mod Queue
pub mod Clients
pub mod Overrides
pub mod Posts
pub mod Reader
mod Examples
