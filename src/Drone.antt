-- ===== src/Drone.antt =====
-- ros2/src/drone_control/drone_control: the drone's own nodes.
pub mod VirtualTx
pub mod PrecisionLand
pub mod CompassCal
