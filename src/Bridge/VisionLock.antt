-- ===== src/Bridge/VisionLock.antt =====
-- modules/drone_bridge/vision_lock.py: the vision-lock state machine on channels 8 to 12.
pub mod Decode
pub mod State
pub mod Gate
pub mod Handler
pub mod Engage
pub mod Margins
pub mod Dispatch
pub mod Effects
pub mod Escape
pub mod History
pub mod Debounce
pub mod Commit
pub mod Hold
pub mod Rearm
mod Examples
