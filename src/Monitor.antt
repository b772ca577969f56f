-- ===== src/Monitor.antt =====
-- src/lidar_dtc_monitor.h: the diagnostic monitor of one lidar.
pub mod Codes
pub mod State
pub mod Observe
pub mod Evaluate
pub mod Alarms
pub mod Usable
pub mod Sync
pub mod Advisory
pub mod Invariant
