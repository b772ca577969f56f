-- ===== src/LdsLidar.antt =====
-- src/lds_lidar.h and src/lds_lidar.cpp: the data source of Livox lidars.
pub mod Answer
pub mod Diagnose
pub mod Status
pub mod Bounds
pub mod Layout
pub mod Init
pub mod Start
pub mod Slots
pub mod Scaled
pub mod Filled
pub mod Lifecycle
pub mod Forward
