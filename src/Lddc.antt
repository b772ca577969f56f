-- ===== src/Lddc.antt =====
-- src/lddc.h and src/lddc.cpp, as built for ROS 2: the threads that take frames and IMU samples
-- from the queues and publish them.
pub mod Messages
pub mod Polling
pub mod Drains
pub mod Topics
pub mod Routes
pub mod Published
pub mod Distinct
pub mod Configured
