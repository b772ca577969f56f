-- ===== src/PubHandler.antt =====
-- src/comm/pub_handler.h and src/comm/pub_handler.cpp: raw packets of the SDK become points, and the
-- points of each lidar become frames.
pub mod Packet
pub mod Points
pub mod Coordinates
pub mod Convert
pub mod Timer
pub mod Process
pub mod Appends
pub mod Frames
pub mod Stored
