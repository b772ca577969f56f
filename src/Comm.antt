-- ===== src/Comm.antt =====
-- src/comm/comm.h: the data that the driver's parts pass to one another. `F` is the type of floats.
pub mod Floats
pub mod Names
use livox_ros_driver.Common.{ℕ, ◌^◌, ◌-◌, ◌+◌, ◌%◌, List, Option}

-- `uint32_t` arithmetic.
abbrev pub u32_mod : ℕ
u32_mod = 2 ^ 32

abbrev pub add32 : ℕ → ℕ → ℕ
add32 a b = (a + b) % u32_mod

abbrev pub sub32 : ℕ → ℕ → ℕ
sub32 a b = (a + u32_mod - b) % u32_mod

-- `uint64_t` arithmetic.
abbrev pub u64_mod : ℕ
u64_mod = 2 ^ 64

abbrev pub add64 : ℕ → ℕ → ℕ
add64 a b = (a + b) % u64_mod

abbrev pub sub64 : ℕ → ℕ → ℕ
sub64 a b = (a + u64_mod - b) % u64_mod

abbrev pub max_source_lidar : ℕ
max_source_lidar = 32

abbrev pub ns_per_second : ℕ
ns_per_second = 1_000_000_000

abbrev pub ns_tolerant_frame_time_deviation : ℕ
ns_tolerant_frame_time_deviation = 1_000_000

abbrev pub ratio_of_ms_to_ns : ℕ
ratio_of_ms_to_ns = 1_000_000

-- The values of `LidarProtoType` and `LidarConnectState` that the code uses.
abbrev pub livox_lidar_type : ℕ
livox_lidar_type = 8

pub data LidarConnectState : Type 0 where
  off on config sampling : LidarConnectState

pub record PointXyzlt (F : Type 0) : Type 0 where
  pub x : F
  pub y : F
  pub z : F
  pub intensity : F
  pub tag : ℕ
  pub line : ℕ
  pub offset_time : ℕ

-- `points` is a pointer.
pub record PointPacket (F : Type 0) : Type 0 where
  pub handle : ℕ
  pub lidar_type : ℕ
  pub points_num : ℕ
  pub points : Option (List (PointXyzlt F))

pub record PointFrame (F : Type 0) : Type 0 where
  pub base_time : List ℕ
  pub lidar_num : ℕ
  pub lidar_point : List (PointPacket F)

pub record StoragePacket (F : Type 0) : Type 0 where
  pub lidar_type : ℕ
  pub handle : ℕ
  pub base_time : ℕ
  pub points_num : ℕ
  pub points : List (PointXyzlt F)
