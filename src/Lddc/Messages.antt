-- ===== src/Lddc/Messages.antt =====
-- src/lddc.cpp: the messages that `Lddc` makes of a packet and of an IMU sample. The names and types of
-- the fields that `InitPointcloud2MsgHeader` writes and the frame ids are constants.
use livox_ros_driver.Common.{
  ℕ, ◌*◌, ◌%◌, ◌^◌, Bool, true, false, List, [], ◌∷◌, map, ◌==◌, if◌then◌else◌,
}
use livox_ros_driver.Common.Memory.{Result, ok, ◌>>=◌, copy_array}
use livox_ros_driver.Comm.{PointXyzlt, StoragePacket, sub64, u32_mod, livox_lidar_type}
use livox_ros_driver.ImuQueue.{ImuData}

abbrev pub point_step : ℕ
point_step = 26

pub record CloudPoint (F : Type 0) : Type 0 where
  pub x : F
  pub y : F
  pub z : F
  pub reflectivity : F
  pub tag : ℕ
  pub line : ℕ
  pub timestamp : F

-- `data` is the list of its points.
pub record PointCloud2 (F : Type 0) : Type 0 where
  pub stamp : ℕ
  pub height : ℕ
  pub width : ℕ
  pub row_step : ℕ
  pub points : List (CloudPoint F)

pub record CustomPoint (F : Type 0) : Type 0 where
  pub x : F
  pub y : F
  pub z : F
  pub reflectivity : ℕ
  pub tag : ℕ
  pub line : ℕ
  pub offset_time : ℕ

pub record CustomMsg (F : Type 0) : Type 0 where
  pub stamp : ℕ
  pub timebase : ℕ
  pub point_num : ℕ
  pub lidar_id : ℕ
  pub points : List (CustomPoint F)

pub record ImuMsg (F : Type 0) : Type 0 where
  pub stamp : ℕ
  pub angular_x : F
  pub angular_y : F
  pub angular_z : F
  pub linear_x : F
  pub linear_y : F
  pub linear_z : F

pub data Message (F : Type 0) : Type 0 where
  cloud : PointCloud2 F → Message F
  custom : CustomMsg F → Message F

-- The two conversions of the messages: a `float` to `uint8_t`, and a `uint64_t` to `double`, which rounds.
pub record Casts (F : Type 0) : Type 0 where
  pub to_u8 : F → ℕ
  pub to_double : ℕ → F

module _ {F : Type 0} where
  abbrev cloud_point : Casts F → PointXyzlt F → CloudPoint F
  cloud_point casts p = record {
    x = p.x;
    y = p.y;
    z = p.z;
    reflectivity = p.intensity;
    tag = p.tag;
    line = p.line;
    timestamp = casts.to_double p.offset_time;
  }

  abbrev custom_point : Casts F → ℕ → PointXyzlt F → CustomPoint F
  custom_point casts base_time p = record {
    x = p.x;
    y = p.y;
    z = p.z;
    reflectivity = casts.to_u8 p.intensity;
    tag = p.tag;
    line = p.line;
    offset_time = sub64 p.offset_time base_time % u32_mod;
  }

  abbrev pub is_empty : List (PointXyzlt F) → Bool
  is_empty [] = true
  is_empty (p ∷ ps) = false

  abbrev stamp_of : StoragePacket F → ℕ
  stamp_of pkg = if is_empty pkg.points then 0 else pkg.base_time

  abbrev pub pointcloud2_of : Casts F → StoragePacket F → List (PointXyzlt F) → PointCloud2 F
  pointcloud2_of casts pkg points = record {
    stamp = stamp_of pkg;
    height = 1;
    width = pkg.points_num;
    row_step = pkg.points_num * point_step % u32_mod;
    points = map (cloud_point casts) points;
  }

  unfoldable pub init_pointcloud2_msg : Casts F → StoragePacket F → Result (PointCloud2 F)
  init_pointcloud2_msg casts pkg =
      copy_array pkg.points pkg.points_num >>= λ points. ok (pointcloud2_of casts pkg points)

  abbrev pub custom_of : Casts F → ℕ → ℕ → StoragePacket F → List (PointXyzlt F) → CustomMsg F
  custom_of casts lidar_type handle pkg points = record {
    stamp = stamp_of pkg;
    timebase = stamp_of pkg;
    point_num = pkg.points_num;
    lidar_id = (if lidar_type == livox_lidar_type then handle % 2 ^ 8 else 0);
    points = map (custom_point casts pkg.base_time) points;
  }

  -- `InitCustomMsg` and `FillPointsToCustomMsg` for a lidar of this type and handle.
  unfoldable pub init_custom_msg : Casts F → ℕ → ℕ → StoragePacket F → Result (CustomMsg F)
  init_custom_msg casts lidar_type handle pkg = copy_array pkg.points pkg.points_num >>= λ points.
      ok (custom_of casts lidar_type handle pkg points)

  unfoldable pub init_imu_msg : ImuData F → ImuMsg F
  init_imu_msg imu = record {
    stamp = imu.time_stamp;
    angular_x = imu.gyro_x;
    angular_y = imu.gyro_y;
    angular_z = imu.gyro_z;
    linear_x = imu.acc_x;
    linear_y = imu.acc_y;
    linear_z = imu.acc_z;
  }
