-- ===== src/Tests/Publishing.antt =====
-- Runs of src/lddc.cpp: polling a ring of one frame, in a format of ROS 2 and in another.
use livox_ros_driver.Common.{ℕ, ◌%◌, ◌^◌, ◌≡◌, false, none, some, [], ◌∷◌, arith}
use livox_ros_driver.Common.Memory.{ok}
use livox_ros_driver.ImuQueue.{ImuData}
use livox_ros_driver.Ldq.{LidarDataQueue}
use livox_ros_driver.Ldq.Represents.{Represents}
use livox_ros_driver.Lds.{LidarDevice}
use livox_ros_driver.Lddc.Messages.{Casts}
use livox_ros_driver.Lddc.Polling.{Lddc, polling_lidar_point_cloud_data}
use livox_ros_driver.Lddc.Drains.{polling_drains, polling_stuck, published, message_for}
use livox_ros_driver.Tests.Queues.{wrapped, held, wrapped-Represents, new_device}

abbrev casts : Casts ℕ
casts = record { to_u8 = λ f. f % 2 ^ 8; to_double = λ n. n }

abbrev publisher : ℕ → Lddc ℕ
publisher format = record { transfer_format = format; output_type = 0; lds = none }

abbrev device : LidarDevice ℕ
device = record new_device { queue = wrapped }

polling_drains_example :
    (q : LidarDataQueue ℕ) × (polling_lidar_point_cloud_data casts (publisher 1) false 4 device
      ≡ ok (some (q, published (message_for casts (publisher 1) device) 0 (held ∷ []))))
    × Represents q []
polling_drains_example =
    polling_drains casts (publisher 1) device 4 (held ∷ []) (omega arith) wrapped-Represents
      (omega arith) (omega arith)

polling_stuck_example :
    polling_lidar_point_cloud_data casts (publisher 2) false 100 device ≡ ok none
polling_stuck_example =
    polling_stuck casts (publisher 2) device 100 held [] (omega arith) wrapped-Represents

abbrev imu : ImuData ℕ
imu = record {
  lidar_type = 8;
  handle = 7;
  slot = none;
  time_stamp = 5;
  gyro_x = 1;
  gyro_y = 2;
  gyro_z = 3;
  acc_x = 4;
  acc_y = 5;
  acc_z = 6;
}
