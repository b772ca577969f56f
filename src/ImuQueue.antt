-- ===== src/ImuQueue.antt =====
-- src/comm/lidar_imu_data_queue.{h,cpp}: the list of IMU samples of one lidar.
use livox_ros_driver.Common.{◌≡◌, refl, ℕ, Bool, true, false, Option, none, List, [], ◌∷◌, ◌++◌}

-- `slot` is `none` where the field is indeterminate.
pub record ImuData (F : Type 0) : Type 0 where
  pub lidar_type : ℕ
  pub handle : ℕ
  pub slot : Option ℕ
  pub time_stamp : ℕ
  pub gyro_x : F
  pub gyro_y : F
  pub gyro_z : F
  pub acc_x : F
  pub acc_y : F
  pub acc_z : F

module _ {F : Type 0} where
  -- `Push` copies each field but `slot` to a local.
  unfoldable pub copy_imu : ImuData F → ImuData F
  copy_imu d = record {
    lidar_type = d.lidar_type;
    handle = d.handle;
    slot = none;
    time_stamp = d.time_stamp;
    gyro_x = d.gyro_x;
    gyro_y = d.gyro_y;
    gyro_z = d.gyro_z;
    acc_x = d.acc_x;
    acc_y = d.acc_y;
    acc_z = d.acc_z;
  }

  unfoldable pub push : List (ImuData F) → ImuData F → List (ImuData F)
  unfolding copy_imu
  push queue d = queue ++ copy_imu d ∷ []

  -- What `Pop` answers, its out-parameter and the queue that it leaves.
  unfoldable pub pop : List (ImuData F) → ImuData F → Bool × ImuData F × List (ImuData F)
  pop [] out = (false, out, [])
  pop (d ∷ queue) out = (true, d, queue)

  unfoldable pub empty : List (ImuData F) → Bool
  empty [] = true
  empty (d ∷ queue) = false

  unfoldable pub clear : List (ImuData F) → List (ImuData F)
  clear queue = []

  pub empty-push : (queue : List (ImuData F)) (d : ImuData F) → empty (push queue d) ≡ false
  unfolding empty push
  empty-push [] d = refl
  empty-push (x ∷ queue) d = refl
