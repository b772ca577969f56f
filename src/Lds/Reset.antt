-- ===== src/Lds/Reset.antt =====
-- src/lds.cpp: `ResetLidar`, and what the device is good for afterwards.
use livox_ros_driver.Common.{ℕ, ◌≡◌, refl, some, List, [], get_elem?}
use livox_ros_driver.Common.Memory.{live, ok, fault, double_free, use_after_free}
use livox_ros_driver.Comm.{PointPacket, StoragePacket, off}
use livox_ros_driver.Comm.Floats.{Floats}
use livox_ros_driver.Ldq.{deinit_queue, queue_is_full, queue_push_any}
use livox_ros_driver.Ldq.Dangling.{released}
use livox_ros_driver.ImuQueue as ImuQueue
use livox_ros_driver.Lds.{Lds, LidarDevice, reset_lidar, push_lidar_data, ensure_queue, file_packet}

module _ (fl : Floats) where
  open fl use {Float}

  -- A device whose ring was allocated cannot be used after `ResetLidar`: the ring is freed and the
  -- pointer kept, so that filing a frame writes to freed memory and a second reset frees it again.
  pub reset_lidar_dangles :
      (device : LidarDevice Float) (cells : List (StoragePacket Float)) (src src' : ℕ)
      → device.queue.storage_packet ≡ live cells
      → (device' : LidarDevice Float) × (reset_lidar device src ≡ ok device')
        × (device'.connect_state ≡ off)
        × (device'.imu_data ≡ [])
        × (reset_lidar device' src' ≡ fault double_free)
        × ((l : Lds Float) (index base_time : ℕ) (p : PointPacket Float)
            → get_elem? l.lidars index ≡ some device'
            → push_lidar_data fl l (some p) index base_time ≡ fault use_after_free)
  unfolding reset_lidar push_lidar_data ensure_queue file_packet ImuQueue.clear deinit_queue
      queue_is_full queue_push_any
  reset_lidar_dangles device cells src src' e = (
    record device { queue = released; imu_data = []; data_src = src; connect_state = off },
    rw e refl,
    refl,
    refl,
    refl,
    λ l index t p at. rw at refl,
  )
