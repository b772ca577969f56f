-- ===== src/Lds.antt =====
-- src/lds.h and src/lds.cpp: the lidar data source, which files the frames and the IMU samples of each
-- lidar in its queues and wakes the publishing threads.
pub mod Push
pub mod Store
pub mod Grown
pub mod Filed
pub mod Reset
use livox_ros_driver.Common.{
  ℕ, zero, suc, ◌+◌, Bool, true, false, not, Option, none, some, List, [], ◌∷◌, take, leb, ltb,
  ◌==◌, if◌then◌else◌, get_elem?, set,
}
use livox_ros_driver.Common.Int.{ℤ, pos}
use livox_ros_driver.Common.Memory.{
  Result, ok, fault, ◌>>=◌, to_result, out_of_bounds, is_null, null_pointer,
}
use livox_ros_driver.Comm.{
  add32, livox_lidar_type, LidarConnectState, off, sampling, max_source_lidar, PointPacket,
  PointFrame,
}
use livox_ros_driver.Comm.Floats.{Floats}
use livox_ros_driver.Ldq.{
  LidarDataQueue, init_queue, deinit_queue, queue_is_full, queue_is_empty, queue_push_any,
  queue_used_size,
}
use livox_ros_driver.CacheIndex.{CacheIndex, get_index, lvx_get_index}
use livox_ros_driver.ImuQueue as ImuQueue
use livox_ros_driver.ImuQueue.{ImuData}
use livox_ros_driver.Semaphore.{Semaphore, signal, get_count}

pub record ExtParameter (F : Type 0) : Type 0 where
  pub roll : F
  pub pitch : F
  pub yaw : F
  pub x : ℤ
  pub y : ℤ
  pub z : ℤ

-- The signed fields are integers; `set_bits` and `get_bits` are `uint32_t`.
pub record UserLivoxLidarConfig (F : Type 0) : Type 0 where
  pub handle : ℕ
  pub pcl_data_type : ℤ
  pub pattern_mode : ℤ
  pub blind_spot_set : ℤ
  pub dual_emit_en : ℤ
  pub extrinsic_param : ExtParameter F
  pub set_bits : ℕ
  pub get_bits : ℕ

pub record LidarDevice (F : Type 0) : Type 0 where
  pub lidar_type : ℕ
  pub handle : ℕ
  pub data_src : ℕ
  pub connect_state : LidarConnectState
  pub queue : LidarDataQueue F
  pub imu_data : List (ImuData F)
  pub firmware_ver : ℕ
  pub livox_config : UserLivoxLidarConfig F

pub record Lds (F : Type 0) : Type 0 where
  pub lidar_count : ℕ
  pub lidars : List (LidarDevice F)
  pub pcd_semaphore : Semaphore
  pub imu_semaphore : Semaphore
  pub cache_index : CacheIndex
  pub publish_freq : F
  pub data_src : ℕ
  pub request_exit : Bool

-- `if (semaphore.GetCount() <= 0) semaphore.Signal();`
unfoldable pub wake : Semaphore → Semaphore
unfolding signal get_count
wake s = if leb (get_count s) 0 then signal s else s

module _ (fl : Floats) where
  open fl use {Float, lt, of_ℤ, to_u32}

  unfoldable pub calculate_packet_queue_size : Float → ℕ
  calculate_packet_queue_size publish_freq =
      if lt (of_ℤ (pos 10)) publish_freq then add32 (to_u32 publish_freq) 1 else 10

  abbrev the_queue : Bool × Option (LidarDataQueue Float) → Result (LidarDataQueue Float)
  the_queue (done, none) = fault null_pointer
  the_queue (done, some queue) = ok queue

  -- `PushLidarData` allocates the ring on the first frame.
  unfoldable pub ensure_queue : Float → LidarDataQueue Float → Result (LidarDataQueue Float)
  ensure_queue freq queue =
      if is_null queue.storage_packet
      then (init_queue (some queue) (calculate_packet_queue_size freq) >>= the_queue)
      else ok queue

  -- The rest of `PushLidarData` on the ring of the device: the ring and the semaphore.
  unfoldable pub file_packet :
      LidarDataQueue Float
      → Semaphore
      → PointPacket Float
      → ℕ
      → Result (LidarDataQueue Float × Semaphore)
  file_packet queue semaphore p base_time =
      if queue_is_full queue
      then ok (queue, wake semaphore)
      else (queue_push_any queue p base_time >>= λ pushed.
          ok (pushed.1, (if queue_is_empty pushed.1 then semaphore else wake semaphore)))

  unfoldable pub push_lidar_data :
      Lds Float → Option (PointPacket Float) → ℕ → ℕ → Result (Lds Float)
  push_lidar_data l none index base_time = ok l
  push_lidar_data l (some p) index base_time = do
    device ← to_result (get_elem? l.lidars index) out_of_bounds
    queue ← ensure_queue l.publish_freq device.queue
    filed ← file_packet queue l.pcd_semaphore p base_time
    ok (record l {
      lidars = set l.lidars index (record device { queue = filed.0 });
      pcd_semaphore = filed.1;
    })

  -- One round of the loop of `StoragePointData`.
  unfoldable pub store_point_packet : PointFrame Float → ℕ → Lds Float → Result (Lds Float)
  store_point_packet frame i l = do
    p ← to_result (get_elem? frame.lidar_point i) out_of_bounds
    base_time ← to_result (get_elem? frame.base_time i) out_of_bounds
    elim (get_index l.cache_index p.lidar_type p.handle) [
      | none ↦ ok l
      | some index ↦ push_lidar_data l (some p) index base_time
    ]

  unfoldable pub storage_points_from : PointFrame Float → ℕ → ℕ → Lds Float → Result (Lds Float)
  storage_points_from frame zero i l = ok l
  storage_points_from frame (suc rounds) i l =
      store_point_packet frame i l >>= λ l'. storage_points_from frame rounds (i + 1) l'

  unfoldable pub storage_point_data : Lds Float → Option (PointFrame Float) → Result (Lds Float)
  storage_point_data l none = ok l
  storage_point_data l (some frame) = storage_points_from frame frame.lidar_num 0 l

  -- One round of the loop of `StorageLvxPointData`.
  unfoldable pub store_lvx_packet : PointFrame Float → ℕ → Lds Float → Result (Lds Float)
  store_lvx_packet frame i l = do
    p ← to_result (get_elem? frame.lidar_point i) out_of_bounds
    base_time ← to_result (get_elem? frame.base_time i) out_of_bounds
    let (found, cache) = lvx_get_index l.cache_index p.lidar_type p.handle
    elim found [
      | none ↦ ok (record l { cache_index = cache })
      | some index ↦ do
        device ← to_result (get_elem? l.lidars index) out_of_bounds
        push_lidar_data
            (record l {
              cache_index = cache;
              lidars = set l.lidars index (record device { connect_state = sampling });
            })
            (some p) index base_time
    ]

  unfoldable pub storage_lvx_from : PointFrame Float → ℕ → ℕ → Lds Float → Result (Lds Float)
  storage_lvx_from frame zero i l = ok l
  storage_lvx_from frame (suc rounds) i l =
      store_lvx_packet frame i l >>= λ l'. storage_lvx_from frame rounds (i + 1) l'

  unfoldable pub storage_lvx_point_data : Lds Float → Option (PointFrame Float) → Result (Lds Float)
  storage_lvx_point_data l none = ok l
  storage_lvx_point_data l (some frame) = storage_lvx_from frame frame.lidar_num 0 l

module _ {F : Type 0} where
  unfoldable pub storage_imu_data : Lds F → ImuData F → Result (Lds F)
  storage_imu_data l imu =
      if imu.lidar_type == livox_lidar_type
      then elim (get_index l.cache_index imu.lidar_type imu.handle) [
        | none ↦ ok l
        | some index ↦ do
          device ← to_result (get_elem? l.lidars index) out_of_bounds
          let queue = ImuQueue.push device.imu_data imu
          ok (record l {
            lidars = set l.lidars index (record device { imu_data = queue });
            imu_semaphore =
                (if ImuQueue.empty queue then l.imu_semaphore else wake l.imu_semaphore);
          })
      ]
      else ok l

  unfoldable pub reset_lidar : LidarDevice F → ℕ → Result (LidarDevice F)
  reset_lidar device data_src = do
    answer ← deinit_queue (some device.queue)
    elim answer.1 [
      | none ↦ fault null_pointer
      | some queue ↦ ok (record device {
        queue = queue;
        imu_data = ImuQueue.clear device.imu_data;
        data_src = data_src;
        connect_state = off;
      })
    ]

  unfoldable pub reset_lidars : List (LidarDevice F) → ℕ → Result (List (LidarDevice F))
  reset_lidars [] data_src = ok []
  reset_lidars (device ∷ devices) data_src = do
    first ← reset_lidar device data_src
    rest ← reset_lidars devices data_src
    ok (first ∷ rest)

  unfoldable pub reset_lds : Lds F → ℕ → Result (Lds F)
  reset_lds l data_src = do
    devices ← reset_lidars l.lidars data_src
    ok (record l { lidar_count = max_source_lidar; lidars = devices })

  -- The loops of `IsAllQueueEmpty` and `IsAllQueueReadStop` over the devices.
  unfoldable pub all_queues_empty : List (LidarDevice F) → Bool
  all_queues_empty [] = true
  all_queues_empty (device ∷ devices) =
      if not (queue_is_empty device.queue) then false else all_queues_empty devices

  unfoldable pub all_queues_read : List (LidarDevice F) → Bool
  all_queues_read [] = true
  all_queues_read (device ∷ devices) =
      if ltb 0 (queue_used_size device.queue) then false else all_queues_read devices

  unfoldable pub is_all_queue_empty : Lds F → Bool
  is_all_queue_empty l = all_queues_empty (take l.lidar_count l.lidars)

  unfoldable pub is_all_queue_read_stop : Lds F → Bool
  is_all_queue_read_stop l = all_queues_read (take l.lidar_count l.lidars)

  unfoldable pub request_exit : Lds F → Lds F
  request_exit l = record l { request_exit = true }
