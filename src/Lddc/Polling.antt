-- ===== src/Lddc/Polling.antt =====
-- src/lddc.cpp: the loops that take from the queues. A loop runs on fuel and answers `none` where the
-- fuel runs out, and `none` also stands for a wait that blocks. The flag of `IsRequestExit` keeps its
-- value while a loop runs.
use livox_ros_driver.Common.{
  ℕ, zero, suc, Bool, true, false, ◌||◌, Option, none, some, List, [], ◌∷◌, ◌++◌, ◌==◌,
  if◌then◌else◌,
}
use livox_ros_driver.Common.Memory.{Result, ok, fault, out_of_bounds, ◌>>=◌, is_null}
use livox_ros_driver.Comm.{LidarConnectState, off, on, config, sampling, StoragePacket}
use livox_ros_driver.Ldq.{LidarDataQueue, queue_is_empty, queue_pop, fresh_packet}
use livox_ros_driver.ImuQueue.{ImuData}
use livox_ros_driver.Semaphore.{wait}
use livox_ros_driver.Lds.{Lds, LidarDevice}
use livox_ros_driver.Lddc.Messages.{
  Casts, Message, cloud, custom, ImuMsg, init_pointcloud2_msg, init_custom_msg, init_imu_msg,
  is_empty,
}

-- The fields that the loops read; `lds` is none where no data source is registered.
pub record Lddc (F : Type 0) : Type 0 where
  pub transfer_format : ℕ
  pub output_type : ℕ
  pub lds : Option (Lds F)

abbrev pub pointcloud2_msg : ℕ
pointcloud2_msg = 0

abbrev pub livox_custom_msg : ℕ
livox_custom_msg = 1

abbrev is_sampling : LidarConnectState → Bool
is_sampling off = false
is_sampling on = false
is_sampling config = false
is_sampling sampling = true

module _ {F : Type 0} where
  -- `RegisterLds`.
  unfoldable pub register_lds : Lddc F → Lds F → Bool × Lddc F
  register_lds d l = elim d.lds [
    | none ↦ (true, record d { lds = some l })
    | some other ↦ (false, d)
  ]

  -- `PrepareExit`: the source whose `PrepareExit` it calls, and `Lddc` without one.
  unfoldable pub prepare_exit : Lddc F → Option (Lds F) × Lddc F
  prepare_exit d = elim d.lds [ none ↦ (none, d) | some l ↦ (some l, record d { lds = none }) ]

  -- What one packet becomes: nothing without points or where the output is not ROS.
  unfoldable pub message_of :
      (StoragePacket F → Result (Message F)) → ℕ → StoragePacket F → Result (List (Message F))
  message_of make output_type pkg =
      if is_empty pkg.points
      then ok []
      else (make pkg >>= λ m. ok (if output_type == 0 then m ∷ [] else []))

  abbrev prepend :
      List (Message F)
      → Option (LidarDataQueue F × List (Message F))
      → Option (LidarDataQueue F × List (Message F))
  prepend ms none = none
  prepend ms (some (queue, more)) = some (queue, ms ++ more)

  abbrev pub popped_packet : Option (StoragePacket F) → StoragePacket F
  popped_packet none = fresh_packet
  popped_packet (some pkg) = pkg

  -- The loop of `PublishPointcloud2` and of `PublishCustomPointcloud`.
  unfoldable pub drain :
      (StoragePacket F → Result (Message F))
      → ℕ
      → ℕ
      → LidarDataQueue F
      → Result (Option (LidarDataQueue F × List (Message F)))
  drain make output_type zero queue =
      if queue_is_empty queue then ok (some (queue, [])) else ok none
  drain make output_type (suc fuel) queue =
      if queue_is_empty queue
      then ok (some (queue, []))
      else (queue_pop queue (some fresh_packet) >>= λ popped.
          message_of make output_type (popped_packet popped.1) >>= λ ms.
          drain make output_type fuel popped.2 >>= λ rest. ok (prepend ms rest))

  abbrev make_cloud : Casts F → StoragePacket F → Result (Message F)
  make_cloud casts pkg = init_pointcloud2_msg casts pkg >>= λ m. ok (cloud m)

  abbrev make_custom : Casts F → LidarDevice F → StoragePacket F → Result (Message F)
  make_custom casts device pkg =
      init_custom_msg casts device.lidar_type device.handle pkg >>= λ m. ok (custom m)

  -- One round of `PollingLidarPointCloudData`; `PublishPclMsg` does nothing in ROS 2.
  unfoldable pub publish_round :
      Casts F
      → Lddc F
      → LidarDevice F
      → ℕ
      → LidarDataQueue F
      → Result (Option (LidarDataQueue F × List (Message F)))
  publish_round casts d device fuel queue =
      if d.transfer_format == pointcloud2_msg
      then drain (make_cloud casts) d.output_type fuel queue
      else if d.transfer_format == livox_custom_msg
      then drain (make_custom casts device) d.output_type fuel queue
      else ok (some (queue, []))

  -- The loop of `PollingLidarPointCloudData`, `rounds` and the fuel of the inner loops.
  unfoldable pub poll_from :
      Casts F
      → Lddc F
      → LidarDevice F
      → Bool
      → ℕ
      → ℕ
      → LidarDataQueue F
      → Result (Option (LidarDataQueue F × List (Message F)))
  poll_from casts d device exit fuel zero queue =
      if exit || queue_is_empty queue then ok (some (queue, [])) else ok none
  poll_from casts d device exit fuel (suc rounds) queue =
      if exit || queue_is_empty queue
      then ok (some (queue, []))
      else (publish_round casts d device fuel queue >>= λ r. elim r [
        | none ↦ ok none
        | some (queue', ms) ↦
            poll_from casts d device exit fuel rounds queue' >>= λ rest. ok (prepend ms rest)
      ])

  unfoldable pub polling_lidar_point_cloud_data :
      Casts F
      → Lddc F
      → Bool
      → ℕ
      → LidarDevice F
      → Result (Option (LidarDataQueue F × List (Message F)))
  polling_lidar_point_cloud_data casts d exit fuel device =
      if is_null device.queue.storage_packet
      then ok (some (device.queue, []))
      else poll_from casts d device exit fuel fuel device.queue

  abbrev with_first :
      LidarDevice F
      → List (Message F)
      → Option (List (LidarDevice F) × List (Message F))
      → Option (List (LidarDevice F) × List (Message F))
  with_first device ms none = none
  with_first device ms (some (devices, more)) = some (device ∷ devices, ms ++ more)

  -- The loop over the first `count` devices.
  unfoldable pub distribute_from :
      Casts F
      → Lddc F
      → Bool
      → ℕ
      → ℕ
      → List (LidarDevice F)
      → Result (Option (List (LidarDevice F) × List (Message F)))
  distribute_from casts d exit fuel zero devices = ok (some (devices, []))
  distribute_from casts d exit fuel (suc count) [] = fault out_of_bounds
  distribute_from casts d exit fuel (suc count) (device ∷ devices) =
      (if is_sampling device.connect_state
        then polling_lidar_point_cloud_data casts d exit fuel device
        else ok (some (device.queue, [])))
      >>= λ r. elim r [
        | none ↦ ok none
        | some (queue, ms) ↦ distribute_from casts d exit fuel count devices >>= λ rest.
            ok (with_first (record device { queue = queue }) ms rest)
      ]

  unfoldable pub distribute_point_cloud_data :
      Casts F → Lddc F → ℕ → Result (Option (Lddc F × List (Message F)))
  distribute_point_cloud_data casts d fuel = elim d.lds [
    | none ↦ ok (some (d, []))
    | some l ↦ if l.request_exit then ok (some (d, [])) else elim (wait l.pcd_semaphore) [
      | none ↦ ok none
      | some s ↦ distribute_from casts d l.request_exit fuel l.lidar_count l.lidars >>= λ r.
          elim r [
            | none ↦ ok none
            | some (devices, ms) ↦ ok (
                some
                  (record d { lds = some (record l { lidars = devices; pcd_semaphore = s }) }, ms))
          ]
    ]
  ]

  -- `PollingLidarImuData`: each round pops one sample and publishes it where the output is ROS.
  unfoldable pub polling_lidar_imu_data :
      Bool → ℕ → List (ImuData F) → List (ImuData F) × List (ImuMsg F)
  polling_lidar_imu_data exit output_type [] = ([], [])
  polling_lidar_imu_data exit output_type (imu ∷ queue) =
      let rest = polling_lidar_imu_data exit output_type queue in
      if exit
      then (imu ∷ queue, [])
      else (rest.0, (if output_type == 0 then init_imu_msg imu ∷ rest.1 else rest.1))

  -- The loop of `DistributeImuData` over the first `count` devices.
  unfoldable pub distribute_imu_from :
      Bool → ℕ → ℕ → List (LidarDevice F) → Result (List (LidarDevice F) × List (ImuMsg F))
  distribute_imu_from exit output_type zero devices = ok (devices, [])
  distribute_imu_from exit output_type (suc count) [] = fault out_of_bounds
  distribute_imu_from exit output_type (suc count) (device ∷ devices) =
      let polled =
        if is_sampling device.connect_state
        then polling_lidar_imu_data exit output_type device.imu_data
        else (device.imu_data, []) in
      distribute_imu_from exit output_type count devices >>= λ rest.
      ok (record device { imu_data = polled.0 } ∷ rest.0, polled.1 ++ rest.1)

  -- `none` where `Wait` blocks.
  unfoldable pub distribute_imu_data : Lddc F → Result (Option (Lddc F × List (ImuMsg F)))
  distribute_imu_data d = elim d.lds [
    | none ↦ ok (some (d, []))
    | some l ↦ if l.request_exit then ok (some (d, [])) else elim (wait l.imu_semaphore) [
      | none ↦ ok none
      | some s ↦ distribute_imu_from l.request_exit d.output_type l.lidar_count l.lidars >>= λ r.
          ok (some (record d { lds = some (record l { lidars = r.0; imu_semaphore = s }) }, r.1))
    ]
  ]
