-- ===== src/Lddc/Drains.antt =====
-- src/lddc.cpp: what the polling loops publish, and whether they end.
use mathlib.Core.List.{append-nil}
use livox_ros_driver.Common.{
  ℕ, zero, suc, ◌≡◌, refl, ◌≤◌, ◌<◌, ◌∙◌, ap, true, false, none, some, List, [], ◌∷◌, ◌++◌, map,
  length, take-length, arith, inl, inr, ◌==◌, if◌then◌else◌, leb, Bool-cases,
}
use livox_ros_driver.Common.Memory.{Result, ok, is_null, copy_array}
use livox_ros_driver.Comm.{StoragePacket}
use livox_ros_driver.Ldq.{LidarDataQueue, queue_is_empty, fresh_packet}
use livox_ros_driver.Ldq.Window.{Frame}
use livox_ros_driver.Ldq.Represents.{Represents, counters}
use livox_ros_driver.Ldq.Refine.{queue_pop_oldest, filled}
use livox_ros_driver.ImuQueue.{ImuData}
use livox_ros_driver.Lds.{LidarDevice}
use livox_ros_driver.Lddc.Messages.{
  Casts, Message, cloud, custom, pointcloud2_of, custom_of, init_pointcloud2_msg, init_custom_msg,
  init_imu_msg, is_empty,
}
use livox_ros_driver.Lddc.Polling.{
  Lddc, message_of, drain, publish_round, poll_from, polling_lidar_point_cloud_data,
  polling_lidar_imu_data,
}

module _ {F : Type 0} where
  -- The messages of the frames that have points, in their order; none where the output is not ROS.
  unfoldable pub published : (Frame F → Message F) → ℕ → List (Frame F) → List (Message F)
  published msg output_type [] = []
  published msg output_type (f ∷ fs) =
      (if is_empty f.points then [] else (if output_type == 0 then msg f ∷ [] else []))
      ++ published msg output_type fs

  message_of_lem :
      (make : StoragePacket F → Result (Message F)) (msg : Frame F → Message F) (output_type : ℕ)
      (f : Frame F)
      → make (filled fresh_packet f) ≡ ok (msg f)
      → message_of make output_type (filled fresh_packet f)
        ≡ ok (if is_empty f.points then [] else (if output_type == 0 then msg f ∷ [] else []))
  unfolding message_of
  message_of_lem make msg output_type f e = elim (Bool-cases (is_empty f.points)) [
    | inl h ↦ rw (h) refl
    | inr h ↦ rw (h, e) refl
  ]

  drain_lem :
      (make : StoragePacket F → Result (Message F)) (msg : Frame F → Message F)
      (output_type fuel : ℕ) (queue : LidarDataQueue F) (fs : List (Frame F))
      → ((f : Frame F) → make (filled fresh_packet f) ≡ ok (msg f))
      → Represents queue fs
      → length fs ≤ fuel
      → (q : LidarDataQueue F) × (drain make output_type fuel queue
          ≡ ok (some (q, published msg output_type fs)))
        × Represents q []
  unfolding drain published
  drain_lem make msg output_type zero queue [] e r h = (queue, rw ((counters r).3) refl, r)
  drain_lem make msg output_type (suc fuel) queue [] e r h = (queue, rw ((counters r).3) refl, r)
  drain_lem make msg output_type zero queue (f ∷ fs) e r h = absurd (omega arith)
  drain_lem make msg output_type (suc fuel) queue (f ∷ fs) e r h =
      let (q, popped, r', same) = queue_pop_oldest queue f fs fresh_packet r in
      let (q', rest, empty) = drain_lem make msg output_type fuel q fs e r' (omega arith) in
      let busy : queue_is_empty queue ≡ false = (counters r).3 ∙ ground arith in
      (q', rw (busy, popped, message_of_lem make msg output_type f (e f), rest) refl, empty)

  copy_all : (f : Frame F) → copy_array f.points (length f.points) ≡ ok f.points
  copy_all f = rw (at_least (length f.points), take-length f.points) refl
    where
      at_least : (n : ℕ) → leb n n ≡ true
      at_least n = ground arith

  -- The message that a frame of this lidar becomes.
  abbrev pub message_for : Casts F → Lddc F → LidarDevice F → Frame F → Message F
  message_for casts d device f =
      if d.transfer_format == 0
      then cloud (pointcloud2_of casts (filled fresh_packet f) f.points)
      else custom (custom_of casts device.lidar_type device.handle (filled fresh_packet f) f.points)

  publish_round_lem :
      (casts : Casts F) (d : Lddc F) (device : LidarDevice F) (fuel : ℕ) (queue : LidarDataQueue F)
      (fs : List (Frame F))
      → d.transfer_format ≤ 1
      → Represents queue fs
      → length fs ≤ fuel
      → (q : LidarDataQueue F) × (publish_round casts d device fuel queue
          ≡ ok (some (q, published (message_for casts d device) d.output_type fs)))
        × Represents q []
  unfolding publish_round init_pointcloud2_msg init_custom_msg
  publish_round_lem casts d device fuel queue fs known r h =
      elim (Bool-cases (d.transfer_format == 0)) [
        | inl e ↦ rw (e) (
            drain_lem _ (message_for casts d device) d.output_type fuel queue fs
              (λ f. rw (copy_all f, e) refl) r h)
        | inr e ↦
            rw (e, one d.transfer_format known e)
              (drain_lem _ (message_for casts d device) d.output_type fuel queue fs
                (λ f. rw (copy_all f, e) refl) r h)
      ]
    where
      one : (n : ℕ) → n ≤ 1 → (n == 0) ≡ false → (n == 1) ≡ true
      one n h e = ground arith

  poll_empty :
      (casts : Casts F) (d : Lddc F) (device : LidarDevice F) (fuel rounds : ℕ)
      (queue : LidarDataQueue F)
      → Represents queue []
      → poll_from casts d device false fuel rounds queue ≡ ok (some (queue, []))
  unfolding poll_from
  poll_empty casts d device fuel zero queue r = rw ((counters r).3) refl
  poll_empty casts d device fuel (suc rounds) queue r = rw ((counters r).3) refl

  -- Without an exit request, with one of the two formats of ROS 2, and with positive fuel of at
  -- least the number of frames that the ring holds, polling a lidar ends: the ring is empty, and
  -- where the output is ROS the frames with points are published in their order, each once.
  pub polling_drains :
      (casts : Casts F) (d : Lddc F) (device : LidarDevice F) (fuel : ℕ) (fs : List (Frame F))
      → d.transfer_format ≤ 1
      → Represents device.queue fs
      → length fs ≤ fuel
      → 0 < fuel
      → (q : LidarDataQueue F) × (polling_lidar_point_cloud_data casts d false fuel device
          ≡ ok (some (q, published (message_for casts d device) d.output_type fs)))
        × Represents q []
  unfolding polling_lidar_point_cloud_data poll_from published
  polling_drains casts d device fuel [] known r h pos = (
    device.queue,
    rw (ap is_null r.allocated) (poll_empty casts d device fuel fuel device.queue r),
    r,
  )
  polling_drains casts d device zero (f ∷ fs) known r h pos = absurd (omega arith)
  polling_drains casts d device (suc fuel) (f ∷ fs) known r h pos =
      let (q, run, empty) =
        publish_round_lem casts d device (suc fuel) device.queue (f ∷ fs) known r h in
      let busy : queue_is_empty device.queue ≡ false = (counters r).3 ∙ ground arith in
      (
        q,
        rw (ap is_null r.allocated, busy, run, poll_empty casts d device (suc fuel) fuel q empty)
            (ap (λ (ms : List (Message F)). ok (some (q, ms))) (append-nil _)),
        empty,
      )

  stuck :
      (casts : Casts F) (d : Lddc F) (device : LidarDevice F) (fuel rounds : ℕ)
      (queue : LidarDataQueue F)
      → 1 < d.transfer_format
      → queue_is_empty queue ≡ false
      → poll_from casts d device false fuel rounds queue ≡ ok none
  unfolding poll_from publish_round
  stuck casts d device fuel zero queue other busy = rw (busy) refl
  stuck casts d device fuel (suc rounds) queue other busy =
      rw
        (
          busy,
          differs 0 d.transfer_format (omega arith),
          differs 1 d.transfer_format other,
          stuck casts d device fuel rounds queue other busy,
        )
        refl
    where
      differs : (k n : ℕ) → k < n → (n == k) ≡ false
      differs k n h = ground arith

  -- Without an exit request and with a format other than the two of ROS 2, polling a ring that
  -- holds a frame does not end, whatever number of rounds it is given.
  pub polling_stuck :
      (casts : Casts F) (d : Lddc F) (device : LidarDevice F) (fuel : ℕ) (f : Frame F)
      (fs : List (Frame F))
      → 1 < d.transfer_format
      → Represents device.queue (f ∷ fs)
      → polling_lidar_point_cloud_data casts d false fuel device ≡ ok none
  unfolding polling_lidar_point_cloud_data
  polling_stuck casts d device fuel f fs other r =
      rw (ap is_null r.allocated)
        (stuck casts d device fuel fuel device.queue other ((counters r).3 ∙ ground arith))

  -- Without an exit request and with output to ROS, polling the IMU samples of a lidar publishes
  -- every sample in its order and leaves none.
  pub polling_imu_drains :
      (queue : List (ImuData F))
      → polling_lidar_imu_data false 0 queue ≡ ([], map init_imu_msg queue)
  unfolding polling_lidar_imu_data
  polling_imu_drains [] = refl
  polling_imu_drains (imu ∷ queue) = rw (polling_imu_drains queue) refl
