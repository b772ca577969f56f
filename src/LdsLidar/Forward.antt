-- ===== src/LdsLidar/Forward.antt =====
-- src/call_back/lidar_common_callback.cpp: what `pub_handler` calls back with a frame and with an IMU
-- sample. `client_data` is the data source that was registered.
use livox_ros_driver.Common.{
  ℕ, zero, suc, ◌+◌, ◌≤◌, ◌<◌, ◌≡◌, refl, List, Option, none, some, ◌==◌, if◌then◌else◌, length,
  get_elem?_lt, take, arith, Bool-cases, Option-cases, inl, inr, le→leb,
}
use livox_ros_driver.Common.Memory.{Result, ok, ◌>>=◌, Succeeds, ok-Succeeds, bind-Succeeds}
use livox_ros_driver.Comm.{PointPacket, PointFrame, PointXyzlt}
use livox_ros_driver.Comm.Floats.{Floats}
use livox_ros_driver.ImuQueue.{ImuData}
use livox_ros_driver.Monitor.State.{Monitor}
use livox_ros_driver.Monitor.Observe.{observe_cloud}
use livox_ros_driver.Lds.{storage_point_data, storage_imu_data}
use livox_ros_driver.Lds.Push.{Carries}
use livox_ros_driver.Lds.Store.{WellFormed, GoodFrame, storage_point_data-WellFormed}
use livox_ros_driver.LdsLidar.Diagnose.{Diagnostics}
use livox_ros_driver.LdsLidar.Status.{
  observe_diagnostic_cloud, observe_clouds_from, observe_cloud_at, valid_points, count_valid,
}
use livox_ros_driver.LdsLidar.Init.{LdsLidar}

module _ (fl : Floats) where
  open fl use {Float}

  -- `OnLidarPointClounCb`.
  unfoldable pub on_lidar_point_cloud_cb :
      LdsLidar Float → Option (PointFrame Float) → ℕ → Result (LdsLidar Float)
  on_lidar_point_cloud_cb l none now = ok l
  on_lidar_point_cloud_cb l (some frame) now =
      if frame.lidar_num == 0
      then ok l
      else (observe_diagnostic_cloud fl l.diagnostics (some frame) now >>= λ diagnostics.
          storage_point_data fl l.lds (some frame) >>= λ lds.
          ok (record l { diagnostics = diagnostics; lds = lds }))

  unfoldable pub lidar_imu_data_callback :
      LdsLidar Float → Option (ImuData Float) → Result (LdsLidar Float)
  lidar_imu_data_callback l none = ok l
  lidar_imu_data_callback l (some imu) =
      storage_imu_data l.lds imu >>= λ lds. ok (record l { lds = lds })

  valid_points-Succeeds :
      (p : PointPacket Float) (pts : List (PointXyzlt Float))
      → Carries p pts
      → Succeeds (valid_points fl p)
  unfolding valid_points Succeeds
  valid_points-Succeeds p pts c = (
    count_valid fl (take p.points_num pts),
    rw (c.pointer, valid_points) (rw (le→leb p.points_num (length pts) c.enough) refl),
  )

  observe_cloud_at-Succeeds :
      (frame : PointFrame Float) (handle i now : ℕ) (m : Monitor)
      → GoodFrame fl frame
      → i < frame.lidar_num
      → Succeeds (observe_cloud_at fl frame handle i now m)
  unfolding observe_cloud_at
  observe_cloud_at-Succeeds frame handle i now m g lt =
      let (p, at) = get_elem?_lt frame.lidar_point i (omega (arith, g.packets)) in
      let (t, time_at) = get_elem?_lt frame.base_time i (omega (arith, g.times)) in
      let (pts, c) = g.carried i p lt at in
      elim (Bool-cases (p.handle == handle)) [
        | inl same ↦
            rw (at, same, time_at, observe_cloud_at)
              (bind-Succeeds (valid_points fl p) _ (valid_points-Succeeds p pts c)
                (λ n. ok-Succeeds (observe_cloud m t n now)))
        | inr other ↦ rw (at, other, observe_cloud_at) (ok-Succeeds m)
      ]

  observe_clouds_from-Succeeds :
      (frame : PointFrame Float) (handle rounds i now : ℕ) (m : Monitor)
      → GoodFrame fl frame
      → i + rounds ≤ frame.lidar_num
      → Succeeds (observe_clouds_from fl frame handle rounds i now m)
  unfolding observe_clouds_from
  observe_clouds_from-Succeeds frame handle zero i now m g h = ok-Succeeds m
  observe_clouds_from-Succeeds frame handle (suc rounds) i now m g h =
      bind-Succeeds (observe_cloud_at fl frame handle i now m) _
        (observe_cloud_at-Succeeds frame handle i now m g (omega arith))
        (λ m'. observe_clouds_from-Succeeds frame handle rounds (i + 1) now m' g (omega arith))

  observe_diagnostic_cloud-Succeeds :
      (d : Diagnostics) (frame : PointFrame Float) (now : ℕ)
      → GoodFrame fl frame
      → Succeeds (observe_diagnostic_cloud fl d (some frame) now)
  unfolding observe_diagnostic_cloud
  observe_diagnostic_cloud-Succeeds d frame now g = elim (Option-cases d.monitor) [
    | inl unmonitored ↦ rw (unmonitored, observe_diagnostic_cloud) (ok-Succeeds d)
    | inr (m, monitored) ↦
        rw (monitored, observe_diagnostic_cloud)
          (bind-Succeeds (observe_clouds_from fl frame d.handle frame.lidar_num 0 now m) _
            (observe_clouds_from-Succeeds frame d.handle frame.lidar_num 0 now m g (omega arith))
            (λ m'. ok-Succeeds (record d { monitor = some m' })))
  ]

  -- `OnLidarPointClounCb` on a frame whose arrays reach as far as its counts, for a well-formed
  -- data source: observing its clouds and filing its packets run to the end without a fault, and
  -- the data source stays well formed.
  pub on_lidar_point_cloud_cb-WellFormed :
      (l : LdsLidar Float) (frame : PointFrame Float) (now : ℕ)
      → WellFormed fl l.lds
      → GoodFrame fl frame
      → (l' : LdsLidar Float) × (on_lidar_point_cloud_cb l (some frame) now ≡ ok l')
        × WellFormed fl l'.lds
  unfolding on_lidar_point_cloud_cb Succeeds
  on_lidar_point_cloud_cb-WellFormed l frame now w g = elim (Bool-cases (frame.lidar_num == 0)) [
    | inl empty ↦ (l, rw empty refl, w)
    | inr lidars ↦
        let (d, observed) = observe_diagnostic_cloud-Succeeds l.diagnostics frame now g in
        let (lds, filed, w') = storage_point_data-WellFormed fl l.lds frame w g in
        (record l { diagnostics = d; lds = lds }, rw (lidars, observed, filed) refl, w')
  ]
