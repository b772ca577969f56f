-- ===== src/LdsLidar/Status.antt =====
-- src/lds_lidar.cpp: the observations of `LdsLidar` that come by themselves: the state that a
-- lidar pushes, its packets and its clouds.
use livox_ros_driver.Common.{
  ℕ, zero, suc, ◌+◌, ◌%◌, Bool, not, ◌&&◌, List, [], ◌∷◌, Option, none, some, leb, ◌==◌,
  if◌then◌else◌, length, get_elem?, take,
}
use livox_ros_driver.Common.Int.{ℤ, pos}
use livox_ros_driver.Common.Memory.{Result, ok, fault, ◌>>=◌, to_result, out_of_bounds}
use livox_ros_driver.Common.Eq.{codes}
use livox_ros_driver.Comm.{PointXyzlt, PointPacket, PointFrame}
use livox_ros_driver.Comm.Floats.{Floats}
use livox_ros_driver.Json.{Json}
use livox_ros_driver.Monitor.State.{Monitor}
use livox_ros_driver.Monitor.Observe.{
  observe_hms, observe_work_state, observe_packet, observe_cloud, observe_time_sync,
}
use livox_ros_driver.Recorder.{Recorder, Moment, record_json}
use livox_ros_driver.Recorder.Parse.{array_of}
use livox_ros_driver.LdsLidar.Diagnose.{Diagnostics}

module _ {F : Type 0} (json : Json F) where
  open json use {Value}

  abbrev uint_member : Value → List ℕ → Option ℕ
  uint_member state name = elim (json.find_member state name) [
    | none ↦ none
    | some v ↦ json.as_uint v
  ]

  abbrev uint64_member : Value → List ℕ → Option ℕ
  uint64_member state name = elim (json.find_member state name) [
    | none ↦ none
    | some v ↦ json.as_uint64 v
  ]

  abbrev int64_member : Value → List ℕ → Option ℤ
  int64_member state name = elim (json.find_member state name) [
    | none ↦ none
    | some v ↦ json.as_int64 v
  ]

  -- The work state is cast to 8 bits.
  abbrev observe_state_member : Option ℕ → Monitor → ℕ → Monitor
  observe_state_member none m now = m
  observe_state_member (some state) m now = observe_work_state m (state % 256) now

  abbrev observe_sync_members : Option ℕ → Option ℕ → Option ℕ → Option ℤ → Monitor → ℕ → Monitor
  observe_sync_members (some type) (some local) (some last) (some offset) m now =
      if leb type 2
      then observe_time_sync m
          (record { type = type; local_time = local; last_sync = last; offset = offset }) now
      else m
  observe_sync_members _ _ _ _ m now = m

  abbrev observe_hms_member : Option (List ℕ) → Monitor → ℕ → Monitor
  observe_hms_member none m now = m
  observe_hms_member (some hms_codes) m now = observe_hms m hms_codes now

  abbrev hms_member : Value → Option (List ℕ)
  hms_member state = elim (json.find_member state (codes "hms_code")) [
    | none ↦ none
    | some v ↦ array_of json json.as_uint 8 (json.as_array v)
  ]

  -- What the callback observes of a parsed state.
  unfoldable pub observe_state : Value → Monitor → ℕ → Monitor
  observe_state state m now =
      let worked = observe_state_member (uint_member state (codes "cur_work_state")) m now in
      let synced =
        observe_sync_members (uint_member state (codes "time_sync_type"))
          (uint64_member state (codes "local_time_now"))
          (uint64_member state (codes "last_sync_time")) (int64_member state (codes "time_offset"))
          worked now in
      observe_hms_member (hms_member state) synced now

  abbrev recorded_json : Option Recorder → Moment → List ℕ → Option Recorder
  recorded_json none now info = none
  recorded_json (some r) now info = some (record_json json r now (some info))

  unfoldable pub diagnostic_status_callback :
      Diagnostics → Moment → ℕ → ℕ → Option (List ℕ) → Diagnostics
  diagnostic_status_callback d moment now handle none = d
  diagnostic_status_callback d moment now handle (some info) = elim d.monitor [
    | none ↦ d
    | some m ↦
        if not (handle == d.handle)
        then d
        else let recorded = record d { recorder = recorded_json d.recorder moment info } in
          elim (json.parse info) [
            | none ↦ recorded
            | some state ↦
                if json.is_object state
                then record recorded { monitor = some (observe_state state m now) }
                else recorded
          ]
  ]

-- The data type of the packet behind the pointer, and the number of IMU packets.
unfoldable pub diagnostic_packet_callback : ℕ → Diagnostics → ℕ → ℕ → Option ℕ → Diagnostics
diagnostic_packet_callback imu_data d now handle none = d
diagnostic_packet_callback imu_data d now handle (some data_type) = elim d.monitor [
  | none ↦ d
  | some m ↦
      if handle == d.handle && not (data_type == imu_data)
      then record d { monitor = some (observe_packet m now) }
      else d
]

module _ (fl : Floats) where
  open fl use {Float}

  -- Finite and farther than 1 cm from the origin; the limit is `0.0001f`.
  unfoldable pub is_valid_point : PointXyzlt Float → Bool
  is_valid_point p =
      fl.is_finite p.x
      && fl.is_finite p.y
      && fl.is_finite p.z
      && fl.lt (fl.div (fl.of_ℤ (pos 1)) (fl.of_ℤ (pos 10_000)))
          (fl.add (fl.add (fl.mul p.x p.x) (fl.mul p.y p.y)) (fl.mul p.z p.z))

  unfoldable pub count_valid : List (PointXyzlt Float) → ℕ
  count_valid [] = 0
  count_valid (p ∷ ps) = let rest = count_valid ps in if is_valid_point p then suc rest else rest

  -- The first `points_num` points behind the pointer.
  unfoldable pub valid_points : PointPacket Float → Result ℕ
  valid_points cloud = elim cloud.points [
    | none ↦ ok 0
    | some points ↦
        if leb cloud.points_num (length points)
        then ok (count_valid (take cloud.points_num points))
        else fault out_of_bounds
  ]

  unfoldable pub observe_cloud_at : PointFrame Float → ℕ → ℕ → ℕ → Monitor → Result Monitor
  observe_cloud_at frame handle i now m = do
    cloud ← to_result (get_elem? frame.lidar_point i) out_of_bounds
    if not (cloud.handle == handle) then ok m else do
      base_time ← to_result (get_elem? frame.base_time i) out_of_bounds
      n ← valid_points cloud
      ok (observe_cloud m base_time n now)

  unfoldable pub observe_clouds_from : PointFrame Float → ℕ → ℕ → ℕ → ℕ → Monitor → Result Monitor
  observe_clouds_from frame handle zero i now m = ok m
  observe_clouds_from frame handle (suc rounds) i now m =
      observe_cloud_at frame handle i now m >>= λ m'.
      observe_clouds_from frame handle rounds (i + 1) now m'

  unfoldable pub observe_diagnostic_cloud :
      Diagnostics → Option (PointFrame Float) → ℕ → Result Diagnostics
  observe_diagnostic_cloud d none now = ok d
  observe_diagnostic_cloud d (some frame) now = elim d.monitor [
    | none ↦ ok d
    | some m ↦ observe_clouds_from frame d.handle frame.lidar_num 0 now m >>= λ m'.
        ok (record d { monitor = some m' })
  ]
