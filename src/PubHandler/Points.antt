-- ===== src/PubHandler/Points.antt =====
-- src/comm/pub_handler.cpp: `LidarPubHandler`, the points of one lidar that wait for their frame. The
-- cast of the packet's bytes to an array of the SDK's points is a parameter; it answers `none` behind
-- the end of the bytes.
use livox_ros_driver.Common.{ℕ, Bool, Option, List, [], ◌∷◌}
use livox_ros_driver.Common.Int.{ℤ}
use livox_ros_driver.Comm.{PointXyzlt}

pub record CartesianPoint : Type 0 where
  pub x : ℤ
  pub y : ℤ
  pub z : ℤ
  pub reflectivity : ℕ
  pub tag : ℕ

pub record SphericalPoint : Type 0 where
  pub depth : ℕ
  pub theta : ℕ
  pub phi : ℕ
  pub reflectivity : ℕ
  pub tag : ℕ

pub record SdkPoints : Type 0 where
  pub high : List ℕ → ℕ → Option CartesianPoint
  pub low : List ℕ → ℕ → Option CartesianPoint
  pub spher : List ℕ → ℕ → Option SphericalPoint

pub record Vector (F : Type 0) : Type 0 where
  pub vx : F
  pub vy : F
  pub vz : F

-- `rotation` by its rows.
pub record ExtParameterDetailed (F : Type 0) : Type 0 where
  pub trans : Vector F
  pub row0 : Vector F
  pub row1 : Vector F
  pub row2 : Vector F

pub record LidarPubHandler (F : Type 0) : Type 0 where
  pub points_clouds : List (PointXyzlt F)
  pub extrinsic : ExtParameterDetailed F
  pub is_set_extrinsic_params : Bool

module _ {F : Type 0} where
  abbrev pub last_time : ℕ → List (PointXyzlt F) → ℕ
  last_time t [] = t
  last_time t (p ∷ ps) = last_time p.offset_time ps

  unfoldable pub get_lidar_base_time : LidarPubHandler F → ℕ
  get_lidar_base_time h = elim h.points_clouds [ [] ↦ 0 | p ∷ ps ↦ p.offset_time ]

  unfoldable pub get_recent_time_stamp : LidarPubHandler F → ℕ
  get_recent_time_stamp h = last_time 0 h.points_clouds

  -- The points, and the handler without them.
  unfoldable pub get_lidar_point_clouds :
      LidarPubHandler F → List (PointXyzlt F) × LidarPubHandler F
  get_lidar_point_clouds h = (h.points_clouds, record h { points_clouds = [] })
