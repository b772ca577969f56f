-- ===== src/PubHandler/Convert.antt =====
-- src/comm/pub_handler.cpp: the loops that turn the bytes of a packet into points.
use livox_ros_driver.Common.{
  ℕ, zero, suc, ◌+◌, ◌*◌, ◌%◌, Option, none, some, List, [], ◌∷◌, ◌++◌, ◌==◌, if◌then◌else◌,
}
use livox_ros_driver.Common.Memory.{
  Result, ok, fault, ◌>>=◌, to_result, out_of_bounds, divide_by_zero,
}
use livox_ros_driver.Comm.{u64_mod, livox_lidar_type, PointXyzlt}
use livox_ros_driver.Comm.Floats.{Floats}
use livox_ros_driver.PubHandler.Packet.{RawPacket, SdkNumbers}
use livox_ros_driver.PubHandler.Points.{
  CartesianPoint, SdkPoints, Vector, ExtParameterDetailed, LidarPubHandler,
}
use livox_ros_driver.PubHandler.Coordinates.{cartesian, spherical, num}

module _ (fl : Floats) where
  open fl use {Float}

  -- What one round of the loops makes of `raw[i]`, but for the fields that its index gives.
  pub record Reading : Type 0 where
    pub at : Vector Float
    pub reflectivity : ℕ
    pub tag : ℕ

  -- Point `i` of a packet.
  unfoldable pub point_of : RawPacket → ℕ → Reading → PointXyzlt Float
  point_of pkt i r = record {
    x = r.at.vx;
    y = r.at.vy;
    z = r.at.vz;
    intensity = num fl r.reflectivity;
    tag = r.tag;
    line = i % pkt.line_num;
    offset_time = (pkt.time_stamp + i * pkt.point_interval) % u64_mod;
  }

  -- The loops of the three functions, from round `i` on.
  unfoldable pub process_from :
      (ℕ → Option Reading)
      → RawPacket
      → ℕ
      → ℕ
      → List (PointXyzlt Float)
      → Result (List (PointXyzlt Float))
  process_from read pkt zero i points = ok points
  process_from read pkt (suc rounds) i points =
      if pkt.line_num == 0
      then fault divide_by_zero
      else (to_result (read i) out_of_bounds >>= λ r.
          process_from read pkt rounds (i + 1) (points ++ point_of pkt i r ∷ []))

  module _ (sdk : SdkPoints) where
    abbrev pub read_cartesian :
        (List ℕ → ℕ → Option CartesianPoint)
        → ℕ
        → ExtParameterDetailed Float
        → RawPacket
        → ℕ
        → Option Reading
    read_cartesian cast scale e pkt i = elim (cast pkt.raw_data i) [
      | none ↦ none
      | some raw ↦ some (record {
        at = cartesian fl e pkt.extrinsic_enable scale raw;
        reflectivity = raw.reflectivity;
        tag = raw.tag;
      })
    ]

    abbrev pub read_spherical : ExtParameterDetailed Float → RawPacket → ℕ → Option Reading
    read_spherical e pkt i = elim (sdk.spher pkt.raw_data i) [
      | none ↦ none
      | some raw ↦ some (record {
        at = spherical fl e pkt.extrinsic_enable raw;
        reflectivity = raw.reflectivity;
        tag = raw.tag;
      })
    ]

    abbrev with_points : LidarPubHandler Float → List (PointXyzlt Float) → LidarPubHandler Float
    with_points h points = record h { points_clouds = points }

    unfoldable pub process_cartesian_high_point :
        LidarPubHandler Float → RawPacket → Result (LidarPubHandler Float)
    process_cartesian_high_point h pkt =
        process_from (read_cartesian sdk.high 1000 h.extrinsic pkt) pkt pkt.point_num 0
          h.points_clouds
        >>= λ points. ok (with_points h points)

    unfoldable pub process_cartesian_low_point :
        LidarPubHandler Float → RawPacket → Result (LidarPubHandler Float)
    process_cartesian_low_point h pkt =
        process_from (read_cartesian sdk.low 100 h.extrinsic pkt) pkt pkt.point_num 0
          h.points_clouds
        >>= λ points. ok (with_points h points)

    unfoldable pub process_spherical_point :
        LidarPubHandler Float → RawPacket → Result (LidarPubHandler Float)
    process_spherical_point h pkt =
        process_from (read_spherical h.extrinsic pkt) pkt pkt.point_num 0 h.points_clouds
        >>= λ points. ok (with_points h points)

    -- `LivoxLidarPointCloudProcess`; an unknown type of data is only reported.
    unfoldable pub livox_lidar_point_cloud_process :
        SdkNumbers → LidarPubHandler Float → RawPacket → Result (LidarPubHandler Float)
    livox_lidar_point_cloud_process numbers h pkt =
        if pkt.data_type == numbers.cartesian_high
        then process_cartesian_high_point h pkt
        else if pkt.data_type == numbers.cartesian_low
        then process_cartesian_low_point h pkt
        else if pkt.data_type == numbers.spherical
        then process_spherical_point h pkt
        else ok h

    unfoldable pub point_cloud_process :
        SdkNumbers → LidarPubHandler Float → RawPacket → Result (LidarPubHandler Float)
    point_cloud_process numbers h pkt =
        if pkt.lidar_type == livox_lidar_type
        then livox_lidar_point_cloud_process numbers h pkt
        else ok h
