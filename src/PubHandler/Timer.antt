-- ===== src/PubHandler/Timer.antt =====
-- src/comm/pub_handler.cpp: `SetPointCloudConfig`, the extrinsic parameters and `CheckTimer`, which
-- closes a frame. A frame is what `points_callback_` is given; what `frame_` and `points_` hold behind
-- its counts is never read. Time points are nanoseconds.
use livox_ros_driver.Common.{
  ℕ, ◌+◌, ◌/◌, ◌%◌, Bool, false, not, ◌||◌, Option, none, some, List, [], ◌∷◌, ◌++◌, ltb, leb, ◌==◌,
  if◌then◌else◌, length,
}
use livox_ros_driver.Common.Int.{pos}
use livox_ros_driver.Common.Eq.{nat_eq}
use livox_ros_driver.Common.Assoc.{lookup, insert}
use livox_ros_driver.Common.Memory.{
  Result, ok, fault, ◌>>=◌, to_result, out_of_bounds, null_pointer, divide_by_zero,
}
use livox_ros_driver.Comm.{
  sub64, livox_lidar_type, ns_per_second, ns_tolerant_frame_time_deviation, ratio_of_ms_to_ns,
  max_source_lidar, PointXyzlt, PointPacket, PointFrame,
}
use livox_ros_driver.Comm.Floats.{Floats}
use livox_ros_driver.Lds.{ExtParameter}
use livox_ros_driver.PubHandler.Packet.{RawPacket}
use livox_ros_driver.PubHandler.Points.{
  LidarPubHandler, get_lidar_base_time, get_recent_time_stamp, get_lidar_point_clouds,
}

-- `lidar_process_handlers_` is in the order of the ids. `first` is the static flag of `CheckTimer`.
pub record PubHandler (F : Type 0) : Type 0 where
  pub raw_packet_queue : List RawPacket
  pub publish_interval : ℕ
  pub publish_interval_tolerance : ℕ
  pub publish_interval_ms : ℕ
  pub last_pub_time : ℕ
  pub first : Bool
  pub is_timestamp_sync : Bool
  pub lidar_process_handlers : List (ℕ × LidarPubHandler F)
  pub lidar_extrinsics : List (ℕ × ExtParameter F)

-- `GetLidarId`; the id stays 0 for another type.
unfoldable pub get_lidar_id : ℕ → ℕ → ℕ
get_lidar_id lidar_type handle = if lidar_type == livox_lidar_type then handle else 0

module _ {F : Type 0} where
  unfoldable pub add_lidars_ext_param : PubHandler F → ℕ → ℕ → ExtParameter F → PubHandler F
  add_lidars_ext_param h lidar_type handle param = record h {
    lidar_extrinsics = insert (get_lidar_id lidar_type handle) param h.lidar_extrinsics;
  }

  unfoldable pub clear_all_lidars_extrinsic_params : PubHandler F → PubHandler F
  clear_all_lidars_extrinsic_params h = record h { lidar_extrinsics = [] }

  abbrev pub packet_with : ℕ → List (PointXyzlt F) → PointPacket F
  packet_with id points = record {
    handle = id;
    lidar_type = livox_lidar_type;
    points_num = length points;
    points = some points;
  }

  abbrev pub add_packet : PointFrame F → ℕ → PointPacket F → PointFrame F
  add_packet frame base_time p = record {
    base_time = frame.base_time ++ base_time ∷ [];
    lidar_num = frame.lidar_num + 1;
    lidar_point = frame.lidar_point ++ p ∷ [];
  }

  abbrev pub no_frame : PointFrame F
  no_frame = record { base_time = []; lidar_num = 0; lidar_point = [] }

  -- `std::map::operator[] =` on the handlers, which keeps their order.
  unfoldable pub put_handler :
      ℕ → LidarPubHandler F → List (ℕ × LidarPubHandler F) → List (ℕ × LidarPubHandler F)
  put_handler id h [] = (id, h) ∷ []
  put_handler id h ((i, g) ∷ gs) =
      let rest = put_handler id h gs in
      if ltb id i then (id, h) ∷ (i, g) ∷ gs else if id == i then (i, h) ∷ gs else (i, g) ∷ rest

  -- The branch of `CheckTimer` for synchronized time stamps, on the handler of the packet's lidar.
  unfoldable pub close_synced :
      PubHandler F → ℕ → LidarPubHandler F → Result (LidarPubHandler F × Option (PointFrame F))
  close_synced h id g =
      let recent_ms = get_recent_time_stamp g / ratio_of_ms_to_ns in
      let diff = sub64 (get_recent_time_stamp g) (get_lidar_base_time g) in
      let taken = get_lidar_point_clouds g in
      if h.publish_interval_ms == 0
      then fault divide_by_zero
      else if not (recent_ms % h.publish_interval_ms == 0) || recent_ms == 0
      then ok (g, none)
      else if ltb diff h.publish_interval_tolerance
      then ok (g, none)
      else if length taken.0 == 0
      then ok (taken.1, none)
      else ok (taken.1, some (add_packet no_frame (get_lidar_base_time g) (packet_with id taken.0)))

  -- The loop over the handlers in the other branch. `frame_.base_time` has room for 32 lidars.
  unfoldable pub gather :
      List (ℕ × LidarPubHandler F)
      → PointFrame F
      → Result (List (ℕ × LidarPubHandler F) × PointFrame F)
  gather [] frame = ok ([], frame)
  gather ((id, g) ∷ gs) frame =
      let taken = get_lidar_point_clouds g in
      let p = packet_with id taken.0 in
      if leb max_source_lidar frame.lidar_num
      then fault out_of_bounds
      else (gather gs
            (if length taken.0 == 0 then frame else add_packet frame (get_lidar_base_time g) p)
          >>= λ r. ok ((id, taken.1) ∷ r.0, r.1))

  unfoldable pub check_timer : PubHandler F → ℕ → ℕ → Result (PubHandler F × Option (PointFrame F))
  check_timer h id now =
      if h.is_timestamp_sync
      then (to_result (lookup id h.lidar_process_handlers) null_pointer >>= λ g.
          close_synced h id g >>= λ r.
          ok (
            record h { lidar_process_handlers = put_handler id r.0 h.lidar_process_handlers },
            r.1,
          ))
      else if h.first
      then ok (record h { last_pub_time = now; first = false }, none)
      else if ltb now (h.last_pub_time + h.publish_interval)
      then ok (h, none)
      else (gather h.lidar_process_handlers no_frame >>= λ r. ok (
        record h {
          last_pub_time = h.last_pub_time + h.publish_interval;
          lidar_process_handlers = r.0;
        },
        some r.1,
      ))

module _ (fl : Floats) where
  open fl use {Float, of_ℤ, mul, div, to_u64}

  unfoldable pub set_point_cloud_config : PubHandler Float → Float → PubHandler Float
  set_point_cloud_config h publish_freq =
      let interval =
        to_u64 (
          mul (div (of_ℤ (pos ns_per_second)) (mul publish_freq (of_ℤ (pos 10))))
            (of_ℤ (pos 10))) in
      record h {
        publish_interval = interval;
        publish_interval_tolerance = sub64 interval ns_tolerant_frame_time_deviation;
        publish_interval_ms = interval / ratio_of_ms_to_ns;
      }
