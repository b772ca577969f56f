-- ===== src/Tests/Framing.antt =====
-- Runs of src/comm/pub_handler.cpp: a packet of two points, and the frames of one lidar.
use livox_ros_driver.Common.{
  ℕ, zero, suc, ◌<◌, ◌≡◌, refl, false, Option, none, some, List, [], ◌∷◌, get_elem?, inr, arith,
}
use livox_ros_driver.Common.Int.{pos}
use livox_ros_driver.Common.Memory.{ok}
use livox_ros_driver.Lds.{Lds, LidarDevice, storage_point_data}
use livox_ros_driver.Lds.Store.{WellFormed}
use livox_ros_driver.PubHandler.Packet.{RawPacket}
use livox_ros_driver.PubHandler.Points.{LidarPubHandler, SdkPoints, CartesianPoint, SphericalPoint}
use livox_ros_driver.PubHandler.Coordinates.{new_handler}
use livox_ros_driver.PubHandler.Convert.{
  process_cartesian_high_point, read_cartesian, read_spherical,
}
use livox_ros_driver.PubHandler.Timer.{PubHandler, check_timer}
use livox_ros_driver.PubHandler.Appends.{Readable, Processed, process_cartesian_high_point_lem}
use livox_ros_driver.PubHandler.Frames.{check_timer_unsynced, all_emptied, frame_with}
use livox_ros_driver.PubHandler.Stored.{check_timer_stored}
use livox_ros_driver.PubHandler.Timer.{no_frame}
use livox_ros_driver.Tests.Queues.{whole, point, known_source, known_source-WellFormed, new_device}
use livox_ros_driver.Lds.Push.{RingHolds}
use livox_ros_driver.Lds.Grown.{offers, frames_for}

-- Every three bytes are a point.
abbrev point_at : List ℕ → ℕ → Option CartesianPoint
point_at (x ∷ y ∷ z ∷ bytes) zero =
    some (record { x = pos x; y = pos y; z = pos z; reflectivity = 1; tag = 0 })
point_at (x ∷ y ∷ z ∷ bytes) (suc i) = point_at bytes i
point_at _ i = none

abbrev spherical_at : List ℕ → ℕ → Option SphericalPoint
spherical_at (d ∷ t ∷ p ∷ bytes) zero =
    some (record { depth = d; theta = t; phi = p; reflectivity = 1; tag = 0 })
spherical_at (d ∷ t ∷ p ∷ bytes) (suc i) = spherical_at bytes i
spherical_at _ i = none

abbrev sdk_points : SdkPoints
sdk_points = record { high = point_at; low = point_at; spher = spherical_at }

abbrev packet : RawPacket
packet = record {
  lidar_type = 8;
  handle = 7;
  extrinsic_enable = false;
  point_num = 2;
  data_type = 1;
  line_num = 4;
  time_stamp = 1_000;
  point_interval = 10;
  raw_data = 1 ∷ 2 ∷ 3 ∷ 4 ∷ 5 ∷ 6 ∷ [];
}

abbrev handler : LidarPubHandler ℕ
handler = record (new_handler whole) { points_clouds = point ∷ [] }

packet_high :
    Readable whole (read_cartesian whole sdk_points point_at 1000 handler.extrinsic packet) packet 2
packet_high = record { lines = refl; covered = covers }
  where
    covers :
        (i : ℕ)
        → i < 2
        → (r : _) × (read_cartesian whole sdk_points point_at 1000 handler.extrinsic packet i
            ≡ some r)
    covers zero l = (_, refl)
    covers (suc zero) l = (_, refl)
    covers (suc (suc i)) l = absurd (omega arith)

packet_low :
    Readable whole (read_cartesian whole sdk_points point_at 100 handler.extrinsic packet) packet 2
packet_low = record { lines = refl; covered = covers }
  where
    covers :
        (i : ℕ)
        → i < 2
        → (r : _) × (read_cartesian whole sdk_points point_at 100 handler.extrinsic packet i
            ≡ some r)
    covers zero l = (_, refl)
    covers (suc zero) l = (_, refl)
    covers (suc (suc i)) l = absurd (omega arith)

packet_spherical :
    Readable whole (read_spherical whole sdk_points handler.extrinsic packet) packet 2
packet_spherical = record { lines = refl; covered = covers }
  where
    covers :
        (i : ℕ)
        → i < 2
        → (r : _) × (read_spherical whole sdk_points handler.extrinsic packet i ≡ some r)
    covers zero l = (_, refl)
    covers (suc zero) l = (_, refl)
    covers (suc (suc i)) l = absurd (omega arith)

process_cartesian_high_point_lem_example :
    (h' : LidarPubHandler ℕ) × (process_cartesian_high_point whole sdk_points handler packet
      ≡ ok h')
    × Processed whole handler h' packet
process_cartesian_high_point_lem_example =
    process_cartesian_high_point_lem whole sdk_points handler packet packet_high

abbrev pub framing : PubHandler ℕ
framing = record {
  raw_packet_queue = [];
  publish_interval = 100;
  publish_interval_tolerance = 90;
  publish_interval_ms = 1;
  last_pub_time = 50;
  first = false;
  is_timestamp_sync = false;
  lidar_process_handlers = (7, handler) ∷ (9, new_handler whole) ∷ [];
  lidar_extrinsics = [];
}

check_timer_unsynced_example :
    check_timer framing 7 150
    ≡ ok (
      record framing {
        last_pub_time = 150;
        lidar_process_handlers = all_emptied framing.lidar_process_handlers;
      },
      some (frame_with no_frame framing.lidar_process_handlers),
    )
check_timer_unsynced_example =
    check_timer_unsynced framing 7 150 refl refl (omega arith) (omega arith)

check_timer_stored_example :
    let sent = frame_with no_frame framing.lidar_process_handlers in
    (h' : PubHandler ℕ) × (l' : Lds ℕ) × (check_timer framing 7 150 ≡ ok (h', some sent))
    × (storage_point_data whole known_source (some sent) ≡ ok l')
    × WellFormed whole l'
    × ((d' : LidarDevice ℕ) × (get_elem? l'.lidars 0 ≡ some d')
        × RingHolds d'.queue
            (offers d'.queue.size [] (frames_for known_source.cache_index sent 0 sent.lidar_num 0)))
check_timer_stored_example =
    check_timer_stored whole framing 7 150 known_source 0 new_device [] refl refl (omega arith)
      (omega arith) known_source-WellFormed refl (inr (refl, refl))
