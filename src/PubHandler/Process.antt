-- ===== src/PubHandler/Process.antt =====
-- src/comm/pub_handler.cpp: one round of the loop of `RawDataProcess`, from the packet at the front of
-- the queue to the frame that its points may close. `none` where the queue stays empty.
use livox_ros_driver.Common.{ℕ, Option, none, some, [], ◌∷◌}
use livox_ros_driver.Common.Eq.{nat_eq}
use livox_ros_driver.Common.Assoc.{lookup}
use livox_ros_driver.Common.Memory.{Result, ◌>>=◌}
use livox_ros_driver.Comm.{PointFrame}
use livox_ros_driver.Comm.Floats.{Floats}
use livox_ros_driver.PubHandler.Packet.{RawPacket, SdkNumbers}
use livox_ros_driver.PubHandler.Points.{LidarPubHandler, SdkPoints}
use livox_ros_driver.PubHandler.Coordinates.{new_handler, set_lidars_ext_param}
use livox_ros_driver.PubHandler.Convert.{point_cloud_process}
use livox_ros_driver.PubHandler.Timer.{PubHandler, get_lidar_id, put_handler, check_timer}

module _ (fl : Floats) (sdk : SdkPoints) (numbers : SdkNumbers) where
  open fl use {Float}

  -- The handler of a lidar, made where there is none, with the lidar's extrinsic parameters.
  unfoldable pub handler_for : PubHandler Float → ℕ → LidarPubHandler Float
  handler_for h id =
      let found : LidarPubHandler Float = elim (lookup id h.lidar_process_handlers) [
        | none ↦ new_handler fl
        | some g ↦ g
      ] in
      elim (lookup id h.lidar_extrinsics) [
        | none ↦ found
        | some p ↦ set_lidars_ext_param fl found p
      ]

  unfoldable pub process_packet :
      PubHandler Float → RawPacket → ℕ → Result (PubHandler Float × Option (PointFrame Float))
  process_packet h pkt now =
      let id = get_lidar_id pkt.lidar_type pkt.handle in
      point_cloud_process fl sdk numbers (handler_for h id) pkt >>= λ g.
      check_timer (record h { lidar_process_handlers = put_handler id g h.lidar_process_handlers })
        id now

  unfoldable pub raw_data_process :
      PubHandler Float → ℕ → Option (Result (PubHandler Float × Option (PointFrame Float)))
  raw_data_process h now = elim h.raw_packet_queue [
    | [] ↦ none
    | pkt ∷ pkts ↦ some (process_packet (record h { raw_packet_queue = pkts }) pkt now)
  ]
