-- ===== src/PubHandler/Frames.antt =====
-- src/comm/pub_handler.cpp: the frames that `CheckTimer` delivers without synchronized time stamps.
use mathlib.Core.List.{append-nil, append_assoc}
use livox_ros_driver.Common.{
  ℕ, ◌≡◌, refl, ◌≤◌, ◌<◌, ◌+◌, sym, ap, Bool, false, not, some, List, [], ◌∷◌, ◌++◌, length, arith,
  inl, inr, ◌==◌, if◌then◌else◌, ltb, leb, Bool-cases,
}
use livox_ros_driver.Common.Eq.{nat_eq}
use livox_ros_driver.Common.Memory.{ok}
use livox_ros_driver.Comm.{PointPacket, PointFrame, max_source_lidar}
use livox_ros_driver.PubHandler.Points.{
  LidarPubHandler, get_lidar_base_time, get_lidar_point_clouds,
}
use livox_ros_driver.PubHandler.Timer.{
  PubHandler, gather, check_timer, add_packet, packet_with, no_frame,
}

module _ {F : Type 0} where
  abbrev emptied : LidarPubHandler F → LidarPubHandler F
  emptied g = record g { points_clouds = [] }

  unfoldable pub all_emptied : List (ℕ × LidarPubHandler F) → List (ℕ × LidarPubHandler F)
  all_emptied [] = []
  all_emptied ((id, g) ∷ gs) = (id, emptied g) ∷ all_emptied gs

  abbrev pub has_points : LidarPubHandler F → Bool
  has_points g = not (length g.points_clouds == 0)

  -- The packets and the times of the lidars that have points, in the order of their ids.
  unfoldable pub waiting_packets : List (ℕ × LidarPubHandler F) → List (PointPacket F)
  waiting_packets [] = []
  waiting_packets ((id, g) ∷ gs) =
      let rest = waiting_packets gs in
      if has_points g then packet_with id g.points_clouds ∷ rest else rest

  unfoldable pub waiting_times : List (ℕ × LidarPubHandler F) → List ℕ
  waiting_times [] = []
  waiting_times ((id, g) ∷ gs) =
      let rest = waiting_times gs in if has_points g then get_lidar_base_time g ∷ rest else rest

  abbrev pub frame_with : PointFrame F → List (ℕ × LidarPubHandler F) → PointFrame F
  frame_with frame gs = record {
    base_time = frame.base_time ++ waiting_times gs;
    lidar_num = frame.lidar_num + length (waiting_packets gs);
    lidar_point = frame.lidar_point ++ waiting_packets gs;
  }

  frame_ext :
      {a b : PointFrame F}
      → a.base_time ≡ b.base_time
      → a.lidar_num ≡ b.lidar_num
      → a.lidar_point ≡ b.lidar_point
      → a ≡ b
  frame_ext e f g i = record { base_time = e i; lidar_num = f i; lidar_point = g i }

  gather_lem :
      (gs : List (ℕ × LidarPubHandler F)) (frame : PointFrame F)
      → frame.lidar_num + length gs ≤ 32
      → gather gs frame ≡ ok (all_emptied gs, frame_with frame gs)
  unfolding gather all_emptied waiting_packets waiting_times get_lidar_point_clouds
  gather_lem [] frame h =
      ap (λ (x : PointFrame F). ok ([], x))
        (frame_ext (sym (append-nil frame.base_time)) (omega arith)
          (sym (append-nil frame.lidar_point)))
  gather_lem ((id, g) ∷ gs) frame h = elim (Bool-cases (length g.points_clouds == 0)) [
    | inl e ↦ rw (room frame.lidar_num (omega arith), e, gather_lem gs frame (omega arith)) refl
    | inr e ↦
        rw
          (
            room frame.lidar_num (omega arith),
            e,
            gather_lem gs
                (add_packet frame (get_lidar_base_time g) (packet_with id g.points_clouds))
                (omega arith),
          )
          (ap (λ (x : PointFrame F). ok ((id, emptied g) ∷ all_emptied gs, x))
            (frame_ext
              (append_assoc frame.base_time (get_lidar_base_time g ∷ []) (waiting_times gs))
              (omega arith)
              (append_assoc frame.lidar_point (packet_with id g.points_clouds ∷ [])
                (waiting_packets gs))))
  ]
    where
      room : (n : ℕ) → n < 32 → leb max_source_lidar n ≡ false
      room n h = ground arith

  -- Without synchronized time stamps, once the interval has passed since the last frame,
  -- `CheckTimer` on at most 32 lidars delivers one frame with all the points of every lidar that
  -- has any, lidar by lidar, and leaves no point behind; the next frame is due one interval
  -- later.
  pub check_timer_unsynced :
      (h : PubHandler F) (id now : ℕ)
      → h.is_timestamp_sync ≡ false
      → h.first ≡ false
      → h.last_pub_time + h.publish_interval ≤ now
      → length h.lidar_process_handlers ≤ 32
      → check_timer h id now
        ≡ ok (
          record h {
            last_pub_time = h.last_pub_time + h.publish_interval;
            lidar_process_handlers = all_emptied h.lidar_process_handlers;
          },
          some (frame_with no_frame h.lidar_process_handlers),
        )
  unfolding check_timer
  check_timer_unsynced h id now unsynced started due few =
      rw
        (
          unsynced,
          started,
          late now (h.last_pub_time + h.publish_interval) due,
          gather_lem h.lidar_process_handlers no_frame (omega arith),
        )
        refl
    where
      late : (a b : ℕ) → b ≤ a → ltb a b ≡ false
      late a b h = ground arith
