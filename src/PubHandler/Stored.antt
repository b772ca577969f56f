-- ===== src/PubHandler/Stored.antt =====
-- src/comm/pub_handler.cpp and src/lds.cpp: a frame without synchronized time stamps, from `CheckTimer`
-- to the rings.
use mathlib.Core.Path.{subst}
use mathlib.Core.Option.{some-injective}
use livox_ros_driver.Common.{
  ℕ, zero, suc, ◌≡◌, refl, ◌≤◌, ◌+◌, ap, false, some, List, [], ◌∷◌, length, get_elem?, arith, inl,
  inr, Bool-cases,
}
use livox_ros_driver.Common.Eq.{nat_eq}
use livox_ros_driver.Common.Memory.{ok}
use livox_ros_driver.Comm.{PointXyzlt, PointPacket}
use livox_ros_driver.Comm.Floats.{Floats}
use livox_ros_driver.Lds.Push.{Carries, RingHolds}
use livox_ros_driver.Ldq.Window.{Frame}
use livox_ros_driver.Lds.Grown.{offers, frames_for}
use livox_ros_driver.Lds.Filed.{storage_point_data_files}
use livox_ros_driver.Lds.Store.{GoodFrame, WellFormed}
use livox_ros_driver.Lds.{Lds, LidarDevice, storage_point_data}
use livox_ros_driver.PubHandler.Points.{LidarPubHandler}
use livox_ros_driver.PubHandler.Timer.{PubHandler, check_timer, packet_with, no_frame}
use livox_ros_driver.PubHandler.Frames.{
  waiting_packets, waiting_times, has_points, frame_with, check_timer_unsynced,
}

module _ {F : Type 0} where
  length-waiting_times :
      (gs : List (ℕ × LidarPubHandler F)) → length (waiting_times gs) ≡ length (waiting_packets gs)
  unfolding waiting_times waiting_packets
  length-waiting_times [] = refl
  length-waiting_times ((id, g) ∷ gs) = elim (Bool-cases (has_points g)) [
    | inl e ↦ rw (e) (ap suc (length-waiting_times gs))
    | inr e ↦ rw (e) (length-waiting_times gs)
  ]

  first_or_later :
      (id : ℕ) (g : LidarPubHandler F) (ps : List (PointPacket F)) {p : PointPacket F}
      → ((i : ℕ) → get_elem? ps i ≡ some p → (pts : List (PointXyzlt F)) × Carries p pts)
      → (i : ℕ) → get_elem? (packet_with id g.points_clouds ∷ ps) i ≡ some p
      → (pts : List (PointXyzlt F)) × Carries p pts
  first_or_later id g ps later zero e =
      subst (λ (x : PointPacket F). (pts : List (PointXyzlt F)) × Carries x pts)
        (some-injective _ _ e) (g.points_clouds, record { pointer = refl; enough = omega arith })
  first_or_later id g ps later (suc i) e = later i e

  waiting_packets-Carries :
      (gs : List (ℕ × LidarPubHandler F)) (i : ℕ) (p : PointPacket F)
      → get_elem? (waiting_packets gs) i ≡ some p
      → (pts : List (PointXyzlt F)) × Carries p pts
  unfolding waiting_packets
  waiting_packets-Carries [] i p = λ e. cc
  waiting_packets-Carries ((id, g) ∷ gs) i p = elim (Bool-cases (has_points g)) [
    | inl f ↦
        rw (f) (first_or_later id g (waiting_packets gs) (λ j. waiting_packets-Carries gs j p) i)
    | inr f ↦ rw (f) (waiting_packets-Carries gs i p)
  ]

module _ (fl : Floats) where
  open fl use {Float}

  frame_with-GoodFrame :
      (gs : List (ℕ × LidarPubHandler Float)) → GoodFrame fl (frame_with no_frame gs)
  frame_with-GoodFrame gs = record {
    packets = omega arith;
    times = omega (arith, length-waiting_times gs);
    carried = λ i p l e. waiting_packets-Carries gs i p e;
  }

  -- Without synchronized time stamps, once the interval has passed since the last frame, on at
  -- most 32 lidars: `CheckTimer` delivers the frame with all the points of every lidar that has
  -- any, and `StoragePointData` on a well-formed data source files it without a fault: the ring
  -- of each slot then holds what it held and the packets of that frame whose lidar has this slot,
  -- in their order, each refused where the ring is full, and the data source stays well formed.
  pub check_timer_stored :
      (h : PubHandler Float) (id now : ℕ) (l : Lds Float) (j : ℕ) (d : LidarDevice Float)
      (fs : List (Frame Float))
      → h.is_timestamp_sync ≡ false
      → h.first ≡ false
      → h.last_pub_time + h.publish_interval ≤ now
      → length h.lidar_process_handlers ≤ 32
      → WellFormed fl l
      → get_elem? l.lidars j ≡ some d
      → RingHolds d.queue fs
      → let frame = frame_with no_frame h.lidar_process_handlers in
        (h' : PubHandler Float) × (l' : Lds Float) × (check_timer h id now ≡ ok (h', some frame))
        × (storage_point_data fl l (some frame) ≡ ok l')
        × WellFormed fl l'
        × ((d' : LidarDevice Float) × (get_elem? l'.lidars j ≡ some d')
            × RingHolds d'.queue
                (offers d'.queue.size fs (frames_for l.cache_index frame j frame.lidar_num 0)))
  check_timer_stored h id now l j d fs unsynced started due few w at held =
      let (l', run, w', ring) =
        storage_point_data_files fl l (frame_with no_frame h.lidar_process_handlers) j d fs w
          (frame_with-GoodFrame h.lidar_process_handlers) at held in
      (_, l', check_timer_unsynced h id now unsynced started due few, run, w', ring)
