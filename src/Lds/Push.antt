-- ===== src/Lds/Push.antt =====
-- src/lds.cpp: `PushLidarData`, with the ring of a device as a bounded list.
use livox_ros_driver.Common.{
  ℕ, ◌^◌, ◌≤◌, ◌<◌, ◌≡◌, refl, ap, ◌∙◌, ◌⊎◌, inl, inr, true, false, some, List, [], ◌∷◌, ◌++◌,
  arith, length, length-append, take, get_elem?, set, ◌==◌, if◌then◌else◌, Bool-cases,
}
use livox_ros_driver.Common.Memory.{ok, is_null, null}
use livox_ros_driver.Comm.{PointPacket, PointXyzlt}
use livox_ros_driver.Comm.Floats.{Floats}
use livox_ros_driver.Semaphore.{Semaphore, signal, get_count}
use livox_ros_driver.Ldq.{LidarDataQueue, queue_is_empty}
use livox_ros_driver.Ldq.Window.{Frame}
use livox_ros_driver.Ldq.Represents.{Represents, counters, init_queue-Represents}
use livox_ros_driver.Ldq.Refine.{queue_push_any_append}
use livox_ros_driver.Lds.{
  Lds, LidarDevice, wake, calculate_packet_queue_size, ensure_queue, file_packet, push_lidar_data,
}

-- After the wake-up the count is positive, and a positive count stays as it is.
pub wake_lem : (s : Semaphore) → (0 < (wake s).count) × (0 < s.count → wake s ≡ s)
unfolding wake signal get_count
wake_lem s = (ground arith, λ h. ground arith)

-- A list of at most `size` frames that refuses one more.
abbrev pub offer {ℓ} : {A : Type ℓ} → ℕ → List A → A → List A
offer size fs f = if length fs == size then fs else fs ++ f ∷ []

-- The points that a packet carries, where its pointer and its count are good.
module _ {F : Type 0} where
  pub record Carries (p : PointPacket F) (pts : List (PointXyzlt F)) : Type 0 where
    pub pointer : p.points ≡ some pts
    pub enough : p.points_num ≤ length pts

abbrev pub frame_of : {F : Type 0} → PointPacket F → List (PointXyzlt F) → ℕ → Frame F
frame_of p pts base_time = record { time = base_time; points = take p.points_num pts }

-- A ring that holds frames, or one that is not allocated yet.
abbrev pub RingHolds : {F : Type 0} → LidarDataQueue F → List (Frame F) → Type 0
RingHolds queue fs = Represents queue fs ⊎ ((queue.storage_packet ≡ null) × (fs ≡ []))

module _ (fl : Floats) where
  open fl use {Float}

  file_packet_refines :
      (queue : LidarDataQueue Float) (fs : List (Frame Float)) (s : Semaphore)
      (p : PointPacket Float) (pts : List (PointXyzlt Float)) (base_time : ℕ)
      → Represents queue fs
      → Carries p pts
      → (q : LidarDataQueue Float) × (file_packet fl queue s p base_time ≡ ok (q, wake s))
        × Represents q (offer queue.size fs (frame_of p pts base_time))
        × (q.size ≡ queue.size)
  unfolding file_packet
  file_packet_refines queue fs s p pts t r c = elim (Bool-cases (length fs == queue.size)) [
    | inl full ↦ (queue, rw ((counters r).2, full) refl, rw full r, refl)
    | inr room ↦
        let (q, run, r', same) =
          queue_push_any_append queue fs p pts t r (ground (arith, r.size_eq, r.fits)) c.pointer
            c.enough in
        (q, rw ((counters r).2, room, run, nonempty q (frame_of p pts t) r') refl, rw room r', same)
  ]
    where
      nonempty :
          (q : LidarDataQueue Float) (f : Frame Float)
          → Represents q (fs ++ f ∷ [])
          → queue_is_empty q ≡ false
      nonempty q f r' = (counters r').3 ∙ ground (arith, length-append fs (f ∷ []))

  ensure_queue_refines :
      (freq : Float) (queue : LidarDataQueue Float) (fs : List (Frame Float))
      → calculate_packet_queue_size fl freq ≤ 2 ^ 31
      → RingHolds queue fs
      → (q : LidarDataQueue Float) × (ensure_queue fl freq queue ≡ ok q)
        × Represents q fs
        × (is_null queue.storage_packet ≡ false → q.size ≡ queue.size)
  unfolding ensure_queue
  ensure_queue_refines freq queue fs small (inl r) = (queue, rw r.allocated refl, r, λ known. refl)
  ensure_queue_refines freq queue fs small (inr (unallocated, e)) =
      let test : is_null queue.storage_packet ≡ true = ap is_null unallocated in
      let (q, run, r, covers, least) =
        init_queue-Represents queue (calculate_packet_queue_size fl freq) small (λ f. cc) in
      (q, rw (test, run) refl, rw e r, λ known. absurd (ground (arith, test, known)))

  -- The same with the size of the ring, which an allocated ring keeps.
  pub push_lidar_data_sized :
      (l : Lds Float) (index base_time : ℕ) (device : LidarDevice Float) (fs : List (Frame Float))
      (p : PointPacket Float) (pts : List (PointXyzlt Float))
      → calculate_packet_queue_size fl l.publish_freq ≤ 2 ^ 31
      → get_elem? l.lidars index ≡ some device
      → RingHolds device.queue fs
      → Carries p pts
      → (q : LidarDataQueue Float) × (push_lidar_data fl l (some p) index base_time
          ≡ ok (record l {
            lidars = set l.lidars index (record device { queue = q });
            pcd_semaphore = wake l.pcd_semaphore;
          }))
        × Represents q (offer q.size fs (frame_of p pts base_time))
        × (is_null device.queue.storage_packet ≡ false → q.size ≡ device.queue.size)
  unfolding push_lidar_data
  push_lidar_data_sized l index t device fs p pts small at held c =
      let (q0, ensured, r0, kept) =
        ensure_queue_refines l.publish_freq device.queue fs small held in
      let (q, run, r, same) = file_packet_refines q0 fs l.pcd_semaphore p pts t r0 c in
      (q, rw (at, ensured, run) refl, rw same r, λ known. same ∙ kept known)

  -- `PushLidarData` for the index of a device whose ring holds `fs`, or is not allocated and
  -- holds none, on a packet whose pointer and count are good, with a ring size within 2 ^ 31: it
  -- never faults, and allocates the ring if it must. The ring then holds `fs` and the new frame
  -- behind, or `fs` alone if it was full, the count of the publishing thread's semaphore is
  -- positive, and no other device changes.
  pub push_lidar_data_refines :
      (l : Lds Float) (index base_time : ℕ) (device : LidarDevice Float) (fs : List (Frame Float))
      (p : PointPacket Float) (pts : List (PointXyzlt Float))
      → calculate_packet_queue_size fl l.publish_freq ≤ 2 ^ 31
      → get_elem? l.lidars index ≡ some device
      → RingHolds device.queue fs
      → Carries p pts
      → (q : LidarDataQueue Float) × (push_lidar_data fl l (some p) index base_time
          ≡ ok (record l {
            lidars = set l.lidars index (record device { queue = q });
            pcd_semaphore = wake l.pcd_semaphore;
          }))
        × Represents q (offer q.size fs (frame_of p pts base_time))
        × (0 < (wake l.pcd_semaphore).count)
  push_lidar_data_refines l index t device fs p pts small at held c =
      let (q, run, r, kept) = push_lidar_data_sized l index t device fs p pts small at held c in
      (q, run, r, (wake_lem l.pcd_semaphore).0)
