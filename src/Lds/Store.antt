-- ===== src/Lds/Store.antt =====
-- src/lds.cpp: `StoragePointData` and `StorageImuData` on a well-formed data source.
use livox_ros_driver.Common.{
  ℕ, zero, suc, ◌+◌, ◌^◌, ◌≤◌, ◌<◌, ◌≡◌, refl, ◌∙◌, ◌≢◌, ◌⊎◌, inl, inr, none, some, List, [], ◌∷◌,
  ◌++◌, arith, length, length-set, get_elem?, get_elem?_lt, set-each, set, Option-cases,
}
use livox_ros_driver.Common.Memory.{ok}
use livox_ros_driver.Comm.{PointPacket, PointFrame, PointXyzlt, livox_lidar_type}
use livox_ros_driver.Comm.Floats.{Floats}
use livox_ros_driver.Ldq.Window.{Frame}
use livox_ros_driver.CacheIndex.{CacheIndex, get_index, generate_index_key}
use livox_ros_driver.CacheIndex.Invariant.{IsValid, slot_in_range}
use livox_ros_driver.ImuQueue as ImuQueue
use livox_ros_driver.ImuQueue.{ImuData}
use livox_ros_driver.Lds.{
  Lds, LidarDevice, wake, calculate_packet_queue_size, push_lidar_data, store_point_packet,
  storage_points_from, storage_point_data, storage_imu_data,
}
use livox_ros_driver.Lds.Push.{Carries, RingHolds, push_lidar_data_refines, frame_of, offer}

pub get_index_lt : (c : CacheIndex) (t h i : ℕ) → IsValid c → get_index c t h ≡ some i → i < 32
unfolding get_index
get_index_lt c t h i v e = elim (Option-cases (generate_index_key t h)) [
  | inl unknown ↦ absurd (ground arith)
  | inr (key, k) ↦ slot_in_range v key i (ground arith)
]

module _ (fl : Floats) where
  open fl use {Float}

  -- 32 devices, a valid index, rings that hold frames or are not allocated, and a ring size within
  -- `uint32_t`.
  pub record WellFormed (l : Lds Float) : Type 0 where
    pub devices : length l.lidars ≡ 32
    pub index_valid : IsValid l.cache_index
    pub rings :
        (i : ℕ) (d : LidarDevice Float)
        → get_elem? l.lidars i ≡ some d
        → (fs : List (Frame Float)) × RingHolds d.queue fs
    pub sized : calculate_packet_queue_size fl l.publish_freq ≤ 2 ^ 31

  -- The arrays of a frame reach as far as its count, and its packets have their points.
  pub record GoodFrame (frame : PointFrame Float) : Type 0 where
    pub packets : frame.lidar_num ≤ length frame.lidar_point
    pub times : frame.lidar_num ≤ length frame.base_time
    pub carried :
        (i : ℕ) (p : PointPacket Float)
        → i < frame.lidar_num
        → get_elem? frame.lidar_point i ≡ some p
        → (pts : List (PointXyzlt Float)) × Carries p pts

  pub push_lidar_data-WellFormed :
      (l : Lds Float) (p : PointPacket Float) (pts : List (PointXyzlt Float)) (index base_time : ℕ)
      → WellFormed l
      → Carries p pts
      → index < 32
      → (l' : Lds Float) × (push_lidar_data fl l (some p) index base_time ≡ ok l')
        × WellFormed l'
        × (0 < l'.pcd_semaphore.count)
  push_lidar_data-WellFormed l p pts index t w c lt =
      let inside : index < length l.lidars = omega (arith, w.devices) in
      let (device, at) = get_elem?_lt l.lidars index inside in
      let (fs, held) = w.rings index device at in
      let (q, run, r, awake) =
        push_lidar_data_refines fl l index t device fs p pts w.sized at held c in
      let device' : LidarDevice Float = record device { queue = q } in
      (
        record l { lidars = set l.lidars index device'; pcd_semaphore = wake l.pcd_semaphore },
        run,
        record {
          devices = length-set l.lidars index device' ∙ w.devices;
          index_valid = w.index_valid;
          rings =
              set-each (λ (d : LidarDevice Float). (gs : List (Frame Float)) × RingHolds d.queue gs)
                l.lidars index device' w.rings (offer q.size fs (frame_of p pts t), inl r);
          sized = w.sized;
        },
        awake,
      )

  store_point_packet-WellFormed :
      (frame : PointFrame Float) (i : ℕ) (l : Lds Float)
      → GoodFrame frame
      → i < frame.lidar_num
      → WellFormed l
      → (l' : Lds Float) × (store_point_packet fl frame i l ≡ ok l') × WellFormed l'
  unfolding store_point_packet
  store_point_packet-WellFormed frame i l g lt w =
      let (p, at) = get_elem?_lt frame.lidar_point i (omega (arith, g.packets)) in
      let (t, time_at) = get_elem?_lt frame.base_time i (omega (arith, g.times)) in
      let (pts, c) = g.carried i p lt at in
      elim (Option-cases (get_index l.cache_index p.lidar_type p.handle)) [
        | inl unknown ↦ (l, rw (at, time_at, unknown) refl, w)
        | inr (index, known) ↦
            let (l', run, w', awake) =
              push_lidar_data-WellFormed l p pts index t w c
                (get_index_lt l.cache_index p.lidar_type p.handle index w.index_valid known) in
            (l', rw (at, time_at, known) run, w')
      ]

  storage_points_from-WellFormed :
      (frame : PointFrame Float) (rounds i : ℕ) (l : Lds Float)
      → GoodFrame frame
      → i + rounds ≤ frame.lidar_num
      → WellFormed l
      → (l' : Lds Float) × (storage_points_from fl frame rounds i l ≡ ok l') × WellFormed l'
  unfolding storage_points_from
  storage_points_from-WellFormed frame zero i l g h w = (l, refl, w)
  storage_points_from-WellFormed frame (suc rounds) i l g h w =
      let (l1, run1, w1) = store_point_packet-WellFormed frame i l g (omega arith) w in
      let (l2, run2, w2) =
        storage_points_from-WellFormed frame rounds (i + 1) l1 g (omega arith) w1 in
      (l2, rw run1 run2, w2)

  -- `StoragePointData` on a well-formed data source and a frame whose arrays reach as far as its
  -- counts ends without a fault, and the data source stays well formed.
  pub storage_point_data-WellFormed :
      (l : Lds Float) (frame : PointFrame Float)
      → WellFormed l
      → GoodFrame frame
      → (l' : Lds Float) × (storage_point_data fl l (some frame) ≡ ok l') × WellFormed l'
  unfolding storage_point_data
  storage_point_data-WellFormed l frame w g =
      storage_points_from-WellFormed frame frame.lidar_num 0 l g (omega arith) w

module _ {F : Type 0} where
  -- `StorageImuData` appends the sample to the list of its device, all fields but `slot` copied, and
  -- leaves the IMU thread awake; a sample of an unknown device or of another type changes nothing.
  pub storage_imu_data_lem :
      (l : Lds F) (imu : ImuData F)
      → ((imu.lidar_type ≢ livox_lidar_type)
            ⊎ (get_index l.cache_index imu.lidar_type imu.handle ≡ none)
          → storage_imu_data l imu ≡ ok l)
        × ((index : ℕ) (device : LidarDevice F)
            → imu.lidar_type ≡ livox_lidar_type
            → get_index l.cache_index imu.lidar_type imu.handle ≡ some index
            → get_elem? l.lidars index ≡ some device
            → storage_imu_data l imu
              ≡ ok (record l {
                lidars = set l.lidars index (record device {
                  imu_data = device.imu_data ++ record imu { slot = none } ∷ [];
                });
                imu_semaphore = wake l.imu_semaphore;
              }))
  unfolding storage_imu_data
  storage_imu_data_lem l imu = (
    λ h. ground arith,
    λ index device t known at.
        rw (known, at, ImuQueue.empty-push device.imu_data imu)
          (unfold ImuQueue.push ImuQueue.copy_imu in ground (arith, t)),
  )
