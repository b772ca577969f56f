-- ===== src/Tests/Queues.antt =====
-- Runs of src/comm/ldq.cpp and src/lds.cpp: a ring whose indices wrap around, and the data source.
use mathlib.Core.Path.{subst}
use mathlib.Core.Option.{some-injective}
use livox_ros_driver.Common.{
  ℕ, zero, suc, ◌+◌, ◌-◌, ◌<◌, ◌≡◌, inr, refl, true, false, some, List, [], ◌∷◌, arith, ltb,
  replicate, set, get_elem?,
}
use livox_ros_driver.Common.Int.{pos, pos_part}
use livox_ros_driver.Common.Memory.{ok, fault, null, live, double_free, use_after_free}
use livox_ros_driver.Comm.{PointXyzlt, PointPacket, PointFrame, sampling, livox_lidar_type}
use livox_ros_driver.Comm.Floats.{Floats}
use livox_ros_driver.CacheIndex as CacheIndex
use livox_ros_driver.CacheIndex.Invariant.{new-IsValid, get_free_index-IsValid}
use livox_ros_driver.Common.Eq.{bytes_eq}
use livox_ros_driver.Common.Assoc.{lookup, insert}
use livox_ros_driver.Common.Decimal.{to_string}
use livox_ros_driver.Lds.Grown.{offers, frames_for, brings}
use livox_ros_driver.Lds.Filed.{storage_point_data_files}
use livox_ros_driver.Ldq.{
  LidarDataQueue, queue_pop, queue_push_any, init_queue, deinit_queue, fresh_packet,
}
use livox_ros_driver.Ldq.Window.{Frame}
use livox_ros_driver.Ldq.Represents.{Represents}
use livox_ros_driver.Ldq.Refine.{queue_pop_oldest, filled}
use livox_ros_driver.Ldq.Dangling.{deinit_queue_dangles, released}
use livox_ros_driver.Lds.{
  Lds, LidarDevice, UserLivoxLidarConfig, push_lidar_data, storage_point_data, wake,
  calculate_packet_queue_size,
}
use livox_ros_driver.Lds.Push.{push_lidar_data_refines, RingHolds, offer, frame_of, Carries}
use livox_ros_driver.Lds.Store.{WellFormed, GoodFrame}

-- Whole numbers in place of floating point ones.
abbrev pub whole : Floats
whole = record {
  Float = ℕ;
  of_ℤ = pos_part;
  pi = 3;
  add = ◌+◌;
  sub = ◌-◌;
  mul = λ a b. a;
  div = λ a b. a;
  neg = λ a. a;
  sin = λ a. 0;
  cos = λ a. 1;
  lt = ltb;
  is_finite = λ a. true;
  to_u32 = λ a. a;
  to_u64 = λ a. a;
  to_i32 = pos;
}

abbrev pub point : PointXyzlt ℕ
point = record { x = 1; y = 2; z = 3; intensity = 4; tag = 0; line = 0; offset_time = 0 }

abbrev pub two_points : PointPacket ℕ
two_points = record {
  handle = 7;
  lidar_type = 8;
  points_num = 2;
  points = some (point ∷ point ∷ []);
}

-- A ring of two cells whose write index has wrapped around; the oldest frame is in the second cell.
abbrev pub wrapped : LidarDataQueue ℕ
wrapped = record {
  storage_packet = live (
      fresh_packet
      ∷ record { lidar_type = 0; handle = 0; base_time = 5; points_num = 1; points = point ∷ [] }
      ∷ []);
  rd_idx = 4_294_967_295;
  wr_idx = 0;
  mask = 1;
  size = 2;
}

abbrev pub held : Frame ℕ
held = record { time = 5; points = point ∷ [] }

pub wrapped-Represents : Represents wrapped (held ∷ [])
wrapped-Represents = record {
  k = 1;
  cells =
      fresh_packet
      ∷ record { lidar_type = 0; handle = 0; base_time = 5; points_num = 1; points = point ∷ [] }
      ∷ [];
  width = omega arith;
  allocated = refl;
  length_cells = refl;
  size_eq = refl;
  mask_eq = refl;
  rd_word = omega arith;
  wr_eq = refl;
  fits = omega arith;
  stored = ((_, refl, record { time = refl; count = refl; points = refl }), tt);
}

queue_pop_oldest_example :
    (q : LidarDataQueue ℕ) × (queue_pop wrapped (some fresh_packet)
      ≡ ok (true, some (filled fresh_packet held), q))
    × Represents q []
    × (q.size ≡ 2)
queue_pop_oldest_example = queue_pop_oldest wrapped held [] fresh_packet wrapped-Represents

abbrev unallocated : LidarDataQueue ℕ
unallocated = record { storage_packet = null; rd_idx = 0; wr_idx = 0; mask = 0; size = 0 }

deinit_queue_dangles_example :
    (deinit_queue (some wrapped) ≡ ok (true, some released))
    × (deinit_queue {F = ℕ} (some released) ≡ fault double_free)
    × (init_queue {F = ℕ} (some released) 10 ≡ fault double_free)
    × (queue_push_any released two_points 6 ≡ fault use_after_free)
deinit_queue_dangles_example = deinit_queue_dangles wrapped _ 10 two_points 6 refl

abbrev pub no_config : UserLivoxLidarConfig ℕ
no_config = record {
  handle = 0;
  pcl_data_type = pos 1;
  pattern_mode = pos 0;
  blind_spot_set = pos 0;
  dual_emit_en = pos 0;
  extrinsic_param = record { roll = 0; pitch = 0; yaw = 0; x = pos 0; y = pos 0; z = pos 0 };
  set_bits = 0;
  get_bits = 0;
}

abbrev pub new_device : LidarDevice ℕ
new_device = record {
  lidar_type = 8;
  handle = 7;
  data_src = 0;
  connect_state = sampling;
  queue = unallocated;
  imu_data = [];
  firmware_ver = 0;
  livox_config = no_config;
}

abbrev pub source : Lds ℕ
source = record {
  lidar_count = 32;
  lidars = replicate 32 new_device;
  pcd_semaphore = record { count = 0 };
  imu_semaphore = record { count = 0 };
  cache_index = CacheIndex.new;
  publish_freq = 10;
  data_src = 0;
  request_exit = false;
}

push_lidar_data_refines_example :
    (q : LidarDataQueue ℕ) × (push_lidar_data whole source (some two_points) 3 6
      ≡ ok (record source {
        lidars = set source.lidars 3 (record new_device { queue = q });
        pcd_semaphore = wake source.pcd_semaphore;
      }))
    × Represents q (offer q.size [] (frame_of two_points (point ∷ point ∷ []) 6))
    × (0 < (wake source.pcd_semaphore).count)
push_lidar_data_refines_example =
    push_lidar_data_refines whole source 3 6 new_device [] two_points (point ∷ point ∷ [])
      (unfold calculate_packet_queue_size in omega arith) refl (inr (refl, refl))
      (record { pointer = refl; enough = omega arith })

abbrev pub frame : PointFrame ℕ
frame = record { base_time = 6 ∷ []; lidar_num = 1; lidar_point = two_points ∷ [] }

all_unallocated :
    (n i : ℕ) (d : LidarDevice ℕ)
    → get_elem? (replicate n new_device) i ≡ some d
    → RingHolds d.queue []
all_unallocated zero i d e = cc
all_unallocated (suc n) zero d e =
    subst (λ (x : LidarDevice ℕ). RingHolds x.queue []) (some-injective new_device d e)
      (inr (refl, refl))
all_unallocated (suc n) (suc i) d e = all_unallocated n i d e

one_packet :
    (i : ℕ) (p : PointPacket ℕ)
    → get_elem? frame.lidar_point i ≡ some p
    → (pts : List (PointXyzlt ℕ)) × Carries p pts
one_packet zero p e =
    subst (λ (x : PointPacket ℕ). (pts : List (PointXyzlt ℕ)) × Carries x pts)
      (some-injective two_points p e)
      (point ∷ point ∷ [], record { pointer = refl; enough = omega arith })
one_packet (suc i) p e = cc

pub frame-GoodFrame : GoodFrame whole frame
frame-GoodFrame = record {
  packets = omega arith;
  times = omega arith;
  carried = λ i p l e. one_packet i p e;
}

pub source-WellFormed : WellFormed whole source
source-WellFormed = record {
  devices = refl;
  index_valid = new-IsValid;
  rings = λ i d e. ([], all_unallocated 32 i d e);
  sized = unfold calculate_packet_queue_size in omega arith;
}

-- The data source once the lidar of the packet has slot 0.
abbrev pub known_source : Lds ℕ
known_source = record source {
  cache_index = (CacheIndex.get_free_index CacheIndex.new livox_lidar_type 7).1;
}

pub known_source-WellFormed : WellFormed whole known_source
known_source-WellFormed = record {
  devices = refl;
  index_valid = get_free_index-IsValid CacheIndex.new livox_lidar_type 7 new-IsValid;
  rings = λ i d e. ([], all_unallocated 32 i d e);
  sized = unfold calculate_packet_queue_size in omega arith;
}

-- The packet is one for slot 0.
frames_for_example :
    frames_for known_source.cache_index frame 0 1 0
    ≡ frame_of two_points (point ∷ point ∷ []) 6 ∷ []
unfolding frames_for brings CacheIndex.get_free_index CacheIndex.get_index
    CacheIndex.generate_index_key CacheIndex.new CacheIndex.allocate CacheIndex.first_free insert
    lookup bytes_eq CacheIndex.key_of to_string
frames_for_example = refl

storage_point_data_files_example :
    (l' : Lds ℕ) × (storage_point_data whole known_source (some frame) ≡ ok l')
    × WellFormed whole l'
    × ((d' : LidarDevice ℕ) × (get_elem? l'.lidars 0 ≡ some d')
        × RingHolds d'.queue
            (offers d'.queue.size [] (frames_for known_source.cache_index frame 0 1 0)))
storage_point_data_files_example =
    storage_point_data_files whole known_source frame 0 new_device [] known_source-WellFormed
      frame-GoodFrame refl (inr (refl, refl))
