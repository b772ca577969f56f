-- ===== src/Ldq/Represents.antt =====
-- src/comm/ldq.cpp: what it means that the ring holds a list of frames, its counters, and `InitQueue`.
use Prim.Native.Nat.{◌∣◌}
use native.Mathlib.Nat.{
  mod-mod_of_dvd, pow-le-pow_right, pow-suc, add-zero, add-suc, dvd_refl, dvd-mul_right_of_dvd,
}
use mathlib.Core.Path.{subst}
use livox_ros_driver.Common.{
  ℕ, zero, suc, ◌+◌, ◌-◌, ◌*◌, ◌^◌, ◌%◌, ◌≤◌, ◌<◌, ◌≡◌, refl, ◌≢◌, true, some, List, [], arith,
  length, replicate, length-replicate, ◌==◌,
}
use livox_ros_driver.Common.Bits.{pow_two_pos}
use livox_ros_driver.Common.Memory.{Storage, live, null, freed, ok, delete_array}
use livox_ros_driver.Comm.{sub32, StoragePacket}
use livox_ros_driver.Ldq.{
  LidarDataQueue, queue_used_size, queue_unused_size, queue_is_full, queue_is_empty, init_queue,
  fresh_packet,
}
use livox_ros_driver.Ldq.Size.{real_size_pow}
use livox_ros_driver.Ldq.Window.{Frame, Stored}

pow_bound : (k : ℕ) → k ≤ 31 → 2 ^ k ≤ 2 ^ 31
pow_bound k h = pow-le-pow_right {n = 2} (omega arith) h

pow_dvd : (k d : ℕ) → 2 ^ k ∣ 2 ^ (k + d)
pow_dvd k zero = rw add-zero (dvd_refl (2 ^ k))
pow_dvd k (suc d) = rw (add-suc, pow-suc) (dvd-mul_right_of_dvd (2 ^ k) (pow_dvd k d) 2)

-- `2 ^ k` divides `2 ^ 32`, so the wrap of an index does not show in its slot.
pub slot_wrap : (k i : ℕ) → k ≤ 31 → i % 2 ^ 32 % 2 ^ k ≡ i % 2 ^ k
slot_wrap k i h =
    let e : k + (32 - k) ≡ 32 = omega arith in
    mod-mod_of_dvd (2 ^ k) {b = 2 ^ 32} i (subst (λ t. 2 ^ k ∣ 2 ^ t) e (pow_dvd k (32 - k)))

least_double : (k n : ℕ) → 1 < 2 ^ k → (0 < k → 2 ^ (k - 1) < n) → 2 ^ k < 2 * n
least_double zero n big least = absurd (omega arith)
least_double (suc k) n big least =
    let e : suc k - 1 ≡ k = omega arith in omega (arith, pow-suc 2 k, rw e at least (omega arith))

module _ {F : Type 0} where
  -- The ring holds these frames, oldest first: it is allocated with `2 ^ k` cells, its indices are
  -- `uint32_t` words, and the cells from the read index on hold the frames.
  pub record Represents (queue : LidarDataQueue F) (frames : List (Frame F)) : Type 0 where
    pub k : ℕ
    pub cells : List (StoragePacket F)
    pub width : k ≤ 31
    pub allocated : queue.storage_packet ≡ live cells
    pub length_cells : length cells ≡ 2 ^ k
    pub size_eq : queue.size ≡ 2 ^ k
    pub mask_eq : queue.mask ≡ 2 ^ k - 1
    pub rd_word : queue.rd_idx < 2 ^ 32
    pub wr_eq : queue.wr_idx ≡ (queue.rd_idx + length frames) % 2 ^ 32
    pub fits : length frames ≤ 2 ^ k
    pub stored : Stored cells (2 ^ k) queue.rd_idx frames

  module _ {queue : LidarDataQueue F} {frames : List (Frame F)} (r : Represents queue frames) where
    used_eq : sub32 queue.wr_idx queue.rd_idx ≡ length frames
    used_eq = omega (arith, r.rd_word, r.wr_eq, r.fits, pow_bound r.k r.width)

    -- The counters tell the number of frames, and the tests tell the two ends of its range.
    pub counters :
        (queue_used_size queue ≡ length frames)
        × (queue_unused_size queue ≡ queue.size - length frames)
        × (queue_is_full queue ≡ (length frames == queue.size))
        × (queue_is_empty queue ≡ (length frames == 0))
    unfolding queue_used_size queue_unused_size queue_is_full queue_is_empty
    counters = (
      used_eq,
      omega (arith, used_eq, r.size_eq, r.fits, pow_bound r.k r.width),
      rw used_eq (ground (arith, r.size_eq, r.mask_eq, r.fits, pow_two_pos r.k)),
      ground (arith, r.rd_word, r.wr_eq, r.fits, pow_bound r.k r.width),
    )

  abbrev ring_of : ℕ → LidarDataQueue F
  ring_of n = record {
    storage_packet = live (replicate n fresh_packet);
    rd_idx = 0;
    wr_idx = 0;
    mask = sub32 n 1;
    size = n;
  }

  ring_of-Represents : (k : ℕ) → k ≤ 31 → Represents (ring_of (2 ^ k)) []
  ring_of-Represents k h = record {
    k = k;
    cells = replicate (2 ^ k) fresh_packet;
    width = h;
    allocated = refl;
    length_cells = length-replicate (2 ^ k) fresh_packet;
    size_eq = refl;
    mask_eq = omega (arith, pow_bound k h, pow_two_pos k);
    rd_word = omega arith;
    wr_eq = refl;
    fits = omega arith;
    stored = tt;
  }

  delete_ok :
      (storage : Storage (StoragePacket F))
      → storage ≢ freed
      → (s : Storage (StoragePacket F)) × (delete_array storage ≡ ok s)
  delete_ok null h = (null, refl)
  delete_ok freed h = absurd (h refl)
  delete_ok (live xs) h = (freed, refl)

  -- `InitQueue` for a size of at most 2 ^ 31, on a ring whose memory is not freed, allocates an
  -- empty one, of the least power of two of cells that holds the size asked for.
  pub init_queue-Represents :
      (queue : LidarDataQueue F) (queue_size : ℕ)
      → queue_size ≤ 2 ^ 31
      → queue.storage_packet ≢ freed
      → (q : LidarDataQueue F) × (init_queue (some queue) queue_size ≡ ok (true, some q))
        × Represents q []
        × (queue_size ≤ q.size)
        × (1 < q.size → q.size < 2 * queue_size)
  unfolding init_queue
  init_queue-Represents queue n h not_freed =
      let (k, width, e, covers, least) = real_size_pow n h in
      (
        ring_of (2 ^ k),
        rw ((delete_ok queue.storage_packet not_freed).1, e) refl,
        ring_of-Represents k width,
        covers,
        λ big. least_double k n big least,
      )
