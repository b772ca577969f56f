-- ===== src/Ldq/Refine.antt =====
-- src/comm/ldq.cpp: `QueuePop` and `QueuePushAny` on a ring that holds frames, also where its
-- indices wrap.
use Prim.Native.Nat.{bit_and}
use native.Mathlib.Nat.{mod-lt}
use livox_ros_driver.Common.{
  ℕ, ◌+◌, ◌^◌, ◌%◌, ◌≤◌, ◌<◌, ◌≡◌, refl, sym, ap, ◌∙◌, true, false, Option, none, some, List, [],
  ◌∷◌, ◌++◌, arith, length, length-append, get_elem?, get_elem?_lt, take-length, le→leb, set,
  length-set, length-take, take,
}
use livox_ros_driver.Common.Bits.{bit_and_mask, pow_two_pos}
use livox_ros_driver.Common.Memory.{live, ok, read_cell, copy_array, to_result, out_of_bounds}
use livox_ros_driver.Comm.{add32, PointPacket, PointXyzlt, StoragePacket}
use livox_ros_driver.Ldq.{
  LidarDataQueue, queue_is_empty, queue_pop, queue_push_any, queue_pop_update, read_oldest,
}
use livox_ros_driver.Ldq.Window.{Frame, Holds, Stored-congr, Stored-set}
use livox_ros_driver.Ldq.Represents.{Represents, counters, slot_wrap}

module _ {F : Type 0} where
  -- The slot of an index in the ring.
  read_slot :
      {queue : LidarDataQueue F} {frames : List (Frame F)} (r : Represents queue frames) (i : ℕ)
      → read_cell queue.storage_packet (bit_and i queue.mask)
        ≡ to_result (get_elem? r.cells (i % 2 ^ r.k)) out_of_bounds
  read_slot r i = rw (r.allocated, r.mask_eq, bit_and_mask r.k i)

  copy_held :
      (cell : StoragePacket F) (f : Frame F)
      → Holds cell f
      → copy_array cell.points cell.points_num ≡ ok f.points
  copy_held cell f h = rw (
    h.points,
    h.count,
    le→leb (length f.points) (length f.points) (omega arith),
    take-length f.points,
  )

  abbrev pub filled : StoragePacket F → Frame F → StoragePacket F
  filled out f = record out { base_time = f.time; points_num = length f.points; points = f.points }

  read_oldest_held :
      (queue : LidarDataQueue F) (f : Frame F) (fs : List (Frame F)) (out : StoragePacket F)
      → Represents queue (f ∷ fs)
      → read_oldest queue out ≡ ok (filled out f)
  unfolding read_oldest
  read_oldest_held queue f fs out r =
      let (cell, found, held) = r.stored.0 in
      rw (read_slot r queue.rd_idx, found, copy_held cell f held, held.time, held.count) refl

  pop_update-Represents :
      (queue : LidarDataQueue F) (f : Frame F) (fs : List (Frame F))
      → Represents queue (f ∷ fs)
      → Represents (queue_pop_update queue) fs
  unfolding queue_pop_update
  pop_update-Represents queue f fs r = record {
    k = r.k;
    cells = r.cells;
    width = r.width;
    allocated = r.allocated;
    length_cells = r.length_cells;
    size_eq = r.size_eq;
    mask_eq = r.mask_eq;
    rd_word = omega arith;
    wr_eq = omega (arith, r.wr_eq);
    fits = omega (arith, r.fits);
    stored =
        Stored-congr r.cells (2 ^ r.k) (queue.rd_idx + 1) ((queue.rd_idx + 1) % 2 ^ 32) fs
          (sym (slot_wrap r.k (queue.rd_idx + 1) r.width)) r.stored.1;
  }

  pop_update-size : (queue : LidarDataQueue F) → (queue_pop_update queue).size ≡ queue.size
  unfolding queue_pop_update
  pop_update-size queue = refl

  not_empty :
      (queue : LidarDataQueue F) (f : Frame F) (fs : List (Frame F))
      → Represents queue (f ∷ fs)
      → queue_is_empty queue ≡ false
  not_empty queue f fs r = (counters r).3 ∙ ground arith

  -- `QueuePop` on a ring that holds a frame copies the oldest one out, and the ring then holds
  -- the others in their order.
  pub queue_pop_oldest :
      (queue : LidarDataQueue F) (f : Frame F) (fs : List (Frame F)) (out : StoragePacket F)
      → Represents queue (f ∷ fs)
      → (q : LidarDataQueue F) × (queue_pop queue (some out) ≡ ok (true, some (filled out f), q))
        × Represents q fs
        × (q.size ≡ queue.size)
  unfolding queue_pop
  queue_pop_oldest queue f fs out r = (
    queue_pop_update queue,
    rw (not_empty queue f fs r, read_oldest_held queue f fs out r) refl,
    pop_update-Represents queue f fs r,
    pop_update-size queue,
  )

  -- On an empty ring it answers false, and changes nothing.
  pub queue_pop_empty :
      (queue : LidarDataQueue F) (out : Option (StoragePacket F))
      → Represents queue []
      → queue_pop queue out ≡ ok (false, out, queue)
  unfolding queue_pop
  queue_pop_empty queue none r = refl
  queue_pop_empty queue (some out) r = rw (counters r).3 refl

  written-Represents :
      (queue : LidarDataQueue F) (fs : List (Frame F)) (f : Frame F) (cell : StoragePacket F)
      (r : Represents queue fs)
      → length fs < queue.size
      → Holds cell f
      → Represents
          (record queue {
            storage_packet = live (set r.cells (queue.wr_idx % 2 ^ r.k) cell);
            wr_idx = add32 queue.wr_idx 1;
          })
          (fs ++ f ∷ [])
  written-Represents queue fs f cell r room held = record {
    k = r.k;
    cells = set r.cells (queue.wr_idx % 2 ^ r.k) cell;
    width = r.width;
    allocated = refl;
    length_cells = length-set r.cells (queue.wr_idx % 2 ^ r.k) cell ∙ r.length_cells;
    size_eq = r.size_eq;
    mask_eq = r.mask_eq;
    rd_word = r.rd_word;
    wr_eq = omega (arith, r.wr_eq, length-append fs (f ∷ []));
    fits = omega (arith, r.size_eq, length-append fs (f ∷ []));
    stored =
        Stored-set r.cells (2 ^ r.k) queue.rd_idx (queue.wr_idx % 2 ^ r.k) fs cell f r.length_cells
          (omega (arith, r.size_eq))
          (ap (λ (t : ℕ). t % 2 ^ r.k) r.wr_eq ∙ slot_wrap r.k (queue.rd_idx + length fs) r.width)
          held r.stored;
  }

  -- `QueuePushAny` on a ring with a free cell, of a packet whose pointer and count are good,
  -- appends the frame.
  pub queue_push_any_append :
      (queue : LidarDataQueue F) (fs : List (Frame F)) (p : PointPacket F)
      (pts : List (PointXyzlt F)) (base_time : ℕ)
      → Represents queue fs
      → length fs < queue.size
      → p.points ≡ some pts
      → p.points_num ≤ length pts
      → (q : LidarDataQueue F) × (queue_push_any queue p base_time ≡ ok (1, q))
        × Represents q (fs ++ record { time = base_time; points = take p.points_num pts } ∷ [])
        × (q.size ≡ queue.size)
  unfolding queue_push_any
  queue_push_any_append queue fs p pts t r room has enough =
      let (old, found) =
        get_elem?_lt r.cells (queue.wr_idx % 2 ^ r.k)
          (omega (arith, r.length_cells, mod-lt queue.wr_idx (pow_two_pos r.k))) in
      let cell : StoragePacket F = record old {
        base_time = t;
        points_num = p.points_num;
        points = take p.points_num pts;
      } in
      (
        record queue {
          storage_packet = live (set r.cells (queue.wr_idx % 2 ^ r.k) cell);
          wr_idx = add32 queue.wr_idx 1;
        },
        rw
            (
              r.allocated,
              r.mask_eq,
              bit_and_mask r.k queue.wr_idx,
              found,
              has,
              le→leb p.points_num (length pts) enough,
            )
            refl,
        written-Represents queue fs (record { time = t; points = take p.points_num pts }) cell r
            room
            (record {
              time = refl;
              count = omega (arith, length-take p.points_num pts);
              points = refl;
            }),
        refl,
      )
