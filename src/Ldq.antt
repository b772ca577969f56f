-- ===== src/Ldq.antt =====
-- src/comm/ldq.h and src/comm/ldq.cpp: the point cloud ring of one lidar. A pointer argument that the
-- code tests against null is an `Option`; a function that updates `*queue` returns the new queue.
pub mod Size
pub mod Window
pub mod Represents
pub mod Refine
pub mod Dangling
use Prim.Native.Nat.{bit_and}
use livox_ros_driver.Common.{
  ℕ, zero, suc, ◌+◌, ◌-◌, ◌^◌, Bool, true, false, ◌&&◌, not, Option, none, some, List, [], ltb, leb,
  ◌==◌, if◌then◌else◌, replicate,
}
use livox_ros_driver.Common.Memory.{
  Result, ok, Storage, null, live, ◌>>=◌, read_cell, write_cell, delete_array, copy_array,
  copy_pointer,
}
use livox_ros_driver.Comm.{add32, sub32, PointXyzlt, PointPacket, StoragePacket}

-- `storage_packet` may be null, live or dangling.
pub record LidarDataQueue (F : Type 0) : Type 0 where
  pub storage_packet : Storage (StoragePacket F)
  pub rd_idx : ℕ
  pub wr_idx : ℕ
  pub mask : ℕ
  pub size : ℕ

pub is_power_of2 : ℕ → Bool
is_power_of2 size = not (size == 0) && (bit_and size (size - 1) == 0)

-- The rounds left, `i` and `power2_val` of the loop.
pub roundup_from : ℕ → ℕ → ℕ → ℕ → ℕ
roundup_from size zero i power2_val = power2_val
roundup_from size (suc rounds) i power2_val =
    if leb size (2 ^ i) then 2 ^ i else roundup_from size rounds (i + 1) (2 ^ i)

pub roundup_power_of2 : ℕ → ℕ
roundup_power_of2 size = roundup_from size 32 0 0

-- The size that `InitQueue` allocates.
pub real_size : ℕ → ℕ
real_size queue_size = if is_power_of2 queue_size then queue_size else roundup_power_of2 queue_size

module _ {F : Type 0} where
  -- An element of `new StoragePacket[n]`. Its numbers are indeterminate; no operation reads them.
  abbrev pub fresh_packet : StoragePacket F
  fresh_packet = record { lidar_type = 0; handle = 0; base_time = 0; points_num = 0; points = [] }

  unfoldable pub queue_used_size : LidarDataQueue F → ℕ
  queue_used_size queue = sub32 queue.wr_idx queue.rd_idx

  unfoldable pub queue_unused_size : LidarDataQueue F → ℕ
  unfolding queue_used_size
  queue_unused_size queue = sub32 queue.size (queue_used_size queue)

  unfoldable pub queue_is_full : LidarDataQueue F → Bool
  queue_is_full queue = ltb queue.mask (sub32 queue.wr_idx queue.rd_idx)

  unfoldable pub queue_is_empty : LidarDataQueue F → Bool
  queue_is_empty queue = queue.rd_idx == queue.wr_idx

  unfoldable pub init_queue :
      Option (LidarDataQueue F) → ℕ → Result (Bool × Option (LidarDataQueue F))
  unfolding real_size is_power_of2 roundup_power_of2 roundup_from
  init_queue none queue_size = ok (false, none)
  init_queue (some queue) queue_size = do
    let n = real_size queue_size
    _ ← delete_array queue.storage_packet
    ok (
      true,
      some (record {
        storage_packet = live (replicate n fresh_packet);
        rd_idx = 0;
        wr_idx = 0;
        mask = sub32 n 1;
        size = n;
      }),
    )

  unfoldable pub deinit_queue :
      Option (LidarDataQueue F) → Result (Bool × Option (LidarDataQueue F))
  deinit_queue none = ok (false, none)
  deinit_queue (some queue) = do
    dangling ← delete_array queue.storage_packet
    ok (
      true,
      some (record { storage_packet = dangling; rd_idx = 0; wr_idx = 0; mask = 0; size = 0 }),
    )

  unfoldable pub reset_queue : LidarDataQueue F → LidarDataQueue F
  reset_queue queue = record queue { rd_idx = 0; wr_idx = 0 }

  -- Copy the oldest packet to `*storage_packet`.
  read_oldest : LidarDataQueue F → StoragePacket F → Result (StoragePacket F)
  read_oldest queue out = do
    cell ← read_cell queue.storage_packet (bit_and queue.rd_idx queue.mask)
    copied ← copy_array cell.points cell.points_num
    ok (record out { base_time = cell.base_time; points_num = cell.points_num; points = copied })

  pub queue_pre_pop :
      Option (LidarDataQueue F)
      → Option (StoragePacket F)
      → Result (Bool × Option (StoragePacket F))
  unfolding read_oldest queue_is_empty
  queue_pre_pop none out = ok (false, out)
  queue_pre_pop (some queue) none = ok (false, none)
  queue_pre_pop (some queue) (some out) =
      if queue_is_empty queue
      then ok (false, some out)
      else (read_oldest queue out >>= λ filled. ok (true, some filled))

  unfoldable pub queue_pop_update : LidarDataQueue F → LidarDataQueue F
  queue_pop_update queue = record queue { rd_idx = add32 queue.rd_idx 1 }

  -- What `QueuePop` does after `QueuePrePop` has answered.
  abbrev popped :
      LidarDataQueue F
      → Bool × Option (StoragePacket F)
      → Bool × Option (StoragePacket F) × LidarDataQueue F
  popped queue (true, out) = (true, out, queue_pop_update queue)
  popped queue (false, out) = (false, out, queue)

  unfoldable pub queue_pop :
      LidarDataQueue F
      → Option (StoragePacket F)
      → Result (Bool × Option (StoragePacket F) × LidarDataQueue F)
  unfolding queue_pre_pop queue_pop_update
  queue_pop queue out = do answer ← queue_pre_pop (some queue) out; ok (popped queue answer)

  unfoldable pub queue_push_any :
      LidarDataQueue F → PointPacket F → ℕ → Result (ℕ × LidarDataQueue F)
  queue_push_any queue lidar_point_data base_time = do
    let wr_idx = bit_and queue.wr_idx queue.mask
    cell ← read_cell queue.storage_packet wr_idx
    copied ← copy_pointer lidar_point_data.points lidar_point_data.points_num
    written ← write_cell queue.storage_packet wr_idx (record cell {
      base_time = base_time;
      points_num = lidar_point_data.points_num;
      points = copied;
    })
    ok (1, record queue { storage_packet = written; wr_idx = add32 queue.wr_idx 1 })
