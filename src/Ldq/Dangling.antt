-- ===== src/Ldq/Dangling.antt =====
-- src/comm/ldq.cpp: `DeInitQueue` frees the ring and keeps the pointer to it.
use livox_ros_driver.Common.{ℕ, ◌≡◌, refl, true, some, List}
use livox_ros_driver.Common.Memory.{live, freed, ok, fault, double_free, use_after_free}
use livox_ros_driver.Comm.{PointPacket, StoragePacket}
use livox_ros_driver.Ldq.{LidarDataQueue, init_queue, deinit_queue, queue_push_any}

module _ {F : Type 0} where
  -- What the ring is after `DeInitQueue`.
  abbrev pub released : LidarDataQueue F
  released = record { storage_packet = freed; rd_idx = 0; wr_idx = 0; mask = 0; size = 0 }

  -- After `DeInitQueue` on an allocated ring, a second `DeInitQueue` or an `InitQueue` frees the array
  -- again, and `QueuePushAny` writes to freed memory.
  pub deinit_queue_dangles :
      (queue : LidarDataQueue F) (cells : List (StoragePacket F)) (n : ℕ) (p : PointPacket F)
      (base_time : ℕ)
      → queue.storage_packet ≡ live cells
      → (deinit_queue (some queue) ≡ ok (true, some released))
        × (deinit_queue (some released) ≡ fault double_free)
        × (init_queue (some released) n ≡ fault double_free)
        × (queue_push_any released p base_time ≡ fault use_after_free)
  unfolding deinit_queue init_queue queue_push_any
  deinit_queue_dangles queue cells n p t e = (rw e refl, refl, refl, refl)
