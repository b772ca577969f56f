-- ===== src/Monitor/Observe.antt =====
-- src/lidar_dtc_monitor.h: the `Observe` functions of `Monitor`. A duration test `now - t <= d` is
-- `now ≤ t + d`, which needs no negative numbers; the clock stays below the range of `int64_t`. The
-- difference that `ObserveTimeSync` takes in `double` is exact here.
use livox_ros_driver.Common.{
  ℕ, ◌+◌, ◌-◌, ◌*◌, Bool, true, false, not, ◌&&◌, ◌||◌, List, ltb, leb, ◌==◌, if◌then◌else◌,
}
use livox_ros_driver.Common.Int.{ℤ, pos}
use livox_ros_driver.Comm.{add32}
use livox_ros_driver.Monitor.State.{MonitorConfig, Monitor, leb_ℤ, neg_ℕ, ns_per_ms}

unfoldable pub observe_hms : Monitor → List ℕ → ℕ → Monitor
observe_hms m codes now = record m {
  hms = codes;
  hms_time = now;
  hms_seen = true;
  hms_seq = add32 m.hms_seq 1;
}

unfoldable pub observe_work_state : Monitor → ℕ → ℕ → Monitor
observe_work_state m state now = record m {
  work_state = state;
  state_time = now;
  state_seen = true;
}

unfoldable pub observe_packet : Monitor → ℕ → Monitor
observe_packet m now = record m { packet_time = now; packet_seen = true }

unfoldable pub observe_cloud : Monitor → ℕ → ℕ → ℕ → Monitor
observe_cloud m stamp valid_points now =
    if ltb m.valid_stamp stamp && leb m.config.min_valid_points valid_points
    then record m { valid_stamp = stamp; valid_time = now; valid_seen = true }
    else m

-- The arguments of `ObserveTimeSync` but `now`.
pub record SyncSample : Type 0 where
  pub type : ℕ
  pub local_time : ℕ
  pub last_sync : ℕ
  pub offset : ℤ

abbrev pub within : ℕ → ℤ → Bool
within bound offset = leb_ℤ (neg_ℕ bound) offset && leb_ℤ offset (pos bound)

-- The device clock has moved as far as the host clock, to 1 ms.
unfoldable pub clock_continuous : Monitor → SyncSample → ℕ → Bool
clock_continuous m s now =
    m.bounded_seen
    && leb m.bounded_local s.local_time
    && leb m.bounded_sample_time now
    && leb (s.local_time - m.bounded_local) (now - m.bounded_sample_time + 1_000_000)
    && leb (now - m.bounded_sample_time) (s.local_time - m.bounded_local + 1_000_000)

unfoldable pub is_bounded : Monitor → SyncSample → Bool
is_bounded m s =
    s.type == 1
    && not (s.last_sync == 0)
    && leb s.last_sync s.local_time
    && leb (s.local_time - s.last_sync) 2_500_000_000
    && within 1_000_000 s.offset
    && (not m.bounded_seen || leb m.bounded_last_sync s.last_sync)

unfoldable pub is_healthy : MonitorConfig → SyncSample → Bool
is_healthy config s =
    s.type == 1
    && not (s.last_sync == 0)
    && leb s.last_sync s.local_time
    && leb (s.local_time - s.last_sync) (config.state_timeout * ns_per_ms)
    && within config.max_sync_offset_ns s.offset

-- The first half of `ObserveTimeSync`: the evidence for a bounded warning.
unfoldable pub observe_bounded : Monitor → SyncSample → ℕ → Monitor
observe_bounded m s now = record m {
  bounded_advances =
      (if not (is_bounded m s) || not (clock_continuous m s now)
        then 0
        else if ltb m.bounded_last_sync s.last_sync
        then (if ltb m.bounded_advances 2 then m.bounded_advances + 1 else 2)
        else m.bounded_advances);
  bounded_advance_time =
      (if not (is_bounded m s) || not (clock_continuous m s now)
        then m.bounded_advance_time
        else if ltb m.bounded_last_sync s.last_sync
        then now
        else m.bounded_advance_time);
  bounded_seen = true;
  bounded_local = s.local_time;
  bounded_last_sync = s.last_sync;
  bounded_sample_time = now;
  bounded_offset = s.offset;
}

-- The second half: the verification of PTP.
unfoldable pub observe_ptp : Monitor → SyncSample → ℕ → Monitor
observe_ptp m s now =
    if not (is_healthy m.config s) || (m.sync_seen && ltb s.last_sync m.last_sync)
    then record m { ptp_verified = false }
    else if not m.sync_seen || ltb m.last_sync s.last_sync
    then record m {
      last_sync = s.last_sync;
      sync_time = now;
      sync_seen = true;
      ptp_verified = true;
    }
    else m

unfoldable pub observe_time_sync : Monitor → SyncSample → ℕ → Monitor
observe_time_sync m s now = observe_ptp (observe_bounded m s now) s now
