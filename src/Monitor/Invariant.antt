-- ===== src/Monitor/Invariant.antt =====
-- src/lidar_dtc_monitor.h: what holds of a monitor after any sequence of observations.
use livox_ros_driver.Common.{
  ℕ, ◌≡◌, refl, ◌≤◌, ◌<◌, ◌+◌, true, not, ◌&&◌, ◌||◌, List, [], ◌∷◌, ltb, leb, inl, inr, Bool-cases,
  arith,
}
use livox_ros_driver.Monitor.State.{Monitor, MonitorConfig, new_monitor}
use livox_ros_driver.Monitor.Observe.{
  SyncSample, observe_hms, observe_work_state, observe_packet, observe_cloud, observe_time_sync,
  observe_bounded, observe_ptp, is_healthy, is_bounded, within,
}
use livox_ros_driver.Monitor.Sync.{
  Observation, hms, work_state, time_sync, packet, cloud, observe, observe_all,
}

-- At most two advances are counted, and none without a sample that was itself in bounds: an offset
-- within 1 ms, and a device time that is at most 2.5 s after its last synchronization. PTP is verified
-- only after a synchronization was seen.
pub record IsValid (m : Monitor) : Type 0 where
  pub capped : m.bounded_advances ≤ 2
  pub sampled : 0 < m.bounded_advances → m.bounded_seen ≡ true
  pub offset : 0 < m.bounded_advances → within 1_000_000 m.bounded_offset ≡ true
  pub ordered : 0 < m.bounded_advances → m.bounded_last_sync ≤ m.bounded_local
  pub close : 0 < m.bounded_advances → m.bounded_local ≤ m.bounded_last_sync + 2_500_000_000
  pub verified : m.ptp_verified ≡ true → m.sync_seen ≡ true

pub new_monitor-IsValid : (config : MonitorConfig) (start : ℕ) → IsValid (new_monitor config start)
unfolding new_monitor
new_monitor-IsValid config start = record {
  capped = omega arith;
  sampled = λ h. ground arith;
  offset = λ h. ground arith;
  ordered = λ h. ground arith;
  close = λ h. ground arith;
  verified = λ h. ground arith;
}

observe_bounded-IsValid :
    (m : Monitor) (s : SyncSample) (now : ℕ) → IsValid m → IsValid (observe_bounded m s now)
unfolding observe_bounded is_bounded
observe_bounded-IsValid m s now v = record {
  capped = ground (arith, v.capped);
  sampled = λ h. refl;
  offset = λ h. ground arith;
  ordered = λ h. ground arith;
  close = λ h. ground arith;
  verified = v.verified;
}

observe_ptp-IsValid :
    (m : Monitor) (s : SyncSample) (now : ℕ) → IsValid m → IsValid (observe_ptp m s now)
unfolding observe_ptp
observe_ptp-IsValid m s now v =
    elim (Bool-cases
      (not (is_healthy m.config s) || (m.sync_seen && ltb s.last_sync m.last_sync))) [
        | inl e ↦ rw (e) (record {
          capped = v.capped;
          sampled = v.sampled;
          offset = v.offset;
          ordered = v.ordered;
          close = v.close;
          verified = λ h. cc;
        })
        | inr e ↦ elim (Bool-cases (not m.sync_seen || ltb m.last_sync s.last_sync)) [
          | inl f ↦
              rw (e, f)
                (record {
                  capped = v.capped;
                  sampled = v.sampled;
                  offset = v.offset;
                  ordered = v.ordered;
                  close = v.close;
                  verified = λ h. refl;
                })
          | inr f ↦ rw (e, f) v
        ]
      ]

-- Every observation keeps the invariant.
pub observe-IsValid : (m : Monitor) (o : Observation) → IsValid m → IsValid (observe m o)
unfolding observe observe_hms observe_work_state observe_packet observe_cloud observe_time_sync
observe-IsValid m (time_sync s now) v =
    observe_ptp-IsValid (observe_bounded m s now) s now (observe_bounded-IsValid m s now v)
observe-IsValid m (hms codes now) v = record {
  capped = v.capped;
  sampled = v.sampled;
  offset = v.offset;
  ordered = v.ordered;
  close = v.close;
  verified = v.verified;
}
observe-IsValid m (work_state w now) v = record {
  capped = v.capped;
  sampled = v.sampled;
  offset = v.offset;
  ordered = v.ordered;
  close = v.close;
  verified = v.verified;
}
observe-IsValid m (packet now) v = record {
  capped = v.capped;
  sampled = v.sampled;
  offset = v.offset;
  ordered = v.ordered;
  close = v.close;
  verified = v.verified;
}
observe-IsValid m (cloud stamp n now) v =
    elim (Bool-cases (ltb m.valid_stamp stamp && leb m.config.min_valid_points n)) [
      | inl e ↦ rw (e) (record {
        capped = v.capped;
        sampled = v.sampled;
        offset = v.offset;
        ordered = v.ordered;
        close = v.close;
        verified = v.verified;
      })
      | inr e ↦ rw (e) v
    ]

-- After any sequence of observations from the constructor on, at most two advances are counted,
-- any advance that is counted is backed by a last sample within 1 ms and 2.5 s, and PTP is
-- verified only after a synchronization was seen.
pub observe_all-IsValid :
    (config : MonitorConfig) (start : ℕ) (os : List Observation)
    → IsValid (observe_all (new_monitor config start) os)
unfolding observe_all
observe_all-IsValid config start os =
    go (new_monitor config start) os (new_monitor-IsValid config start)
  where
    go : (m : Monitor) (os : List Observation) → IsValid m → IsValid (observe_all m os)
    go m [] v = v
    go m (o ∷ os) v = go (observe m o) os (observe-IsValid m o v)
