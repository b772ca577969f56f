-- ===== src/Monitor/Advisory.antt =====
-- src/lidar_dtc_monitor.h: when `Evaluate` lets a synchronization alarm count as a bounded warning.
use livox_ros_driver.Common.{
  ℕ, ◌≡◌, ◌↔◌, refl, ◌≤◌, ◌+◌, ◌*◌, true, false, ◌&&◌, inl, inr, Bool-cases, arith,
}
use livox_ros_driver.Monitor.State.{
  Monitor, pass, Usability, unavailable_unknown, usable, unusable, ns_per_ms,
}
use livox_ros_driver.Monitor.Observe.{within}
use livox_ros_driver.Monitor.Evaluate.{
  evaluate, scan_of, scan_start, hms_fresh, healthy_ptp, is_usable,
}
use livox_ros_driver.Monitor.Alarms.{
  any_alarm, is_accuracy_warning, is_incompatible, scan_codes_bounded_warning,
  scan_codes_incompatible,
}

scan_of_bounded_warning :
    (m : Monitor) (now : ℕ)
    → (scan_of m now).bounded_warning ≡ (hms_fresh m now && any_alarm is_accuracy_warning m.hms)
unfolding scan_of
scan_of_bounded_warning m now = elim (Bool-cases (hms_fresh m now)) [
  | inl e ↦ rw (e) (scan_codes_bounded_warning (healthy_ptp m now) (scan_start pass) m.hms)
  | inr e ↦ rw (e) refl
]

scan_of_incompatible :
    (m : Monitor) (now : ℕ)
    → (scan_of m now).incompatible_sync_alarm ≡ (hms_fresh m now && any_alarm is_incompatible m.hms)
unfolding scan_of
scan_of_incompatible m now = elim (Bool-cases (hms_fresh m now)) [
  | inl e ↦ rw (e) (scan_codes_incompatible (healthy_ptp m now) (scan_start pass) m.hms)
  | inr e ↦ rw (e) refl
]

is_usable_iff : (u : Usability) → (is_usable u ≡ true) ↔ (u ≡ usable)
is_usable_iff unavailable_unknown = ground arith
is_usable_iff usable = ground arith
is_usable_iff unusable = ground arith

-- What a bounded warning vouches for.
pub record Vouched (m : Monitor) (now : ℕ) : Type 0 where
  pub usable : (evaluate m now).usability ≡ usable
  pub accuracy : any_alarm is_accuracy_warning m.hms ≡ true
  pub compatible : any_alarm is_incompatible m.hms ≡ false
  pub advances : 2 ≤ m.bounded_advances
  pub recent : now ≤ m.bounded_advance_time + m.config.state_timeout * ns_per_ms
  pub offset : within 1_000_000 m.bounded_offset ≡ true

-- `Evaluate` reports a bounded synchronization warning only where the lidar is usable, an accuracy
-- warning is set, every alarm that is set is known and none of synchronization is other than an
-- accuracy or GPS warning, the source has advanced twice, the last time within `state_timeout`, and the
-- last offset lies within 1 ms.
pub evaluate_bounded_warning :
    (m : Monitor) (now : ℕ) → (evaluate m now).bounded_time_sync_warning ≡ true → Vouched m now
unfolding evaluate
evaluate_bounded_warning m now =
    rw (scan_of_bounded_warning m now, scan_of_incompatible m now)
      (λ h. record {
        usable = (is_usable_iff (evaluate m now).usability).0 (ground arith);
        accuracy = ground arith;
        compatible = ground arith;
        advances = ground arith;
        recent = ground arith;
        offset = ground arith;
      })
