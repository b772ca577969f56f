-- ===== src/Monitor/Usable.antt =====
-- src/lidar_dtc_monitor.h: when `Evaluate` calls a lidar usable.
use livox_ros_driver.Common.{
  ℕ, ◌≡◌, refl, ◌↔◌, Bool, true, false, not, ◌&&◌, ◌||◌, ◌==◌, inl, inr, Bool-cases, arith,
}
use livox_ros_driver.Monitor.State.{Monitor, pass, usable, unusable}
use livox_ros_driver.Monitor.Evaluate.{
  scan_start, scan_of, hms_fresh, healthy_ptp, evaluate, usability_of, state_fresh, packet_fresh,
  valid_fresh,
}
use livox_ros_driver.Monitor.Alarms.{any_alarm, is_fatal, scan_codes_fatal}

usability_of_usable :
    (m : Monitor) (now : ℕ) (fatal : Bool)
    → (usability_of m now fatal ≡ usable)
      ↔ (not fatal
          && valid_fresh m now
          && packet_fresh m now
          && hms_fresh m now
          && state_fresh m now
          && m.work_state == 1)
        ≡ true
unfolding usability_of
usability_of_usable m now fatal = ground arith

scan_of_fatal :
    (m : Monitor) (now : ℕ) → (scan_of m now).fatal ≡ (hms_fresh m now && any_alarm is_fatal m.hms)
unfolding scan_of
scan_of_fatal m now = elim (Bool-cases (hms_fresh m now)) [
  | inl e ↦ rw (e) (scan_codes_fatal (healthy_ptp m now) (scan_start pass) m.hms)
  | inr e ↦ rw (e) refl
]

-- The evidence that `Evaluate` asks for: the cloud, the packets, the alarms and the work state are
-- all fresh, the lidar works, and no alarm is fatal.
unfoldable pub usable_evidence : Monitor → ℕ → Bool
usable_evidence m now =
    not (any_alarm is_fatal m.hms)
    && valid_fresh m now
    && packet_fresh m now
    && hms_fresh m now
    && state_fresh m now
    && m.work_state == 1

-- `Evaluate` calls the lidar usable exactly where the last valid cloud and the last packet are at most
-- `data_timeout` old, the last alarms and the last work state at most `state_timeout` old, the work
-- state is 1, and no alarm that is set has the fatal level.
pub evaluate_usable :
    (m : Monitor) (now : ℕ) → ((evaluate m now).usability ≡ usable) ↔ (usable_evidence m now ≡ true)
unfolding evaluate usable_evidence
evaluate_usable m now =
    rw (scan_of_fatal m now)
      (ground (arith, usability_of_usable m now (hms_fresh m now && any_alarm is_fatal m.hms)))

-- `Evaluate` calls the lidar unusable whenever a fresh alarm is fatal, whatever else it saw, and
-- whenever a fresh work state is 4.
pub evaluate_fatal :
    (m : Monitor) (now : ℕ)
    → ((hms_fresh m now && any_alarm is_fatal m.hms) || (state_fresh m now && m.work_state == 4))
      ≡ true
    → (evaluate m now).usability ≡ unusable
unfolding evaluate usability_of
evaluate_fatal m now h = rw (scan_of_fatal m now, h) refl

-- A cloud was seen once and the last valid one is now too old: the lidar is unusable.
pub evaluate_stalled :
    (m : Monitor) (now : ℕ)
    → m.valid_seen ≡ true
    → valid_fresh m now ≡ false
    → (evaluate m now).usability ≡ unusable
unfolding evaluate usability_of
evaluate_stalled m now seen stale = ground (arith)
