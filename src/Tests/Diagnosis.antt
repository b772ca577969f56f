-- ===== src/Tests/Diagnosis.antt =====
-- Runs of src/lidar_dtc_monitor.h, src/lidar_dtc_reporting.h and src/functional_safety_heartbeat.cpp.
use livox_ros_driver.Common.{
  ℕ, ◌*◌, ◌≡◌, ◌↔◌, refl, true, false, not, ◌&&◌, ◌||◌, ◌==◌, if◌then◌else◌, some, List, [], ◌∷◌,
  arith, get_elem?,
}
use livox_ros_driver.Common.Int.{pos}
use livox_ros_driver.Monitor.Codes.{dtc_codes}
use livox_ros_driver.Monitor.State.{
  Monitor, MonitorConfig, new_monitor, usable, unusable, unknown, pass, fail,
}
use livox_ros_driver.Monitor.Observe.{
  observe_hms, observe_time_sync, observe_packet, observe_work_state, observe_cloud, observe_ptp,
  observe_bounded, is_healthy, is_bounded, clock_continuous, SyncSample,
}
use livox_ros_driver.Monitor.Evaluate.{
  evaluate, scan_of, scan_codes, scan_code, usability_of, age_us, category, packet_fresh, hms_fresh,
  healthy_ptp, state_fresh, valid_fresh,
}
use livox_ros_driver.Monitor.Alarms.{evaluate_conditions, any_alarm, fails_category}
use livox_ros_driver.Monitor.Usable.{evaluate_usable, usable_evidence, evaluate_stalled}
use livox_ros_driver.Monitor.Advisory.{evaluate_bounded_warning, Vouched}
use livox_ros_driver.Monitor.Sync.{
  frozen_sync_expires, observe, observe_all, frozen_sync, Observation, hms, time_sync, work_state,
  packet, cloud,
}
use livox_ros_driver.Monitor.Invariant.{observe_all-IsValid, IsValid}
use livox_ros_driver.Heartbeat.{
  HeartbeatPublisher, HeartbeatConfig, initial_heartbeat, new_heartbeat, update_faults,
}
use livox_ros_driver.Heartbeat.Faults.{Sorted, above, has, update_faults_lem}
use livox_ros_driver.Heartbeat.Sequence as Sequence
use livox_ros_driver.Heartbeat.Sequence.{
  HeartbeatCall, call_publish_now, call_record_work, call_update_faults, call_all, call_all-IsValid,
}
use livox_ros_driver.Reporting.{publish_diagnostic_snapshot, LidarDiagnosticState}
use livox_ros_driver.Reporting.Faults.{alarm_raises_fault}

abbrev config : MonitorConfig
config = record {
  data_timeout = 500;
  state_timeout = 2500;
  startup_grace = 8000;
  min_valid_points = 1;
  max_sync_offset_ns = 1_000_000;
}

abbrev ms : ℕ → ℕ
ms n = n * 1_000_000

-- A synchronization accuracy warning, and a status sample whose source advances.
abbrev accuracy_warning : List ℕ
accuracy_warning = 0x04060002 ∷ []

abbrev sample : ℕ → SyncSample
sample n = record { type = 1; local_time = ms n; last_sync = ms n; offset = pos 10 }

abbrev started : List Observation
started =
    time_sync (sample 1000) (ms 1000)
    ∷ time_sync (sample 2000) (ms 2000)
    ∷ time_sync (sample 3000) (ms 3000)
    ∷ hms accuracy_warning (ms 3000)
    ∷ work_state 1 (ms 3000)
    ∷ packet (ms 3000)
    ∷ cloud 7 100 (ms 3000)
    ∷ []

abbrev pub running : Monitor
running = record (new_monitor config 0) {
  hms = accuracy_warning;
  hms_time = ms 3000;
  hms_seen = true;
  hms_seq = 1;
  work_state = 1;
  state_time = ms 3000;
  state_seen = true;
  packet_time = ms 3000;
  packet_seen = true;
  valid_stamp = 7;
  valid_time = ms 3000;
  valid_seen = true;
  last_sync = ms 3000;
  sync_time = ms 3000;
  sync_seen = true;
  ptp_verified = true;
  bounded_seen = true;
  bounded_advances = 2;
  bounded_local = ms 3000;
  bounded_last_sync = ms 3000;
  bounded_offset = pos 10;
  bounded_sample_time = ms 3000;
  bounded_advance_time = ms 3000;
}

-- The observations lead to that monitor.
started-running : observe_all (new_monitor config 0) started ≡ running
unfolding observe_all observe observe_hms observe_time_sync observe_packet observe_work_state
    observe_cloud observe_ptp observe_bounded is_healthy is_bounded clock_continuous new_monitor
started-running = refl

evaluate_usable_example :
    ((evaluate running (ms 3100)).usability ≡ usable) ↔ (usable_evidence running (ms 3100) ≡ true)
evaluate_usable_example = evaluate_usable running (ms 3100)

evaluate_conditions_example :
    get_elem? (evaluate running (ms 3100)).conditions 1
    ≡ some (
        if hms_fresh running (ms 3100)
        then (if any_alarm (fails_category (healthy_ptp running (ms 3100)) 1) running.hms
            then fail
            else pass)
        else unknown)
evaluate_conditions_example = evaluate_conditions running (ms 3100) 1 (omega arith)

evaluate_stalled_example : (evaluate running (ms 3600)).usability ≡ unusable
unfolding valid_fresh new_monitor
evaluate_stalled_example = evaluate_stalled running (ms 3600) refl refl

evaluate_bounded_warning_example : Vouched running (ms 3100)
unfolding evaluate new_monitor hms_fresh scan_of scan_codes scan_code usability_of age_us category
    healthy_ptp state_fresh valid_fresh packet_fresh
evaluate_bounded_warning_example = evaluate_bounded_warning running (ms 3100) refl

abbrev frozen : List Observation
frozen =
    time_sync (sample 3000) (ms 4000) ∷ packet (ms 5000) ∷ time_sync (sample 2900) (ms 5000) ∷ []

frozen_sync_expires_example : healthy_ptp (observe_all running frozen) (ms 5600) ≡ false
unfolding frozen_sync new_monitor
frozen_sync_expires_example = frozen_sync_expires running frozen (ms 5600) refl refl (omega arith)

observe_all-IsValid_example : IsValid (observe_all (new_monitor config 0) started)
observe_all-IsValid_example = observe_all-IsValid config 0 started

abbrev heartbeat_config : HeartbeatConfig
heartbeat_config = record {
  node_id = 7;
  topic = 47 ∷ [];
  period = 100;
  qos_depth = 1;
  reliable = false;
}

abbrev heartbeat : HeartbeatPublisher
heartbeat = record (initial_heartbeat heartbeat_config 5) { active_faults = 3 ∷ 9 ∷ [] }

update_faults_lem_example :
    Sorted (update_faults heartbeat (3 ∷ 4 ∷ []) (9 ∷ 3 ∷ [])).active_faults
    × (has 3 (update_faults heartbeat (3 ∷ 4 ∷ []) (9 ∷ 3 ∷ [])).active_faults ≡ (
        (not (3 == 0) && has 3 (3 ∷ 4 ∷ [])) || (not (has 3 (9 ∷ 3 ∷ [])) && has 3 (3 ∷ 9 ∷ []))))
unfolding Sorted above
update_faults_lem_example = update_faults_lem heartbeat (3 ∷ 4 ∷ []) (9 ∷ 3 ∷ []) 3 refl

abbrev calls : List HeartbeatCall
calls = call_publish_now ∷ call_record_work ∷ call_update_faults (3 ∷ []) [] ∷ call_publish_now ∷ []

call_all-IsValid_example :
    Sequence.IsValid heartbeat_config 5 (call_all (initial_heartbeat heartbeat_config 5) calls)
unfolding new_heartbeat
call_all-IsValid_example =
    call_all-IsValid heartbeat_config 5 (initial_heartbeat heartbeat_config 5) calls refl

abbrev front_codes : List ℕ
front_codes =
    0x110476C4 ∷ 0x110476C5 ∷ 0x110476C7 ∷ 0x110476C8 ∷ 0x110476CB ∷ 0x110476CC ∷ 0x110476CD
    ∷ 0x110476CE ∷ 0x110476CF ∷ 0x110476D0 ∷ 0x110476D1 ∷ []

alarm_raises_fault_example :
    (h' : HeartbeatPublisher) × (message : LidarDiagnosticState) × (publish_diagnostic_snapshot
        heartbeat
        (evaluate running (ms 3100))
        0
        []
        1
        5
      ≡ some (h', message))
    × (has 0x110476C5 h'.active_faults ≡ true)
unfolding Sorted above dtc_codes hms_fresh healthy_ptp any_alarm category new_monitor
alarm_raises_fault_example =
    alarm_raises_fault running (ms 3100) 1 heartbeat 0 [] 1 5 front_codes 0x110476C5 (omega arith)
      refl refl refl refl refl
