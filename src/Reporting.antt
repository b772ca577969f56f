-- ===== src/Reporting.antt =====
-- src/lidar_dtc_reporting.h: the report of a snapshot of the monitor. `source_id` and `boot_id` of the
-- message are the heartbeat's; `stamp_us` is the system clock, an argument here.
pub mod Faults
use livox_ros_driver.Common.{
  ℕ, zero, suc, ◌+◌, ◌-◌, Bool, true, false, List, [], ◌∷◌, ◌++◌, ltb, leb, if◌then◌else◌, Option,
  none, some,
}
use livox_ros_driver.Common.Int.{ℤ}
use livox_ros_driver.Heartbeat.{HeartbeatPublisher, update_faults}
use livox_ros_driver.Monitor.Codes.{dtc_codes}
use livox_ros_driver.Monitor.State.{Condition, unknown, pass, fail, Usability, categories}
use livox_ros_driver.Monitor.Evaluate.{Snapshot}

pub record DtcObservation : Type 0 where
  pub dtc : ℕ
  pub physical_condition : Condition
  pub evaluation_seq : ℕ
  pub evaluation_age_us : ℕ

pub record LidarDiagnosticState : Type 0 where
  pub role : ℕ
  pub source_id : ℕ
  pub seq : ℕ
  pub stamp_us : ℕ
  pub boot_id : ℕ
  pub config_version : List ℕ
  pub usability : Usability
  pub bounded_time_sync_warning : Bool
  pub time_sync_offset_ns : ℤ
  pub time_sync_evidence_age_us : ℕ
  pub observations : List DtcObservation

-- What the loop over the categories has pushed.
pub record Batch : Type 0 where
  pub observations : List DtcObservation
  pub failed : List ℕ
  pub passed : List ℕ

abbrev pub is_fail : Condition → Bool
is_fail unknown = false
is_fail pass = false
is_fail fail = true

abbrev pub is_pass : Condition → Bool
is_pass unknown = false
is_pass pass = true
is_pass fail = false

-- The categories from `i` on, with their codes and conditions; the last two are history.
unfoldable pub report_from : ℕ → Snapshot → List ℕ → List Condition → Batch
report_from i state (code ∷ codes) (c ∷ conditions) =
    let rest = report_from (i + 1) state codes conditions in
    record {
      observations =
          record {
            dtc = code;
            physical_condition = c;
            evaluation_seq = state.hms_seq;
            evaluation_age_us = state.hms_age_us;
          }
          ∷ rest.observations;
      failed =
          (if leb (categories - 2) i
            then rest.failed
            else if is_fail c
            then code ∷ rest.failed
            else rest.failed);
      passed =
          (if leb (categories - 2) i
            then rest.passed
            else if is_pass c
            then code ∷ rest.passed
            else rest.passed);
    }
report_from i state [] conditions = record { observations = []; failed = []; passed = [] }
report_from i state (code ∷ codes) [] = record { observations = []; failed = []; passed = [] }

abbrev pub diagnostic_message :
    HeartbeatPublisher → Snapshot → ℕ → List ℕ → ℕ → ℕ → List DtcObservation → LidarDiagnosticState
diagnostic_message heartbeat state role version sequence stamp_us observations = record {
  role = role;
  source_id = heartbeat.config.node_id;
  seq = sequence;
  stamp_us = stamp_us;
  boot_id = heartbeat.boot_id;
  config_version = version;
  usability = state.usability;
  bounded_time_sync_warning = state.bounded_time_sync_warning;
  time_sync_offset_ns = state.time_sync_offset_ns;
  time_sync_evidence_age_us = state.time_sync_evidence_age_us;
  observations = observations;
}

-- The heartbeat afterwards and the message published; `none` where the role is not one of the four.
unfoldable pub publish_diagnostic_snapshot :
    HeartbeatPublisher
    → Snapshot
    → ℕ
    → List ℕ
    → ℕ
    → ℕ
    → Option (HeartbeatPublisher × LidarDiagnosticState)
publish_diagnostic_snapshot heartbeat state role version sequence stamp_us = elim (dtc_codes role) [
  | none ↦ none
  | some codes ↦
      let batch = report_from 0 state codes state.conditions in
      some (
        update_faults heartbeat batch.failed batch.passed,
        diagnostic_message heartbeat state role version sequence stamp_us batch.observations,
      )
]
