-- ===== src/Monitor/State.antt =====
-- src/lidar_dtc_monitor.h: the enumerations, `MonitorConfig`, the fields of `Monitor` and its
-- constructor. A `time_point` is its count of nanoseconds.
use livox_ros_driver.Common.{ℕ, zero, suc, ◌+◌, ◌-◌, ◌^◌, Bool, false, List, leb, replicate}
use livox_ros_driver.Common.Int.{ℤ, pos, negsuc, pos_part, neg_part}

pub data Condition : Type 0 where
  unknown pass fail : Condition

pub data Usability : Type 0 where
  unavailable_unknown usable unusable : Usability

abbrev pub categories : ℕ
categories = 11

abbrev pub ns_per_ms : ℕ
ns_per_ms = 1_000_000

abbrev pub max_u64 : ℕ
max_u64 = 2 ^ 64 - 1

-- `a <= b` on signed integers.
abbrev pub leb_ℤ : ℤ → ℤ → Bool
leb_ℤ a b = leb (pos_part a + neg_part b) (pos_part b + neg_part a)

abbrev pub neg_ℕ : ℕ → ℤ
neg_ℕ zero = pos 0
neg_ℕ (suc n) = negsuc n

-- Timeouts in milliseconds.
pub record MonitorConfig : Type 0 where
  pub data_timeout : ℕ
  pub state_timeout : ℕ
  pub startup_grace : ℕ
  pub min_valid_points : ℕ
  pub max_sync_offset_ns : ℕ

pub record Monitor : Type 0 where
  pub config : MonitorConfig
  pub start : ℕ
  pub hms : List ℕ
  pub hms_time : ℕ
  pub hms_seen : Bool
  pub hms_seq : ℕ
  pub work_state : ℕ
  pub state_time : ℕ
  pub state_seen : Bool
  pub packet_time : ℕ
  pub packet_seen : Bool
  pub valid_stamp : ℕ
  pub valid_time : ℕ
  pub valid_seen : Bool
  pub last_sync : ℕ
  pub sync_time : ℕ
  pub sync_seen : Bool
  pub ptp_verified : Bool
  pub bounded_seen : Bool
  pub bounded_advances : ℕ
  pub bounded_local : ℕ
  pub bounded_last_sync : ℕ
  pub bounded_offset : ℤ
  pub bounded_sample_time : ℕ
  pub bounded_advance_time : ℕ

unfoldable pub new_monitor : MonitorConfig → ℕ → Monitor
new_monitor config start = record {
  config = config;
  start = start;
  hms = replicate 8 0;
  hms_time = 0;
  hms_seen = false;
  hms_seq = 0;
  work_state = 0;
  state_time = 0;
  state_seen = false;
  packet_time = 0;
  packet_seen = false;
  valid_stamp = 0;
  valid_time = 0;
  valid_seen = false;
  last_sync = 0;
  sync_time = 0;
  sync_seen = false;
  ptp_verified = false;
  bounded_seen = false;
  bounded_advances = 0;
  bounded_local = 0;
  bounded_last_sync = 0;
  bounded_offset = pos 0;
  bounded_sample_time = 0;
  bounded_advance_time = 0;
}
