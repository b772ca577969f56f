-- ===== src/Monitor/Evaluate.antt =====
-- src/lidar_dtc_monitor.h: `Category`, `AgeUs` and `Evaluate`.
use livox_ros_driver.Common.{
  ℕ, ◌+◌, ◌-◌, ◌*◌, ◌/◌, ◌%◌, ◌^◌, Bool, true, false, not, ◌&&◌, ◌||◌, Option, none, some, List, [],
  ◌∷◌, ltb, leb, ◌==◌, if◌then◌else◌, set, replicate,
}
use livox_ros_driver.Common.Int.{ℤ}
use livox_ros_driver.Monitor.State.{
  Monitor, Condition, unknown, pass, fail, Usability, unavailable_unknown, usable, unusable,
  categories, max_u64, ns_per_ms,
}
use livox_ros_driver.Monitor.Observe.{within}

-- `Category`: -1 is `none`.
unfoldable pub category : ℕ → Option ℕ
category id =
    if id == 0x0104 || id == 0x0304
    then some 0
    else if id == 0x0402 || id == 0x0403 || id == 0x0404 || (leb 0x0406 id && leb id 0x040A)
    then some 1
    else if (leb 0x0210 id && leb id 0x0219) || id == 0x021C
    then some 2
    else if id == 0x0102
        || id == 0x0103
        || id == 0x0111
        || id == 0x0112
        || id == 0x0114
        || id == 0x0115
    then some 3
    else if id == 0x0116
    then some 4
    else if id == 0x0105
    then some 5
    else if id == 0x0113
    then some 6
    else if id == 0x0117
    then some 7
    else if id == 0x0118
    then some 8
    else if id == 0x0401
    then some 9
    else if id == 0x0405
    then some 10
    else none

-- Microseconds since `then`, which is the largest `uint64_t` where nothing was seen.
unfoldable pub age_us : ℕ → ℕ → Bool → ℕ
age_us now since seen = if seen then (now - since) / 1000 else max_u64

pub record Snapshot : Type 0 where
  pub conditions : List Condition
  pub hms_seq : ℕ
  pub hms_age_us : ℕ
  pub usability : Usability
  pub bounded_time_sync_warning : Bool
  pub time_sync_offset_ns : ℤ
  pub time_sync_evidence_age_us : ℕ

-- What the loop over the alarm codes of `Evaluate` accumulates.
pub record Scan : Type 0 where
  pub conditions : List Condition
  pub fatal : Bool
  pub bounded_warning : Bool
  pub incompatible_sync_alarm : Bool

abbrev pub code_id : ℕ → ℕ
code_id code = code / 2 ^ 16 % 2 ^ 16

abbrev pub code_level : ℕ → ℕ
code_level code = code % 256

abbrev pub in_category : Option ℕ → ℕ → Bool
in_category none c = false
in_category (some d) c = d == c

abbrev pub is_known : Option ℕ → Bool
is_known none = false
is_known (some c) = true

-- GPS and PPS warnings, which verified PTP excuses.
abbrev pub is_gps_only : ℕ → Bool
is_gps_only id = id == 0x0404 || (leb 0x0407 id && leb id 0x0409)

abbrev pub mark_failed : List Condition → Option ℕ → List Condition
mark_failed conditions none = conditions
mark_failed conditions (some c) = set conditions c fail

-- One round of the loop.
unfoldable pub scan_code : Bool → Scan → ℕ → Scan
scan_code healthy_ptp s code =
    let id = code_id code in
    let level = code_level code in
    let cat = category id in
    if code == 0 then s else record {
      conditions =
          (if healthy_ptp && level == 2 && is_gps_only id
            then s.conditions
            else mark_failed s.conditions cat);
      fatal = s.fatal || level == 4;
      bounded_warning = s.bounded_warning || (in_category cat 1 && id == 0x0406 && level == 2);
      incompatible_sync_alarm =
          s.incompatible_sync_alarm
          || not (is_known cat)
          || (in_category cat 1 && (not (level == 2) || not (id == 0x0406 || is_gps_only id)));
    }

unfoldable pub scan_codes : Bool → Scan → List ℕ → Scan
scan_codes healthy_ptp s [] = s
scan_codes healthy_ptp s (code ∷ codes) =
    scan_codes healthy_ptp (scan_code healthy_ptp s code) codes

abbrev pub scan_start : Condition → Scan
scan_start c = record {
  conditions = replicate categories c;
  fatal = false;
  bounded_warning = false;
  incompatible_sync_alarm = false;
}

-- A time that was seen and lies at most `timeout` milliseconds back.
abbrev pub is_fresh : Bool → ℕ → ℕ → ℕ → Bool
is_fresh seen now since timeout = seen && leb now (since + timeout * ns_per_ms)

unfoldable pub hms_fresh : Monitor → ℕ → Bool
hms_fresh m now = is_fresh m.hms_seen now m.hms_time m.config.state_timeout

unfoldable pub state_fresh : Monitor → ℕ → Bool
state_fresh m now = is_fresh m.state_seen now m.state_time m.config.state_timeout

unfoldable pub valid_fresh : Monitor → ℕ → Bool
valid_fresh m now = is_fresh m.valid_seen now m.valid_time m.config.data_timeout

unfoldable pub packet_fresh : Monitor → ℕ → Bool
packet_fresh m now = is_fresh m.packet_seen now m.packet_time m.config.data_timeout

unfoldable pub healthy_ptp : Monitor → ℕ → Bool
healthy_ptp m now = m.ptp_verified && is_fresh m.sync_seen now m.sync_time m.config.state_timeout

unfoldable pub in_grace : Monitor → ℕ → Bool
in_grace m now = ltb now (m.start + m.config.startup_grace * ns_per_ms)

unfoldable pub scan_of : Monitor → ℕ → Scan
scan_of m now =
    if hms_fresh m now
    then scan_codes (healthy_ptp m now) (scan_start pass) m.hms
    else scan_start unknown

unfoldable pub usability_of : Monitor → ℕ → Bool → Usability
usability_of m now fatal =
    if fatal || (state_fresh m now && m.work_state == 4)
    then unusable
    else if (not (valid_fresh m now) || not (packet_fresh m now))
        && (m.valid_seen || not (in_grace m now))
    then unusable
    else if valid_fresh m now
        && packet_fresh m now
        && hms_fresh m now
        && state_fresh m now
        && m.work_state == 1
    then usable
    else if state_fresh m now && not (m.work_state == 1) && not (in_grace m now)
    then unusable
    else unavailable_unknown

abbrev pub is_usable : Usability → Bool
is_usable unavailable_unknown = false
is_usable usable = true
is_usable unusable = false

unfoldable pub evaluate : Monitor → ℕ → Snapshot
evaluate m now =
    let scan = scan_of m now in
    let u = usability_of m now scan.fatal in
    let evidence_age = age_us now m.bounded_advance_time (leb 2 m.bounded_advances) in
    record {
      conditions = scan.conditions;
      hms_seq = m.hms_seq;
      hms_age_us = age_us now m.hms_time m.hms_seen;
      usability = u;
      bounded_time_sync_warning =
          hms_fresh m now
          && scan.bounded_warning
          && not scan.incompatible_sync_alarm
          && is_usable u
          && leb 2 m.bounded_advances
          && leb evidence_age 2_500_000
          && leb now (m.bounded_advance_time + m.config.state_timeout * ns_per_ms)
          && within 1_000_000 m.bounded_offset;
      time_sync_offset_ns = m.bounded_offset;
      time_sync_evidence_age_us = evidence_age;
    }
