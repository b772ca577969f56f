-- ===== src/Recorder/Fields.antt =====
-- src/lidar_state_recorder.h and src/lidar_state_recorder.cpp: the fields of a lidar state with their
-- statuses, and the constructors of `Snapshot` and `Record`.
use livox_ros_driver.Common.{ℕ, false, List, [], ◌∷◌, get_or, set, replicate}
use livox_ros_driver.Common.Eq.{codes}
use livox_ros_driver.Common.Int.{pos}
use livox_ros_driver.RecordQueue.{StateFields, StateRecord, query, not_applicable}

pub data FieldId : Type 0 where
  hms work_state sync_type local_time last_sync time_offset core_temp powerup_count serial
        app_version loader_version hardware_version voltage uptime :
      FieldId

pub data FieldStatus : Type 0 where
  missing valid invalid not_available no_response_length : FieldStatus

abbrev pub field_code : FieldId → ℕ
field_code hms = 0
field_code work_state = 1
field_code sync_type = 2
field_code local_time = 3
field_code last_sync = 4
field_code time_offset = 5
field_code core_temp = 6
field_code powerup_count = 7
field_code serial = 8
field_code app_version = 9
field_code loader_version = 10
field_code hardware_version = 11
field_code voltage = 12
field_code uptime = 13

abbrev pub status_code : FieldStatus → ℕ
status_code missing = 0
status_code valid = 1
status_code invalid = 2
status_code not_available = 3
status_code no_response_length = 4

-- `kFields`.
unfoldable pub field_name : FieldId → List ℕ
field_name hms = codes "hms_code"
field_name work_state = codes "cur_work_state"
field_name sync_type = codes "time_sync_type"
field_name local_time = codes "local_time_now"
field_name last_sync = codes "last_sync_time"
field_name time_offset = codes "time_offset"
field_name core_temp = codes "core_temp"
field_name powerup_count = codes "powerup_cnt"
field_name serial = codes "sn"
field_name app_version = codes "version_app"
field_name loader_version = codes "version_loader"
field_name hardware_version = codes "version_hardware"
field_name voltage = codes "voltage"
field_name uptime = codes "uptime"

-- The fields below `Voltage`, in the order of their numbers.
abbrev pub parsed_fields : List FieldId
parsed_fields =
    hms ∷ work_state ∷ sync_type ∷ local_time ∷ last_sync ∷ time_offset ∷ core_temp ∷ powerup_count
    ∷ serial ∷ app_version ∷ loader_version ∷ hardware_version ∷ []

-- `status[field] = s`, and the number of the status of a field.
abbrev pub set_status : StateFields → FieldId → FieldStatus → StateFields
set_status fields field s = record fields {
  status = set fields.status (field_code field) (status_code s);
}

abbrev pub status_at : StateFields → FieldId → ℕ
status_at fields field = get_or fields.status (field_code field) 0

-- `Snapshot()`.
unfoldable pub new_fields : StateFields
new_fields = record {
  status = set (set (replicate 14 0) 12 3) 13 3;
  hms = replicate 8 0;
  work_state = 0;
  sync_type = 0;
  local_time = 0;
  last_sync = 0;
  time_offset = pos 0;
  core_temp = pos 0;
  powerup_count = 0;
  serial = replicate 17 0;
  app_version = replicate 4 0;
  loader_version = replicate 4 0;
  hardware_version = replicate 4 0;
}

-- `Snapshot::QueryFields`: the fields 6 to 11 have no response length.
unfoldable pub query_fields : StateFields
unfolding new_fields
query_fields = record new_fields {
  status = set (set (set (set (set (set new_fields.status 6 4) 7 4) 8 4) 9 4) 10 4) 11 4;
}

-- A `Record` as declared.
unfoldable pub new_record : StateRecord
unfolding new_fields
new_record = record {
  source = query;
  result = not_applicable;
  fields = new_fields;
  sdk_status = pos 0;
  ret_code = pos 0;
  has_sdk_status = false;
  has_ret_code = false;
  detail = replicate 96 0;
  wall_ns = 0;
  steady_ns = 0;
  seq = 0;
}
