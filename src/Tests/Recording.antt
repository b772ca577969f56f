-- ===== src/Tests/Recording.antt =====
-- Runs of src/lidar_state_recorder.cpp: a queue of two rows whose head has moved.
use livox_ros_driver.Common.{◌≡◌, true, false, some, [], ◌∷◌, ◌++◌, arith}
use livox_ros_driver.Common.Int.{pos}
use livox_ros_driver.RecordQueue.{
  RecordQueue, StateRecord, StateFields, query, success, store_record, push_record, stamp_record,
}
use livox_ros_driver.RecordQueue.Window.{contents, store_record_appends}
use livox_ros_driver.RecordQueue.Account.{Outcome, push_record-Outcome}

abbrev fields : StateFields
fields = record {
  status = [];
  hms = [];
  work_state = 1;
  sync_type = 1;
  local_time = 0;
  last_sync = 0;
  time_offset = pos 0;
  core_temp = pos 40;
  powerup_count = 1;
  serial = [];
  app_version = [];
  loader_version = [];
  hardware_version = [];
}

abbrev pub row : StateRecord
row = record {
  source = query;
  result = success;
  fields = fields;
  sdk_status = pos 0;
  ret_code = pos 0;
  has_sdk_status = false;
  has_ret_code = false;
  detail = [];
  wall_ns = 5;
  steady_ns = 5;
  seq = 3;
}

abbrev pub queue : RecordQueue
queue = record {
  rows = record row { seq = 2 } ∷ row ∷ [];
  head = 1;
  size = 1;
  sequence = 3;
  dropped = 0;
  suppressed = 0;
  has_push = false;
  closed = false;
  last_push = fields;
  last_push_result = success;
  last_push_ns = 0;
}

store_record_appends_example :
    contents (store_record queue row) ≡ contents queue ++ some (record row { seq = 4 }) ∷ []
store_record_appends_example = store_record_appends queue row (omega arith)

push_record-Outcome_example :
    Outcome queue true (stamp_record row 6 6) true (push_record queue true 6 6 row true)
push_record-Outcome_example = push_record-Outcome queue true 6 6 row true
