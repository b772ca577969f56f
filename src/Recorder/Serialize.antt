-- ===== src/Recorder/Serialize.antt =====
-- src/lidar_state_recorder.cpp: `Serialize`, as the calls of the JSON writer that it makes, in
-- their order. What the writer makes of them is a parameter.
use livox_ros_driver.Common.{ℕ, ◌||◌, List, [], ◌∷◌, ◌++◌, map, ◌==◌, if◌then◌else◌}
use livox_ros_driver.Common.Int.{ℤ, pos}
use livox_ros_driver.Common.Eq.{codes}
use livox_ros_driver.RecordQueue.{
  Source, QueryResult, StateFields, StateRecord, startup, state_push, query, shutdown, error,
  not_applicable, success, submit_failed, timeout, sdk_error, invalid_response, pending,
}
use livox_ros_driver.Recorder.{Recorder}
use livox_ros_driver.Recorder.Fields.{
  FieldId, hms, work_state, sync_type, local_time, last_sync, time_offset, core_temp, powerup_count,
  serial, app_version, loader_version, hardware_version, voltage, uptime, field_name, parsed_fields,
  status_at,
}

pub data JsonEvent : Type 0 where
  start_object end_object start_array end_array null : JsonEvent
  key : List ℕ → JsonEvent
  text : List ℕ → JsonEvent
  number : ℤ → JsonEvent

-- A text up to its first 0, as `c_str()` hands it on.
unfoldable pub c_string : List ℕ → List ℕ
c_string [] = []
c_string (c ∷ cs) = if c == 0 then [] else c ∷ c_string cs

-- `kSources`, `kResults` and `kStatuses`.
abbrev source_name : Source → List ℕ
source_name startup = codes "startup"
source_name state_push = codes "state_push"
source_name query = codes "query"
source_name shutdown = codes "shutdown"
source_name error = codes "error"

abbrev result_name : QueryResult → List ℕ
result_name not_applicable = codes "not_applicable"
result_name success = codes "success"
result_name submit_failed = codes "submit_failed"
result_name timeout = codes "timeout"
result_name sdk_error = codes "sdk_error"
result_name invalid_response = codes "invalid_response"
result_name pending = codes "pending"

abbrev status_name : ℕ → List ℕ
status_name status =
    if status == 0
    then codes "missing"
    else if status == 1
    then codes "valid"
    else if status == 2
    then codes "invalid"
    else if status == 3
    then codes "not_available"
    else codes "no_response_length"

abbrev pub all_fields : List FieldId
all_fields = parsed_fields ++ voltage ∷ uptime ∷ []

abbrev numbers : List ℕ → List JsonEvent
numbers ns = start_array ∷ map (λ n. number (pos n)) ns ++ end_array ∷ []

-- The `switch` on a field that is valid.
unfoldable pub value_events : StateFields → FieldId → List JsonEvent
value_events s hms = numbers s.hms
value_events s work_state = number (pos s.work_state) ∷ []
value_events s sync_type = number (pos s.sync_type) ∷ []
value_events s local_time = number (pos s.local_time) ∷ []
value_events s last_sync = number (pos s.last_sync) ∷ []
value_events s time_offset = number s.time_offset ∷ []
value_events s core_temp = number s.core_temp ∷ []
value_events s powerup_count = number (pos s.powerup_count) ∷ []
value_events s serial = text (c_string s.serial) ∷ []
value_events s app_version = numbers s.app_version
value_events s loader_version = numbers s.loader_version
value_events s hardware_version = numbers s.hardware_version
value_events s voltage = null ∷ []
value_events s uptime = null ∷ []

abbrev field_events : StateFields → FieldId → List JsonEvent
field_events s field =
    key (field_name field) ∷ (if status_at s field == 1 then value_events s field else null ∷ [])

abbrev status_events : StateFields → FieldId → List JsonEvent
status_events s field = key (field_name field) ∷ text (status_name (status_at s field)) ∷ []

abbrev source_events : StateRecord → FieldId → List JsonEvent
source_events row field =
    key (field_name field)
    ∷ text (
        if status_at row.fields field == 1 || status_at row.fields field == 2
        then source_name row.source
        else codes "unavailable")
    ∷ []

-- One of the three loops over the fields.
unfoldable pub each_field : (FieldId → List JsonEvent) → List FieldId → List JsonEvent
each_field events [] = []
each_field events (field ∷ fields) = events field ++ each_field events fields

abbrev entry : List ℕ → JsonEvent → List JsonEvent
entry name value = key name ∷ value ∷ []

-- The entries before the fields.
unfoldable pub head_events : Recorder → StateRecord → List JsonEvent
head_events r row =
    entry (codes "schema") (number (pos 1))
    ++ entry (codes "kind") (text (codes "livox_raw_state"))
    ++ entry (codes "wall_ns") (number (pos row.wall_ns))
    ++ entry (codes "steady_ns") (number (pos row.steady_ns))
    ++ entry (codes "seq") (number (pos row.seq))
    ++ entry (codes "pid") (number (pos r.pid))
    ++ entry (codes "session") (text (c_string r.session))
    ++ entry (codes "role") (text (c_string r.options.role))
    ++ entry (codes "handle") (number (pos r.options.handle))
    ++ entry (codes "ip") (text (c_string r.options.ip))
    ++ entry (codes "source") (text (source_name row.source))
    ++ entry (codes "query_result") (text (result_name row.result))
    ++ entry (codes "sdk_status") (if row.has_sdk_status then number row.sdk_status else null)
    ++ entry (codes "ret_code") (if row.has_ret_code then number row.ret_code else null)
    ++ entry (codes "detail") (text (c_string row.detail))

unfoldable pub serialize_events : Recorder → StateRecord → List JsonEvent
serialize_events r row =
    start_object ∷ head_events r row
    ++ key (codes "fields") ∷ start_object ∷ each_field (field_events row.fields) all_fields
    ++ end_object
      ∷ key (codes "field_status")
      ∷ start_object
      ∷ each_field (status_events row.fields) all_fields
    ++ end_object
      ∷ key (codes "field_sources")
      ∷ start_object
      ∷ each_field (source_events row) all_fields
    ++ end_object ∷ entry (codes "core_temp_unit") (text (codes "sdk_raw_unit_unspecified"))
    ++ entry (codes "dropped_total") (number (pos r.queue.dropped))
    ++ entry (codes "write_errors_total") (number (pos r.write_errors))
    ++ entry (codes "suppressed_push_total") (number (pos r.queue.suppressed))
    ++ entry (codes "writer_scheduling") (text (c_string r.scheduling))
    ++ end_object ∷ []

-- The line of a row, for a writer that makes `render events` of its calls.
unfoldable pub serialize : (List JsonEvent → List ℕ) → Recorder → StateRecord → List ℕ
serialize render r row = render (serialize_events r row) ++ codes "\n"
