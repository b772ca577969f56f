-- ===== src/LdsLidar/Diagnose.antt =====
-- src/lds_lidar.h and src/lds_lidar.cpp: the query of the diagnosis of `LdsLidar` and the
-- callback with its answer, which feeds the monitor and the recorder. The clock that an
-- observation reads is an argument; `this` is the context that is registered with the callbacks.
use livox_ros_driver.Common.{
  ℕ, Bool, true, false, not, ◌&&◌, ◌||◌, List, Option, none, some, ltb, ◌==◌, if◌then◌else◌,
}
use livox_ros_driver.Common.Int.{ℤ, pos}
use livox_ros_driver.Common.Memory.{Result, ok, ◌>>=◌}
use livox_ros_driver.Monitor.State.{Monitor}
use livox_ros_driver.Monitor.Observe.{observe_hms, observe_work_state, observe_time_sync}
use livox_ros_driver.RecordQueue.{
  StateRecord, success, submit_failed, timeout, sdk_error, invalid_response, pending, same_int,
}
use livox_ros_driver.Recorder.{Recorder, Moment, record_observation}
use livox_ros_driver.Recorder.Fields.{
  hms, work_state, sync_type, local_time, last_sync, time_offset, valid, set_status, query_fields,
  new_record,
}
use livox_ros_driver.LdsLidar.Answer.{
  StateKeys, DiagAnswer, Walk, WalkEnd, cut, whole, walk_params, new_walk, max_params,
}

-- The members of `LdsLidar` for the diagnosis. The pointers are null where they are `none`.
pub record Diagnostics : Type 0 where
  pub monitor : Option Monitor
  pub role : List ℕ
  pub recorder : Option Recorder
  pub handle : ℕ
  pub query_pending : Bool
  pub observer_id : ℕ

-- The numbers of the SDK for a request that succeeded and one without an answer.
pub record StatusNumbers : Type 0 where
  pub success : ℤ
  pub timeout : ℤ

-- `if (diagnostic_recorder_) diagnostic_recorder_->RecordObservation(record)`.
unfoldable pub emit : Option Recorder → Moment → StateRecord → Option Recorder
emit none now row = none
emit (some r) now row = some (record_observation r now row).1

-- The three observations that a complete walk makes, in their order.
unfoldable pub observe_walk : Monitor → Walk → ℕ → Monitor
observe_walk m w now =
    let synced =
      if w.sync_type_seen && w.local_seen && w.last_seen && w.offset_seen
      then observe_time_sync m
          (record { type = w.sync; local_time = w.local; last_sync = w.last; offset = w.offset })
          now
      else m in
    let worked = if w.work_seen then observe_work_state synced w.state now else synced in
    if w.hms_seen then observe_hms worked w.hms_codes now else worked

-- The row of a complete walk.
unfoldable pub success_row : StateRecord → Walk → StateRecord
success_row row w =
    let f0 = w.fields in
    let f1 = if w.hms_seen then set_status (record f0 { hms = w.hms_codes }) hms valid else f0 in
    let f2 =
      if w.work_seen
      then set_status (record f1 { work_state = w.state }) work_state valid
      else f1 in
    let f3 =
      if w.sync_type_seen
      then set_status (record f2 { sync_type = w.sync }) sync_type valid
      else f2 in
    let f4 =
      if w.local_seen
      then set_status (record f3 { local_time = w.local }) local_time valid
      else f3 in
    let f5 =
      if w.last_seen then set_status (record f4 { last_sync = w.last }) last_sync valid else f4 in
    let f6 =
      if w.offset_seen
      then set_status (record f5 { time_offset = w.offset }) time_offset valid
      else f5 in
    record row { result = success; fields = f6 }

abbrev pub end_walk : Monitor → StateRecord → ℕ → WalkEnd → Monitor × StateRecord
end_walk m row now (cut w) = (m, record row { fields = w.fields })
end_walk m row now (whole w) = (observe_walk m w now, success_row row w)

-- The rest of the callback on an answer, behind `row.ret_code = response->ret_code`.
unfoldable pub walk_answer :
    StateKeys → Monitor → ℕ → StateRecord → DiagAnswer → Result (Monitor × StateRecord)
walk_answer keys m now row answer =
    if not (answer.ret_code == 0)
    then ok (m, record row { result = sdk_error })
    else if ltb max_params answer.param_num
    then ok (m, row)
    else (walk_params keys answer.content answer.param_num 0 (new_walk row.fields) >>= λ reached.
        ok (end_walk m row now reached))

abbrev pub coded_row : StateRecord → DiagAnswer → StateRecord
coded_row row answer = record row {
  ret_code = pos answer.ret_code;
  has_ret_code = true;
  result = invalid_response;
}

abbrev pub read_response :
    StateKeys → Monitor → ℕ → StateRecord → Option DiagAnswer → Result (Monitor × StateRecord)
read_response keys m now row none = ok (m, record row { result = invalid_response })
read_response keys m now row (some answer) = walk_answer keys m now (coded_row row answer) answer

unfoldable pub base_row : StatusNumbers → ℤ → StateRecord
unfolding new_record
base_row sdk status = record new_record {
  fields = query_fields;
  sdk_status = status;
  has_sdk_status = true;
  result = (if same_int status sdk.timeout then timeout else sdk_error);
}

-- The callback behind its tests of the monitor and the handle: the monitor and the row to record.
unfoldable pub answer_row :
    StatusNumbers → StateKeys → Monitor → ℕ → ℤ → Option DiagAnswer → Result (Monitor × StateRecord)
answer_row sdk keys m now status response =
    if not (same_int status sdk.success)
    then ok (m, base_row sdk status)
    else read_response keys m now (base_row sdk status) response

unfoldable pub diagnostic_query_callback :
    StatusNumbers
    → StateKeys
    → Diagnostics
    → Moment
    → ℕ
    → ℤ
    → ℕ
    → Option DiagAnswer
    → Result Diagnostics
diagnostic_query_callback sdk keys d moment now status handle response =
    let cleared = record d { query_pending = false } in
    elim d.monitor [
      | none ↦ ok cleared
      | some m ↦
          if not (handle == d.handle)
          then ok cleared
          else (answer_row sdk keys m now status response >>= λ (m', row).
              ok (record cleared { monitor = some m'; recorder = emit d.recorder moment row }))
    ]

abbrev pub has_monitor : Option Monitor → Bool
has_monitor none = false
has_monitor (some m) = true

-- `status` is what the SDK answers to the request, which is made where the result says so.
unfoldable pub query_diagnostic_status :
    StatusNumbers → Diagnostics → Bool → Moment → ℤ → Bool × Diagnostics
unfolding new_record
query_diagnostic_status sdk d is_initialized moment status =
    let row : StateRecord = record new_record { fields = query_fields } in
    if not (has_monitor d.monitor) || d.handle == 0 || not is_initialized
    then (false, d)
    else if d.query_pending
    then (false, record d { recorder = emit d.recorder moment (record row { result = pending }) })
    else if not (same_int status sdk.success)
    then (
      true,
      record d {
        query_pending = false;
        recorder =
            emit d.recorder moment
              (record row { result = submit_failed; sdk_status = status; has_sdk_status = true });
      },
    )
    else (true, record d { query_pending = true })
