-- ===== src/RecordQueue.antt =====
-- src/lidar_state_recorder.h and src/lidar_state_recorder.cpp: the queue between the callbacks of the
-- SDK and the thread that writes the records. Times are nanoseconds from 0 on. `Push` takes whether
-- `try_to_lock` got the mutex, and the two clocks.
pub mod Window
pub mod Account
use livox_ros_driver.Common.{
  ℕ, zero, suc, ◌+◌, ◌-◌, ◌%◌, Bool, true, false, not, ◌&&◌, ◌||◌, List, [], ◌∷◌, Option, none,
  some, ltb, ◌==◌, if◌then◌else◌, length, get_elem?, set, replicate,
}
use livox_ros_driver.Common.Int.{ℤ, pos, pos_part, neg_part}
use livox_ros_driver.Common.Eq.{bytes_eq}
use livox_ros_driver.Comm.{add64}

pub data Source : Type 0 where
  startup state_push query shutdown error : Source

pub data QueryResult : Type 0 where
  not_applicable success submit_failed timeout sdk_error invalid_response pending : QueryResult

-- The status of a field is the number of its enumerator.
pub record StateFields : Type 0 where
  pub status : List ℕ
  pub hms : List ℕ
  pub work_state : ℕ
  pub sync_type : ℕ
  pub local_time : ℕ
  pub last_sync : ℕ
  pub time_offset : ℤ
  pub core_temp : ℤ
  pub powerup_count : ℕ
  pub serial : List ℕ
  pub app_version : List ℕ
  pub loader_version : List ℕ
  pub hardware_version : List ℕ

pub record StateRecord : Type 0 where
  pub source : Source
  pub result : QueryResult
  pub fields : StateFields
  pub sdk_status : ℤ
  pub ret_code : ℤ
  pub has_sdk_status : Bool
  pub has_ret_code : Bool
  pub detail : List ℕ
  pub wall_ns : ℕ
  pub steady_ns : ℕ
  pub seq : ℕ

pub record RecordQueue : Type 0 where
  pub rows : List StateRecord
  pub head : ℕ
  pub size : ℕ
  pub sequence : ℕ
  pub dropped : ℕ
  pub suppressed : ℕ
  pub has_push : Bool
  pub closed : Bool
  pub last_push : StateFields
  pub last_push_result : QueryResult
  pub last_push_ns : ℕ

abbrev pub same_int : ℤ → ℤ → Bool
same_int a b = pos_part a == pos_part b && neg_part a == neg_part b

abbrev pub is_state_push : Source → Bool
is_state_push startup = false
is_state_push state_push = true
is_state_push query = false
is_state_push shutdown = false
is_state_push error = false

abbrev pub result_code : QueryResult → ℕ
result_code not_applicable = 0
result_code success = 1
result_code submit_failed = 2
result_code timeout = 3
result_code sdk_error = 4
result_code invalid_response = 5
result_code pending = 6

unfoldable pub same_snapshot : StateFields → StateFields → Bool
same_snapshot a b =
    bytes_eq a.status b.status
    && bytes_eq a.hms b.hms
    && a.work_state == b.work_state
    && a.sync_type == b.sync_type
    && a.local_time == b.local_time
    && a.last_sync == b.last_sync
    && same_int a.time_offset b.time_offset
    && same_int a.core_temp b.core_temp
    && a.powerup_count == b.powerup_count
    && bytes_eq a.serial b.serial
    && bytes_eq a.app_version b.app_version
    && bytes_eq a.loader_version b.loader_version
    && bytes_eq a.hardware_version b.hardware_version

-- `Stamp`.
unfoldable pub stamp_record : StateRecord → ℕ → ℕ → StateRecord
stamp_record r wall steady = record r {
  wall_ns = (if r.wall_ns == 0 then wall else r.wall_ns);
  steady_ns = (if r.steady_ns == 0 then steady else r.steady_ns);
}

abbrev pub drop_record : RecordQueue → RecordQueue
drop_record q = record q { dropped = add64 q.dropped 1 }

-- `Push` of a record that was not filtered out, behind the test for room.
unfoldable pub store_record : RecordQueue → StateRecord → RecordQueue
store_record q r =
    let numbered = record r { seq = add64 q.sequence 1 } in
    let newest = is_state_push r.source in
    record q {
      rows = set q.rows ((q.head + q.size) % length q.rows) numbered;
      size = q.size + 1;
      sequence = add64 q.sequence 1;
      has_push = (if newest then true else q.has_push);
      last_push = (if newest then r.fields else q.last_push);
      last_push_result = (if newest then r.result else q.last_push_result);
      last_push_ns = (if newest then r.steady_ns else q.last_push_ns);
    }

unfoldable pub push_record : RecordQueue → Bool → ℕ → ℕ → StateRecord → Bool → Bool × RecordQueue
push_record q owned wall steady unstamped filter_push =
    let r = stamp_record unstamped wall steady in
    let filtered = filter_push && is_state_push r.source && q.has_push in
    if not owned
    then (false, drop_record q)
    else if q.closed
    then (false, drop_record q)
    else if filtered
        && result_code r.result == result_code q.last_push_result
        && same_snapshot r.fields q.last_push
    then (false, record q { suppressed = add64 q.suppressed 1 })
    else if filtered && ltb r.steady_ns (q.last_push_ns + 200_000_000)
    then (false, drop_record q)
    else if q.size == length q.rows
    then (false, drop_record q)
    else (true, store_record q r)

unfoldable pub pop_record : RecordQueue → Option StateRecord × RecordQueue
pop_record q = if q.size == 0 then (none, q) else (
  get_elem? q.rows q.head,
  record q { head = (q.head + 1) % length q.rows; size = q.size - 1 },
)

unfoldable pub close_queue : RecordQueue → RecordQueue
close_queue q = record q { closed = true }

unfoldable pub next_sequence : RecordQueue → ℕ × RecordQueue
next_sequence q = (add64 q.sequence 1, record q { sequence = add64 q.sequence 1 })
