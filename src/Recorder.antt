-- ===== src/Recorder.antt =====
-- src/lidar_state_recorder.h and src/lidar_state_recorder.cpp: the recorder that the callbacks of the
-- SDK hand their observations to.
pub mod Fields
pub mod Parse
pub mod Serialize
pub mod Files
pub mod Write
pub mod Ends
pub mod Run
pub mod Rounds
pub mod Drained
use livox_ros_driver.Common.{
  ℕ, ◌+◌, ◌≡◌, Bool, true, false, not, ◌&&◌, ◌||◌, List, [], ◌∷◌, ◌++◌, Option, none, some, leb,
  ltb, if◌then◌else◌, length, take, replicate,
}
use livox_ros_driver.Common.Eq.{bytes_eq, codes}
use livox_ros_driver.Common.Decimal.{to_string}
use livox_ros_driver.Json.{Json}
use livox_ros_driver.RecordQueue.{
  Source, StateFields, StateRecord, RecordQueue, QueryResult, startup, state_push, invalid_response,
  not_applicable, push_record, close_queue,
}
use livox_ros_driver.Recorder.Fields.{new_fields, new_record}
use livox_ros_driver.Recorder.Parse.{parse_sdk_json}

pub record RecorderOptions : Type 0 where
  pub directory : List ℕ
  pub role : List ℕ
  pub ip : List ℕ
  pub handle : ℕ
  pub file_bytes : ℕ
  pub queue_capacity : ℕ

abbrev pub default_file_bytes : ℕ
default_file_bytes = 8_388_608

abbrev pub default_queue_capacity : ℕ
default_queue_capacity = 128

-- `running` says that the thread was started; `fd` is `none` where the source has -1.
pub record Recorder : Type 0 where
  pub options : RecorderOptions
  pub queue : RecordQueue
  pub accepting : Bool
  pub write_errors : ℕ
  pub enabled : Bool
  pub running : Bool
  pub session : List ℕ
  pub path : List ℕ
  pub scheduling : List ℕ
  pub pid : ℕ
  pub fd : Option ℕ
  pub file_size : ℕ

-- What a call of `Push` meets: whether `try_to_lock` gets the mutex, and the two clocks.
pub record Moment : Type 0 where
  pub owned : Bool
  pub wall : ℕ
  pub steady : ℕ

-- `RecordQueue(capacity)`.
unfoldable pub new_record_queue : ℕ → RecordQueue
unfolding new_fields new_record
new_record_queue capacity = record {
  rows = replicate (if leb 1 capacity then capacity else 1) new_record;
  head = 0;
  size = 0;
  sequence = 0;
  dropped = 0;
  suppressed = 0;
  has_push = false;
  closed = false;
  last_push = new_fields;
  last_push_result = not_applicable;
  last_push_ns = 0;
}

abbrev idle_recorder : RecorderOptions → Recorder
idle_recorder options = record {
  options = options;
  queue = new_record_queue options.queue_capacity;
  accepting = false;
  write_errors = 0;
  enabled = false;
  running = false;
  session = [];
  path = [];
  scheduling = [];
  pid = 0;
  fd = none;
  file_size = 0;
}

unfoldable pub is_role : List ℕ → Bool
is_role role =
    bytes_eq role (codes "front")
    || bytes_eq role (codes "rear")
    || bytes_eq role (codes "left")
    || bytes_eq role (codes "right")

-- The constructor; `none` is the exception. The clocks are read once here.
unfoldable pub new_recorder : RecorderOptions → ℕ → Moment → Option Recorder
unfolding new_record
new_recorder options pid now =
    if leb (length options.directory) 0
    then some (idle_recorder options)
    else if not (is_role options.role)
    then some (idle_recorder options)
    else if ltb options.file_bytes 4096
    then none
    else some (record (idle_recorder options) {
      pid = pid;
      session =
          to_string pid ++ codes "-" ++ to_string now.wall ++ codes "-" ++ to_string now.steady;
      path = options.directory ++ codes "/" ++ options.role ++ codes "_state.jsonl";
      enabled = true;
      accepting = true;
      queue =
          (push_record (new_record_queue options.queue_capacity) now.owned now.wall now.steady
            (record new_record { source = startup }) true).1;
      running = true;
    })

unfoldable pub record_observation : Recorder → Moment → StateRecord → Bool × Recorder
record_observation r now row =
    if not r.accepting
    then (false, r)
    else let pushed = push_record r.queue now.owned now.wall now.steady row true in
      (pushed.0, record r { queue = pushed.1 })

-- The 96 bytes of `detail`, the last always 0.
unfoldable pub detail_of : List ℕ → List ℕ
detail_of text = take 95 (text ++ replicate 95 0) ++ 0 ∷ []

unfoldable pub record_lifecycle : Recorder → Moment → Source → Option (List ℕ) → Recorder
unfolding new_record
record_lifecycle r now source detail =
    let row = record new_record { source = source } in
    elim detail [
      | none ↦ (record_observation r now row).1
      | some text ↦ (record_observation r now (record row { detail = detail_of text })).1
    ]

-- The length that `strnlen(json, 16385)` answers.
abbrev pub bounded_length : Option (List ℕ) → ℕ
bounded_length none = 0
bounded_length (some text) = if leb (length text) 16385 then length text else 16385

module _ {F : Type 0} (json : Json F) where
  unfoldable pub record_json : Recorder → Moment → Option (List ℕ) → Recorder
  unfolding new_record
  record_json r now text =
      if not r.accepting
      then r
      else let parsed = parse_sdk_json json text (bounded_length text) in
        let row = record new_record { source = state_push; fields = parsed.1 } in
        if parsed.0
        then (record_observation r now row).1
        else (record_observation r now (record row {
          result = invalid_response;
          detail = detail_of (codes "invalid_sdk_state_json");
        })).1

-- `Stop` up to the join of the thread.
unfoldable pub stop_recorder : Recorder → Recorder
stop_recorder r = record r { queue = close_queue r.queue; accepting = false }
