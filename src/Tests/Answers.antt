-- ===== src/Tests/Answers.antt =====
-- Runs of src/lds_lidar.cpp on the answer to a query: a work state and a synchronization type,
-- followed by memory that is not looked at.
use livox_ros_driver.Common.{
  ℕ, ◌≡◌, refl, true, false, none, some, [], ◌∷◌, ◌++◌, List, length-append, length-replicate,
  replicate, arith,
}
use livox_ros_driver.Common.Int.{pos}
use livox_ros_driver.Common.Memory.{ok}
use livox_ros_driver.Monitor.State.{Monitor}
use livox_ros_driver.RecordQueue.{StateRecord}
use livox_ros_driver.Recorder.{Moment}
use livox_ros_driver.Recorder.Fields.{query_fields}
use livox_ros_driver.LdsLidar.Answer.{StateKeys, DiagAnswer, Walk, walk_params, whole, new_walk}
use livox_ros_driver.LdsLidar.Diagnose.{Diagnostics, StatusNumbers, diagnostic_query_callback, emit}
use livox_ros_driver.LdsLidar.Bounds.{Readable, AnswerOutcome, diagnostic_query_callback-Outcome}
use livox_ros_driver.LdsLidar.Layout.{Param, layout, le_bytes, take_all, walk_params-layout}
use livox_ros_driver.Tests.Diagnosis.{running}

abbrev keys : StateKeys
keys = record {
  hms_code = 32785;
  cur_work_state = 32774;
  time_sync_type = 32781;
  local_time_now = 32779;
  last_sync_time = 32780;
  time_offset = 32782;
}

abbrev params : List Param
params = record { key = 32774; value = 1 ∷ [] } ∷ record { key = 32781; value = 1 ∷ 0 ∷ [] } ∷ []

abbrev walk : Walk
walk = new_walk query_fields

walk_params-layout_example :
    walk_params keys (layout params ++ replicate 1400 0) 2 0 walk
    ≡ ok (whole (take_all keys params walk))
walk_params-layout_example =
    walk_params-layout keys params (replicate 1400 0) walk (unfold layout le_bytes in omega arith)

abbrev numbers : StatusNumbers
numbers = record { success = pos 0; timeout = pos 3 }

abbrev diagnostics : Diagnostics
diagnostics = record {
  monitor = some running;
  role = [];
  recorder = none;
  handle = 7;
  query_pending = true;
  observer_id = 1;
}

abbrev answer : DiagAnswer
answer = record { ret_code = 0; param_num = 2; content = layout params ++ replicate 1400 0 }

abbrev now : Moment
now = record { owned = true; wall = 5; steady = 5 }

answer-Readable : Readable (some answer)
unfolding Readable
answer-Readable =
    omega (arith, length-append (layout params) (replicate 1400 0), length-replicate {A = ℕ} 1400 0)

diagnostic_query_callback-Outcome_example :
    (o : Monitor × StateRecord) × (diagnostic_query_callback numbers keys diagnostics now
        3_100_000_000
        (pos 0)
        7
        (some answer)
      ≡ ok (record diagnostics {
        query_pending = false;
        monitor = some o.0;
        recorder = emit none now o.1;
      }))
    × AnswerOutcome numbers keys running 3_100_000_000 (pos 0) (some answer) o
diagnostic_query_callback-Outcome_example =
    diagnostic_query_callback-Outcome numbers keys diagnostics running now 3_100_000_000 (pos 0)
      (some answer) refl answer-Readable
