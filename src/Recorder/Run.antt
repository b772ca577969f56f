-- ===== src/Recorder/Run.antt =====
-- src/lidar_state_recorder.cpp: the thread of the recorder. `ConfigureWriter`, which sets its
-- scheduling, is a parameter by its answer; the wait for a row is a round that does nothing.
use livox_ros_driver.Common.{
  ℕ, zero, suc, Bool, true, false, not, ◌&&◌, List, Option, none, some, if◌then◌else◌,
}
use livox_ros_driver.Common.Eq.{bytes_eq, codes}
use livox_ros_driver.Comm.{add64}
use livox_ros_driver.RecordQueue.{StateRecord, shutdown, pop_record, next_sequence, stamp_record}
use livox_ros_driver.Recorder.{Recorder, Moment}
use livox_ros_driver.Recorder.Fields.{new_record}
use livox_ros_driver.Recorder.Files.{Os, write_row, write_error}
use livox_ros_driver.Recorder.Serialize.{JsonEvent, serialize}

-- What the thread writes with: the system calls, the JSON writer and the fuel of a line.
pub record Disk : Type 1 where
  pub os : Os
  pub render : List JsonEvent → List ℕ
  pub fuel : ℕ

-- Whether the loop goes on.
pub data Turn : Type 0 where
  again finished : Turn

module _ (disk : Disk) where
  open disk use {os}

  abbrev pub count_failure : Option (Bool × Recorder × os.State) → Option (Recorder × os.State)
  count_failure none = none
  count_failure (some (true, r, s)) = some (r, s)
  count_failure (some (false, r, s)) = some (write_error os r s)

  -- `if (!Write(record)) WriteError();`
  unfoldable pub record_row : Recorder → StateRecord → os.State → Option (Recorder × os.State)
  record_row r row s = count_failure (write_row os disk.fuel r (serialize disk.render r row) s)

  abbrev pub turned : Option (Recorder × os.State) → Option (Turn × Recorder × os.State)
  turned none = none
  turned (some (r, s)) = some (again, r, s)

  -- One round of the loop of `Run`. `between` is what other threads do behind the first `Pop`.
  unfoldable pub run_round :
      (Recorder → Recorder) → Recorder → os.State → Option (Turn × Recorder × os.State)
  run_round between r s =
      let (first, queue) = pop_record r.queue in
      elim first [
        | some row ↦ turned (record_row (record r { queue = queue }) row s)
        | none ↦
            let r' = between r in
            let (second, queue') = pop_record r'.queue in
            if r'.accepting then some (again, r', s) else elim second [
              | none ↦ some (finished, r', s)
              | some row ↦ turned (record_row (record r' { queue = queue' }) row s)
            ]
      ]

  -- The end of `Run`: the row of the shutdown, and the file closed.
  abbrev closed : Option (Recorder × os.State) → Option (Recorder × os.State)
  closed none = none
  closed (some (r, s)) = elim r.fd [
    | none ↦ some (r, s)
    | some fd ↦ some (record r { fd = none }, os.close_file fd s)
  ]

  unfoldable pub shutdown_row : Recorder → Moment → StateRecord
  unfolding new_record
  shutdown_row r now =
      record (stamp_record (record new_record { source = shutdown }) now.wall now.steady) {
        seq = (next_sequence r.queue).0;
      }

  unfoldable pub finish_run : Recorder → Moment → os.State → Option (Recorder × os.State)
  finish_run r now s =
      let row = shutdown_row r now in
      closed (record_row (record r { queue = (next_sequence r.queue).1 }) row s)

  -- The loop, with no producer left; `none` is out of fuel.
  unfoldable pub run_rounds : ℕ → Recorder → os.State → Option (Recorder × os.State)
  run_rounds zero r s = none
  run_rounds (suc rounds) r s = elim (run_round (λ q. q) r s) [
    | none ↦ none
    | some (turn, r', s') ↦ elim turn [ again ↦ run_rounds rounds r' s' | finished ↦ some (r', s') ]
  ]

  -- `Run` behind `ConfigureWriter`, which answered `scheduling`.
  unfoldable pub run : ℕ → List ℕ → Recorder → Moment → os.State → Option (Recorder × os.State)
  run rounds scheduling r now s =
      let r' : Recorder = record r { scheduling = scheduling } in
      if not (bytes_eq scheduling (codes "nice10_nonisolated"))
        && not (bytes_eq scheduling (codes "platform_not_linux"))
      then some (record r' { write_errors = add64 r.write_errors 1; accepting = false }, s)
      else elim (run_rounds rounds r' s) [ none ↦ none | some (r'', s') ↦ finish_run r'' now s' ]
