-- ===== src/Recorder/Drained.antt =====
-- src/lidar_state_recorder.cpp: what the thread writes behind `Stop`.
use livox_ros_driver.Common.{
  ℕ, ◌+◌, ◌≤◌, ◌<◌, ◌≡◌, refl, ap, ◌∙◌, Bool, true, false, List, [], ◌∷◌, some, length, arith,
}
use livox_ros_driver.RecordQueue.{StateRecord}
use livox_ros_driver.RecordQueue.Window.{contents}
use livox_ros_driver.Recorder.{Recorder, RecorderOptions}
use livox_ros_driver.Recorder.Files.{write_error}
use livox_ros_driver.Recorder.Serialize.{serialize}
use livox_ros_driver.Recorder.Write.{FileBounded}
use livox_ros_driver.Recorder.Ends.{IsFinite, write_row_ends}
use livox_ros_driver.Recorder.Run.{Disk, count_failure, record_row, run_rounds}
use livox_ros_driver.Recorder.Rounds.{
  Waiting, popped, record_all, record_row-Kept, first_row, Waiting-Kept, run_rounds_all,
}

module _ (disk : Disk) where
  open disk use {os}

  record_row_ends :
      (interrupts : os.State → ℕ) (bound : ℕ) (r : Recorder) (row : StateRecord) (s : os.State)
      → IsFinite os interrupts
      → ((state : os.State) → interrupts state ≤ bound)
      → bound + r.options.file_bytes < disk.fuel
      → FileBounded r
      → (out : Recorder × os.State) × (record_row disk r row s ≡ some out)
  unfolding record_row
  record_row_ends interrupts bound r row s finite few enough b =
      let line = serialize disk.render r row in
      let (written, run, kept) =
        write_row_ends os interrupts finite bound disk.fuel r line s few enough b in
      let (out, answer) = counted written in (out, rw run answer)
    where
      counted :
          (written : Bool × Recorder × os.State)
          → (out : Recorder × os.State) × (count_failure disk (some written) ≡ some out)
      counted (true, r', s') = ((r', s'), refl)
      counted (false, r', s') = (write_error os r' s', refl)

  record_all_ends :
      (interrupts : os.State → ℕ) (bound : ℕ) (rows : List StateRecord) (r : Recorder)
      (s : os.State)
      → IsFinite os interrupts
      → ((state : os.State) → interrupts state ≤ bound)
      → bound + r.options.file_bytes < disk.fuel
      → Waiting rows r
      → (out : Recorder × os.State) × (record_all disk rows r s ≡ some out) × Waiting [] out.0
  unfolding record_all
  record_all_ends interrupts bound [] r s finite few enough w = ((r, s), refl, w)
  record_all_ends interrupts bound (row ∷ rows) r s finite few enough w =
      let (first, rest) = first_row disk r row rows w in
      let ((r', s'), run) =
        record_row_ends interrupts bound (popped r) row s finite few enough rest.bounded in
      let kept = record_row-Kept disk (popped r) row s (r', s') rest.bounded run in
      let same = ap (λ (o : RecorderOptions). o.file_bytes) kept.options in
      let (out, others, done) =
        record_all_ends interrupts bound rows r' s' finite few (omega (arith, same, enough))
          (Waiting-Kept disk rows (popped r) r' kept rest) in
      (out, rw (record_all, run) others, done)

  -- The loop of `Run` behind `Stop`, on a recorder that accepts no more rows, whose head lies in
  -- its ring and whose open file, if any, is bounded, where in every state `interrupts`, and so
  -- at most `bound`, calls of `write` are still interrupted, and a line has more rounds than
  -- `bound` and the bytes of a file together: with more rounds than rows wait, the loop ends. It
  -- has taken exactly these rows, each once and in their order, and written each before the next,
  -- whether the writes succeed or not; no row waits any more.
  pub run_rounds_drains :
      (interrupts : os.State → ℕ) (bound : ℕ) (rows : List StateRecord) (rounds : ℕ) (r : Recorder)
      (s : os.State)
      → IsFinite os interrupts
      → ((state : os.State) → interrupts state ≤ bound)
      → bound + r.options.file_bytes < disk.fuel
      → Waiting rows r
      → length rows < rounds
      → (out : Recorder × os.State) × (run_rounds disk rounds r s ≡ some out)
        × (record_all disk rows r s ≡ some out)
        × (contents out.0.queue ≡ [])
  run_rounds_drains interrupts bound rows rounds r s finite few enough w h =
      let (out, all, done) = record_all_ends interrupts bound rows r s finite few enough w in
      (out, run_rounds_all disk rows rounds r s w h ∙ all, all, done.rows_wait)
