-- ===== src/Recorder/Rounds.antt =====
-- src/lidar_state_recorder.cpp: the rounds of the thread behind `Stop`, row by row.
use mathlib.Core.Path.{subst}
use mathlib.Core.Option.{some-injective}
use mathlib.Core.List.{head-eq_of_cons-eq, tail-eq_of_cons-eq}
use native.Mathlib.Nat.{mod-lt}
use livox_ros_driver.Common.{
  ℕ, zero, suc, ◌+◌, ◌-◌, ◌%◌, ◌≤◌, ◌<◌, ◌≡◌, refl, sym, ap, ◌∙◌, inl, inr, Bool, true, false, List,
  [], ◌∷◌, Option, none, some, map, length, get_elem?, arith, ◌==◌, if◌then◌else◌,
}
use livox_ros_driver.RecordQueue.{RecordQueue, StateRecord, pop_record}
use livox_ros_driver.RecordQueue.Window.{contents, window, pop_record_oldest}
use livox_ros_driver.Recorder.{Recorder, RecorderOptions}
use livox_ros_driver.Recorder.Files.{write_row, write_error}
use livox_ros_driver.Recorder.Serialize.{serialize}
use livox_ros_driver.Recorder.Write.{FileBounded, Kept, write_row-Kept}
use livox_ros_driver.Recorder.Run.{
  Disk, again, finished, count_failure, record_row, turned, run_round, run_rounds,
}

-- The rows that wait are these, no more are taken, and the file is bounded.
pub record Waiting (rows : List StateRecord) (r : Recorder) : Type 0 where
  pub rows_wait : contents r.queue ≡ map some rows
  pub head_inside : r.queue.head < length r.queue.rows
  pub stopped : r.accepting ≡ false
  pub bounded : FileBounded r

abbrev pub popped : Recorder → Recorder
popped r = record r { queue = (pop_record r.queue).1 }

size_of_rows :
    (q : RecordQueue) (row : StateRecord) (rows : List StateRecord)
    → contents q ≡ map some (row ∷ rows)
    → 0 < q.size
unfolding contents window
size_of_rows q row rows e = of_size q.size e
  where
    of_size : (n : ℕ) → window (length q.rows) q.rows q.head n ≡ some row ∷ map some rows → 0 < n
    of_size zero e = cc
    of_size (suc n) e = omega arith

size_of_none : (q : RecordQueue) → contents q ≡ [] → q.size ≡ 0
unfolding contents window
size_of_none q e = of_size q.size e
  where
    of_size : (n : ℕ) → window (length q.rows) q.rows q.head n ≡ [] → n ≡ 0
    of_size zero e = refl
    of_size (suc n) e = cc

abbrev HeadInside : Option StateRecord × RecordQueue → Type 0
HeadInside popped = popped.1.head < length popped.1.rows

pop_none : (q : RecordQueue) → contents q ≡ [] → pop_record q ≡ (none, q)
unfolding pop_record
pop_none q e = rw (size_of_none q e) refl

pop_head_inside :
    (q : RecordQueue)
    → q.head < length q.rows
    → (pop_record q).1.head < length (pop_record q).1.rows
unfolding pop_record
pop_head_inside q h = of_size (q.size == 0)
  where
    of_size :
        (b : Bool)
        → HeadInside (
            if b then (none, q) else (
              get_elem? q.rows q.head,
              record q { head = (q.head + 1) % length q.rows; size = q.size - 1 },
            ))
    of_size true = h
    of_size false = mod-lt (q.head + 1) (omega (arith, h))

module _ (disk : Disk) where
  open disk use {os}

  -- The reference: the rows in their order, each popped before it is written.
  unfoldable pub record_all : List StateRecord → Recorder → os.State → Option (Recorder × os.State)
  record_all [] r s = some (r, s)
  record_all (row ∷ rows) r s = elim (record_row disk (popped r) row s) [
    | none ↦ none
    | some (r', s') ↦ record_all rows r' s'
  ]

  count_failure-Kept :
      (bound : ℕ) (r : Recorder) (written : Option (Bool × Recorder × os.State))
      (out : Recorder × os.State)
      → ((o : Bool × Recorder × os.State) → written ≡ some o → Kept bound r o.1)
      → count_failure disk written ≡ some out
      → Kept bound r out.0
  unfolding write_error
  count_failure-Kept bound r none out k e = cc
  count_failure-Kept bound r (some (true, r1, s)) out k e =
      subst (λ (o : Recorder × os.State). Kept bound r o.0) (some-injective _ _ e)
        (k (true, r1, s) refl)
  count_failure-Kept bound r (some (false, r1, s)) out k e =
      let kept = k (false, r1, s) refl in
      subst (λ (o : Recorder × os.State). Kept bound r o.0) (some-injective _ _ e)
        (record {
          options = kept.options;
          queue = kept.queue;
          accepting = kept.accepting;
          bounded = inl refl;
        })

  pub record_row-Kept :
      (r : Recorder) (row : StateRecord) (s : os.State) (out : Recorder × os.State)
      → FileBounded r
      → record_row disk r row s ≡ some out
      → Kept r.options.file_bytes r out.0
  unfolding record_row
  record_row-Kept r row s out b e =
      let line = serialize disk.render r row in
      count_failure-Kept r.options.file_bytes r (write_row os disk.fuel r line s) out
        (λ o h. write_row-Kept os disk.fuel r line s o b h) e

  -- A stopped recorder writes the first row that waits, and the others wait on.
  pub first_row :
      (r : Recorder) (row : StateRecord) (rows : List StateRecord)
      → Waiting (row ∷ rows) r
      → ((pop_record r.queue).0 ≡ some row) × Waiting rows (popped r)
  unfolding FileBounded
  first_row r row rows w =
      let oldest =
        sym (pop_record_oldest r.queue (size_of_rows r.queue row rows w.rows_wait) w.head_inside)
        ∙ w.rows_wait in
      (
        head-eq_of_cons-eq oldest,
        record {
          rows_wait = tail-eq_of_cons-eq oldest;
          head_inside = pop_head_inside r.queue w.head_inside;
          stopped = w.stopped;
          bounded = w.bounded;
        },
      )

  pub Waiting-Kept :
      (rows : List StateRecord) (r r' : Recorder)
      → Kept r.options.file_bytes r r'
      → Waiting rows r
      → Waiting rows r'
  unfolding FileBounded
  Waiting-Kept rows r r' k w = record {
    rows_wait = ap contents k.queue ∙ w.rows_wait;
    head_inside = subst (λ (q : RecordQueue). q.head < length q.rows) (sym k.queue) w.head_inside;
    stopped = k.accepting ∙ w.stopped;
    bounded = elim k.bounded [
      | inl shut ↦ inl shut
      | inr small ↦
          inr (subst (λ (o : RecorderOptions). r'.file_size ≤ o.file_bytes) (sym k.options) small)
    ];
  }

  round_none :
      (r : Recorder) (s : os.State)
      → Waiting [] r
      → run_round disk (λ q. q) r s ≡ some (finished, r, s)
  unfolding run_round
  round_none r s w =
      let empty : (pop_record r.queue).0 ≡ none =
        ap (λ (p : Option StateRecord × RecordQueue). p.0) (pop_none r.queue w.rows_wait) in
      rw (pop_none r.queue w.rows_wait, run_round) (ground (arith, w.stopped, empty))

  round_some :
      (r : Recorder) (row : StateRecord) (s : os.State)
      → (pop_record r.queue).0 ≡ some row
      → run_round disk (λ q. q) r s ≡ turned disk (record_row disk (popped r) row s)
  unfolding run_round record_row
  round_some r row s e = rw (e, run_round) refl

  -- The loop runs as the reference.
  pub run_rounds_all :
      (rows : List StateRecord) (rounds : ℕ) (r : Recorder) (s : os.State)
      → Waiting rows r
      → length rows < rounds
      → run_rounds disk rounds r s ≡ record_all rows r s
  unfolding run_rounds record_all
  run_rounds_all rows zero r s w h = absurd (omega arith)
  run_rounds_all [] (suc rounds) r s w h = rw (round_none r s w, run_rounds) refl
  run_rounds_all (row ∷ rows) (suc rounds) r s w h =
      let (first, rest) = first_row r row rows w in
      rw (round_some r row s first, run_rounds)
        (written (record_row disk (popped r) row s) (λ r' s' e.
          run_rounds_all rows rounds r' s'
            (Waiting-Kept rows (popped r) r'
              (record_row-Kept (popped r) row s (r', s') rest.bounded e) rest)
            (omega arith)))
    where
      written :
          (out : Option (Recorder × os.State))
          → ((r' : Recorder) (s' : os.State)
              → out ≡ some (r', s')
              → run_rounds disk rounds r' s' ≡ record_all rows r' s')
          → elim (turned disk out) as (λ o. Option (Recorder × os.State)) [
            | none ↦ none
            | some (turn, r', s') ↦ elim turn [
              | again ↦ run_rounds disk rounds r' s'
              | finished ↦ some (r', s')
            ]
          ]
            ≡ elim out as (λ o. Option (Recorder × os.State)) [
              | none ↦ none
              | some (r', s') ↦ record_all rows r' s'
            ]
      written none next = refl
      written (some (r', s')) next = next r' s' refl
