-- ===== src/RecordQueue/Window.antt =====
-- src/lidar_state_recorder.cpp: the rows of the queue from the head on, as a list.
use native.Mathlib.Nat.{mod-lt, mod-eq_of_lt, mod-mod, add-zero}
use livox_ros_driver.Common.{
  ℕ, zero, suc, ◌+◌, ◌-◌, ◌%◌, ◌≡◌, ◌<◌, refl, sym, ◌∙◌, ap, false, List, [], ◌∷◌, ◌++◌, Option,
  some, ◌==◌, length, length-set, get_elem?, set, get_elem?-set_self, get_elem?-set_ne, arith,
}
use livox_ros_driver.Comm.{add64}
use livox_ros_driver.Ldq.Window.{mod_step_ne, mod_congr_suc}
use livox_ros_driver.RecordQueue.{RecordQueue, StateRecord, store_record, pop_record}

-- `count` rows of a ring of `n`, from the row at `i` on.
unfoldable pub window : ℕ → List StateRecord → ℕ → ℕ → List (Option StateRecord)
window n rows i zero = []
window n rows i (suc count) = get_elem? rows (i % n) ∷ window n rows (i + 1) count

-- The rows that wait, oldest first.
unfoldable pub contents : RecordQueue → List (Option StateRecord)
contents q = window (length q.rows) q.rows q.head q.size

window-set :
    (rows : List StateRecord) (v : StateRecord) (i count : ℕ)
    → count < length rows
    → window (length rows) (set rows ((i + count) % length rows) v) i (suc count)
      ≡ window (length rows) rows i count ++ some v ∷ []
unfolding window
window-set rows v i zero l = rw (add-zero i) (
    ap (λ (o : Option StateRecord). o ∷ [])
      (get_elem?-set_self rows (i % length rows) v (mod-lt i {m = length rows} l)))
window-set rows v i (suc count) l =
    let next : i + suc count ≡ i + 1 + count = omega arith in
    rw
      (get_elem?-set_ne rows v
        (λ e. mod_step_ne i (suc count) (length rows) (omega arith) l (sym e)))
      (ap (λ (os : List (Option StateRecord)). get_elem? rows (i % length rows) ∷ os)
        (ap (λ (k : ℕ). window (length rows) (set rows (k % length rows) v) (i + 1) (suc count))
            next
          ∙ window-set rows v (i + 1) count (omega arith)))

window-congr :
    (n : ℕ) (rows : List StateRecord) (i j count : ℕ)
    → i % n ≡ j % n
    → window n rows i count ≡ window n rows j count
unfolding window
window-congr n rows i j zero e = refl
window-congr n rows i j (suc count) e = rw (e) (
    ap (λ (os : List (Option StateRecord)). get_elem? rows (j % n) ∷ os)
      (window-congr n rows (i + 1) (j + 1) count (mod_congr_suc i j n e)))

window_first :
    (n : ℕ) (rows : List StateRecord) (i count : ℕ)
    → 0 < count
    → window n rows i count ≡ get_elem? rows (i % n) ∷ window n rows (i + 1) (count - 1)
unfolding window
window_first n rows i zero h = absurd (omega arith)
window_first n rows i (suc count) h =
    let e : suc count - 1 ≡ count = omega arith in
    ap (λ (k : ℕ). get_elem? rows (i % n) ∷ window n rows (i + 1) k) (sym e)

-- The part of `Push` that stores a record, on a queue that is not full, appends it with the next
-- number behind the rows that wait, and loses none of them, across the wrap of the index.
pub store_record_appends :
    (q : RecordQueue) (r : StateRecord)
    → q.size < length q.rows
    → contents (store_record q r) ≡ contents q ++ some (record r { seq = add64 q.sequence 1 }) ∷ []
unfolding contents store_record
store_record_appends q r l =
    let numbered = record r { seq = add64 q.sequence 1 } in
    let one : q.size + 1 ≡ suc q.size = omega arith in
    rw (length-set q.rows ((q.head + q.size) % length q.rows) numbered, one)
      (window-set q.rows numbered q.head q.size l)

-- `Pop` on a queue that holds rows, with its head within them, takes the oldest and leaves the
-- others in their order.
pub pop_record_oldest :
    (q : RecordQueue)
    → 0 < q.size
    → q.head < length q.rows
    → contents q ≡ (pop_record q).0 ∷ contents (pop_record q).1
unfolding contents pop_record
pop_record_oldest q some_rows inside = rw (nonzero q.size some_rows) (
    window_first (length q.rows) q.rows q.head q.size some_rows
    ∙ ap (λ (k : ℕ). get_elem? q.rows k ∷ window (length q.rows) q.rows (q.head + 1) (q.size - 1))
        (mod-eq_of_lt inside)
    ∙ ap (λ (os : List (Option StateRecord)). get_elem? q.rows q.head ∷ os)
        (window-congr (length q.rows) q.rows (q.head + 1) ((q.head + 1) % length q.rows)
          (q.size - 1) (sym (mod-mod (q.head + 1) (length q.rows)))))
  where
    nonzero : (n : ℕ) → 0 < n → (n == 0) ≡ false
    nonzero n h = ground arith
