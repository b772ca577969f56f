-- ===== src/RecordQueue/Account.antt =====
-- src/lidar_state_recorder.cpp: the counters of the queue.
use livox_ros_driver.Common.{
  ℕ, ◌≡◌, ◌≢◌, ◌+◌, ◌≤◌, ◌<◌, ◌&&◌, ltb, arith, refl, Bool, true, false, length, ◌==◌,
  if◌then◌else◌,
}
use livox_ros_driver.Comm.{add64}
use livox_ros_driver.RecordQueue.{
  RecordQueue, StateRecord, push_record, store_record, stamp_record, drop_record, is_state_push,
  result_code, same_snapshot,
}

-- The filter looks at a state push that follows another one.
unfoldable pub is_filtered : RecordQueue → StateRecord → Bool → Bool
is_filtered q r filter_push = filter_push && is_state_push r.source && q.has_push

-- The row says what the last state push said.
unfoldable pub repeats : RecordQueue → StateRecord → Bool
repeats q r =
    result_code r.result == result_code q.last_push_result && same_snapshot r.fields q.last_push

-- What one call of `Push` of `r` can do, and when: `r` is stored with everything it holds, or it is not
-- stored for one of five reasons, which is counted.
pub data Outcome (q : RecordQueue) (owned : Bool) (r : StateRecord) (filter_push : Bool)
    : Bool × RecordQueue → Type 0 where
  stored :
      owned ≡ true
      → q.closed ≡ false
      → q.size ≢ length q.rows
      → (is_filtered q r filter_push ≡ true
          → (repeats q r ≡ false) × (q.last_push_ns + 200_000_000 ≤ r.steady_ns))
      → Outcome q owned r filter_push (true, store_record q r)
  not_owned : owned ≡ false → Outcome q owned r filter_push (false, drop_record q)
  after_close : q.closed ≡ true → Outcome q owned r filter_push (false, drop_record q)
  no_room : q.size ≡ length q.rows → Outcome q owned r filter_push (false, drop_record q)
  too_early :
      is_filtered q r filter_push ≡ true
      → r.steady_ns < q.last_push_ns + 200_000_000
      → Outcome q owned r filter_push (false, drop_record q)
  suppressed :
      is_filtered q r filter_push ≡ true
      → repeats q r ≡ true
      → Outcome q owned r filter_push (false, record q { suppressed = add64 q.suppressed 1 })

branch :
    (q : RecordQueue) (r : StateRecord)
    (filter_push closed filtered code snapshot early full : Bool)
    → q.closed ≡ closed
    → is_filtered q r filter_push ≡ filtered
    → repeats q r ≡ (code && snapshot)
    → ltb r.steady_ns (q.last_push_ns + 200_000_000) ≡ early
    → (q.size == length q.rows) ≡ full
    → Outcome q true r filter_push (
        if closed
        then (false, drop_record q)
        else if filtered && code && snapshot
        then (false, record q { suppressed = add64 q.suppressed 1 })
        else if filtered && early
        then (false, drop_record q)
        else if full
        then (false, drop_record q)
        else (true, store_record q r))
branch q r b true filtered code snapshot early full c f s e n = after_close c
branch q r b false true true true early full c f s e n = suppressed f s
branch q r b false true true false true full c f s e n = too_early f (ground (arith, e))
branch q r b false true true false false true c f s e n = no_room (ground (arith, n))
branch q r b false true true false false false c f s e n =
    stored refl c (λ h. ground (arith, n, h)) (λ g. (s, ground (arith, e)))
branch q r b false true false snapshot true full c f s e n = too_early f (ground (arith, e))
branch q r b false true false snapshot false true c f s e n = no_room (ground (arith, n))
branch q r b false true false snapshot false false c f s e n =
    stored refl c (λ h. ground (arith, n, h)) (λ g. (s, ground (arith, e)))
branch q r b false false code snapshot early true c f s e n = no_room (ground (arith, n))
branch q r b false false code snapshot early false c f s e n =
    stored refl c (λ h. ground (arith, n, h)) (λ g. absurd (ground (arith, f, g)))

-- Every `Push`, whatever the clocks, the lock and the record, stores the record with its time
-- stamps, in a queue whose lock was taken, that is open and not full, unless it is filtered out;
-- or it changes nothing but one of the two counters, by one. The row is dropped only where the
-- lock was not taken, the queue is closed or full, or a filtered state push follows the last one
-- within 200 ms, and suppressed only where a filtered state push repeats the last one.
pub push_record-Outcome :
    (q : RecordQueue) (owned : Bool) (wall steady : ℕ) (r : StateRecord) (filter_push : Bool)
    → Outcome q owned
        (stamp_record r wall steady)
        filter_push
        (push_record q owned wall steady r filter_push)
unfolding push_record is_filtered repeats
push_record-Outcome q false wall steady r filter_push = not_owned refl
push_record-Outcome q true wall steady unstamped filter_push =
    let r = stamp_record unstamped wall steady in
    branch q r filter_push q.closed (is_filtered q r filter_push)
      (result_code r.result == result_code q.last_push_result) (same_snapshot r.fields q.last_push)
      (ltb r.steady_ns (q.last_push_ns + 200_000_000)) (q.size == length q.rows) refl refl refl refl
      refl
