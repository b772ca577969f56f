-- ===== src/Reporting/Faults.antt =====
-- src/lidar_dtc_reporting.h: the active faults of the heartbeat after a report.
use livox_ros_driver.Common.{
  ℕ, zero, suc, ◌≡◌, refl, ◌<◌, ◌+◌, ◌∙◌, Bool, true, false, not, ◌&&◌, ◌||◌, List, [], ◌∷◌, ltb,
  ◌==◌, arith, some, get_elem?,
}
use mathlib.Core.Path.{subst}
use mathlib.Core.Option.{some-injective}
use livox_ros_driver.Heartbeat.{HeartbeatPublisher, update_faults}
use livox_ros_driver.Heartbeat.Faults.{has, Sorted, update_faults_lem}
use livox_ros_driver.Monitor.Codes.{dtc_codes}
use livox_ros_driver.Monitor.State.{Monitor, Condition, unknown, pass, fail}
use livox_ros_driver.Monitor.Evaluate.{Snapshot, evaluate, hms_fresh, healthy_ptp}
use livox_ros_driver.Monitor.Alarms.{any_alarm, fails_category, evaluate_conditions}
use livox_ros_driver.Reporting.{
  report_from, is_fail, is_pass, publish_diagnostic_snapshot, LidarDiagnosticState,
  diagnostic_message,
}

-- Whether `c` is the code of a category from `i` on, below the ninth, whose condition satisfies `p`.
unfoldable pub reported : (Condition → Bool) → ℕ → List ℕ → List Condition → ℕ → Bool
reported p i [] conditions c = false
reported p i (code ∷ codes) [] c = false
reported p i (code ∷ codes) (d ∷ conditions) c =
    (ltb i 9 && p d && c == code) || reported p (i + 1) codes conditions c

report_from-has :
    (i : ℕ) (state : Snapshot) (codes : List ℕ) (conditions : List Condition) (c : ℕ)
    → (has c (report_from i state codes conditions).failed ≡ reported is_fail i codes conditions c)
      × (has c (report_from i state codes conditions).passed
          ≡ reported is_pass i codes conditions c)
unfolding report_from reported has
report_from-has i state [] conditions c = (refl, refl)
report_from-has i state (code ∷ codes) [] c = (refl, refl)
report_from-has i state (code ∷ codes) (unknown ∷ conditions) c =
    let rest = report_from-has (i + 1) state codes conditions c in
    (ground (arith, rest), ground (arith, rest))
report_from-has i state (code ∷ codes) (pass ∷ conditions) c =
    let rest = report_from-has (i + 1) state codes conditions c in
    (ground (arith, rest), ground (arith, rest))
report_from-has i state (code ∷ codes) (fail ∷ conditions) c =
    let rest = report_from-has (i + 1) state codes conditions c in
    (ground (arith, rest), ground (arith, rest))

-- A report of a role that exists, to a heartbeat whose faults are in order, leaves a code active
-- exactly where it is not 0 and one of the first nine categories with this code failed, or where
-- it was active and no such category passed.
pub publish_diagnostic_snapshot_faults :
    (h : HeartbeatPublisher) (state : Snapshot) (role : ℕ) (version : List ℕ)
    (sequence stamp_us : ℕ) (codes : List ℕ) (c : ℕ)
    → Sorted h.active_faults
    → dtc_codes role ≡ some codes
    → (h' : HeartbeatPublisher) × (message : LidarDiagnosticState) × (publish_diagnostic_snapshot h
          state role version sequence stamp_us
        ≡ some (h', message))
      × Sorted h'.active_faults
      × (has c h'.active_faults ≡ (
          (not (c == 0) && reported is_fail 0 codes state.conditions c)
          || (not (reported is_pass 0 codes state.conditions c) && has c h.active_faults)))
unfolding publish_diagnostic_snapshot dtc_codes update_faults report_from
publish_diagnostic_snapshot_faults h state role version sequence stamp_us codes c sorted e =
    let batch = report_from 0 state codes state.conditions in
    let (failed, passed) = report_from-has 0 state codes state.conditions c in
    let (sorted', f) = update_faults_lem h batch.failed batch.passed c sorted in
    (
      update_faults h batch.failed batch.passed,
      diagnostic_message h state role version sequence stamp_us batch.observations,
      rw (e) refl,
      sorted',
      f ∙ rw (failed, passed) refl,
    )

unfoldable pub all_codes : (ℕ → Bool) → List ℕ → Bool
all_codes p [] = true
all_codes p (c ∷ cs) = p c && all_codes p cs

all_codes-get_elem? :
    (p : ℕ → Bool) (cs : List ℕ) (i c : ℕ)
    → all_codes p cs ≡ true
    → get_elem? cs i ≡ some c
    → p c ≡ true
unfolding all_codes
all_codes-get_elem? p [] i c h e = cc
all_codes-get_elem? p (d ∷ cs) zero c h e =
    subst (λ x. p x ≡ true) (some-injective d c e) (ground arith)
all_codes-get_elem? p (d ∷ cs) (suc i) c h e = all_codes-get_elem? p cs i c (ground arith) e

codes-positive :
    (role : ℕ) (codes : List ℕ)
    → dtc_codes role ≡ some codes
    → all_codes (λ c. not (c == 0)) codes ≡ true
unfolding dtc_codes all_codes
codes-positive zero codes e =
    subst (λ cs. all_codes (λ c. not (c == 0)) cs ≡ true) (some-injective _ codes e) refl
codes-positive (suc zero) codes e =
    subst (λ cs. all_codes (λ c. not (c == 0)) cs ≡ true) (some-injective _ codes e) refl
codes-positive (suc (suc zero)) codes e =
    subst (λ cs. all_codes (λ c. not (c == 0)) cs ≡ true) (some-injective _ codes e) refl
codes-positive (suc (suc (suc zero))) codes e =
    subst (λ cs. all_codes (λ c. not (c == 0)) cs ≡ true) (some-injective _ codes e) refl
codes-positive (suc (suc (suc (suc r)))) codes e = cc

reported_at :
    (p : Condition → Bool) (i k : ℕ) (codes : List ℕ) (conditions : List Condition) (c : ℕ)
    (d : Condition)
    → i + k < 9
    → get_elem? codes k ≡ some c
    → get_elem? conditions k ≡ some d
    → p d ≡ true
    → reported p i codes conditions c ≡ true
unfolding reported
reported_at p i k [] conditions c d l e f h = cc
reported_at p i k (code ∷ codes) [] c d l e f h = cc
reported_at p i zero (code ∷ codes) (x ∷ conditions) c d l e f h =
    rw (some-injective code c e, some-injective x d f, h) (ground arith)
reported_at p i (suc k) (code ∷ codes) (x ∷ conditions) c d l e f h =
    ground (arith, reported_at p (i + 1) k codes conditions c d (omega arith) e f h)

-- From a native alarm to the heartbeat: while the alarms are fresh, an alarm that counts against
-- one of the first nine categories makes the code of that category, for a role that exists, an
-- active fault of a heartbeat whose faults are in order.
pub alarm_raises_fault :
    (m : Monitor) (now k : ℕ) (h : HeartbeatPublisher) (role : ℕ) (version : List ℕ)
    (sequence stamp_us : ℕ) (codes : List ℕ) (code : ℕ)
    → k < 9
    → Sorted h.active_faults
    → dtc_codes role ≡ some codes
    → get_elem? codes k ≡ some code
    → hms_fresh m now ≡ true
    → any_alarm (fails_category (healthy_ptp m now) k) m.hms ≡ true
    → (h' : HeartbeatPublisher) × (message : LidarDiagnosticState) × (publish_diagnostic_snapshot h
          (evaluate m now)
          role
          version
          sequence
          stamp_us
        ≡ some (h', message))
      × (has code h'.active_faults ≡ true)
alarm_raises_fault m now k h role version sequence stamp_us codes code l sorted e at fresh alarm =
    let (h', message, run, s, f) =
      publish_diagnostic_snapshot_faults h (evaluate m now) role version sequence stamp_us codes
        code sorted e in
    let positive =
      all_codes-get_elem? (λ c. not (c == 0)) codes k code (codes-positive role codes e) at in
    let failed = evaluate_conditions m now k (omega arith) ∙ rw (fresh, alarm) refl in
    let raised =
      reported_at is_fail 0 k codes (evaluate m now).conditions code fail (below k l) at failed
        refl in
    (h', message, run, f ∙ rw (positive, raised) refl)
  where
    below : (k : ℕ) → k < 9 → 0 + k < 9
    below k l = omega arith
