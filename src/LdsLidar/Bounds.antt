-- ===== src/LdsLidar/Bounds.antt =====
-- src/lds_lidar.cpp: which bytes `DiagnosticQueryCallback` reads, and what an answer can do.
use mathlib.Core.Path.{subst}
use livox_ros_driver.Common.{
  ℕ, zero, suc, sym, ap, ◌∙◌, ◌+◌, ◌≤◌, ◌≡◌, ◌≢◌, refl, inl, inr, true, false, List, Option, none,
  some, ltb, le→leb, ◌==◌, if◌then◌else◌, length, arith, Bool-cases, take, drop,
}
use livox_ros_driver.Common.Int.{ℤ}
use livox_ros_driver.Common.Memory.{Result, ok, ◌>>=◌, Succeeds, ok-Succeeds, bind-Succeeds}
use livox_ros_driver.Monitor.State.{Monitor}
use livox_ros_driver.RecordQueue.{StateRecord, success, same_int, sdk_error, invalid_response}
use livox_ros_driver.LdsLidar.Diagnose.{
  Diagnostics, StatusNumbers, answer_row, base_row, coded_row, read_response, walk_answer,
  observe_walk, success_row, diagnostic_query_callback, emit, end_walk,
}
use livox_ros_driver.Recorder.{Moment}
use livox_ros_driver.Recorder.Fields.{query_fields}
use livox_ros_driver.LdsLidar.Answer.{
  StateKeys, DiagAnswer, Walk, WalkEnd, cut, whole, walk_params, read_bytes, take_param, take_value,
  marked, is_taken, le_value, max_answer, max_params, new_walk,
}

read_bytes-Succeeds :
    (content : List ℕ) (offset n : ℕ)
    → offset + n ≤ length content
    → Succeeds (read_bytes content offset n)
unfolding read_bytes
read_bytes-Succeeds content offset n h =
    rw (le→leb (offset + n) (length content) h) (ok-Succeeds (take n (drop offset content)))

take_param-Succeeds :
    (keys : StateKeys) (content : List ℕ) (offset key len : ℕ) (w : Walk)
    → offset + len ≤ length content
    → Succeeds (take_param keys content offset key len w)
unfolding take_param
take_param-Succeeds keys content offset key len w h = elim (Bool-cases (is_taken keys key len)) [
  | inl taken ↦ rw taken (
      bind-Succeeds (read_bytes content offset len) _ (read_bytes-Succeeds content offset len h)
        (λ value. ok-Succeeds (take_value keys key len value (marked keys key len w))))
  | inr skipped ↦ rw skipped (ok-Succeeds (marked keys key len w))
]

-- The part of a round behind the reads of the key and the length.
walk_param-Succeeds :
    (keys : StateKeys) (content : List ℕ) (count offset key len : ℕ) (w : Walk)
    → max_answer ≤ length content
    → ((next : ℕ) (w' : Walk) → Succeeds (walk_params keys content count next w'))
    → Succeeds (
        if ltb max_answer (offset + 4 + len)
        then ok (cut w)
        else (take_param keys content (offset + 4) key len w >>= λ taken.
            walk_params keys content count (offset + 4 + len) taken))
walk_param-Succeeds keys content count offset key len w h rest =
    elim (Bool-cases (ltb max_answer (offset + 4 + len))) [
      | inl out ↦ rw out (ok-Succeeds (cut w))
      | inr inside ↦ rw inside (
          bind-Succeeds (take_param keys content (offset + 4) key len w) _
            (take_param-Succeeds keys content (offset + 4) key len w (ground (arith, inside)))
            (λ taken. rest (offset + 4 + len) taken))
    ]

-- Whatever bytes an answer has, a walk over 1400 bytes of them ends without a fault.
pub walk_params-Succeeds :
    (keys : StateKeys) (content : List ℕ) (count offset : ℕ) (w : Walk)
    → max_answer ≤ length content
    → Succeeds (walk_params keys content count offset w)
unfolding walk_params
walk_params-Succeeds keys content zero offset w h = ok-Succeeds (whole w)
walk_params-Succeeds keys content (suc count) offset w h =
    elim (Bool-cases (ltb max_answer (offset + 4))) [
      | inl out ↦ rw out (ok-Succeeds (cut w))
      | inr inside ↦ rw inside (
          bind-Succeeds (read_bytes content offset 2) _
            (read_bytes-Succeeds content offset 2 (ground (arith, inside)))
            (λ key_bytes.
              bind-Succeeds (read_bytes content (offset + 2) 2) _
                (read_bytes-Succeeds content (offset + 2) 2 (ground (arith, inside)))
                (λ len_bytes.
                  walk_param-Succeeds keys content count offset (le_value key_bytes)
                    (le_value len_bytes) w h
                    (λ next w'. walk_params-Succeeds keys content count next w' h))))
    ]

-- The memory behind an answer reaches as far as the cap of 1400 bytes.
unfoldable pub Readable : Option DiagAnswer → Type 0
Readable none = Unit {0}
Readable (some answer) = max_answer ≤ length answer.content

-- The SDK reports success, the answer has code 0 and at most 64 parameters, and the walk over all of
-- them reaches its end with `w`.
pub record Complete (sdk : StatusNumbers) (keys : StateKeys) (status : ℤ)
    (response : Option DiagAnswer) (answer : DiagAnswer) (w : Walk) : Type 0 where
  pub given : response ≡ some answer
  pub reported : same_int status sdk.success ≡ true
  pub coded : answer.ret_code ≡ 0
  pub few : answer.param_num ≤ max_params
  pub walked :
      walk_params keys answer.content answer.param_num 0 (new_walk query_fields) ≡ ok (whole w)

-- What the callback makes of an answer: a complete walk is observed and recorded, and without one
-- nothing is observed and the row does not say success.
pub data AnswerOutcome (sdk : StatusNumbers) (keys : StateKeys) (m : Monitor) (now : ℕ) (status : ℤ)
    (response : Option DiagAnswer) : Monitor × StateRecord → Type 0 where
  refused :
      (row : StateRecord)
      → row.result ≢ success
      → ((answer : DiagAnswer) (w : Walk) → ¬ Complete sdk keys status response answer w)
      → AnswerOutcome sdk keys m now status response (m, row)
  succeeded :
      (answer : DiagAnswer) (w : Walk)
      → Complete sdk keys status response answer w
      → AnswerOutcome sdk keys m now status response
          (observe_walk m w now, success_row (coded_row (base_row sdk status) answer) w)

abbrev Answered :
    (sdk : StatusNumbers)
    → StateKeys
    → Monitor
    → ℕ
    → ℤ
    → Option DiagAnswer
    → Result (Monitor × StateRecord)
    → Type 0
Answered sdk keys m now status response r =
    (o : Monitor × StateRecord) × (r ≡ ok o) × AnswerOutcome sdk keys m now status response o

same_answer : (a b : DiagAnswer) → some a ≡ some b → a ≡ b
same_answer a b e = cc

-- The walk of this answer decides.
no_other :
    (sdk : StatusNumbers) (keys : StateKeys) (status : ℤ) (answer : DiagAnswer) (P : Type 0)
    → ((w : Walk)
        → answer.ret_code ≡ 0
        → answer.param_num ≤ max_params
        → walk_params keys answer.content answer.param_num 0 (new_walk query_fields) ≡ ok (whole w)
        → P)
    → (other : DiagAnswer) (w : Walk) → Complete sdk keys status (some answer) other w
    → P
no_other sdk keys status answer P k other w c =
    let e = same_answer answer other c.given in
    k w (ap (λ (a : DiagAnswer). a.ret_code) e ∙ c.coded)
      (subst (λ (a : DiagAnswer). a.param_num ≤ max_params) (sym e) c.few)
      (subst
        (λ (a : DiagAnswer).
          walk_params keys a.content a.param_num 0 (new_walk query_fields) ≡ ok (whole w))
        (sym e) c.walked)

end_walk-Outcome :
    (sdk : StatusNumbers) (keys : StateKeys) (m : Monitor) (now : ℕ) (status : ℤ)
    (answer : DiagAnswer) (reached : WalkEnd)
    → same_int status sdk.success ≡ true
    → answer.ret_code ≡ 0
    → answer.param_num ≤ max_params
    → walk_params keys answer.content answer.param_num 0 (new_walk query_fields) ≡ ok reached
    → AnswerOutcome sdk keys m now status
        (some answer)
        (end_walk m (coded_row (base_row sdk status) answer) now reached)
end_walk-Outcome sdk keys m now status answer (cut w) s c n walked =
    refused (record (coded_row (base_row sdk status) answer) { fields = w.fields }) (λ h. cc)
      (no_other sdk keys status answer ⊥ (λ w' c' n' walked'. ends w w' (sym walked ∙ walked')))
  where
    ends : (w w' : Walk) → ok (cut w) ≢ ok (whole w')
    ends w w' e = cc
end_walk-Outcome sdk keys m now status answer (whole w) s c n walked =
    succeeded answer w (record { given = refl; reported = s; coded = c; few = n; walked = walked })

walk_answer-Outcome :
    (sdk : StatusNumbers) (keys : StateKeys) (m : Monitor) (now : ℕ) (status : ℤ)
    (answer : DiagAnswer)
    → same_int status sdk.success ≡ true
    → max_answer ≤ length answer.content
    → Answered sdk keys m now status
        (some answer)
        (walk_answer keys m now (coded_row (base_row sdk status) answer) answer)
unfolding walk_answer Succeeds base_row
walk_answer-Outcome sdk keys m now status answer s long =
    let row = coded_row (base_row sdk status) answer in
    elim (Bool-cases (answer.ret_code == 0)) [
      | inr wrong ↦ (
        (m, record row { result = sdk_error }),
        rw wrong refl,
        refused (record row { result = sdk_error }) (λ h. cc)
            (no_other sdk keys status answer ⊥ (λ w c n walked. ground (arith, wrong, c))),
      )
      | inl right ↦ elim (Bool-cases (ltb max_params answer.param_num)) [
        | inl many ↦ (
          (m, row),
          rw (right, many) refl,
          refused row (λ h. cc)
              (no_other sdk keys status answer ⊥ (λ w c n walked. ground (arith, many, n))),
        )
        | inr few ↦
            let (reached, walked) =
              walk_params-Succeeds keys answer.content answer.param_num 0 (new_walk query_fields)
                long in
            (
              end_walk m row now reached,
              rw (right, few, walked) refl,
              end_walk-Outcome sdk keys m now status answer reached s (ground (arith, right))
                  (ground (arith, few)) walked,
            )
      ]
    ]

failed_result : (sdk : StatusNumbers) (status : ℤ) → (base_row sdk status).result ≢ success
unfolding base_row
failed_result sdk status h = ground arith

-- Every answer gives a row.
pub answer_row-Outcome :
    (sdk : StatusNumbers) (keys : StateKeys) (m : Monitor) (now : ℕ) (status : ℤ)
    (response : Option DiagAnswer)
    → Readable response
    → (o : Monitor × StateRecord) × (answer_row sdk keys m now status response ≡ ok o)
      × AnswerOutcome sdk keys m now status response o
unfolding answer_row Readable
answer_row-Outcome sdk keys m now status response readable =
    elim (Bool-cases (same_int status sdk.success)) [
      | inr failed ↦ (
        (m, base_row sdk status),
        rw failed refl,
        refused (base_row sdk status) (failed_result sdk status)
            (λ answer w c. ground (arith, failed, c.reported)),
      )
      | inl fine ↦ rw fine (read fine response readable)
    ]
  where
    absent : (answer : DiagAnswer) → none ≢ some answer
    absent answer e = cc

    read :
        same_int status sdk.success ≡ true
        → (given : Option DiagAnswer) → Readable given
        → Answered sdk keys m now status given
            (read_response keys m now (base_row sdk status) given)
    read fine none h = (
      (m, record (base_row sdk status) { result = invalid_response }),
      refl,
      refused (record (base_row sdk status) { result = invalid_response }) (λ e. cc)
          (λ answer w c. absent answer (c.given)),
    )
    read fine (some answer) h = walk_answer-Outcome sdk keys m now status answer fine h

-- `DiagnosticQueryCallback` for the monitored lidar, where the memory behind the answer reaches
-- as far as the cap of 1400 bytes: whatever the bytes, the count and the lengths in them are, it
-- never reads behind that memory. It clears the pending query and hands exactly one row to the
-- recorder, if there is one. If the SDK reports success, the answer has code 0 and at most 64
-- parameters, and the walk over all of them reaches its end, then the monitor observes what that
-- walk collected and the row is the one of success with it; otherwise the monitor is unchanged
-- and the row does not say success.
pub diagnostic_query_callback-Outcome :
    (sdk : StatusNumbers) (keys : StateKeys) (d : Diagnostics) (m : Monitor) (moment : Moment)
    (now : ℕ) (status : ℤ) (response : Option DiagAnswer)
    → d.monitor ≡ some m
    → Readable response
    → (o : Monitor × StateRecord) × (diagnostic_query_callback sdk keys d moment now status d.handle
          response
        ≡ ok (record d {
          query_pending = false;
          monitor = some o.0;
          recorder = emit d.recorder moment o.1;
        }))
      × AnswerOutcome sdk keys m now status response o
unfolding diagnostic_query_callback
diagnostic_query_callback-Outcome sdk keys d m moment now status response e readable =
    let (o, done, outcome) = answer_row-Outcome sdk keys m now status response readable in
    (o, rw (e, self d.handle, done) refl, outcome)
  where
    self : (n : ℕ) → (n == n) ≡ true
    self n = ground arith
