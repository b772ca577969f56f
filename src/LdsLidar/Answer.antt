-- ===== src/LdsLidar/Answer.antt =====
-- src/lds_lidar.cpp: the walk of `DiagnosticQueryCallback` over the parameters of an answer. A read
-- behind the bytes of the answer is a fault. The host is little-endian.
use livox_ros_driver.Common.{
  ℕ, zero, suc, ◌+◌, ◌-◌, ◌*◌, ◌^◌, Bool, true, false, not, ◌&&◌, List, [], ◌∷◌, leb, ltb, ◌==◌,
  if◌then◌else◌, length, take, drop,
}
use livox_ros_driver.Common.Int.{ℤ, pos, negsuc}
use livox_ros_driver.Common.Memory.{Result, ok, fault, ◌>>=◌, out_of_bounds}
use livox_ros_driver.RecordQueue.{StateFields}
use livox_ros_driver.Recorder.Fields.{
  FieldId, hms, work_state, sync_type, local_time, last_sync, time_offset, invalid, set_status,
}

-- The cap on the bytes of an answer.
abbrev pub max_answer : ℕ
max_answer = 1400

abbrev pub max_params : ℕ
max_params = 64

-- The keys that the SDK gives to the six fields.
pub record StateKeys : Type 0 where
  pub hms_code : ℕ
  pub cur_work_state : ℕ
  pub time_sync_type : ℕ
  pub local_time_now : ℕ
  pub last_sync_time : ℕ
  pub time_offset : ℕ

-- What the code reads of `LivoxLidarDiagInternalInfoResponse`: `content` is the memory at `data`.
pub record DiagAnswer : Type 0 where
  pub ret_code : ℕ
  pub param_num : ℕ
  pub content : List ℕ

unfoldable pub read_bytes : List ℕ → ℕ → ℕ → Result (List ℕ)
read_bytes content offset n =
    if leb (offset + n) (length content)
    then ok (take n (drop offset content))
    else fault out_of_bounds

unfoldable pub le_value : List ℕ → ℕ
le_value [] = 0
le_value (b ∷ bs) = b + 256 * le_value bs

-- Eight `uint32_t`.
unfoldable pub le_words : ℕ → List ℕ → List ℕ
le_words zero bs = []
le_words (suc n) bs = le_value (take 4 bs) ∷ le_words n (drop 4 bs)

-- The bits of a `uint64_t` as an `int64_t`.
abbrev pub signed64 : ℕ → ℤ
signed64 n = if ltb n (2 ^ 63) then pos n else negsuc (2 ^ 64 - 1 - n)

-- The local variables of the loop; the last four are the bits of `sync_fields`.
pub record Walk : Type 0 where
  pub fields : StateFields
  pub hms_codes : List ℕ
  pub state : ℕ
  pub sync : ℕ
  pub local : ℕ
  pub last : ℕ
  pub offset : ℤ
  pub hms_seen : Bool
  pub work_seen : Bool
  pub sync_type_seen : Bool
  pub local_seen : Bool
  pub last_seen : Bool
  pub offset_seen : Bool

-- One `if (key == ... && length != ...)`.
abbrev mark : Bool → FieldId → StateFields → StateFields
mark wrong field fields = if wrong then set_status fields field invalid else fields

unfoldable pub mark_invalid : StateKeys → ℕ → ℕ → StateFields → StateFields
mark_invalid keys key len fields = mark (key == keys.time_offset && not (len == 8)) time_offset (
    mark (key == keys.last_sync_time && not (len == 8)) last_sync (
      mark (key == keys.local_time_now && not (len == 8)) local_time (
        mark (key == keys.time_sync_type && not (len == 1)) sync_type (
          mark (key == keys.cur_work_state && not (len == 1)) work_state
            (mark (key == keys.hms_code && not (len == 32)) hms fields)))))

-- The `if` chain on one parameter, whose `len` bytes are `value`.
unfoldable pub take_value : StateKeys → ℕ → ℕ → List ℕ → Walk → Walk
take_value keys key len value w =
    if key == keys.hms_code && len == 32
    then record w { hms_codes = le_words 8 value; hms_seen = true }
    else if key == keys.cur_work_state && len == 1
    then record w { state = le_value value; work_seen = true }
    else if key == keys.time_sync_type && len == 1
    then record w { sync = le_value value; sync_type_seen = true }
    else if key == keys.local_time_now && len == 8
    then record w { local = le_value value; local_seen = true }
    else if key == keys.last_sync_time && len == 8
    then record w { last = le_value value; last_seen = true }
    else if key == keys.time_offset && len == 8
    then record w { offset = signed64 (le_value value); offset_seen = true }
    else w

abbrev pub marked : StateKeys → ℕ → ℕ → Walk → Walk
marked keys key len w = record w { fields = mark_invalid keys key len w.fields }

-- Whether the key is one of the six, with its length: the code reads the value of no other.
unfoldable pub is_taken : StateKeys → ℕ → ℕ → Bool
is_taken keys key len =
    if key == keys.hms_code && len == 32
    then true
    else if key == keys.cur_work_state && len == 1
    then true
    else if key == keys.time_sync_type && len == 1
    then true
    else if key == keys.local_time_now && len == 8
    then true
    else if key == keys.last_sync_time && len == 8
    then true
    else key == keys.time_offset && len == 8

unfoldable pub take_param : StateKeys → List ℕ → ℕ → ℕ → ℕ → Walk → Result Walk
take_param keys content offset key len w =
    if is_taken keys key len
    then (read_bytes content offset len >>= λ value.
        ok (take_value keys key len value (marked keys key len w)))
    else ok (marked keys key len w)

-- Where the loop ends: with a `return` behind a parameter that is cut off, or with its last one.
pub data WalkEnd : Type 0 where
  cut whole : Walk → WalkEnd

unfoldable pub walk_params : StateKeys → List ℕ → ℕ → ℕ → Walk → Result WalkEnd
walk_params keys content zero offset w = ok (whole w)
walk_params keys content (suc count) offset w =
    if ltb max_answer (offset + 4)
    then ok (cut w)
    else (read_bytes content offset 2 >>= λ key_bytes.
        read_bytes content (offset + 2) 2 >>= λ len_bytes.
        let key = le_value key_bytes in
        let len = le_value len_bytes in
        if ltb max_answer (offset + 4 + len)
        then ok (cut w)
        else (take_param keys content (offset + 4) key len w >>= λ taken.
            walk_params keys content count (offset + 4 + len) taken))

unfoldable pub new_walk : StateFields → Walk
new_walk fields = record {
  fields = fields;
  hms_codes = 0 ∷ 0 ∷ 0 ∷ 0 ∷ 0 ∷ 0 ∷ 0 ∷ 0 ∷ [];
  state = 0;
  sync = 0;
  local = 0;
  last = 0;
  offset = pos 0;
  hms_seen = false;
  work_seen = false;
  sync_type_seen = false;
  local_seen = false;
  last_seen = false;
  offset_seen = false;
}
