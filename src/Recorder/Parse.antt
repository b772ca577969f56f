-- ===== src/Recorder/Parse.antt =====
-- src/lidar_state_recorder.cpp: `ParseSdkJson`, on the JSON that the SDK made of a state.
use livox_ros_driver.Common.{
  ℕ, ◌-◌, ◌&&◌, Bool, true, false, List, [], ◌∷◌, ◌++◌, Option, none, some, leb, ltb, ◌==◌,
  if◌then◌else◌, length, take, replicate,
}
use livox_ros_driver.Json.{Json}
use livox_ros_driver.RecordQueue.{StateFields}
use livox_ros_driver.Recorder.Fields.{
  FieldId, hms, work_state, sync_type, local_time, last_sync, time_offset, core_temp, powerup_count,
  serial, app_version, loader_version, hardware_version, voltage, uptime, valid, invalid,
  field_name, set_status, new_fields, parsed_fields,
}

-- The bytes of a serial number: 1 to 16, printable (0 is not).
unfoldable pub all_printable : List ℕ → Bool
all_printable [] = true
all_printable (byte ∷ bytes) = leb 32 byte && leb byte 126 && all_printable bytes

unfoldable pub is_serial : List ℕ → Bool
is_serial text = leb 1 (length text) && leb (length text) 16 && all_printable text

-- One case of the `switch`: a value that passed its tests is stored.
abbrev stored : {A : Type 0} → Option A → (A → StateFields) → Option StateFields
stored none store = none
stored (some a) store = some (store a)

abbrev byte_of : Option ℕ → Option ℕ
byte_of none = none
byte_of (some n) = if leb n 255 then some n else none

abbrev serial_of : Option (List ℕ) → Option (List ℕ)
serial_of none = none
serial_of (some text) = if is_serial text then some text else none

module _ {F : Type 0} (json : Json F) where
  open json use {Value}

  -- Every element passes its test.
  unfoldable pub all_values : (Value → Option ℕ) → List Value → Option (List ℕ)
  all_values get [] = some []
  all_values get (v ∷ vs) = elim (get v) [
    | none ↦ none
    | some n ↦ elim (all_values get vs) [ none ↦ none | some ns ↦ some (n ∷ ns) ]
  ]

  -- An array of exactly `n` numbers.
  unfoldable pub array_of : (Value → Option ℕ) → ℕ → Option (List Value) → Option (List ℕ)
  array_of get n none = none
  array_of get n (some vs) = if length vs == n then all_values get vs else none

  abbrev version_of : Value → Option (List ℕ)
  version_of v = array_of (λ w. byte_of (json.as_uint w)) 4 (json.as_array v)

  -- The `switch`; `none` is `valid == false`.
  unfoldable pub read_field : FieldId → Value → StateFields → Option StateFields
  read_field hms v out =
      stored (array_of json.as_uint 8 (json.as_array v)) (λ a. record out { hms = a })
  read_field work_state v out =
      stored (byte_of (json.as_uint v)) (λ a. record out { work_state = a })
  read_field sync_type v out = stored (byte_of (json.as_uint v)) (λ a. record out { sync_type = a })
  read_field local_time v out = stored (json.as_uint64 v) (λ a. record out { local_time = a })
  read_field last_sync v out = stored (json.as_uint64 v) (λ a. record out { last_sync = a })
  read_field time_offset v out = stored (json.as_int64 v) (λ a. record out { time_offset = a })
  read_field core_temp v out = stored (json.as_int v) (λ a. record out { core_temp = a })
  read_field powerup_count v out = stored (json.as_uint v) (λ a. record out { powerup_count = a })
  read_field serial v out =
      stored (serial_of (json.as_string v))
        (λ a. record out { serial = a ++ replicate (17 - length a) 0 })
  read_field app_version v out = stored (version_of v) (λ a. record out { app_version = a })
  read_field loader_version v out = stored (version_of v) (λ a. record out { loader_version = a })
  read_field hardware_version v out =
      stored (version_of v) (λ a. record out { hardware_version = a })
  read_field voltage v out = none
  read_field uptime v out = none

  abbrev with_status : FieldId → StateFields → Option StateFields → StateFields
  with_status field out none = set_status out field invalid
  with_status field out (some out') = set_status out' field valid

  -- The body of the loop.
  unfoldable pub parse_field : Value → StateFields → FieldId → StateFields
  parse_field doc out field = elim (json.find_member doc (field_name field)) [
    | none ↦ out
    | some v ↦ with_status field out (read_field field v out)
  ]

  unfoldable pub parse_fields : Value → StateFields → List FieldId → StateFields
  parse_fields doc out [] = out
  parse_fields doc out (field ∷ fields) = parse_fields doc (parse_field doc out field) fields

  -- What the function answers, and `out`.
  unfoldable pub parse_sdk_json : Option (List ℕ) → ℕ → Bool × StateFields
  parse_sdk_json none size = (false, new_fields)
  parse_sdk_json (some text) size =
      if ltb 16384 size then (false, new_fields) else elim (json.parse (take size text)) [
        | none ↦ (false, new_fields)
        | some doc ↦
            if json.is_object doc
            then (true, parse_fields doc new_fields parsed_fields)
            else (false, new_fields)
      ]
