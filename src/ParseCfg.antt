-- ===== src/ParseCfg.antt =====
-- src/parse_cfg_file/parse_cfg_file.cpp and src/parse_cfg_file/parse_livox_lidar_cfg.cpp: the
-- configuration file. A file is its bytes, `none` where it cannot be opened; a getter on a value
-- of another type fails an assertion of the JSON library.
pub mod Options
use livox_ros_driver.Common.{
  ℕ, ◌-◌, ◌%◌, Bool, true, false, not, List, [], ◌∷◌, ◌++◌, Option, none, some, ltb, ◌==◌,
  if◌then◌else◌, length,
}
use livox_ros_driver.Common.Int.{ℤ, pos, negsuc}
use livox_ros_driver.Common.Eq.{codes}
use livox_ros_driver.Common.Memory.{Result, ok, fault, ◌>>=◌, to_result, failed_assertion}
use livox_ros_driver.Comm.Floats.{Floats}
use livox_ros_driver.Json.{Json}
use livox_ros_driver.Lds.{UserLivoxLidarConfig, ExtParameter}

-- The conversions of `inet_addr` and `inet_ntoa`, behind `IpStringToNum` and `IpNumToString`.
pub record Inet : Type 0 where
  pub ip_string_to_num : List ℕ → ℕ
  pub ip_num_to_string : ℕ → List ℕ

-- The casts to `uint8_t` and `int8_t`.
unfoldable pub to_uint8 : ℤ → ℕ
to_uint8 (pos n) = n % 256
to_uint8 (negsuc n) = 255 - n % 256

unfoldable pub to_int8 : ℤ → ℤ
to_int8 z = if ltb (to_uint8 z) 128 then pos (to_uint8 z) else negsuc (255 - to_uint8 z)

module _ (fl : Floats) (json : Json fl.Float) where
  open fl use {Float}
  open json use {Value}

  -- `HasMember` asserts an object.
  abbrev pub member : Value → List ℕ → Result (Option Value)
  member v name = if json.is_object v then ok (json.find_member v name) else fault failed_assertion

  -- `value[name].GetInt()` where the member is there.
  unfoldable pub int_member : Value → List ℕ → ℤ → (ℤ → ℤ) → Result ℤ
  int_member v name default cast = member v name >>= λ found. elim found [
    | none ↦ ok default
    | some w ↦ to_result (json.as_int w) failed_assertion >>= λ n. ok (cast n)
  ]

  unfoldable pub float_member : Value → List ℕ → Result Float
  float_member v name = member v name >>= λ found. elim found [
    | none ↦ ok (fl.of_ℤ (pos 0))
    | some w ↦ to_result (json.as_float w) failed_assertion
  ]

  unfoldable pub parse_extrinsics : Value → Result (ExtParameter Float)
  parse_extrinsics v = do
    roll ← float_member v (codes "roll")
    pitch ← float_member v (codes "pitch")
    yaw ← float_member v (codes "yaw")
    x ← int_member v (codes "x") (pos 0) (λ n. n)
    y ← int_member v (codes "y") (pos 0) (λ n. n)
    z ← int_member v (codes "z") (pos 0) (λ n. n)
    ok (record { roll = roll; pitch = pitch; yaw = yaw; x = x; y = y; z = z })

  abbrev pub no_extrinsics : ExtParameter Float
  no_extrinsics = record {
    roll = fl.of_ℤ (pos 0);
    pitch = fl.of_ℤ (pos 0);
    yaw = fl.of_ℤ (pos 0);
    x = pos 0;
    y = pos 0;
    z = pos 0;
  }

  abbrev pub extrinsic_member : Value → Result (ExtParameter Float)
  extrinsic_member v = member v (codes "extrinsic_parameter") >>= λ found. elim found [
    | none ↦ ok no_extrinsics
    | some w ↦ parse_extrinsics w
  ]

  -- One round of the loop behind the test for the address.
  unfoldable pub parse_config : Inet → Value → Value → Result (UserLivoxLidarConfig Float)
  parse_config inet v ip = do
    address ← to_result (json.as_string ip) failed_assertion
    pcl_data_type ← int_member v (codes "pcl_data_type") (negsuc 0) to_int8
    pattern_mode ← int_member v (codes "pattern_mode") (negsuc 0) to_int8
    blind_spot_set ← int_member v (codes "blind_spot_set") (negsuc 0) to_int8
    dual_emit_en ← int_member v (codes "dual_emit_en") (negsuc 0) (λ n. to_int8 (pos (to_uint8 n)))
    extrinsic_param ← extrinsic_member v
    ok (record {
      handle = inet.ip_string_to_num address;
      pcl_data_type = pcl_data_type;
      pattern_mode = pattern_mode;
      blind_spot_set = blind_spot_set;
      dual_emit_en = dual_emit_en;
      extrinsic_param = extrinsic_param;
      set_bits = 0;
      get_bits = 0;
    })

  -- The loop, with the configurations that it pushes.
  unfoldable pub parse_user_configs : Inet → List Value → Result (List (UserLivoxLidarConfig Float))
  parse_user_configs inet [] = ok []
  parse_user_configs inet (v ∷ vs) = do
    ip ← member v (codes "ip")
    elim ip [
      | none ↦ parse_user_configs inet vs
      | some address ↦ do
        config ← parse_config inet v address
        configs ← parse_user_configs inet vs
        ok (config ∷ configs)
    ]

  -- `Parse` behind the parsing of the file: on the array, and on its member of the document.
  unfoldable pub parse_entries :
      Inet → Option (List Value) → Result (Bool × List (UserLivoxLidarConfig Float))
  parse_entries inet none = ok (false, [])
  parse_entries inet (some vs) =
      if length vs == 0
      then ok (false, [])
      else (parse_user_configs inet vs >>= λ configs. ok (not (length configs == 0), configs))

  unfoldable pub parse_member :
      Inet → Option Value → Result (Bool × List (UserLivoxLidarConfig Float))
  parse_member inet none = ok (false, [])
  parse_member inet (some entries) = parse_entries inet (json.as_array entries)

  -- `Parse`: what it answers, and `lidar_configs` behind it, from those before.
  unfoldable pub parse_configs :
      Inet
      → Option (List ℕ)
      → List (UserLivoxLidarConfig Float)
      → Result (Bool × List (UserLivoxLidarConfig Float))
  parse_configs inet none before = ok (false, before)
  parse_configs inet (some bytes) before = elim (json.parse bytes) [
    | none ↦ ok (false, [])
    | some doc ↦ member doc (codes "lidar_configs") >>= λ found. parse_member inet found
  ]

  -- The type in `object`, a value that is an object.
  abbrev lidar_type_of : Value → Option ℕ
  lidar_type_of object = elim (json.find_member object (codes "lidar_type")) [
    | none ↦ none
    | some v ↦ json.as_uint v
  ]

  abbrev summary_of : Option Value → ℕ → Bool × ℕ
  summary_of none before = (false, before)
  summary_of (some object) before =
      if not (json.is_object object)
      then (false, before)
      else elim (lidar_type_of object) [ none ↦ (false, before) | some n ↦ (true, n % 256) ]

  -- `ParseSummaryInfo`: what it answers and the lidar type, from the one before.
  unfoldable pub parse_summary_info : Option (List ℕ) → ℕ → Result (Bool × ℕ)
  parse_summary_info none before = ok (false, before)
  parse_summary_info (some bytes) before = elim (json.parse bytes) [
    | none ↦ ok (false, before)
    | some doc ↦ member doc (codes "lidar_summary_info") >>= λ found. ok (summary_of found before)
  ]
