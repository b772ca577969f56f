-- ===== src/Callback.antt =====
-- src/call_back/livox_lidar_callback.cpp: what the SDK calls back when a lidar appears and when it
-- answers a request. The calls of the SDK are collected as commands, in their order. `client_data` is
-- the data source, which the driver registers with every request that uses it. What `ObserveIdentity`
-- records is no part of this state.
pub mod Bits
pub mod Configure
use livox_ros_driver.Common.{
  ℕ, zero, suc, ◌+◌, ◌-◌, ◌/◌, ◌%◌, Bool, true, false, not, Option, none, some, List, [], ◌∷◌, ◌++◌,
  ◌==◌, if◌then◌else◌, get_elem?, set,
}
use livox_ros_driver.Common.Int.{ℤ, pos, negsuc}
use livox_ros_driver.Comm.{livox_lidar_type, LidarConnectState, sampling}
use livox_ros_driver.Lds.{Lds, LidarDevice, UserLivoxLidarConfig, ExtParameter}
use livox_ros_driver.CacheIndex.{CacheIndex, get_index, get_free_index}

-- `LivoxLidarConfigCodeBit`.
pub data ConfigCode : Type 0 where
  data_type scan_pattern blind_spot dual_emit : ConfigCode

unfoldable pub code_bit : ConfigCode → ℕ
code_bit data_type = 1
code_bit scan_pattern = 2
code_bit blind_spot = 4
code_bit dual_emit = 8

-- `set_bits & bit`, `set_bits |= bit` and `set_bits &= ~bit` for one bit.
unfoldable pub test_bit : ℕ → ConfigCode → Bool
unfolding code_bit
test_bit bits data_type = bits / 1 % 2 == 1
test_bit bits scan_pattern = bits / 2 % 2 == 1
test_bit bits blind_spot = bits / 4 % 2 == 1
test_bit bits dual_emit = bits / 8 % 2 == 1

unfoldable pub raise_bit : ℕ → ConfigCode → ℕ
raise_bit bits code = if test_bit bits code then bits else bits + code_bit code

unfoldable pub clear_bit : ℕ → ConfigCode → ℕ
clear_bit bits code = if test_bit bits code then bits - code_bit code else bits

-- A `livox_status`; the codes other than success and timeout are handled alike.
pub data LivoxStatus : Type 0 where
  success timeout failure : LivoxStatus

pub data SdkCommand (F : Type 0) : Type 0 where
  set_option : ConfigCode → ℕ → ℤ → SdkCommand F
  set_install_attitude : ℕ → ExtParameter F → SdkCommand F
  set_work_mode_normal : ℕ → SdkCommand F
  enable_imu_data : ℕ → SdkCommand F

-- The value -1 stands for an option that is not configured.
abbrev pub is_configured : ℤ → Bool
is_configured (pos n) = true
is_configured (negsuc zero) = false
is_configured (negsuc (suc n)) = true

module _ {F : Type 0} where
  -- The device and its index; `none` is the null pointer. `CacheIndex` hands out indices of the array.
  unfoldable pub get_lidar_device : Lds F → ℕ → Option (ℕ × LidarDevice F)
  get_lidar_device l handle = elim (get_index l.cache_index livox_lidar_type handle) [
    | none ↦ none
    | some index ↦ elim (get_elem? l.lidars index) [
      | none ↦ none
      | some device ↦ some (index, device)
    ]
  ]

  abbrev pub option_value : UserLivoxLidarConfig F → ConfigCode → ℤ
  option_value config data_type = config.pcl_data_type
  option_value config scan_pattern = config.pattern_mode
  option_value config blind_spot = config.blind_spot_set
  option_value config dual_emit = config.dual_emit_en

  abbrev pub with_set_bits : LidarDevice F → ℕ → LidarDevice F
  with_set_bits d bits = record d { livox_config = record d.livox_config { set_bits = bits } }

  -- One `if (config.… != -1)` of `LidarInfoChangeCallback`.
  unfoldable pub request_option :
      ConfigCode → ℕ → LidarDevice F × List (SdkCommand F) → LidarDevice F × List (SdkCommand F)
  request_option code handle (d, cs) =
      if is_configured (option_value d.livox_config code)
      then (
        with_set_bits d (raise_bit d.livox_config.set_bits code),
        cs ++ set_option code handle (option_value d.livox_config code) ∷ [],
      )
      else (d, cs)

  -- The four options of a known device, in the code's order.
  unfoldable pub request_options : ℕ → LidarDevice F → LidarDevice F × List (SdkCommand F)
  request_options handle d = request_option dual_emit handle (
      request_option blind_spot handle
        (request_option scan_pattern handle (request_option data_type handle (d, []))))

  abbrev work_mode_commands : ℕ → List (SdkCommand F)
  work_mode_commands handle = set_work_mode_normal handle ∷ enable_imu_data handle ∷ []

  -- A device that the configuration does not name takes a free slot, of which only `lidar_type` is set.
  unfoldable pub lidar_info_change_unknown : Lds F → ℕ → Lds F × List (SdkCommand F)
  lidar_info_change_unknown l handle =
      let r = get_free_index l.cache_index livox_lidar_type handle in
      elim r.0 [
        | none ↦ (record l { cache_index = r.1 }, [])
        | some index ↦ (
          record l {
            cache_index = r.1;
            lidars = elim (get_elem? l.lidars index) [
              | none ↦ l.lidars
              | some d ↦ set l.lidars index (record d { lidar_type = livox_lidar_type })
            ];
          },
          work_mode_commands handle,
        )
      ]

  unfoldable pub lidar_info_change_callback : Lds F → ℕ → Lds F × List (SdkCommand F)
  lidar_info_change_callback l handle = elim (get_lidar_device l handle) [
    | none ↦ lidar_info_change_unknown l handle
    | some (index, device) ↦
        let r = request_options handle device in
        (
          record l { lidars = set l.lidars index r.0 },
          r.1
              ++ set_install_attitude device.livox_config.handle device.livox_config.extrinsic_param
                ∷ work_mode_commands handle,
        )
  ]

  unfoldable pub work_mode_changed_callback : LivoxStatus → ℕ → List (SdkCommand F)
  work_mode_changed_callback success handle = []
  work_mode_changed_callback timeout handle = set_work_mode_normal handle ∷ []
  work_mode_changed_callback failure handle = set_work_mode_normal handle ∷ []

  -- What the answer to the request of one option does to the device.
  unfoldable pub answer_option :
      ConfigCode → LivoxStatus → ℕ → LidarDevice F → LidarDevice F × List (SdkCommand F)
  answer_option code success handle d =
      let bits = clear_bit d.livox_config.set_bits code in
      let cleared = with_set_bits d bits in
      ((if bits == 0 then record cleared { connect_state = sampling } else cleared), [])
  answer_option code timeout handle d =
      (d, set_option code handle (option_value d.livox_config code) ∷ [])
  answer_option code failure handle d = (d, [])

  unfoldable pub set_option_callback :
      ConfigCode → Lds F → LivoxStatus → ℕ → Lds F × List (SdkCommand F)
  set_option_callback code l status handle = elim (get_lidar_device l handle) [
    | none ↦ (l, [])
    | some (index, device) ↦
        let r = answer_option code status handle device in
        (record l { lidars = set l.lidars index r.0 }, r.1)
  ]

  unfoldable pub set_data_type_callback : Lds F → LivoxStatus → ℕ → Lds F × List (SdkCommand F)
  set_data_type_callback = set_option_callback data_type

  unfoldable pub set_pattern_mode_callback : Lds F → LivoxStatus → ℕ → Lds F × List (SdkCommand F)
  set_pattern_mode_callback = set_option_callback scan_pattern

  unfoldable pub set_blind_spot_callback : Lds F → LivoxStatus → ℕ → Lds F × List (SdkCommand F)
  set_blind_spot_callback = set_option_callback blind_spot

  unfoldable pub set_dual_emit_callback : Lds F → LivoxStatus → ℕ → Lds F × List (SdkCommand F)
  set_dual_emit_callback = set_option_callback dual_emit

  unfoldable pub set_attitude_callback : Lds F → LivoxStatus → ℕ → List (SdkCommand F)
  set_attitude_callback l status handle = elim (get_lidar_device l handle) [
    | none ↦ []
    | some (index, device) ↦ elim status [
      | success ↦ []
      | timeout ↦
          set_install_attitude device.livox_config.handle device.livox_config.extrinsic_param ∷ []
      | failure ↦ []
    ]
  ]

  -- `has_response` is false where the response is a null pointer.
  unfoldable pub enable_imu_data_callback : Lds F → LivoxStatus → ℕ → Bool → List (SdkCommand F)
  enable_imu_data_callback l status handle has_response = elim (get_lidar_device l handle) [
    | none ↦ []
    | some (index, device) ↦
        if not has_response
        then []
        else elim status [ success ↦ [] | timeout ↦ enable_imu_data handle ∷ [] | failure ↦ [] ]
  ]
