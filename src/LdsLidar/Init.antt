-- ===== src/LdsLidar/Init.antt =====
-- src/lds_lidar.cpp: what the start of `LdsLidar` works on, and the steps of `InitLivoxLidar`. The one
-- object of the process is `g_lds_ldiar`; what the SDK answers, the environment variable and the clocks
-- are arguments, and the calls of the SDK are collected in their order.
use livox_ros_driver.Common.{
  ℕ, suc, ◌/◌, ◌%◌, Bool, not, ◌||◌, List, [], ◌∷◌, ◌++◌, Option, none, some, ◌==◌, if◌then◌else◌,
  length, get_elem?, set,
}
use livox_ros_driver.Common.Int.{ℤ, pos, negsuc}
use livox_ros_driver.Common.Memory.{Result, ok, ◌>>=◌, to_result, out_of_bounds}
use livox_ros_driver.Comm.{livox_lidar_type}
use livox_ros_driver.CacheIndex.{CacheIndex, get_free_index}
use livox_ros_driver.Lds.{Lds, UserLivoxLidarConfig, ExtParameter}
use livox_ros_driver.Monitor.State.{neg_ℕ}
use livox_ros_driver.RecordQueue.{error, same_int}
use livox_ros_driver.Recorder.{
  Recorder, Moment, new_recorder, record_lifecycle, default_file_bytes, default_queue_capacity,
}
use livox_ros_driver.Identity.{Identity}
use livox_ros_driver.ParseCfg.{Inet}
use livox_ros_driver.PubHandler.Timer.{PubHandler, add_lidars_ext_param}
use livox_ros_driver.LdsLidar.Diagnose.{Diagnostics, has_monitor}

pub record LdsLidar (F : Type 0) : Type 0 where
  pub lds : Lds F
  pub is_initialized : Bool
  pub path : List ℕ
  pub lidar_type : ℕ
  pub identity : Option Identity
  pub diagnostics : Diagnostics

-- The calls of the SDK and of the registrations of `pub_handler()`.
pub data SdkCall : Type 0 where
  sdk_init sdk_uninit set_info_change_callback set_info_callback clear_info_callback
        set_point_clouds_callback set_imu_data_callback :
      SdkCall
  add_observer remove_observer : ℕ → SdkCall

-- `LdsLidar` with what it works on: the `pub_handler()`, the parameters of the node and the SDK.
pub record World (F S : Type 0) : Type 0 where
  pub source : LdsLidar F
  pub handler : PubHandler F
  pub server : S
  pub calls : List SdkCall

-- What the surroundings answer: the file, `getenv`, the process, and the two answers of the SDK.
pub record Surroundings : Type 0 where
  pub file : Option (List ℕ)
  pub log_directory : Option (List ℕ)
  pub pid : ℕ
  pub moment : Moment
  pub init_done : Bool
  pub observer_id : ℕ

abbrev pub called : {F S : Type 0} → World F S → List SdkCall → World F S
called w more = record w { calls = w.calls ++ more }

-- `lidar_summary_info_.lidar_type & kLivoxLidarType`.
abbrev pub has_livox_type : ℕ → Bool
has_livox_type lidar_type = lidar_type / livox_lidar_type % 2 == 1

-- Division by 10 rounds towards 0.
unfoldable pub tenth : ℤ → ℤ
tenth (pos n) = pos (n / 10)
tenth (negsuc n) = neg_ℕ (suc n / 10)

abbrev no_text : List ℕ → Bool
no_text text = length text == 0

abbrev directory_of : Option (List ℕ) → List ℕ
directory_of none = []
directory_of (some text) = text

unfoldable pub start_diagnostic_recorder : Inet → Surroundings → Diagnostics → ℕ → Diagnostics
start_diagnostic_recorder inet env d handle = elim d.recorder [
  | some r ↦ d
  | none ↦
      if not (has_monitor d.monitor) || no_text d.role || no_text (directory_of env.log_directory)
      then d
      else record d {
        recorder =
            new_recorder
              (record {
                directory = directory_of env.log_directory;
                role = d.role;
                ip = (if handle == 0 then [] else inet.ip_num_to_string handle);
                handle = handle;
                file_bytes = default_file_bytes;
                queue_capacity = default_queue_capacity;
              })
              env.pid env.moment;
      }
]

abbrev with_lifecycle : Option Recorder → Moment → List ℕ → Option Recorder
with_lifecycle none moment detail = none
with_lifecycle (some r) moment detail = some (record_lifecycle r moment error (some detail))

abbrev pub record_error : Diagnostics → Moment → List ℕ → Diagnostics
record_error d moment detail = record d { recorder = with_lifecycle d.recorder moment detail }

module _ {F : Type 0} where
  -- The parameters for the handler: in centimetres where the lidar sends centimetres.
  unfoldable pub lidar_param : ℕ → UserLivoxLidarConfig F → ExtParameter F
  lidar_param cartesian_low config =
      if same_int config.pcl_data_type (pos cartesian_low)
      then record config.extrinsic_param {
        x = tenth config.extrinsic_param.x;
        y = tenth config.extrinsic_param.y;
        z = tenth config.extrinsic_param.z;
      }
      else config.extrinsic_param

  -- The body of the loop on what `GetFreeIndex` answered and the table behind it.
  unfoldable pub place_device :
      ℕ
      → UserLivoxLidarConfig F
      → Lds F × PubHandler F
      → Option ℕ × CacheIndex
      → Result (Lds F × PubHandler F)
  place_device cartesian_low config (l, h) (none, c) = ok (record l { cache_index = c }, h)
  place_device cartesian_low config (l, h) (some index, c) =
      to_result (get_elem? l.lidars index) out_of_bounds >>= λ device. ok (
        record l {
          cache_index = c;
          lidars = set l.lidars index (record device {
            lidar_type = livox_lidar_type;
            livox_config = config;
            handle = config.handle;
          });
        },
        add_lidars_ext_param h livox_lidar_type config.handle (lidar_param cartesian_low config),
      )

  -- One round of the loop over the configurations.
  unfoldable pub fill_device :
      ℕ → UserLivoxLidarConfig F → Lds F × PubHandler F → Result (Lds F × PubHandler F)
  fill_device cartesian_low config (l, h) =
      place_device cartesian_low config (l, h)
        (get_free_index l.cache_index livox_lidar_type config.handle)

  unfoldable pub fill_devices :
      ℕ → List (UserLivoxLidarConfig F) → Lds F × PubHandler F → Result (Lds F × PubHandler F)
  fill_devices cartesian_low [] s = ok s
  fill_devices cartesian_low (config ∷ configs) s =
      fill_device cartesian_low config s >>= λ s'. fill_devices cartesian_low configs s'

  abbrev pub with_diagnostics : {S : Type 0} → World F S → Diagnostics → World F S
  with_diagnostics w d = record w { source = record w.source { diagnostics = d } }

  -- The tests on the number of configured lidars.
  abbrev pub first_handle : List (UserLivoxLidarConfig F) → ℕ
  first_handle [] = 0
  first_handle (c ∷ cs) = c.handle

  abbrev pub is_single : List (UserLivoxLidarConfig F) → Bool
  is_single configs = length configs == 1

  -- The end of `InitLivoxLidar`: the callbacks.
  unfoldable pub register_callbacks : {S : Type 0} → Surroundings → World F S → World F S
  register_callbacks env w =
      let d = w.source.diagnostics in
      let w' = called w (set_info_change_callback ∷ []) in
      if has_monitor d.monitor
      then called (with_diagnostics w' (record d { observer_id = env.observer_id }))
          (set_info_callback ∷ add_observer env.observer_id ∷ [])
      else w'
