-- ===== src/LdsLidar/Start.antt =====
-- src/lds_lidar.cpp: `InitLdsLidar` with its early returns, and `DeInitLdsLidar`.
use livox_ros_driver.Common.{
  ℕ, Bool, true, false, not, List, [], ◌∷◌, ◌++◌, Option, none, some, if◌then◌else◌,
}
use livox_ros_driver.Common.Int.{ℤ, pos, negsuc}
use mathlib.Core.Option as Option
use livox_ros_driver.Common.Eq.{codes}
use livox_ros_driver.Common.Memory.{Result, ok, ◌>>=◌}
use livox_ros_driver.Comm.Floats.{Floats}
use livox_ros_driver.Json.{Json}
use livox_ros_driver.Lds.{UserLivoxLidarConfig}
use livox_ros_driver.Recorder.{stop_recorder}
use livox_ros_driver.Identity.{LidarInfo, configure_identity, observe_identity}
use livox_ros_driver.Identity.Server.{ParameterServer}
use livox_ros_driver.ParseCfg.{Inet, parse_configs, parse_summary_info}
use livox_ros_driver.PubHandler.Timer.{set_point_cloud_config}
use livox_ros_driver.LdsLidar.Diagnose.{has_monitor}
use livox_ros_driver.LdsLidar.Init.{
  LdsLidar, World, Surroundings, called, has_livox_type, start_diagnostic_recorder, record_error,
  fill_devices, with_diagnostics, first_handle, is_single, register_callbacks, sdk_init, sdk_uninit,
  clear_info_callback, set_point_clouds_callback, set_imu_data_callback, remove_observer,
}

module _ (fl : Floats) (json : Json fl.Float) (inet : Inet) (ps : ParameterServer)
    (cartesian_low : ℕ) where
  open fl use {Float}
  open ps use {Server}

  -- `ObserveIdentity`, at the time `now` of the node.
  unfoldable pub observe_lidar_identity :
      World Float Server → ℤ → ℕ → Option LidarInfo → World Float Server
  observe_lidar_identity w now handle info = elim w.source.identity [
    | none ↦ w
    | some i ↦
        let (done, (identity, server)) = observe_identity ps i w.server now handle info in
        record w { source = record w.source { identity = some identity }; server = server }
  ]

  -- `InitLivoxLidar` from the SDK on, on what its tests let through.
  unfoldable pub init_sdk :
      Surroundings
      → List (UserLivoxLidarConfig Float)
      → World Float Server
      → Result (Bool × World Float Server)
  init_sdk env configs w =
      let d = start_diagnostic_recorder inet env w.source.diagnostics w.source.diagnostics.handle in
      let w' = called (with_diagnostics w d) (sdk_init ∷ []) in
      if not env.init_done
      then ok (false, w')
      else (fill_devices cartesian_low configs (w'.source.lds, w'.handler) >>= λ (lds, handler).
          ok (
            true,
            register_callbacks env
                (record w' { source = record w'.source { lds = lds }; handler = handler }),
          ))

  -- The test of the identity.
  unfoldable pub init_identity :
      Surroundings
      → List (UserLivoxLidarConfig Float)
      → World Float Server
      → Result (Bool × World Float Server)
  init_identity env configs w = elim w.source.identity [
    | none ↦ init_sdk env configs w
    | some i ↦
        if not (is_single configs)
        then ok (false, w)
        else let handle = first_handle configs in
          let after = configure_identity ps i w.server handle (inet.ip_num_to_string handle) in
          init_sdk env configs
            (record w { source = record w.source { identity = some after.0 }; server = after.1 })
  ]

  -- `InitLivoxLidar`, which goes on where the file cannot be parsed.
  unfoldable pub init_livox_lidar :
      Surroundings → World Float Server → Result (Bool × World Float Server)
  init_livox_lidar env w = parse_configs fl json inet env.file [] >>= λ (parsed, configs).
      let d = w.source.diagnostics in
      if not (has_monitor d.monitor)
      then init_identity env configs w
      else if not (is_single configs)
      then ok (false, w)
      else init_identity env configs
          (with_diagnostics w (record d { handle = first_handle configs }))

  unfoldable pub init_lidars :
      Surroundings → World Float Server → Result (Bool × World Float Server)
  init_lidars env w =
      parse_summary_info fl json env.file w.source.lidar_type >>= λ (parsed, lidar_type).
      let w' = record w { source = record w.source { lidar_type = lidar_type } } in
      if not parsed
      then ok (false, w')
      else if has_livox_type lidar_type
      then init_livox_lidar env w'
      else ok (true, w')

  unfoldable pub set_lidar_pub_handle : World Float Server → World Float Server
  set_lidar_pub_handle w =
      called (record w { handler = set_point_cloud_config fl w.handler w.source.lds.publish_freq })
        (set_point_clouds_callback ∷ set_imu_data_callback ∷ [])

  abbrev livox_lidar_start : Bool
  livox_lidar_start = true

  unfoldable pub start_lidars : LdsLidar Float → Bool
  start_lidars l = if has_livox_type l.lidar_type then livox_lidar_start else true

  -- `InitLdsLidar` behind `InitLidars`.
  unfoldable pub finish_init : Surroundings → Bool → World Float Server → Bool × World Float Server
  finish_init env false w =
      let d = start_diagnostic_recorder inet env w.source.diagnostics 0 in
      (false, with_diagnostics w (record_error d env.moment (codes "lidar_initialization_failed")))
  finish_init env true w =
      let w' = set_lidar_pub_handle w in
      if start_lidars w'.source
      then (true, record w' { source = record w'.source { is_initialized = true } })
      else (
        false,
        with_diagnostics w'
            (record_error w'.source.diagnostics env.moment (codes "lidar_start_failed")),
      )

  unfoldable pub init_lds_lidar :
      Surroundings → List ℕ → World Float Server → Result (Bool × World Float Server)
  init_lds_lidar env path w =
      if w.source.is_initialized
      then ok (false, w)
      else (init_lidars env (record w { source = record w.source { path = path } })
          >>= λ (done, w'). ok (finish_init env done w'))

-- `DeInitLdsLidar`: what it answers, and the end of the recorder up to the join of its thread.
unfoldable pub deinit_lds_lidar : {F S : Type 0} → World F S → ℤ × World F S
deinit_lds_lidar w =
    let d = w.source.diagnostics in
    let removed =
      if has_monitor d.monitor
      then remove_observer d.observer_id ∷ clear_info_callback ∷ []
      else [] in
    if not w.source.is_initialized
    then (negsuc 0, w)
    else if has_livox_type w.source.lidar_type
    then (
      pos 0,
      called
          (record w {
            source = record w.source {
              diagnostics = record d { recorder = Option.map stop_recorder d.recorder };
              identity = none;
            };
          })
          (removed ++ sdk_uninit ∷ []),
    )
    else (pos 0, w)
