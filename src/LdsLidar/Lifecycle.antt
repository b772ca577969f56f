-- ===== src/LdsLidar/Lifecycle.antt =====
-- src/lds_lidar.cpp: the early returns of `InitLivoxLidar`, and what `DeInitLdsLidar` leaves.
use livox_ros_driver.Common.{ℕ, ◌≡◌, refl, Bool, true, false, List, [], arith}
use livox_ros_driver.Common.Memory.{ok}
use livox_ros_driver.Common.Int.{pos}
use livox_ros_driver.Comm.Floats.{Floats}
use livox_ros_driver.Json.{Json}
use livox_ros_driver.Lds.{UserLivoxLidarConfig}
use livox_ros_driver.Identity.Server.{ParameterServer}
use livox_ros_driver.ParseCfg.{Inet, parse_configs}
use livox_ros_driver.LdsLidar.Diagnose.{has_monitor}
use livox_ros_driver.LdsLidar.Init.{World, Surroundings, is_single}
use livox_ros_driver.LdsLidar.Start.{init_livox_lidar, init_lds_lidar, deinit_lds_lidar}

module _ (fl : Floats) (json : Json fl.Float) (inet : Inet) (ps : ParameterServer)
    (cartesian_low : ℕ) where
  -- A monitored source without exactly one parsed configuration is refused before the SDK starts.
  pub init_livox_lidar_single :
      (env : Surroundings) (w : World fl.Float ps.Server) (parsed : Bool)
      (configs : List (UserLivoxLidarConfig fl.Float))
      → has_monitor w.source.diagnostics.monitor ≡ true
      → parse_configs fl json inet env.file [] ≡ ok (parsed, configs)
      → is_single configs ≡ false
      → init_livox_lidar fl json inet ps cartesian_low env w ≡ ok (false, w)
  unfolding init_livox_lidar
  init_livox_lidar_single env w parsed configs monitored e several = rw (e, monitored, several) refl

  init_refused :
      (env : Surroundings) (path : List ℕ) (w : World fl.Float ps.Server)
      → w.source.is_initialized ≡ true
      → init_lds_lidar fl json inet ps cartesian_low env path w ≡ ok (false, w)
  unfolding init_lds_lidar
  init_refused env path w h = ground (arith, h)

  -- After `DeInitLdsLidar` of an initialized source a second `DeInitLdsLidar` answers 0 again,
  -- and `InitLdsLidar` answers false and changes nothing.
  pub deinit_keeps_initialized :
      (env : Surroundings) (path : List ℕ) (w : World fl.Float ps.Server)
      → w.source.is_initialized ≡ true
      → let after = (deinit_lds_lidar w).1 in
        ((deinit_lds_lidar after).0 ≡ pos 0)
        × (init_lds_lidar fl json inet ps cartesian_low env path after ≡ ok (false, after))
  unfolding deinit_lds_lidar
  deinit_keeps_initialized env path w h =
      (ground (arith, h), init_refused env path (deinit_lds_lidar w).1 (ground (arith, h)))
