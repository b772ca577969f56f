-- ===== src/Tests/Parameters.antt =====
-- Runs of src/livox_ros_driver2.cpp on parameters that the node accepts.
use livox_ros_driver.Common.{ℕ, ◌≡◌, ◌≤◌, ◌<◌, refl, true, some, List, length}
use livox_ros_driver.Common.Int.{pos}
use livox_ros_driver.Common.Eq.{codes}
use livox_ros_driver.Heartbeat.{HeartbeatConfig}
use livox_ros_driver.Monitor.Codes.{dtc_codes}
use livox_ros_driver.Monitor.State.{MonitorConfig}
use livox_ros_driver.Node.{HeartbeatParameters, DtcParameters, load_monitor_config}
use livox_ros_driver.Node.Accepted.{load_monitor_config_accepted}

abbrev parameters : HeartbeatParameters
parameters = record {
  node_id = pos 7;
  topic = codes "/heartbeat";
  period_ms = pos 100;
  qos_depth = pos 1;
  qos_reliability = codes "reliable";
}

abbrev accepted : HeartbeatConfig
accepted = record {
  node_id = 7;
  topic = codes "/heartbeat";
  period = 100;
  qos_depth = 1;
  reliable = true;
}

abbrev front : DtcParameters
front = record {
  role = pos 0;
  enabled = true;
  data_timeout_ms = pos 500;
  state_timeout_ms = pos 2500;
  startup_grace_ms = pos 8000;
  min_valid_points = pos 1;
  max_sync_offset_ns = pos 1_000_000;
}

abbrev monitor : MonitorConfig
monitor = record {
  data_timeout = 500;
  state_timeout = 2500;
  startup_grace = 8000;
  min_valid_points = 1;
  max_sync_offset_ns = 1_000_000;
}

load_monitor_config_accepted_example :
    ((codes : List ℕ) × (dtc_codes 0 ≡ some codes) × (length codes ≡ 11))
    × (true ≡ true)
    × (0 < 500)
    × (1000 ≤ 2500)
    × (0 < 1)
    × (0 < 1_000_000)
unfolding load_monitor_config
load_monitor_config_accepted_example = load_monitor_config_accepted true front 0 monitor refl
