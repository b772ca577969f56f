-- ===== src/Node/Accepted.antt =====
-- src/livox_ros_driver2.cpp: what the parameters that the node accepts are good for.
use livox_ros_driver.Common.{
  ℕ, zero, suc, ◌^◌, ◌≡◌, ◌≤◌, ◌<◌, refl, Bool, true, false, ◌||◌, some, List, ◌==◌, arith, length,
}
use livox_ros_driver.Heartbeat.{HeartbeatConfig, new_heartbeat, initial_heartbeat, is_absolute}
use livox_ros_driver.Monitor.Codes.{dtc_codes}
use livox_ros_driver.Monitor.State.{MonitorConfig}
use livox_ros_driver.Node.{
  loaded, HeartbeatParameters, load_heartbeat_config, DtcParameters, load_monitor_config,
}

-- What the constructor of the heartbeat asks of its configuration.
pub record Complete (c : HeartbeatConfig) : Type 0 where
  pub node_id : (c.node_id == 0) ≡ false
  pub word : c.node_id < 2 ^ 16
  pub topic : is_absolute c.topic ≡ true
  pub counts : (c.period == 0 || c.qos_depth == 0) ≡ false

load_heartbeat_config-Complete :
    (p : HeartbeatParameters) (c : HeartbeatConfig)
    → load_heartbeat_config p ≡ loaded c
    → Complete c
unfolding load_heartbeat_config
load_heartbeat_config-Complete p c e = record {
  node_id = ground arith;
  word = ground arith;
  topic = ground arith;
  counts = ground arith;
}

-- A heartbeat configuration that `LoadHeartbeatConfig` accepts never makes the constructor of the
-- heartbeat throw, and its node id fits 16 bits.
pub load_heartbeat_config_accepted :
    (p : HeartbeatParameters) (c : HeartbeatConfig) (boot_id : ℕ)
    → load_heartbeat_config p ≡ loaded c
    → (new_heartbeat c boot_id ≡ some (initial_heartbeat c boot_id)) × (c.node_id < 2 ^ 16)
unfolding new_heartbeat
load_heartbeat_config_accepted p c boot_id e =
    let ok = load_heartbeat_config-Complete p c e in
    (rw (ok.node_id, ok.topic, ok.counts) refl, ok.word)

role_codes :
    (role : ℕ) → role < 4 → (codes : List ℕ) × (dtc_codes role ≡ some codes) × (length codes ≡ 11)
unfolding dtc_codes
role_codes zero h = (_, refl, refl)
role_codes (suc zero) h = (_, refl, refl)
role_codes (suc (suc zero)) h = (_, refl, refl)
role_codes (suc (suc (suc zero))) h = (_, refl, refl)
role_codes (suc (suc (suc (suc n)))) h = absurd (omega arith)

load_monitor_config_role :
    (has_heartbeat : Bool) (p : DtcParameters) (role : ℕ) (c : MonitorConfig)
    → load_monitor_config has_heartbeat p ≡ loaded (role, c)
    → (role < 4)
      × (has_heartbeat ≡ true)
      × (0 < c.data_timeout)
      × (1000 ≤ c.state_timeout)
      × (0 < c.min_valid_points)
      × (0 < c.max_sync_offset_ns)
unfolding load_monitor_config
load_monitor_config_role has_heartbeat p role c e =
    (ground arith, ground arith, ground arith, ground arith, ground arith, ground arith)

-- A monitor configuration that the node accepts comes with a heartbeat and with a role that has
-- its eleven codes; its data timeout, its least number of points and its limit of the offset are
-- positive, and its state timeout is at least a second.
pub load_monitor_config_accepted :
    (has_heartbeat : Bool) (p : DtcParameters) (role : ℕ) (c : MonitorConfig)
    → load_monitor_config has_heartbeat p ≡ loaded (role, c)
    → ((codes : List ℕ) × (dtc_codes role ≡ some codes) × (length codes ≡ 11))
      × (has_heartbeat ≡ true)
      × (0 < c.data_timeout)
      × (1000 ≤ c.state_timeout)
      × (0 < c.min_valid_points)
      × (0 < c.max_sync_offset_ns)
load_monitor_config_accepted has_heartbeat p role c e =
    let checked = load_monitor_config_role has_heartbeat p role c e in
    (role_codes role checked.0, checked.1, checked.2, checked.3, checked.4, checked.5)
