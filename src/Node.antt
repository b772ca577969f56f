-- ===== src/Node.antt =====
-- src/livox_ros_driver2.cpp: what the node for ROS 2 makes of its parameters when it is built: the
-- configuration of the heartbeat, the role and the configuration of the monitor, and the publishing
-- frequency. An exception that the code throws is `invalid`.
pub mod Accepted
use livox_ros_driver.Common.{
  ℕ, zero, suc, Bool, true, false, not, ◌&&◌, ◌||◌, Option, none, some, List, [], ◌∷◌, ltb, leb,
  ◌==◌, if◌then◌else◌,
}
use livox_ros_driver.Common.Int.{ℤ, pos, pos_part, neg_part}
use livox_ros_driver.Common.Eq.{codes, bytes_eq}
use livox_ros_driver.Comm.Floats.{Floats}
use livox_ros_driver.Heartbeat.{HeartbeatConfig, is_absolute}
use livox_ros_driver.Monitor.State.{MonitorConfig}

pub data Loaded (A : Type 0) : Type 0 where
  disabled : Loaded A
  invalid : Loaded A
  loaded : A → Loaded A

pub record HeartbeatParameters : Type 0 where
  pub node_id : ℤ
  pub topic : List ℕ
  pub period_ms : ℤ
  pub qos_depth : ℤ
  pub qos_reliability : List ℕ

abbrev pub is_zero : ℤ → Bool
is_zero z = pos_part z == 0 && neg_part z == 0

abbrev pub is_positive : ℤ → Bool
is_positive z = ltb 0 (pos_part z)

abbrev no_topic : List ℕ → Bool
no_topic [] = true
no_topic (c ∷ cs) = false

abbrev reliable_name : List ℕ
reliable_name = codes "reliable"

abbrev best_effort_name : List ℕ
best_effort_name = codes "best_effort"

unfoldable pub load_heartbeat_config : HeartbeatParameters → Loaded HeartbeatConfig
load_heartbeat_config p =
    if is_zero p.node_id && no_topic p.topic
    then disabled
    else if not (is_positive p.node_id) || ltb 65535 (pos_part p.node_id)
    then invalid
    else if not (is_absolute p.topic)
    then invalid
    else if not (is_positive p.period_ms) || not (is_positive p.qos_depth)
    then invalid
    else if not (bytes_eq p.qos_reliability best_effort_name)
        && not (bytes_eq p.qos_reliability reliable_name)
    then invalid
    else loaded (record {
      node_id = pos_part p.node_id;
      topic = p.topic;
      period = pos_part p.period_ms;
      qos_depth = pos_part p.qos_depth;
      reliable = bytes_eq p.qos_reliability reliable_name;
    })

-- `role_ids`; `none` is -1.
unfoldable pub default_role : ℕ → Option ℕ
default_role node_id =
    if node_id == 7
    then some 0
    else if node_id == 12
    then some 1
    else if node_id == 8
    then some 2
    else if node_id == 9
    then some 3
    else none

pub record DtcParameters : Type 0 where
  pub role : ℤ
  pub enabled : Bool
  pub data_timeout_ms : ℤ
  pub state_timeout_ms : ℤ
  pub startup_grace_ms : ℤ
  pub min_valid_points : ℤ
  pub max_sync_offset_ns : ℤ

abbrev pub is_negative : ℤ → Bool
is_negative z = ltb 0 (neg_part z)

-- The role and the configuration of the monitor; `has_heartbeat` is that the heartbeat was made.
unfoldable pub load_monitor_config : Bool → DtcParameters → Loaded (ℕ × MonitorConfig)
load_monitor_config has_heartbeat p =
    if not p.enabled
    then disabled
    else if not has_heartbeat || is_negative p.role || leb 4 (pos_part p.role)
    then invalid
    else if not (is_positive p.data_timeout_ms)
        || ltb (pos_part p.state_timeout_ms) 1000
        || is_negative p.startup_grace_ms
        || not (is_positive p.min_valid_points)
    then invalid
    else if not (is_positive p.max_sync_offset_ns)
    then invalid
    else loaded (
      pos_part p.role,
      record {
        data_timeout = pos_part p.data_timeout_ms;
        state_timeout = pos_part p.state_timeout_ms;
        startup_grace = pos_part p.startup_grace_ms;
        min_valid_points = pos_part p.min_valid_points;
        max_sync_offset_ns = pos_part p.max_sync_offset_ns;
      },
    )

module _ (fl : Floats) where
  open fl use {Float, of_ℤ, div, lt}

  -- The frequency in Hz is held between 0.5 and 100.
  unfoldable pub limit_publish_freq : Float → Float
  limit_publish_freq publish_freq =
      if lt (of_ℤ (pos 100)) publish_freq
      then of_ℤ (pos 100)
      else if lt publish_freq (div (of_ℤ (pos 1)) (of_ℤ (pos 2)))
      then div (of_ℤ (pos 1)) (of_ℤ (pos 2))
      else publish_freq
