-- ===== src/Heartbeat.antt =====
-- src/functional_safety_heartbeat.h and src/functional_safety_heartbeat.cpp: the heartbeat of the node.
-- `active_faults_`, a `std::set`, is the list of its codes in increasing order; what `publish` hands to
-- ROS is collected in `published`. Each operation is one step, as the mutexes make it.
pub mod Faults
pub mod Sequence
use livox_ros_driver.Common.{
  ℕ, ◌+◌, ◌*◌, ◌^◌, Bool, true, false, List, [], ◌∷◌, ◌++◌, ltb, ◌==◌, if◌then◌else◌, Option, none,
  some, not, ◌||◌,
}
use livox_ros_driver.Comm.{add32}

pub data NodeState : Type 0 where
  not_ready idle running reserved fault : NodeState

pub record HeartbeatConfig : Type 0 where
  pub node_id : ℕ
  pub topic : List ℕ
  pub period : ℕ
  pub qos_depth : ℕ
  pub reliable : Bool

pub record NodeHeartbeat : Type 0 where
  pub node_id : ℕ
  pub boot_id : ℕ
  pub heartbeat_seq : ℕ
  pub work_seq : ℕ
  pub state : NodeState
  pub active_fault : List ℕ

pub record HeartbeatPublisher : Type 0 where
  pub config : HeartbeatConfig
  pub boot_id : ℕ
  pub heartbeat_seq : ℕ
  pub work_seq : ℕ
  pub state : NodeState
  pub stop_requested : Bool
  pub active_faults : List ℕ
  pub published : List NodeHeartbeat

abbrev pub slash : ℕ
slash = 47

abbrev pub is_absolute : List ℕ → Bool
is_absolute [] = false
is_absolute (c ∷ cs) = c == slash

abbrev pub initial_heartbeat : HeartbeatConfig → ℕ → HeartbeatPublisher
initial_heartbeat config boot_id = record {
  config = config;
  boot_id = boot_id;
  heartbeat_seq = 0;
  work_seq = 0;
  state = not_ready;
  stop_requested = false;
  active_faults = [];
  published = [];
}

-- The constructor, with the boot id that `GenerateBootId` drew; `none` where it throws.
unfoldable pub new_heartbeat : HeartbeatConfig → ℕ → Option HeartbeatPublisher
new_heartbeat config boot_id =
    if config.node_id == 0
    then none
    else if not (is_absolute config.topic)
    then none
    else if config.period == 0 || config.qos_depth == 0
    then none
    else some (initial_heartbeat config boot_id)

-- `GenerateBootId` draws pairs of numbers until the id they make is not 0; `none` where the draws of
-- the model run out first. The two halves do not overlap, so the exclusive or is a sum.
unfoldable pub generate_boot_id : List (ℕ × ℕ) → Option ℕ
generate_boot_id [] = none
generate_boot_id ((high, low) ∷ draws) =
    let rest = generate_boot_id draws in
    let boot_id = high * 2 ^ 32 + low in if boot_id == 0 then rest else some boot_id

unfoldable pub set_state : HeartbeatPublisher → NodeState → HeartbeatPublisher
set_state h state = record h { state = state }

-- `std::set::insert` and `std::set::erase`.
unfoldable pub insert_fault : ℕ → List ℕ → List ℕ
insert_fault c [] = c ∷ []
insert_fault c (d ∷ ds) =
    let rest = insert_fault c ds in
    if ltb c d then c ∷ d ∷ ds else if c == d then d ∷ ds else d ∷ rest

unfoldable pub erase_fault : ℕ → List ℕ → List ℕ
erase_fault c [] = []
erase_fault c (d ∷ ds) = let rest = erase_fault c ds in if c == d then ds else d ∷ rest

unfoldable pub erase_all : List ℕ → List ℕ → List ℕ
erase_all [] faults = faults
erase_all (c ∷ cs) faults = erase_all cs (erase_fault c faults)

unfoldable pub insert_all : List ℕ → List ℕ → List ℕ
insert_all [] faults = faults
insert_all (c ∷ cs) faults = insert_all cs (if c == 0 then faults else insert_fault c faults)

unfoldable pub update_faults : HeartbeatPublisher → List ℕ → List ℕ → HeartbeatPublisher
update_faults h failed passed = record h {
  active_faults = insert_all failed (erase_all passed h.active_faults);
}

unfoldable pub advance : ℕ → ℕ
advance sequence = add32 sequence 1

unfoldable pub record_work : HeartbeatPublisher → HeartbeatPublisher
record_work h = record h { work_seq = advance h.work_seq }

unfoldable pub heartbeat_message : HeartbeatPublisher → NodeHeartbeat
heartbeat_message h = record {
  node_id = h.config.node_id;
  boot_id = h.boot_id;
  heartbeat_seq = advance h.heartbeat_seq;
  work_seq = h.work_seq;
  state = h.state;
  active_fault = h.active_faults;
}

unfoldable pub publish_now : HeartbeatPublisher → HeartbeatPublisher
publish_now h = record h {
  heartbeat_seq = advance h.heartbeat_seq;
  published = h.published ++ heartbeat_message h ∷ [];
}

-- `Stop`, but for the thread it joins.
unfoldable pub stop : HeartbeatPublisher → HeartbeatPublisher
stop h = record h { stop_requested = true }

-- One round of the loop of `Run`: the deadline moves by a period, or is set anew from the clock where
-- the round came more than a period late. `now` is the clock after the publication.
unfoldable pub run_round : HeartbeatPublisher → ℕ → ℕ → HeartbeatPublisher × ℕ
run_round h deadline now = if h.stop_requested then (h, deadline) else (
  publish_now h,
  (if ltb (deadline + h.config.period + h.config.period) now
      then now + h.config.period
      else deadline + h.config.period),
)
