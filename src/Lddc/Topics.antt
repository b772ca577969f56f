-- ===== src/Lddc/Topics.antt =====
-- src/lddc.cpp, as built for ROS 2: the publishers of `Lddc`, which are made when they are first
-- needed, and what hands a message to one. A publisher is known by what `create_publisher` was
-- given.
use livox_ros_driver.Common.{
  ℕ, Bool, true, false, List, [], ◌∷◌, ◌++◌, ◌*◌, Option, none, some, ◌==◌, if◌then◌else◌,
  get_elem?, set, replicate, take,
}
use livox_ros_driver.Common.Eq.{codes}
use livox_ros_driver.Common.Memory.{
  Result, ok, fault, ◌>>=◌, to_result, out_of_bounds, null_pointer,
}
use livox_ros_driver.Comm.Names.{replace_period_by_underline}
use livox_ros_driver.Lds.{Lds}
use livox_ros_driver.ParseCfg.{Inet}
use livox_ros_driver.Lddc.Polling.{pointcloud2_msg, livox_custom_msg}

-- The argument of the template `rclcpp::Publisher`.
pub data MessageKind : Type 0 where
  point_cloud2 custom_msg imu_msg : MessageKind

pub record Publisher : Type 0 where
  pub kind : MessageKind
  pub topic : List ℕ
  pub queue_size : ℕ

-- `private_pub_` with `global_pub_`, or `private_imu_pub_` with `global_imu_pub_`.
pub record Publishers : Type 0 where
  pub own : List (Option Publisher)
  pub global : Option Publisher

pub record AllPublishers : Type 0 where
  pub clouds : Publishers
  pub imus : Publishers

-- The members that `Lddc` starts with: 32 null pointers and one, twice.
unfoldable pub new_publishers : AllPublishers
new_publishers = record {
  clouds = record { own = replicate 32 none; global = none };
  imus = record { own = replicate 32 none; global = none };
}

abbrev pub livox_imu_msg : ℕ
livox_imu_msg = 3

unfoldable pub create_publisher : ℕ → List ℕ → ℕ → Option Publisher
create_publisher msg_type topic_name queue_size =
    if msg_type == pointcloud2_msg
    then some (record { kind = point_cloud2; topic = topic_name; queue_size = queue_size })
    else if msg_type == livox_custom_msg
    then some (record { kind = custom_msg; topic = topic_name; queue_size = queue_size })
    else if msg_type == livox_imu_msg
    then some (record { kind = imu_msg; topic = topic_name; queue_size = queue_size })
    else none

-- The `snprintf` into `name_str`, which has 48 bytes.
unfoldable pub private_topic : Inet → List ℕ → ℕ → List ℕ
private_topic inet prefix handle =
    take 47 (prefix ++ replace_period_by_underline (inet.ip_num_to_string handle))

abbrev pub min_eth_packet_queue_size : ℕ
min_eth_packet_queue_size = 32

-- The names that `GetCurrentPublisher` and `GetCurrentImuPublisher` differ in.
pub record Naming : Type 0 where
  pub msg_type : ℕ
  pub prefix : List ℕ
  pub global_topic : List ℕ

abbrev pub cloud_naming : ℕ → Naming
cloud_naming transfer_format = record {
  msg_type = transfer_format;
  prefix = codes "livox/lidar_";
  global_topic = codes "livox/lidar";
}

abbrev pub imu_naming : Naming
imu_naming = record {
  msg_type = livox_imu_msg;
  prefix = codes "livox/imu_";
  global_topic = codes "livox/imu";
}

abbrev pub same_kind : MessageKind → MessageKind → Bool
same_kind point_cloud2 point_cloud2 = true
same_kind custom_msg custom_msg = true
same_kind imu_msg imu_msg = true
same_kind _ _ = false

-- The cast of the pointer, and `publish` through it where the output is ROS: who publishes.
unfoldable pub hand_over : MessageKind → ℕ → Option Publisher → Result (Option Publisher)
hand_over kind output_type none = if output_type == 0 then fault null_pointer else ok none
hand_over kind output_type (some p) =
    if output_type == 0
    then (if same_kind p.kind kind then ok (some p) else fault null_pointer)
    else ok none

-- What the threads publish, with the index of the lidar.
pub data Outgoing : Type 0 where
  cloud imu : ℕ → Outgoing

module _ {F : Type 0} (inet : Inet) (l : Lds F) (use_multi_topic : Bool) where
  -- The body that the two functions share.
  unfoldable pub current_publisher :
      Naming → ℕ → Publishers → Result (Option Publisher × Publishers)
  current_publisher names handle ps =
      if use_multi_topic
      then (to_result (get_elem? ps.own handle) out_of_bounds >>= λ present. elim present [
        | some p ↦ ok (some p, ps)
        | none ↦ to_result (get_elem? l.lidars handle) out_of_bounds >>= λ device.
            let made =
              create_publisher names.msg_type (private_topic inet names.prefix device.handle)
                (min_eth_packet_queue_size * 2) in
            ok (made, record ps { own = set ps.own handle made })
      ])
      else elim ps.global [
        | some p ↦ ok (some p, ps)
        | none ↦
            let made =
              create_publisher names.msg_type names.global_topic (min_eth_packet_queue_size * 8) in
            ok (made, record ps { global = made })
      ]

  unfoldable pub get_current_publisher :
      ℕ → ℕ → AllPublishers → Result (Option Publisher × AllPublishers)
  get_current_publisher transfer_format handle all =
      current_publisher (cloud_naming transfer_format) handle all.clouds >>= λ r.
      ok (r.0, record all { clouds = r.1 })

  unfoldable pub get_current_imu_publisher :
      ℕ → AllPublishers → Result (Option Publisher × AllPublishers)
  get_current_imu_publisher handle all =
      current_publisher imu_naming handle all.imus >>= λ r. ok (r.0, record all { imus = r.1 })

  unfoldable pub publish_pointcloud2_data :
      ℕ → ℕ → ℕ → AllPublishers → Result (Option Publisher × AllPublishers)
  publish_pointcloud2_data transfer_format output_type index all =
      get_current_publisher transfer_format index all >>= λ r.
      hand_over point_cloud2 output_type r.0 >>= λ sent. ok (sent, r.1)

  unfoldable pub publish_custom_point_data :
      ℕ → ℕ → ℕ → AllPublishers → Result (Option Publisher × AllPublishers)
  publish_custom_point_data transfer_format output_type index all =
      get_current_publisher transfer_format index all >>= λ r.
      hand_over custom_msg output_type r.0 >>= λ sent. ok (sent, r.1)

  -- The end of `PublishImuData`.
  unfoldable pub publish_imu_message :
      ℕ → ℕ → AllPublishers → Result (Option Publisher × AllPublishers)
  publish_imu_message output_type index all = get_current_imu_publisher index all >>= λ r.
      hand_over imu_msg output_type r.0 >>= λ sent. ok (sent, r.1)

  -- The cloud is published as the format tells the polling loop; a third format publishes nothing.
  unfoldable pub publish_outgoing :
      ℕ → ℕ → Outgoing → AllPublishers → Result (Option Publisher × AllPublishers)
  publish_outgoing transfer_format output_type (imu index) all =
      publish_imu_message output_type index all
  publish_outgoing transfer_format output_type (cloud index) all =
      if transfer_format == pointcloud2_msg
      then publish_pointcloud2_data transfer_format output_type index all
      else if transfer_format == livox_custom_msg
      then publish_custom_point_data transfer_format output_type index all
      else ok (none, all)

  unfoldable pub publish_all :
      ℕ → ℕ → List Outgoing → AllPublishers → Result (List (Option Publisher) × AllPublishers)
  publish_all transfer_format output_type [] all = ok ([], all)
  publish_all transfer_format output_type (m ∷ ms) all =
      publish_outgoing transfer_format output_type m all >>= λ r.
      publish_all transfer_format output_type ms r.1 >>= λ rest. ok (r.0 ∷ rest.0, rest.1)
