-- ===== src/Tests/Topics.antt =====
-- Runs of src/lddc.cpp: clouds and samples of several lidars on their topics, and the names of
-- two lidars.
use livox_ros_driver.Common.{some, ℕ, ◌+◌, ◌≡◌, ◌≢◌, refl, true, List, [], ◌∷◌, map, length, arith}
use livox_ros_driver.Common.Eq.{codes}
use livox_ros_driver.Common.Memory.{ok}
use livox_ros_driver.ParseCfg.{Inet}
use livox_ros_driver.Lddc.Topics.{
  AllPublishers, Outgoing, cloud, imu, publish_all, new_publishers, private_topic, publish_outgoing,
  cloud_naming,
}
use livox_ros_driver.Lddc.Published.{
  AllRouted, AllBelow, sent, route, cloud_kind, new_publishers-AllRouted, publish_all_routes,
}
use livox_ros_driver.Lddc.Distinct.{IsDotted, NoUnderline, private_topics_differ}
use livox_ros_driver.Comm.{livox_lidar_type}
use livox_ros_driver.CacheIndex.{new, get_index}
use livox_ros_driver.CacheIndex.Invariant.{new-IsValid}
use livox_ros_driver.Lds.{Lds}
use livox_ros_driver.PubHandler.Timer.{PubHandler}
use livox_ros_driver.LdsLidar.Init.{fill_devices}
use livox_ros_driver.Lddc.Routes.{publisher_of}
use livox_ros_driver.Lddc.Configured.{configured_topic}
use livox_ros_driver.Tests.Queues.{source, no_config}
use livox_ros_driver.Tests.Framing.{framing}
use livox_ros_driver.Tests.Startup.{two_configs, two_configs_room, two_configs_differ}

-- An address as one character behind the underline.
abbrev inet : Inet
inet = record {
  ip_string_to_num = λ text. length text;
  ip_num_to_string = λ handle. (handle + 96) ∷ [];
}

abbrev messages : List Outgoing
messages = cloud 3 ∷ imu 3 ∷ cloud 4 ∷ cloud 3 ∷ []

publish_all_routes_example :
    (all : AllPublishers) × (publish_all inet source true 1 0 messages new_publishers
      ≡ ok (map (λ m. sent 0 (route inet source 1 true m)) messages, all))
    × AllRouted inet source 1 all
unfolding AllBelow
publish_all_routes_example =
    publish_all_routes inet source 1 true 0 messages new_publishers refl (omega arith)
      (omega arith, (omega arith, (omega arith, (omega arith, tt))))
      (new_publishers-AllRouted inet source 1)

inet-IsDotted : IsDotted inet
unfolding NoUnderline
inet-IsDotted = record {
  short = λ h. omega arith;
  plain = λ h. (λ e. absurd (omega arith), tt);
  injective = λ a b wa wb e. one_char a b e;
}
  where
    one_char : (a b : ℕ) → (a + 96) ∷ [] ≡ (b + 96) ∷ [] → a ≡ b
    one_char a b e = let same : a + 96 ≡ b + 96 = cc in omega (arith, same)

private_topics_differ_example :
    private_topic inet (codes "livox/imu_") 3 ≢ private_topic inet (codes "livox/imu_") 4
private_topics_differ_example =
    private_topics_differ inet (codes "livox/imu_") 3 4 inet-IsDotted (omega arith) (omega arith)
      (omega arith) (λ e. absurd (omega (arith, e)))

abbrev start : Lds ℕ
start = record source { cache_index = new }

configured_topic_example :
    (s : Lds ℕ × PubHandler ℕ) × (fill_devices 2 two_configs (start, framing) ≡ ok s)
    × (index : ℕ) × (get_index s.0.cache_index livox_lidar_type 8 ≡ some index)
    × (all : AllPublishers) × (publish_outgoing inet s.0 true 1 0 (cloud index) new_publishers
        ≡ ok (some (publisher_of inet s.0 (cloud_kind 1) (cloud_naming 1) 8), all))
configured_topic_example =
    configured_topic inet 2 1 1 two_configs start framing (record no_config { handle = 8 })
      (record { devices = refl; index_valid = new-IsValid }) two_configs_room two_configs_differ
      (omega arith) refl
