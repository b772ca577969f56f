-- ===== src/Lddc/Configured.antt =====
-- src/lds_lidar.cpp with src/lddc.cpp: the topic of a lidar that the configuration names.
use mathlib.Core.Path.{subst}
use mathlib.Core.Option.{some-injective}
use livox_ros_driver.Common.{
  ℕ, zero, suc, ◌≤◌, ◌<◌, ◌≡◌, refl, ap, ◌∙◌, true, List, [], ◌∷◌, some, length, get_elem?, arith,
  get_elem?-some_lt,
}
use livox_ros_driver.Common.Memory.{ok}
use livox_ros_driver.Comm.{livox_lidar_type}
use livox_ros_driver.CacheIndex.{get_index}
use livox_ros_driver.Lds.{Lds, LidarDevice, UserLivoxLidarConfig}
use livox_ros_driver.ParseCfg.{Inet}
use livox_ros_driver.PubHandler.Timer.{PubHandler}
use livox_ros_driver.LdsLidar.Init.{fill_devices}
use livox_ros_driver.LdsLidar.Slots.{free_count}
use livox_ros_driver.LdsLidar.Filled.{Ready, Holds, AllHold, AllDiffer, fill_devices-AllFilled}
use livox_ros_driver.Lddc.Topics.{
  AllPublishers, cloud, cloud_naming, new_publishers, publish_outgoing,
}
use livox_ros_driver.Lddc.Routes.{handle_at, publisher_of, chosen}
use livox_ros_driver.Lddc.Published.{
  cloud_kind, route, publish_outgoing-Published, new_publishers-AllRouted,
}

module _ {F : Type 0} where
  one_of :
      (cartesian_low : ℕ) (s : Lds F × PubHandler F) (configs : List (UserLivoxLidarConfig F))
      (k : ℕ) (config : UserLivoxLidarConfig F)
      → AllHold cartesian_low s configs
      → get_elem? configs k ≡ some config
      → Holds cartesian_low s config
  unfolding AllHold
  one_of cartesian_low s [] k config all e = cc
  one_of cartesian_low s (c ∷ cs) zero config all e =
      subst (Holds cartesian_low s) (some-injective c config e) all.0
  one_of cartesian_low s (c ∷ cs) (suc k) config all e = one_of cartesian_low s cs k config all.1 e

  route_of :
      (inet : Inet) (l : Lds F) (format index handle : ℕ)
      → handle_at inet l index ≡ handle
      → route inet l format true (cloud index)
        ≡ publisher_of inet l (cloud_kind format) (cloud_naming format) handle
  unfolding route chosen
  route_of inet l format index handle e =
      ap (publisher_of inet l (cloud_kind format) (cloud_naming format)) e

  handle_at_device :
      (inet : Inet) (l : Lds F) (i : ℕ) (device : LidarDevice F)
      → get_elem? l.lidars i ≡ some device
      → handle_at inet l i ≡ device.handle
  handle_at_device inet l i device at = rw (at, handle_at) refl

  -- From the configuration to the topic: on configurations with different handles, a data source
  -- with 32 devices, a valid slot table and a free slot for each configuration, with one of the
  -- two formats of ROS 2 and private topics: the loop of `InitLivoxLidar` ends without a fault,
  -- every configured lidar has a slot, and the first cloud of that slot, published where the
  -- output is ROS, goes to a new publisher on the topic of the configured address.
  pub configured_topic :
      (inet : Inet) (cartesian_low format k : ℕ) (configs : List (UserLivoxLidarConfig F))
      (l : Lds F) (h : PubHandler F) (config : UserLivoxLidarConfig F)
      → Ready l
      → length configs ≤ free_count l.cache_index.index_cache
      → AllDiffer configs
      → format < 2
      → get_elem? configs k ≡ some config
      → (s : Lds F × PubHandler F) × (fill_devices cartesian_low configs (l, h) ≡ ok s)
        × (index : ℕ) × (get_index s.0.cache_index livox_lidar_type config.handle ≡ some index)
        × (all : AllPublishers) × (publish_outgoing inet s.0 true format 0
              (cloud index)
              new_publishers
            ≡ ok (
              some (publisher_of inet s.0 (cloud_kind format) (cloud_naming format) config.handle),
              all,
            ))
  configured_topic inet cartesian_low format k configs l h config ready room differ ros at =
      let (s, done, filled) =
        fill_devices-AllFilled cartesian_low configs (l, h) ready room differ in
      let held = one_of cartesian_low s configs k config filled.held at in
      let small : held.index < 32 = omega (
        arith,
        get_elem?-some_lt s.0.lidars held.index held.device held.at,
        filled.ready.devices,
      ) in
      let (all, published, routed) =
        publish_outgoing-Published inet s.0 format true 0 (cloud held.index) new_publishers
          (filled.ready.devices) ros small (new_publishers-AllRouted inet s.0 format) in
      let address : handle_at inet s.0 held.index ≡ config.handle =
        handle_at_device inet s.0 held.index held.device held.at ∙ held.own in
      (
        s,
        done,
        held.index,
        held.slot,
        all,
        published
            ∙ ap (λ p. ok (some p, all))
                (route_of inet s.0 format held.index config.handle address),
      )
