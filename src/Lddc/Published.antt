-- ===== src/Lddc/Published.antt =====
-- src/lddc.cpp: where a sequence of messages goes, clouds and IMU samples of any lidars in any order.
use mathlib.Core.Path.{subst}
use livox_ros_driver.Common.{
  ℕ, ◌<◌, ◌≡◌, refl, Bool, true, false, List, [], ◌∷◌, map, Option, some, none, ◌==◌, if◌then◌else◌,
  length, arith, Bool-cases, inl, inr,
}
use livox_ros_driver.Common.Memory.{ok}
use livox_ros_driver.Lds.{Lds}
use livox_ros_driver.ParseCfg.{Inet}
use livox_ros_driver.Lddc.Topics.{
  MessageKind, point_cloud2, custom_msg, imu_msg, Publisher, AllPublishers, Naming, Outgoing, cloud,
  imu, cloud_naming, imu_naming, create_publisher, same_kind, hand_over, get_current_publisher,
  get_current_imu_publisher, publish_pointcloud2_data, publish_custom_point_data,
  publish_imu_message, publish_outgoing, publish_all, new_publishers,
}
use livox_ros_driver.Lddc.Routes.{Creates, Routed, chosen, current_publisher-Routed, null-Routed}

unfoldable pub cloud_kind : ℕ → MessageKind
cloud_kind transfer_format = if transfer_format == 0 then point_cloud2 else custom_msg

-- Who publishes: nobody where the output is not ROS.
abbrev pub sent : ℕ → Publisher → Option Publisher
sent output_type p = if output_type == 0 then some p else none

abbrev index_of : Outgoing → ℕ
index_of (cloud i) = i
index_of (imu i) = i

unfoldable pub AllBelow : List Outgoing → Type 0
AllBelow [] = Unit {0}
AllBelow (m ∷ ms) = (index_of m < 32) × AllBelow ms

same_kind_self : (kind : MessageKind) → same_kind kind kind ≡ true
same_kind_self point_cloud2 = refl
same_kind_self custom_msg = refl
same_kind_self imu_msg = refl

cloud_kind_is :
    (format : ℕ) (clouds : Bool)
    → (format == 0) ≡ clouds
    → cloud_kind format ≡ (if clouds then point_cloud2 else custom_msg)
unfolding cloud_kind
cloud_kind_is format clouds e = rw e refl

imu-Creates : Creates imu_msg imu_naming
unfolding create_publisher
imu-Creates topic queue_size = refl

cloud-Creates : (format : ℕ) → format < 2 → Creates (cloud_kind format) (cloud_naming format)
unfolding create_publisher cloud_kind
cloud-Creates format ros topic queue_size = elim (Bool-cases (format == 0)) [
  | inl zero ↦ rw zero refl
  | inr other ↦ let one : (format == 1) ≡ true = ground (arith, other, ros) in rw (other, one) refl
]

module _ {F : Type 0} (inet : Inet) (l : Lds F) (format : ℕ) where
  pub record AllRouted (all : AllPublishers) : Type 0 where
    pub clouds : Routed inet l (cloud_kind format) (cloud_naming format) all.clouds
    pub imus : Routed inet l imu_msg imu_naming all.imus

  -- The reference: no publisher is kept.
  unfoldable pub route : Bool → Outgoing → Publisher
  route multi (cloud i) = chosen inet l multi (cloud_kind format) (cloud_naming format) i
  route multi (imu i) = chosen inet l multi imu_msg imu_naming i

  pub new_publishers-AllRouted : AllRouted new_publishers
  unfolding new_publishers
  new_publishers-AllRouted = record {
    clouds = null-Routed inet l (cloud_kind format) (cloud_naming format);
    imus = null-Routed inet l imu_msg imu_naming;
  }

  hand_over-chosen :
      (multi : Bool) (kind : MessageKind) (names : Naming) (i output_type : ℕ)
      → hand_over kind output_type (some (chosen inet l multi kind names i))
        ≡ ok (sent output_type (chosen inet l multi kind names i))
  unfolding hand_over chosen
  hand_over-chosen true kind names i output_type = elim (Bool-cases (output_type == 0)) [
    | inl ros ↦ rw (ros, same_kind_self kind) refl
    | inr other ↦ rw other refl
  ]
  hand_over-chosen false kind names i output_type = elim (Bool-cases (output_type == 0)) [
    | inl ros ↦ rw (ros, same_kind_self kind) refl
    | inr other ↦ rw other refl
  ]

  abbrev Published : Bool → ℕ → Outgoing → AllPublishers → Type 0
  Published multi output_type m all =
      (all' : AllPublishers) × (publish_outgoing inet l multi format output_type m all
        ≡ ok (sent output_type (route multi m), all'))
      × AllRouted all'

  imu-Published :
      (multi : Bool) (output_type i : ℕ) (all : AllPublishers)
      → length l.lidars ≡ 32
      → i < 32
      → AllRouted all
      → Published multi output_type (imu i) all
  unfolding publish_outgoing publish_imu_message get_current_imu_publisher route
  imu-Published multi output_type i all devices small r =
      let (ps, e, routed) =
        current_publisher-Routed inet l multi imu_msg imu_naming i all.imus imu-Creates devices
          small r.imus in
      (
        record all { imus = ps },
        rw (e, hand_over-chosen multi imu_msg imu_naming i output_type) refl,
        record { clouds = r.clouds; imus = routed },
      )

  cloud-Published :
      (multi : Bool) (output_type i : ℕ) (all : AllPublishers)
      → length l.lidars ≡ 32
      → format < 2
      → i < 32
      → AllRouted all
      → Published multi output_type (cloud i) all
  unfolding publish_outgoing publish_pointcloud2_data publish_custom_point_data
      get_current_publisher route
  cloud-Published multi output_type i all devices ros small r =
      let (ps, e, routed) =
        current_publisher-Routed inet l multi (cloud_kind format) (cloud_naming format) i all.clouds
          (cloud-Creates format ros) devices small r.clouds in
      let who = chosen inet l multi (cloud_kind format) (cloud_naming format) i in
      let handed = λ (kind : MessageKind) (same : cloud_kind format ≡ kind).
        subst (λ (k : MessageKind). hand_over k output_type (some who) ≡ ok (sent output_type who))
          same (hand_over-chosen multi (cloud_kind format) (cloud_naming format) i output_type) in
      (
        record all { clouds = ps },
        elim (Bool-cases (format == 0)) [
          | inl zero ↦ rw (zero, e, handed point_cloud2 (cloud_kind_is format true zero)) refl
          | inr other ↦
              let one : (format == 1) ≡ true = ground (arith, other, ros) in
              rw (other, one, e, handed custom_msg (cloud_kind_is format false other)) refl
        ],
        record { clouds = routed; imus = r.imus },
      )

  pub publish_outgoing-Published :
      (multi : Bool) (output_type : ℕ) (m : Outgoing) (all : AllPublishers)
      → length l.lidars ≡ 32
      → format < 2
      → index_of m < 32
      → AllRouted all
      → Published multi output_type m all
  publish_outgoing-Published multi output_type (cloud i) all devices ros small r =
      cloud-Published multi output_type i all devices ros small r
  publish_outgoing-Published multi output_type (imu i) all devices ros small r =
      imu-Published multi output_type i all devices small r

  -- With 32 lidars, one of the two formats of ROS 2, and publishers each of which, if it was
  -- made, is the one for its place: whatever clouds and samples of these lidars are published, in
  -- any order, none is published through a null pointer, and where the output is ROS each goes to
  -- the publisher that its kind and its lidar alone determine. Where the output is not ROS
  -- nothing is published.
  pub publish_all_routes :
      (multi : Bool) (output_type : ℕ) (ms : List Outgoing) (all : AllPublishers)
      → length l.lidars ≡ 32
      → format < 2
      → AllBelow ms
      → AllRouted all
      → (all' : AllPublishers) × (publish_all inet l multi format output_type ms all
          ≡ ok (map (λ m. sent output_type (route multi m)) ms, all'))
        × AllRouted all'
  unfolding publish_all AllBelow
  publish_all_routes multi output_type [] all devices ros small r = (all, refl, r)
  publish_all_routes multi output_type (m ∷ ms) all devices ros small r =
      let (all1, e, r1) =
        publish_outgoing-Published multi output_type m all devices ros small.0 r in
      let (all2, rest, r2) = publish_all_routes multi output_type ms all1 devices ros small.1 r1 in
      (all2, rw (e, rest) refl, r2)
