-- ===== src/LdsLidar/Filled.antt =====
-- src/lds_lidar.cpp: the devices that the loop of `InitLivoxLidar` fills from the configurations.
use mathlib.Core.Path.{subst}
use livox_ros_driver.Common.{
  ℕ, suc, ◌≤◌, ◌<◌, ◌≡◌, ◌≢◌, refl, sym, ap, ◌∙◌, List, [], ◌∷◌, Option, some, length, get_elem?,
  set, arith, length-set, get_elem?-set_self, get_elem?-set_ne, get_elem?_lt,
}
use livox_ros_driver.Common.Eq.{nat_eq, bytes_eq_instance, beq_refl, beq_false}
use livox_ros_driver.Common.Assoc.{lookup, insert, lookup-insert}
use livox_ros_driver.Common.Memory.{ok}
use livox_ros_driver.Comm.{livox_lidar_type}
use livox_ros_driver.CacheIndex.{CacheIndex, get_free_index, get_index}
use livox_ros_driver.CacheIndex.Invariant.{IsValid, get_free_index-IsValid}
use livox_ros_driver.CacheIndex.Behaviour.{get_free_index-some, get_index_injective}
use livox_ros_driver.Lds.{Lds, LidarDevice, UserLivoxLidarConfig, ExtParameter}
use livox_ros_driver.PubHandler.Timer.{PubHandler, get_lidar_id, add_lidars_ext_param}
use livox_ros_driver.LdsLidar.Init.{lidar_param, place_device, fill_device, fill_devices}
use livox_ros_driver.LdsLidar.Scaled.{IsScaled, lidar_param-IsScaled}
use livox_ros_driver.LdsLidar.Slots.{free_count, get_free_index-count, slot_given}

module _ {V : Type 0} where
  lookup_inserted : (k : ℕ) (v : V) (m : List (ℕ × V)) → lookup k (insert k v m) ≡ some v
  lookup_inserted k v m = rw (lookup-insert k k v m, beq_refl k) refl

  lookup_other : (k j : ℕ) (v : V) (m : List (ℕ × V)) → k ≢ j → lookup j (insert k v m) ≡ lookup j m
  lookup_other k j v m ne = rw (lookup-insert k j v m, beq_false k j ne) refl

module _ {F : Type 0} where
  -- A data source with 32 devices and a valid table of slots.
  pub record Ready (l : Lds F) : Type 0 where
    pub devices : length l.lidars ≡ 32
    pub index_valid : IsValid l.cache_index

  -- The device of a configured lidar has its configuration, handle and type, and the handler has its
  -- parameters.
  pub record Holds (cartesian_low : ℕ) (s : Lds F × PubHandler F) (config : UserLivoxLidarConfig F)
      : Type 0 where
    pub index : ℕ
    pub device : LidarDevice F
    pub slot : get_index s.0.cache_index livox_lidar_type config.handle ≡ some index
    pub at : get_elem? s.0.lidars index ≡ some device
    pub same : device.livox_config ≡ config
    pub own : device.handle ≡ config.handle
    pub kind : device.lidar_type ≡ livox_lidar_type
    pub param : ExtParameter F
    pub stored : lookup config.handle s.1.lidar_extrinsics ≡ some param
    pub scaled : IsScaled cartesian_low config param

  unfoldable pub AllHold : ℕ → Lds F × PubHandler F → List (UserLivoxLidarConfig F) → Type 0
  AllHold cartesian_low s [] = Unit {0}
  AllHold cartesian_low s (c ∷ cs) = Holds cartesian_low s c × AllHold cartesian_low s cs

  -- No configuration of the list is for this handle.
  unfoldable pub IsNew : ℕ → List (UserLivoxLidarConfig F) → Type 0
  IsNew handle [] = Unit {0}
  IsNew handle (c ∷ cs) = (c.handle ≢ handle) × IsNew handle cs

  unfoldable pub AllDiffer : List (UserLivoxLidarConfig F) → Type 0
  AllDiffer [] = Unit {0}
  AllDiffer (c ∷ cs) = IsNew c.handle cs × AllDiffer cs

  -- What a round of the loop leaves.
  record Filled (cartesian_low : ℕ) (config : UserLivoxLidarConfig F) (s s' : Lds F × PubHandler F)
      : Type 0 where
    pub ready : Ready s'.0
    pub count :
        free_count s.0.cache_index.index_cache ≤ suc (free_count s'.0.cache_index.index_cache)
    pub holds : Holds cartesian_low s' config
    pub keeps :
        (c : UserLivoxLidarConfig F)
        → config.handle ≢ c.handle
        → Holds cartesian_low s c
        → Holds cartesian_low s' c

  fill_device_at :
      (cartesian_low : ℕ) (config : UserLivoxLidarConfig F) (l : Lds F) (h : PubHandler F)
      (c' : CacheIndex) (i : ℕ) (device : LidarDevice F)
      → Ready l
      → get_free_index l.cache_index livox_lidar_type config.handle ≡ (some i, c')
      → get_elem? l.lidars i ≡ some device
      → (s' : Lds F × PubHandler F) × (fill_device cartesian_low config (l, h) ≡ ok s')
        × Filled cartesian_low config (l, h) s'
  unfolding fill_device place_device add_lidars_ext_param get_lidar_id
  fill_device_at cartesian_low config l h c' i device ready given at =
      let (slot, inside, others, old) =
        get_free_index-some l.cache_index c' config.handle i ready.index_valid given in
      let v' : IsValid c' =
        subst (λ (r : Option ℕ × CacheIndex). IsValid r.1) given
          (get_free_index-IsValid l.cache_index livox_lidar_type config.handle ready.index_valid) in
      let used : free_count l.cache_index.index_cache ≤ suc (free_count c'.index_cache) =
        subst
          (λ (r : Option ℕ × CacheIndex).
            free_count l.cache_index.index_cache ≤ suc (free_count r.1.index_cache))
          given (get_free_index-count l.cache_index config.handle) in
      let param = lidar_param cartesian_low config in
      let device' : LidarDevice F = record device {
        lidar_type = livox_lidar_type;
        livox_config = config;
        handle = config.handle;
      } in
      let l' : Lds F = record l { cache_index = c'; lidars = set l.lidars i device' } in
      let h' = add_lidars_ext_param h livox_lidar_type config.handle param in
      (
        (l', h'),
        rw (given, fill_device) (rw at refl),
        record {
          ready = record {
            devices = length-set l.lidars i device' ∙ ready.devices;
            index_valid = v';
          };
          count = used;
          holds = record {
            index = i;
            device = device';
            slot = slot;
            at = get_elem?-set_self l.lidars i device' (omega (arith, ready.devices, inside));
            same = refl;
            own = refl;
            kind = refl;
            param = param;
            stored = lookup_inserted config.handle param h.lidar_extrinsics;
            scaled = lidar_param-IsScaled cartesian_low config;
          };
          keeps = λ other ne held.
              let kept : get_index c' livox_lidar_type other.handle ≡ some (held.index) =
                others other.handle (λ e. ne (sym e)) ∙ held.slot in
              record {
                index = held.index;
                device = held.device;
                slot = kept;
                at =
                    get_elem?-set_ne l.lidars device' (λ e. ne (
                      get_index_injective c' config.handle other.handle i v' slot
                        (kept ∙ ap some (sym e))))
                    ∙ held.at;
                same = held.same;
                own = held.own;
                kind = held.kind;
                param = held.param;
                scaled = held.scaled;
                stored =
                    lookup_other config.handle other.handle param h.lidar_extrinsics ne
                    ∙ held.stored;
              };
        },
      )

  fill_device-Filled :
      (cartesian_low : ℕ) (config : UserLivoxLidarConfig F) (l : Lds F) (h : PubHandler F)
      → Ready l
      → 0 < free_count l.cache_index.index_cache
      → (s' : Lds F × PubHandler F) × (fill_device cartesian_low config (l, h) ≡ ok s')
        × Filled cartesian_low config (l, h) s'
  fill_device-Filled cartesian_low config l h ready room =
      let c' = (get_free_index l.cache_index livox_lidar_type config.handle).1 in
      let (i, given) = slot_given l.cache_index config.handle ready.index_valid room in
      let (slot, inside, others, old) =
        get_free_index-some l.cache_index c' config.handle i ready.index_valid given in
      let (device, at) = get_elem?_lt l.lidars i (omega (arith, ready.devices, inside)) in
      fill_device_at cartesian_low config l h c' i device ready given at

  -- The whole loop, with what it keeps of other lidars.
  pub record AllFilled (cartesian_low : ℕ) (configs : List (UserLivoxLidarConfig F))
      (s s' : Lds F × PubHandler F) : Type 0 where
    pub ready : Ready s'.0
    pub held : AllHold cartesian_low s' configs
    pub keeps :
        (c : UserLivoxLidarConfig F)
        → IsNew c.handle configs
        → Holds cartesian_low s c
        → Holds cartesian_low s' c

  pub fill_devices-AllFilled :
      (cartesian_low : ℕ) (configs : List (UserLivoxLidarConfig F)) (s : Lds F × PubHandler F)
      → Ready s.0
      → length configs ≤ free_count s.0.cache_index.index_cache
      → AllDiffer configs
      → (s' : Lds F × PubHandler F) × (fill_devices cartesian_low configs s ≡ ok s')
        × AllFilled cartesian_low configs s s'
  unfolding fill_devices AllHold AllDiffer IsNew
  fill_devices-AllFilled cartesian_low [] s ready room differ =
      (s, refl, record { ready = ready; held = tt; keeps = λ c new held. held })
  fill_devices-AllFilled cartesian_low (config ∷ configs) s ready room (new, differ) =
      let (s1, done, one) = fill_device-Filled cartesian_low config s.0 s.1 ready (omega arith) in
      let (s2, rest, others) =
        fill_devices-AllFilled cartesian_low configs s1 one.ready (omega (arith, one.count))
          differ in
      (
        s2,
        rw (done, rest) refl,
        record {
          ready = others.ready;
          held = (others.keeps config new one.holds, others.held);
          keeps = λ c (fresh, news) held. others.keeps c news (one.keeps c fresh held);
        },
      )

  -- The loop of `InitLivoxLidar` on configurations with different handles, on a data source with
  -- 32 devices, a valid slot table and a free slot for each configuration: it never faults, and
  -- at its end every configured lidar has a slot, and the device there has its configuration, its
  -- handle and the type of the SDK's lidars. `pub_handler` has its extrinsic parameters: the
  -- angles as configured, and each of the three distances divided by 10 towards 0 where the lidar
  -- sends centimetres, as configured where it does not.
  pub fill_devices_all :
      (cartesian_low : ℕ) (configs : List (UserLivoxLidarConfig F)) (l : Lds F) (h : PubHandler F)
      → Ready l
      → length configs ≤ free_count l.cache_index.index_cache
      → AllDiffer configs
      → (s' : Lds F × PubHandler F) × (fill_devices cartesian_low configs (l, h) ≡ ok s')
        × AllHold cartesian_low s' configs
  fill_devices_all cartesian_low configs l h ready room differ =
      let (s', done, all) = fill_devices-AllFilled cartesian_low configs (l, h) ready room differ in
      (s', done, all.held)
