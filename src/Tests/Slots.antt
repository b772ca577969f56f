-- ===== src/Tests/Slots.antt =====
-- Runs of src/comm/cache_index.cpp: the slots of two devices, and a full table.
use livox_ros_driver.Common.{ℕ, ◌≡◌, ◌≢◌, ◌<◌, refl, true, false, none, some, get_elem?}
use livox_ros_driver.Common.Eq.{bytes_eq, bytes_eq_instance}
use livox_ros_driver.Common.Assoc.{lookup, insert}
use livox_ros_driver.Common.Decimal.{to_string}
use livox_ros_driver.Comm.{livox_lidar_type}
use livox_ros_driver.CacheIndex.{
  CacheIndex, new, Key, key_of, generate_index_key, first_free, get_index, get_free_index, allocate,
}
use livox_ros_driver.CacheIndex.Invariant.{IsValid, new-IsValid, get_free_index-IsValid}
use livox_ros_driver.CacheIndex.Behaviour.{get_free_index_gives}
use livox_ros_driver.CacheIndex.Race.{get_free_index_race}

abbrev one_device : CacheIndex
one_device = (get_free_index new livox_lidar_type 7).1

one_device-IsValid : IsValid one_device
one_device-IsValid = get_free_index-IsValid new livox_lidar_type 7 new-IsValid

get_free_index_gives_example :
    let c' = (get_free_index one_device livox_lidar_type 9).1 in
    (get_index c' livox_lidar_type 9 ≡ some 1)
    × (1 < 32)
    × (get_index one_device livox_lidar_type 9 ≡ none
        → get_elem? one_device.index_cache 1 ≡ some false)
    × (get_elem? c'.index_cache 1 ≡ some true)
    × ((j : ℕ) → j ≢ 1 → get_elem? c'.index_cache j ≡ get_elem? one_device.index_cache j)
    × ((h' : ℕ) → h' ≢ 9 → get_index c' livox_lidar_type h' ≢ some 1)
    × ((h' : ℕ)
        → h' ≢ 9
        → get_index c' livox_lidar_type h' ≡ get_index one_device livox_lidar_type h')
    × ((j : ℕ) → get_index one_device livox_lidar_type 9 ≡ some j → (j ≡ 1) × (c' ≡ one_device))
unfolding get_free_index get_index generate_index_key lookup new allocate first_free insert bytes_eq
    key_of to_string
get_free_index_gives_example =
    get_free_index_gives one_device (get_free_index one_device livox_lidar_type 9).1 9 1
      one_device-IsValid refl

get_free_index_race_example :
    let c₁ = (allocate new (key_of 7)).1 in
    let c₂ = (allocate c₁ (key_of 7)).1 in
    (◌≢◌ {A = ℕ} 0 1)
    × (lookup (key_of 7) c₂.map_index ≡ some 1)
    × (get_elem? c₂.index_cache 0 ≡ some true)
    × ((k : Key) → lookup k c₂.map_index ≢ some 0)
    × (¬ IsValid c₂)
unfolding get_free_index get_index generate_index_key lookup new allocate first_free insert bytes_eq
    key_of to_string
get_free_index_race_example =
    let c₁ = (allocate new (key_of 7)).1 in
    get_free_index_race new c₁ (allocate c₁ (key_of 7)).1 (key_of 7) 0 1 new-IsValid refl refl refl
