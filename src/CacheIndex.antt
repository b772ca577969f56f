-- ===== src/CacheIndex.antt =====
-- src/comm/cache_index.cpp: which of the 32 slots of `lidars_` a device has. An `int8_t` result with an
-- `index` out-parameter is an `Option`: `none` is -1, after which the caller's index is not used.
pub mod Loop
pub mod Invariant
pub mod Behaviour
pub mod Race
use livox_ros_driver.Common.{
  ℕ, zero, suc, ◌+◌, Bool, true, false, Option, none, some, List, [], ◌∷◌, ◌++◌, ◌==◌,
  if◌then◌else◌, replicate, set, ◌≡◌, refl, ◌⊎◌,
}
use livox_ros_driver.Common.Eq.{codes, bytes_eq_instance}
use livox_ros_driver.Common.Decimal.{to_string}
use livox_ros_driver.Common.Assoc.{lookup, insert, erase}
use livox_ros_driver.Comm.{max_source_lidar, livox_lidar_type}

abbrev pub Key : Type 0
Key = List ℕ

pub record CacheIndex : Type 0 where
  pub map_index : List (Key × ℕ)
  pub index_cache : List Bool

unfoldable pub new : CacheIndex
new = record { map_index = []; index_cache = replicate max_source_lidar false }

-- The key of a device of the one type that the driver knows.
unfoldable pub key_of : ℕ → Key
key_of handle = codes "livox_lidar_" ++ to_string handle

unfoldable pub generate_index_key : ℕ → ℕ → Option Key
generate_index_key lidar_type handle =
    if lidar_type == livox_lidar_type then some (key_of handle) else none

unfoldable pub get_index : CacheIndex → ℕ → ℕ → Option ℕ
get_index c lidar_type handle = elim (generate_index_key lidar_type handle) [
  | none ↦ none
  | some key ↦ lookup key c.map_index
]

-- The loop `for (i = 0; i < kMaxSourceLidar; ++i) if (!index_cache_[i])` on the rest of the array.
unfoldable pub first_free : List Bool → ℕ → Option ℕ
first_free [] i = none
first_free (used ∷ rest) i = if used then first_free rest (i + 1) else some i

-- The second critical section of `GetFreeIndex`.
unfoldable pub allocate : CacheIndex → Key → Option ℕ × CacheIndex
allocate c key = elim (first_free c.index_cache 0) [
  | none ↦ (none, c)
  | some i ↦ (
    some i,
    record { map_index = insert key i c.map_index; index_cache = set c.index_cache i true },
  )
]

-- The first critical section returns where the key is known; the lock is free in between.
unfoldable pub get_free_index : CacheIndex → ℕ → ℕ → Option ℕ × CacheIndex
get_free_index c lidar_type handle = elim (generate_index_key lidar_type handle) [
  | none ↦ (none, c)
  | some key ↦ elim (lookup key c.map_index) [ some i ↦ (some i, c) | none ↦ allocate c key ]
]

unfoldable pub lvx_get_index : CacheIndex → ℕ → ℕ → Option ℕ × CacheIndex
lvx_get_index c lidar_type handle = elim (generate_index_key lidar_type handle) [
  | none ↦ (none, c)
  | some key ↦ elim (lookup key c.map_index) [
    | some i ↦ (some i, c)
    | none ↦ get_free_index c lidar_type handle
  ]
]

-- `ResetIndex`, by the type and the handle of the device.
unfoldable pub reset_index : CacheIndex → ℕ → ℕ → CacheIndex
reset_index c lidar_type handle = elim (generate_index_key lidar_type handle) [
  | none ↦ c
  | some key ↦ elim (lookup key c.map_index) [
    | none ↦ c
    | some i ↦ record { map_index = erase key c.map_index; index_cache = set c.index_cache i false }
  ]
]
