-- ===== src/LdsLidar/Slots.antt =====
-- src/lds_lidar.cpp: the slots that the loop of `InitLivoxLidar` has to spare.
use livox_ros_driver.Common.{
  ℕ, zero, suc, ◌≤◌, ◌<◌, ◌≡◌, ◌≢◌, refl, Bool, true, false, List, [], ◌∷◌, some, length, get_elem?,
  set, arith, Option-cases, inl, inr,
}
use livox_ros_driver.Common.Eq.{nat_eq, bytes_eq_instance}
use livox_ros_driver.Common.Assoc.{lookup}
use livox_ros_driver.Comm.{livox_lidar_type}
use livox_ros_driver.CacheIndex.{
  CacheIndex, get_free_index, allocate, first_free, generate_index_key,
}
use livox_ros_driver.CacheIndex.Invariant.{IsValid}
use livox_ros_driver.CacheIndex.Behaviour.{get_free_index_full}

-- The slots that are not taken.
unfoldable pub free_count : List Bool → ℕ
free_count [] = 0
free_count (true ∷ bs) = free_count bs
free_count (false ∷ bs) = suc (free_count bs)

free_count-set : (bs : List Bool) (i : ℕ) → free_count bs ≤ suc (free_count (set bs i true))
unfolding free_count
free_count-set [] i = omega arith
free_count-set (true ∷ bs) zero = omega arith
free_count-set (false ∷ bs) zero = omega arith
free_count-set (true ∷ bs) (suc i) = omega (arith, free_count-set bs i)
free_count-set (false ∷ bs) (suc i) = omega (arith, free_count-set bs i)

free_slot :
    (bs : List Bool) → 0 < free_count bs → (i : ℕ) × (i < length bs) × (get_elem? bs i ≡ some false)
unfolding free_count
free_slot [] h = absurd (omega arith)
free_slot (false ∷ bs) h = (0, omega arith, refl)
free_slot (true ∷ bs) h = let (i, inside, free) = free_slot bs h in (suc i, omega arith, free)

-- A request takes one slot at most.
pub get_free_index-count :
    (c : CacheIndex) (h : ℕ)
    → free_count c.index_cache
      ≤ suc (free_count (get_free_index c livox_lidar_type h).1.index_cache)
unfolding get_free_index allocate
get_free_index-count c h = elim (Option-cases (generate_index_key livox_lidar_type h)) [
  | inl unknown ↦ rw (unknown, get_free_index) (omega arith)
  | inr (key, e) ↦ elim (Option-cases (lookup key c.map_index)) [
    | inr (i, known) ↦ rw (e, known, get_free_index) (omega arith)
    | inl fresh ↦ elim (Option-cases (first_free c.index_cache 0)) [
      | inl full ↦ rw (e, fresh, full, get_free_index, allocate) (omega arith)
      | inr (i, found) ↦
          rw (e, fresh, found, get_free_index, allocate) (free_count-set c.index_cache i)
    ]
  ]
]

-- With a slot to spare every device gets one.
pub slot_given :
    (c : CacheIndex) (h : ℕ)
    → IsValid c
    → 0 < free_count c.index_cache
    → (i : ℕ) × (get_free_index c livox_lidar_type h
        ≡ (some i, (get_free_index c livox_lidar_type h).1))
slot_given c h v room = elim (Option-cases (get_free_index c livox_lidar_type h).0) [
  | inr (i, given) ↦ (i, rw given refl)
  | inl refused ↦
      let (i, inside, free) = free_slot c.index_cache room in
      let (fresh, full) = (get_free_index_full c h v).0 refused in
      absurd (differ i free (full i (omega (arith, v.slots, inside))))
]
  where
    differ :
        (i : ℕ) → get_elem? c.index_cache i ≡ some false → get_elem? c.index_cache i ≢ some true
    differ i free taken = ground (arith, free, taken)
