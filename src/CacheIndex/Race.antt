-- ===== src/CacheIndex/Race.antt =====
-- src/comm/cache_index.cpp: `GetFreeIndex` drops the lock between its search for the key and its
-- choice of a slot.
use livox_ros_driver.Common.{
  ℕ, ◌<◌, ◌≡◌, ◌≢◌, true, false, none, some, arith, get_elem?, get_elem?-set, length, Option-cases,
  inl, inr, set, length-set,
}
use livox_ros_driver.Common.Eq.{bytes_eq_instance, beq_refl}
use livox_ros_driver.Common.Assoc.{lookup, insert, lookup-insert}
use livox_ros_driver.CacheIndex.{CacheIndex, Key, allocate, first_free}
use livox_ros_driver.CacheIndex.Loop.{first_free-some}
use livox_ros_driver.CacheIndex.Invariant.{IsValid}

record Allocated (c c' : CacheIndex) (key : Key) (i : ℕ) : Type 0 where
  mapped : c'.map_index ≡ insert key i c.map_index
  marked : c'.index_cache ≡ set c.index_cache i true
  was_free : get_elem? c.index_cache i ≡ some false
  inside : i < length c.index_cache

allocate-Allocated :
    (c c' : CacheIndex) (key : Key) (i : ℕ) → allocate c key ≡ (some i, c') → Allocated c c' key i
unfolding allocate
allocate-Allocated c c' key i e = elim (Option-cases (first_free c.index_cache 0)) [
  | inl full ↦ absurd (ground arith)
  | inr (j, found) ↦
      let (k, at, free, inside) = first_free-some c.index_cache 0 j found in ground arith
]

-- On a valid table, two threads that both found no slot for one new key and then both choose one:
-- the slots differ, the device ends with the second, the first stays taken with no key that maps
-- to it, and the table is no longer valid.
pub get_free_index_race :
    (c c₁ c₂ : CacheIndex) (key : Key) (i j : ℕ)
    → IsValid c
    → lookup key c.map_index ≡ none
    → allocate c key ≡ (some i, c₁)
    → allocate c₁ key ≡ (some j, c₂)
    → (i ≢ j)
      × (lookup key c₂.map_index ≡ some j)
      × (get_elem? c₂.index_cache i ≡ some true)
      × ((k : Key) → lookup k c₂.map_index ≢ some i)
      × (¬ IsValid c₂)
get_free_index_race c c₁ c₂ key i j v fresh first second =
    let a = allocate-Allocated c c₁ key i first in
    let b = allocate-Allocated c₁ c₂ key j second in
    let read₁ = get_elem?-set c.index_cache i in
    let inside₁ : i < length c₁.index_cache =
      ground (arith, a.inside, a.marked, length-set c.index_cache i true) in
    let apart : i ≢ j = λ e. ground (arith, a.marked, b.was_free, read₁ j true a.inside) in
    let marked₂ : get_elem? c₂.index_cache i ≡ some true = ground (
      arith,
      a.marked,
      b.marked,
      b.inside,
      get_elem?-set c₁.index_cache j i true b.inside,
      read₁ i true a.inside,
    ) in
    let unowned : (k : Key) → lookup k c₂.map_index ≢ some i = λ k e. ground (
      arith,
      a.mapped,
      b.mapped,
      a.was_free,
      lookup-insert key k j c₁.map_index,
      lookup-insert key k i c.map_index,
      v.taken k i,
    ) in
    (
      apart,
      ground (arith, b.mapped, lookup-insert key key j c₁.map_index, beq_refl key),
      marked₂,
      unowned,
      λ w. unowned (w.owned i marked₂).0 (w.owned i marked₂).1,
    )
