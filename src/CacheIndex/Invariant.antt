-- ===== src/CacheIndex/Invariant.antt =====
-- src/comm/cache_index.cpp: the invariant of the map and the array of taken slots.
use livox_ros_driver.Common.{
  ℕ, zero, suc, ◌<◌, ◌≡◌, refl, ◌∙◌, ◌≢◌, true, false, none, some, arith, get_elem?, get_elem?-set,
  get_elem?-some_lt, length, length-set, set, replicate, ◌==◌, Bool-cases, Option-cases, inl, inr,
}
use livox_ros_driver.Common.Eq.{bytes_eq_iff, bytes_eq_instance, beq_refl}
use livox_ros_driver.Common.Assoc.{lookup, insert, erase, lookup-insert, lookup-erase}
use livox_ros_driver.CacheIndex.{
  CacheIndex, Key, new, get_free_index, allocate, reset_index, first_free, generate_index_key,
}
use livox_ros_driver.CacheIndex.Loop.{first_free-some}

-- A slot is marked taken exactly if some key maps to it, and no two keys map to one slot.
pub record IsValid (c : CacheIndex) : Type 0 where
  pub slots : length c.index_cache ≡ 32
  pub taken :
      (k : Key) (i : ℕ) → lookup k c.map_index ≡ some i → get_elem? c.index_cache i ≡ some true
  pub injective :
      (j k : Key) (i : ℕ) → lookup j c.map_index ≡ some i → lookup k c.map_index ≡ some i → j ≡ k
  pub owned :
      (i : ℕ) → get_elem? c.index_cache i ≡ some true → (k : Key) × (lookup k c.map_index ≡ some i)

replicate_ne_true : (n i : ℕ) → get_elem? (replicate n false) i ≢ some true
replicate_ne_true zero i e = cc
replicate_ne_true (suc n) zero e = cc
replicate_ne_true (suc n) (suc i) e = replicate_ne_true n i e

new_slot_free : (i : ℕ) → get_elem? new.index_cache i ≢ some true
unfolding new
new_slot_free i = replicate_ne_true 32 i

pub new-IsValid : IsValid new
unfolding new lookup
new-IsValid = record {
  slots = refl;
  taken = λ k i e. cc;
  injective = λ j k i e f. cc;
  owned = λ i e. absurd (new_slot_free i e);
}

module _ (c : CacheIndex) (key : Key) (i : ℕ) (v : IsValid c) where
  abbrev with_slot : CacheIndex
  with_slot = record {
    map_index = insert key i c.map_index;
    index_cache = set c.index_cache i true;
  }

  with_slot-IsValid :
      lookup key c.map_index ≡ none
      → get_elem? c.index_cache i ≡ some false
      → i < length c.index_cache
      → IsValid with_slot
  with_slot-IsValid fresh free inside = record {
    slots = length-set c.index_cache i true ∙ v.slots;
    taken = λ k n e. ground (
      arith,
      lookup-insert key k i c.map_index,
      get_elem?-set c.index_cache i n true inside,
      v.taken k n,
    );
    injective = λ j k n e f. ground (
      arith,
      lookup-insert key j i c.map_index,
      lookup-insert key k i c.map_index,
      bytes_eq_iff key j,
      bytes_eq_iff key k,
      v.taken j n,
      v.taken k n,
      v.injective j k n,
    );
    owned = λ n e. elim (Bool-cases (i == n)) [
      | inl same ↦ (key, ground (arith, lookup-insert key key i c.map_index, beq_refl key))
      | inr other ↦
          let (k, at) = v.owned n (ground (arith, get_elem?-set c.index_cache i n true inside)) in
          (k, ground (arith, lookup-insert key k i c.map_index, bytes_eq_iff key k))
    ];
  }

  abbrev without_slot : CacheIndex
  without_slot = record {
    map_index = erase key c.map_index;
    index_cache = set c.index_cache i false;
  }

  without_slot-IsValid :
      lookup key c.map_index ≡ some i → i < length c.index_cache → IsValid without_slot
  without_slot-IsValid known inside = record {
    slots = length-set c.index_cache i false ∙ v.slots;
    taken = λ k n e. ground (
      arith,
      lookup-erase key k c.map_index,
      get_elem?-set c.index_cache i n false inside,
      v.taken k n,
      v.injective key k i,
      bytes_eq_iff key k,
    );
    injective = λ j k n e f.
        ground (
          arith,
          lookup-erase key j c.map_index,
          lookup-erase key k c.map_index,
          v.injective j k n,
        );
    owned = λ n e.
        let (k, at) = v.owned n (ground (arith, get_elem?-set c.index_cache i n false inside)) in
        (
          k,
          ground (
            arith,
            lookup-erase key k c.map_index,
            bytes_eq_iff key k,
            get_elem?-set c.index_cache i n false inside,
          ),
        );
  }

-- A slot that a key maps to lies in the array.
pub slot_in_range :
    {c : CacheIndex} → IsValid c → (k : Key) (i : ℕ) → lookup k c.map_index ≡ some i → i < 32
slot_in_range {c} v k i e =
    omega (arith, v.slots, get_elem?-some_lt c.index_cache i true (v.taken k i e))

allocate-IsValid :
    (c : CacheIndex) (key : Key)
    → IsValid c
    → lookup key c.map_index ≡ none
    → IsValid (allocate c key).1
unfolding allocate
allocate-IsValid c key v fresh = elim (Option-cases (first_free c.index_cache 0)) [
  | inl full ↦ rw (full, allocate) v
  | inr (i, e) ↦
      let (k, at, free, inside) = first_free-some c.index_cache 0 i e in
      let same : k ≡ i = omega arith in
      rw (e, allocate) (with_slot-IsValid c key i v fresh (rw (← same) free) (rw (← same) inside))
]

-- `GetFreeIndex`, run without another thread in between, keeps the table valid: the map and the
-- slots agree.
pub get_free_index-IsValid :
    (c : CacheIndex) (lidar_type handle : ℕ)
    → IsValid c
    → IsValid (get_free_index c lidar_type handle).1
unfolding get_free_index
get_free_index-IsValid c t h v = elim (Option-cases (generate_index_key t h)) [
  | inl unknown ↦ rw (unknown, get_free_index) v
  | inr (key, e) ↦ elim (Option-cases (lookup key c.map_index)) [
    | inl fresh ↦ rw (e, fresh, get_free_index) (allocate-IsValid c key v fresh)
    | inr (i, known) ↦ rw (e, known, get_free_index) v
  ]
]

-- `ResetIndex` keeps the table valid: the map and the slots agree.
pub reset_index-IsValid :
    (c : CacheIndex) (lidar_type handle : ℕ) → IsValid c → IsValid (reset_index c lidar_type handle)
unfolding reset_index
reset_index-IsValid c t h v = elim (Option-cases (generate_index_key t h)) [
  | inl unknown ↦ rw (unknown, reset_index) v
  | inr (key, e) ↦ elim (Option-cases (lookup key c.map_index)) [
    | inl fresh ↦ rw (e, fresh, reset_index) v
    | inr (i, known) ↦
        rw (e, known, reset_index)
          (without_slot-IsValid c key i v known
            (omega (arith, v.slots, slot_in_range v key i known)))
  ]
]
