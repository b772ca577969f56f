-- ===== src/CacheIndex/Behaviour.antt =====
-- src/comm/cache_index.cpp: what a caller of the cache index sees of each operation.
use mathlib.Core.Path.{subst}
use livox_ros_driver.Common.{
  ℕ, Bool, List, Option, sym, ap, ◌∙◌, get_elem?-set_ne, set, ◌<◌, ◌≡◌, refl, ◌≢◌, ◌↔◌, true, false,
  none, some, arith, get_elem?, get_elem?-set, Option-cases, inl, inr,
}
use livox_ros_driver.Common.Eq.{bytes_eq_iff, bytes_eq_instance, beq_refl}
use livox_ros_driver.Common.Decimal.{to_string_injective}
use livox_ros_driver.Common.Assoc.{lookup, insert, lookup-insert, lookup-erase}
use livox_ros_driver.Comm.{livox_lidar_type}
use livox_ros_driver.CacheIndex.{
  CacheIndex, key_of, get_index, get_free_index, allocate, reset_index, first_free,
  generate_index_key,
}
use livox_ros_driver.CacheIndex.Loop.{first_free-some, first_free-none}
use livox_ros_driver.CacheIndex.Invariant.{IsValid, slot_in_range, get_free_index-IsValid}

key_of_injective : (a b : ℕ) → key_of a ≡ key_of b → a ≡ b
unfolding key_of
key_of_injective a b e = to_string_injective a b (cc)

pub get_index_known :
    (c : CacheIndex) (h : ℕ) → get_index c livox_lidar_type h ≡ lookup (key_of h) c.map_index
unfolding get_index generate_index_key
get_index_known c h = refl

-- Only one type of lidar has keys.
unknown_type : (t h : ℕ) → t ≢ livox_lidar_type → generate_index_key t h ≡ none
unfolding generate_index_key
unknown_type t h ne = ground arith

-- On a valid table two devices never share a slot.
pub get_index_injective :
    (c : CacheIndex) (h h' i : ℕ)
    → IsValid c
    → get_index c livox_lidar_type h ≡ some i
    → get_index c livox_lidar_type h' ≡ some i
    → h ≡ h'
unfolding get_index generate_index_key
get_index_injective c h h' i v e f =
    key_of_injective h h' (v.injective (key_of h) (key_of h') i e f)

-- src/comm/cache_index.cpp: what a caller keeps through `GetFreeIndex`.
pub get_free_index-some :
    (c c' : CacheIndex) (h i : ℕ)
    → IsValid c
    → get_free_index c livox_lidar_type h ≡ (some i, c')
    → (get_index c' livox_lidar_type h ≡ some i)
      × (i < 32)
      × ((h' : ℕ) → h' ≢ h → get_index c' livox_lidar_type h' ≡ get_index c livox_lidar_type h')
      × ((j : ℕ) → get_index c livox_lidar_type h ≡ some j → j ≡ i)
unfolding get_free_index generate_index_key get_index allocate
get_free_index-some c c' h i v e = elim (Option-cases (lookup (key_of h) c.map_index)) [
  | inl fresh ↦ elim (Option-cases (first_free c.index_cache 0)) [
    | inl full ↦ absurd (ground arith)
    | inr (j, found) ↦
        let (k, at, free, inside) = first_free-some c.index_cache 0 j found in
        (
          ground (arith, lookup-insert (key_of h) (key_of h) j c.map_index, beq_refl (key_of h)),
          ground (arith, v.slots),
          λ h' ne. ground (
            arith,
            lookup-insert (key_of h) (key_of h') j c.map_index,
            bytes_eq_iff (key_of h) (key_of h'),
            key_of_injective h h',
          ),
          λ n known. ground arith,
        )
  ]
  | inr (j, known) ↦ (
    ground arith,
    ground (arith, slot_in_range v (key_of h) j known),
    λ h' ne. ground arith,
    λ n known'. ground arith,
  )
]

answer_parts :
    (a b : ℕ) (x y : CacheIndex)
    → ◌≡◌ {A = Option ℕ × CacheIndex} (some a, x) (some b, y)
    → (a ≡ b) × (x ≡ y)
answer_parts a b x y e = (cc, cc)

-- On a valid table, after `GetFreeIndex` has answered a slot for a device: the slot is below 32,
-- `GetIndex` answers it too, it was free if the device had none and is taken now, and no other
-- slot changes. No other device has this slot, every other device keeps its own, and a device
-- that had a slot keeps it and changes nothing.
pub get_free_index_gives :
    (c c' : CacheIndex) (h i : ℕ)
    → IsValid c
    → get_free_index c livox_lidar_type h ≡ (some i, c')
    → (get_index c' livox_lidar_type h ≡ some i)
      × (i < 32)
      × (get_index c livox_lidar_type h ≡ none → get_elem? c.index_cache i ≡ some false)
      × (get_elem? c'.index_cache i ≡ some true)
      × ((j : ℕ) → j ≢ i → get_elem? c'.index_cache j ≡ get_elem? c.index_cache j)
      × ((h' : ℕ) → h' ≢ h → get_index c' livox_lidar_type h' ≢ some i)
      × ((h' : ℕ) → h' ≢ h → get_index c' livox_lidar_type h' ≡ get_index c livox_lidar_type h')
      × ((j : ℕ) → get_index c livox_lidar_type h ≡ some j → (j ≡ i) × (c' ≡ c))
unfolding get_free_index generate_index_key get_index allocate
get_free_index_gives c c' h i v e =
    let (slot, inside, others, old) = get_free_index-some c c' h i v e in
    let v' : IsValid c' =
      subst (λ (r : Option ℕ × CacheIndex). IsValid r.1) e
        (get_free_index-IsValid c livox_lidar_type h v) in
    let taken = v'.taken (key_of h) i slot in
    let unshared = λ (h' : ℕ) (ne : h' ≢ h) (same : get_index c' livox_lidar_type h' ≡ some i).
      ne (get_index_injective c' h' h i v' same slot) in
    elim (Option-cases (lookup (key_of h) c.map_index)) [
      | inl fresh ↦ elim (Option-cases (first_free c.index_cache 0)) [
        | inl full ↦ absurd (ground arith)
        | inr (j, found) ↦
            let (k, at, free, within) = first_free-some c.index_cache 0 j found in
            let after : CacheIndex = record {
              map_index = insert (key_of h) j c.map_index;
              index_cache = set c.index_cache j true;
            } in
            let computed : get_free_index c livox_lidar_type h ≡ (some j, after) =
              rw (get_free_index, fresh, allocate, found) refl in
            let (is_i, is_c') = answer_parts j i after c' (sym computed ∙ e) in
            let here : j ≡ k = omega (arith, at) in
            let cached = sym (ap (λ (d : CacheIndex). d.index_cache) is_c') in
            (
              slot,
              inside,
              λ new. ap (get_elem? c.index_cache) (sym is_i ∙ here) ∙ free,
              taken,
              λ n ne.
                  ap (λ (b : List Bool). get_elem? b n) cached
                  ∙ get_elem?-set_ne c.index_cache true (λ same. ne (sym same ∙ is_i)),
              unshared,
              others,
              λ n known. absurd (ground arith),
            )
      ]
      | inr (j, known) ↦
          let computed : get_free_index c livox_lidar_type h ≡ (some j, c) =
            rw (get_free_index, known) refl in
          let same = sym (answer_parts j i c c' (sym computed ∙ e)).1 in
          (
            slot,
            inside,
            λ new. absurd (ground arith),
            taken,
            λ n ne. ap (λ (d : CacheIndex). get_elem? d.index_cache n) same,
            unshared,
            others,
            λ n known'. (old n known', same),
          )
    ]

-- On a valid table `GetFreeIndex` answers no slot exactly for a device that has none while all 32
-- are taken.
pub get_free_index_full :
    (c : CacheIndex) (h : ℕ)
    → IsValid c
    → ((get_free_index c livox_lidar_type h).0 ≡ none) ↔ (
        (get_index c livox_lidar_type h ≡ none)
        × ((i : ℕ) → i < 32 → get_elem? c.index_cache i ≡ some true))
unfolding get_free_index generate_index_key get_index allocate
get_free_index_full c h v = (λ e. full_of_none e, λ (fresh, full). none_of_full fresh full)
  where
    full_of_none :
        (get_free_index c livox_lidar_type h).0 ≡ none
        → (get_index c livox_lidar_type h ≡ none)
          × ((i : ℕ) → i < 32 → get_elem? c.index_cache i ≡ some true)
    full_of_none e = elim (Option-cases (lookup (key_of h) c.map_index)) [
      | inl fresh ↦ elim (Option-cases (first_free c.index_cache 0)) [
        | inl full ↦
            (fresh, λ i lt. first_free-none c.index_cache 0 full i (omega (arith, v.slots)))
        | inr (j, found) ↦ absurd (ground arith)
      ]
      | inr (j, known) ↦ absurd (ground arith)
    ]

    none_of_full :
        get_index c livox_lidar_type h ≡ none
        → ((i : ℕ) → i < 32 → get_elem? c.index_cache i ≡ some true)
        → (get_free_index c livox_lidar_type h).0 ≡ none
    none_of_full fresh full = elim (Option-cases (first_free c.index_cache 0)) [
      | inl none_free ↦ ground arith
      | inr (j, found) ↦
          let (k, at, free, inside) = first_free-some c.index_cache 0 j found in
          absurd (ground (arith, full k, v.slots))
    ]

-- On a valid table, after `ResetIndex` on a device with a slot it has none, its old slot is free,
-- and the others keep theirs.
pub reset_index-some :
    (c : CacheIndex) (h i : ℕ)
    → IsValid c
    → get_index c livox_lidar_type h ≡ some i
    → let c' = reset_index c livox_lidar_type h in
      (get_index c' livox_lidar_type h ≡ none)
      × (get_elem? c'.index_cache i ≡ some false)
      × ((h' : ℕ) → h' ≢ h → get_index c' livox_lidar_type h' ≡ get_index c livox_lidar_type h')
unfolding reset_index generate_index_key get_index
reset_index-some c h i v e =
    let inside = slot_in_range v (key_of h) i e in
    (
      ground (arith, lookup-erase (key_of h) (key_of h) c.map_index, beq_refl (key_of h)),
      ground (arith, get_elem?-set c.index_cache i i false (omega (arith, v.slots))),
      λ h' ne. ground (
        arith,
        lookup-erase (key_of h) (key_of h') c.map_index,
        bytes_eq_iff (key_of h) (key_of h'),
        key_of_injective h h',
      ),
    )
