-- ===== src/CacheIndex/Loop.antt =====
-- src/comm/cache_index.cpp: the search for a free slot.
use livox_ros_driver.Common.{
  ℕ, zero, suc, ◌+◌, ◌<◌, ◌≡◌, refl, Bool, true, false, none, some, List, [], ◌∷◌, arith, get_elem?,
  length,
}
use livox_ros_driver.CacheIndex.{first_free}

-- The slot that is found is free, and all slots before it are taken.
pub first_free-some :
    (cache : List Bool) (i j : ℕ)
    → first_free cache i ≡ some j
    → (k : ℕ) × (j ≡ i + k) × (get_elem? cache k ≡ some false) × (k < length cache)
unfolding first_free
first_free-some [] i j e = cc
first_free-some (true ∷ rest) i j e =
    let (k, at, free, inside) = first_free-some rest (i + 1) j e in
    (suc k, omega arith, free, omega arith)
first_free-some (false ∷ rest) i j e = (0, ground arith, refl, omega arith)

pub first_free_least :
    (cache : List Bool) (i j : ℕ)
    → first_free cache i ≡ some j
    → (k : ℕ) → i + k < j
    → get_elem? cache k ≡ some true
unfolding first_free
first_free_least [] i j e k h = cc
first_free_least (true ∷ rest) i j e zero h = refl
first_free_least (true ∷ rest) i j e (suc k) h = first_free_least rest (i + 1) j e k (omega arith)
first_free_least (false ∷ rest) i j e k h =
    let same : i ≡ j = ground arith in absurd (omega (arith, same))

-- No slot is found exactly if all are taken.
pub first_free-none :
    (cache : List Bool) (i : ℕ)
    → first_free cache i ≡ none
    → (k : ℕ) → k < length cache
    → get_elem? cache k ≡ some true
unfolding first_free
first_free-none [] i e k h = absurd (omega arith)
first_free-none (true ∷ rest) i e zero h = refl
first_free-none (true ∷ rest) i e (suc k) h = first_free-none rest (i + 1) e k (omega arith)
first_free-none (false ∷ rest) i e k h = cc
