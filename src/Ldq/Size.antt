-- ===== src/Ldq/Size.antt =====
-- src/comm/ldq.h: `IsPowerOf2`, `RoundupPowerOf2` and the size that `InitQueue` allocates.
use native.Mathlib.Nat.{pow-suc, add-zero, pow-le-pow_right}
use native.Mathlib.Decide.{dec_lt}
use livox_ros_driver.Common.{
  ℕ, zero, suc, ◌+◌, ◌-◌, ◌^◌, ◌≤◌, ◌<◌, ◌≡◌, true, leb, arith, Bool-cases, inl, inr, leb→le,
  le→leb,
}
use livox_ros_driver.Common.Bits.{bit_and_pred, pow_two_pos}
use livox_ros_driver.Ldq.{is_power_of2, roundup_from, roundup_power_of2, real_size}

-- Where the loop stands at `i`, with `size` above the smaller powers and not above the last one that
-- it would try, it ends at the least power of two that is not below `size`.
roundup_from_least :
    (size rounds i power2_val : ℕ)
    → size ≤ 2 ^ (i + rounds)
    → (0 < i → 2 ^ (i - 1) < size)
    → (k : ℕ) × (k ≤ i + rounds)
      × (roundup_from size (suc rounds) i power2_val ≡ 2 ^ k)
      × (size ≤ 2 ^ k)
      × (0 < k → 2 ^ (k - 1) < size)
unfolding roundup_from
roundup_from_least size zero i v fits above =
    let fits' : size ≤ 2 ^ i = rw add-zero at fits in
    (i, omega arith, rw (le→leb size (2 ^ i) fits'), fits', above)
roundup_from_least size (suc rounds) i v fits above = elim (Bool-cases (leb size (2 ^ i))) [
  | inl hit ↦ (i, omega arith, rw hit, leb→le _ _ hit, above)
  | inr miss ↦
      let e : i + suc rounds ≡ i + 1 + rounds = omega arith in
      let back : i + 1 - 1 ≡ i = omega arith in
      let (k, bound, run, covers, least) =
        roundup_from_least size rounds (i + 1) (2 ^ i) (rw e at fits)
          (λ _. rw back (ground (arith, miss))) in
      (k, omega arith, rw miss run, covers, least)
]

-- `RoundupPowerOf2` gives the least power of two that is not below `size`, if one fits in `uint32_t`.
pub roundup_power_of2_least :
    (size : ℕ)
    → size ≤ 2 ^ 31
    → (k : ℕ) × (k ≤ 31)
      × (roundup_power_of2 size ≡ 2 ^ k)
      × (size ≤ 2 ^ k)
      × (0 < k → 2 ^ (k - 1) < size)
unfolding roundup_power_of2
roundup_power_of2_least size h = roundup_from_least size 31 0 0 h (λ p. absurd (omega arith))

is_power_of2-pow : (size : ℕ) → is_power_of2 size ≡ true → (k : ℕ) × (size ≡ 2 ^ k)
unfolding is_power_of2
is_power_of2-pow size h = bit_and_pred size size (omega arith) (λ e. ground arith) (ground arith)

pow_lt_inj : (k n : ℕ) → 2 ^ k < 2 ^ n → k < n
pow_lt_inj k n h = elim (dec_lt k n) [
  | yes p ↦ p
  | no p ↦
      absurd (omega (arith, pow-le-pow_right {n = 2} (omega arith) {i = n} {j = k} (omega arith)))
]

half_pow_lt : (k : ℕ) → 0 < k → 2 ^ (k - 1) < 2 ^ k
half_pow_lt zero h = absurd (omega arith)
half_pow_lt (suc k) h =
    let e : suc k - 1 ≡ k = omega arith in rw e (omega (arith, pow-suc 2 k, pow_two_pos k))

-- The ring that `InitQueue` allocates has the least power of two, at most `2 ^ 31`, that holds the
-- size that was asked for.
pub real_size_pow :
    (queue_size : ℕ)
    → queue_size ≤ 2 ^ 31
    → (k : ℕ) × (k ≤ 31)
      × (real_size queue_size ≡ 2 ^ k)
      × (queue_size ≤ 2 ^ k)
      × (0 < k → 2 ^ (k - 1) < queue_size)
unfolding real_size
real_size_pow n h = elim (Bool-cases (is_power_of2 n)) [
  | inl hit ↦
      let (k, e) = is_power_of2-pow n hit in
      let bound : k < 32 = pow_lt_inj k 32 (omega (arith, e)) in
      (k, omega arith, rw hit e, omega arith, λ p. rw e (half_pow_lt k p))
  | inr miss ↦
      let (k, bound, run, covers, least) = roundup_power_of2_least n h in
      (k, bound, rw miss run, covers, least)
]

-- Above `2 ^ 31` the loop runs out: the ring is smaller than what was asked for.
roundup_power_of2_overflow : (size : ℕ) → 2 ^ 31 < size → roundup_power_of2 size ≡ 2 ^ 31
unfolding roundup_power_of2 roundup_from
roundup_power_of2_overflow size h = ground arith
