-- ===== src/Common/Bits.antt =====
-- `x & (2 ^ k - 1)` and the power-of-two test `x & (x - 1)`, for every width.
use Prim.Native.Nat.{min, bit_and, digits, bit_and-bitwise}
use native.Mathlib.Decide.{ℕ_discrete}
use native.Mathlib.Nat.{pow-suc, div-add-mod', mod-lt, mul-add-mod_self_right, mod-eq_of_lt}
use livox_ros_driver.Common.{
  ℕ, zero, suc, ◌+◌, ◌-◌, ◌*◌, ◌/◌, ◌%◌, ◌^◌, ◌≤◌, ◌<◌, ◌≡◌, ◌≢◌, refl, ap, sym, ◌∙◌, arith,
}

-- The definition by digits that the native operation stands for, and the fuel that it needs.
abbrev digitwise : ℕ → ℕ → ℕ → ℕ
digitwise = digits (λ y. zero) min

digitwise_enough : (x y : ℕ) {n m : ℕ} → x ≤ m → x ≤ n → digitwise m x y ≡ digitwise n x y
digitwise_enough zero y {n = zero} {m = zero} u v = refl
digitwise_enough zero y {n = zero} {m = suc m} u v = refl
digitwise_enough zero y {n = suc n} {m = zero} u v = refl
digitwise_enough zero y {n = suc n} {m = suc m} u v = refl
digitwise_enough (suc x) y {n = zero} u v = absurd (omega arith)
digitwise_enough (suc x) y {n = suc n} {m = zero} u v = absurd (omega arith)
digitwise_enough (suc x) y {n = suc n} {m = suc m} u v =
    ap (λ (h : ℕ). h * 2 + min (suc x % 2) (y % 2))
      (digitwise_enough (suc x / 2) (y / 2) {n = n} {m = m} (omega arith) (omega arith))

pub bit_and_step : (x y : ℕ) → bit_and x y ≡ bit_and (x / 2) (y / 2) * 2 + min (x % 2) (y % 2)
bit_and_step zero y = omega (arith, bit_and-bitwise zero (y / 2), bit_and-bitwise zero y)
bit_and_step (suc x) y =
    let h = suc x / 2 in
    let halves = digitwise_enough h (y / 2) {n = h} {m = x} (omega arith) (omega arith) in
    omega (arith, halves, bit_and-bitwise h (y / 2), bit_and-bitwise (suc x) y)

no_common_digit : (bound x : ℕ) → x ≤ bound → bit_and x 0 ≡ 0
no_common_digit bound zero within = refl
no_common_digit zero (suc x) within = absurd (omega arith)
no_common_digit (suc bound) (suc x) within =
    let halved = no_common_digit bound (suc x / 2) (omega arith) in
    omega (arith, halved, bit_and_step (suc x) 0)

pub pow_two_pos : (k : ℕ) → 0 < 2 ^ k
pow_two_pos zero = omega arith
pow_two_pos (suc k) = omega (arith, pow-suc 2 k, pow_two_pos k)

-- The remainder of `a` by `m * 2` from that of `a / 2` by `m`.
mod_double : (a m : ℕ) → 0 < m → a % (m * 2) ≡ (a / 2) % m * 2 + a % 2
mod_double a m h =
    let q = a / 2 / m in
    let r = (a / 2) % m * 2 + a % 2 in
    let split : a ≡ q * (m * 2) + r = omega (arith, div-add-mod' (a / 2) m) in
    let small : r < m * 2 = omega (arith, mod-lt (a / 2) h) in
    ap (λ (t : ℕ). t % (m * 2)) split ∙ mul-add-mod_self_right q (m * 2) r ∙ mod-eq_of_lt small

-- A mask of `k` ones keeps the remainder by `2 ^ k`.
pub bit_and_mask : (k a : ℕ) → bit_and a (2 ^ k - 1) ≡ a % 2 ^ k
bit_and_mask zero a = omega (arith, no_common_digit a a (omega arith))
bit_and_mask (suc k) a =
    let p = 2 ^ k in
    let e : 2 ^ suc k ≡ p * 2 = pow-suc 2 k in
    let half : (p * 2 - 1) / 2 ≡ p - 1 = omega (arith, pow_two_pos k) in
    let odd : (p * 2 - 1) % 2 ≡ 1 = omega (arith, pow_two_pos k) in
    rw
      (
        e,
        bit_and_step a (p * 2 - 1),
        half,
        odd,
        bit_and_mask k (a / 2),
        mod_double a p (pow_two_pos k),
      )
      (omega arith)

bit_and_self : (n x : ℕ) → x ≤ n → bit_and x x ≡ x
bit_and_self zero zero h = refl
bit_and_self zero (suc x) h = absurd (omega arith)
bit_and_self (suc n) zero h = refl
bit_and_self (suc n) (suc x) h =
    omega (arith, bit_and_step (suc x) (suc x), bit_and_self n (suc x / 2) (omega arith))

bit_and_pred_half :
    (x : ℕ) → x % 2 ≡ 0 → x ≢ 0 → bit_and x (x - 1) ≡ 0 → bit_and (x / 2) (x / 2 - 1) ≡ 0
bit_and_pred_half x even p e =
    let half : (x - 1) / 2 ≡ x / 2 - 1 = omega arith in
    rw (← half) (omega (arith, bit_and_step x (x - 1), e))

bit_and_pred_odd : (x : ℕ) → x % 2 ≢ 0 → bit_and x (x - 1) ≡ 0 → x ≡ 1
bit_and_pred_odd x odd e =
    let half : (x - 1) / 2 ≡ x / 2 = omega arith in
    let zero_half : bit_and (x / 2) (x / 2) ≡ 0 =
      ap (bit_and (x / 2)) (sym half) ∙ omega (arith, bit_and_step x (x - 1), e) in
    omega (arith, bit_and_self (x / 2) (x / 2) (omega arith))

-- A nonzero number without two ones is a power of two.
pub bit_and_pred : (n x : ℕ) → x ≤ n → x ≢ 0 → bit_and x (x - 1) ≡ 0 → (k : ℕ) × (x ≡ 2 ^ k)
bit_and_pred zero x h p e = absurd (p (omega arith))
bit_and_pred (suc n) x h p e = elim (ℕ_discrete (x % 2) 0) [
  | yes even ↦
      let (k, q) =
        bit_and_pred n (x / 2) (omega arith) (omega arith) (bit_and_pred_half x even p e) in
      (suc k, omega (arith, pow-suc 2 k))
  | no odd ↦ (0, bit_and_pred_odd x odd e)
]
