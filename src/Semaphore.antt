-- ===== src/Semaphore.antt =====
-- src/comm/semaphore.{h,cpp}. `Wait` blocks while the count is 0: `none`.
use livox_ros_driver.Common.{ℕ, zero, suc, Option, none, some}

pub record Semaphore : Type 0 where
  pub count : ℕ

unfoldable pub signal : Semaphore → Semaphore
signal s = record { count = suc s.count }

wait_at : ℕ → Option Semaphore
wait_at zero = none
wait_at (suc n) = some (record { count = n })

unfoldable pub wait : Semaphore → Option Semaphore
unfolding wait_at
wait s = wait_at s.count

unfoldable pub get_count : Semaphore → ℕ
get_count s = s.count
