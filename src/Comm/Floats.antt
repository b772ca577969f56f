-- ===== src/Comm/Floats.antt =====
-- Floating point arithmetic, which the driver uses and does not implement: a parameter of the model.
-- `float` and `double` are one type here, and rounding is up to the operations.
use livox_ros_driver.Common.{ℕ, Bool}
use livox_ros_driver.Common.Int.{ℤ}

pub record Floats : Type 1 where
  pub Float : Type 0
  pub of_ℤ : ℤ → Float
  pub pi : Float
  pub add : Float → Float → Float
  pub sub : Float → Float → Float
  pub mul : Float → Float → Float
  pub div : Float → Float → Float
  pub neg : Float → Float
  pub sin : Float → Float
  pub cos : Float → Float
  pub lt : Float → Float → Bool
  pub is_finite : Float → Bool
  -- Truncating conversions to `uint32_t`, `uint64_t` and `int32_t`.
  pub to_u32 : Float → ℕ
  pub to_u64 : Float → ℕ
  pub to_i32 : Float → ℤ
