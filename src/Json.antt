-- ===== src/Json.antt =====
-- The JSON library that the driver calls: a parameter of the model. A getter answers `none` where the
-- library's type test (`IsUint`, `IsArray`, ...) fails.
use livox_ros_driver.Common.{ℕ, Bool, Option, List}
use livox_ros_driver.Common.Int.{ℤ}

pub record Json (F : Type 0) : Type 1 where
  pub Value : Type 0
  -- `none` is a parse error.
  pub parse : List ℕ → Option Value
  pub is_object : Value → Bool
  pub find_member : Value → List ℕ → Option Value
  pub as_uint : Value → Option ℕ
  pub as_uint64 : Value → Option ℕ
  pub as_int : Value → Option ℤ
  pub as_int64 : Value → Option ℤ
  pub as_float : Value → Option F
  pub as_string : Value → Option (List ℕ)
  pub as_array : Value → Option (List Value)
