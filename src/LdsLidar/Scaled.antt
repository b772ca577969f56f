-- ===== src/LdsLidar/Scaled.antt =====
-- src/lds_lidar.cpp: the extrinsic parameters that the handler gets for a lidar.
use livox_ros_driver.Common.{
  ℕ, zero, suc, ◌*◌, ◌+◌, ◌/◌, ◌≤◌, ◌<◌, ◌≡◌, ◌≢◌, refl, ap, ◌∙◌, true, false, arith, Bool-cases,
  inl, inr,
}
use livox_ros_driver.Common.Int.{ℤ, pos, negsuc, pos_part, neg_part}
use livox_ros_driver.Lds.{UserLivoxLidarConfig, ExtParameter}
use livox_ros_driver.Monitor.State.{neg_ℕ}
use livox_ros_driver.RecordQueue.{same_int}
use livox_ros_driver.LdsLidar.Init.{lidar_param, tenth}

-- `b` is a tenth of `a`, without a remainder.
abbrev Tenfold : ℕ → ℕ → Type 0
Tenfold a b = (10 * b ≤ a) × (a < 10 * b + 10)

-- A distance in centimetres for one in millimetres, towards 0.
pub record IsCentimetres (mm cm : ℤ) : Type 0 where
  pub above : Tenfold (pos_part mm) (pos_part cm)
  pub below : Tenfold (neg_part mm) (neg_part cm)

module _ {F : Type 0} where
  pub record IsScaled (cartesian_low : ℕ) (config : UserLivoxLidarConfig F) (param : ExtParameter F)
      : Type 0 where
    pub unscaled : config.pcl_data_type ≢ pos cartesian_low → param ≡ config.extrinsic_param
    pub x :
        config.pcl_data_type ≡ pos cartesian_low → IsCentimetres config.extrinsic_param.x param.x
    pub y :
        config.pcl_data_type ≡ pos cartesian_low → IsCentimetres config.extrinsic_param.y param.y
    pub z :
        config.pcl_data_type ≡ pos cartesian_low → IsCentimetres config.extrinsic_param.z param.z
    pub roll : param.roll ≡ config.extrinsic_param.roll
    pub pitch : param.pitch ≡ config.extrinsic_param.pitch
    pub yaw : param.yaw ≡ config.extrinsic_param.yaw

neg_part-neg_ℕ : (n : ℕ) → (neg_part (neg_ℕ n) ≡ n) × (pos_part (neg_ℕ n) ≡ 0)
neg_part-neg_ℕ zero = (refl, refl)
neg_part-neg_ℕ (suc n) = (refl, refl)

tenth-IsCentimetres : (a : ℤ) → IsCentimetres a (tenth a)
unfolding tenth
tenth-IsCentimetres (pos n) = record {
  above = (omega arith, omega arith);
  below = (omega arith, omega arith);
}
tenth-IsCentimetres (negsuc n) =
    let (size, none_above) = neg_part-neg_ℕ (suc n / 10) in
    record {
      above = (omega (arith, none_above), omega (arith, none_above));
      below = (omega (arith, size), omega (arith, size));
    }

same_int_pos : (a : ℤ) (n : ℕ) → same_int a (pos n) ≡ true → a ≡ pos n
same_int_pos (pos m) n h = let e : m ≡ n = ground (arith, h) in cc
same_int_pos (negsuc m) n h = absurd (ground (arith, h))

same_int_refl : (n : ℕ) → same_int (pos n) (pos n) ≡ true
same_int_refl n = ground arith

pub lidar_param-IsScaled :
    {F : Type 0} (cartesian_low : ℕ) (config : UserLivoxLidarConfig F)
    → IsScaled cartesian_low config (lidar_param cartesian_low config)
unfolding lidar_param
lidar_param-IsScaled cartesian_low config =
    elim (Bool-cases (same_int config.pcl_data_type (pos cartesian_low))) [
      | inl low ↦ rw low (record {
        unscaled = λ ne. absurd (ne (same_int_pos config.pcl_data_type cartesian_low low));
        x = λ e. tenth-IsCentimetres config.extrinsic_param.x;
        y = λ e. tenth-IsCentimetres config.extrinsic_param.y;
        z = λ e. tenth-IsCentimetres config.extrinsic_param.z;
        roll = refl;
        pitch = refl;
        yaw = refl;
      })
      | inr high ↦ rw high (record {
        unscaled = λ ne. refl;
        x = λ e. absurd (differ e high);
        y = λ e. absurd (differ e high);
        z = λ e. absurd (differ e high);
        roll = refl;
        pitch = refl;
        yaw = refl;
      })
    ]
  where
    differ :
        config.pcl_data_type ≡ pos cartesian_low
        → same_int config.pcl_data_type (pos cartesian_low) ≢ false
    differ e high =
        let low = ap (λ (a : ℤ). same_int a (pos cartesian_low)) e ∙ same_int_refl cartesian_low in
        ground (arith, low, high)
