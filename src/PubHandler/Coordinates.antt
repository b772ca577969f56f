-- ===== src/PubHandler/Coordinates.antt =====
-- src/comm/pub_handler.cpp: the extrinsic parameters and the coordinates of a point, in floating point
-- arithmetic that is a parameter.
use livox_ros_driver.Common.{ℕ, Bool, true, false, [], if◌then◌else◌}
use livox_ros_driver.Common.Int.{pos}
use livox_ros_driver.Comm.Floats.{Floats}
use livox_ros_driver.Lds.{ExtParameter}
use livox_ros_driver.PubHandler.Points.{
  CartesianPoint, SphericalPoint, Vector, ExtParameterDetailed, LidarPubHandler,
}

module _ (fl : Floats) where
  open fl use {Float, of_ℤ, add, sub, mul, div, neg, sin, cos, pi}

  abbrev pub num : ℕ → Float
  num n = of_ℤ (pos n)

  abbrev vec : Float → Float → Float → Vector Float
  vec a b c = record { vx = a; vy = b; vz = c }

  unfoldable pub new_handler : LidarPubHandler Float
  new_handler = record {
    points_clouds = [];
    extrinsic = record {
      trans = vec (num 0) (num 0) (num 0);
      row0 = vec (num 1) (num 0) (num 0);
      row1 = vec (num 0) (num 1) (num 1);
      row2 = vec (num 0) (num 0) (num 1);
    };
    is_set_extrinsic_params = false;
  }

  abbrev radians : Float → Float
  radians degrees = div (mul degrees pi) (num 180)

  unfoldable pub extrinsic_of : ExtParameter Float → ExtParameterDetailed Float
  extrinsic_of p =
      let cr = cos (radians p.roll) in
      let cp = cos (radians p.pitch) in
      let cy = cos (radians p.yaw) in
      let sr = sin (radians p.roll) in
      let sp = sin (radians p.pitch) in
      let sy = sin (radians p.yaw) in
      record {
        trans = vec (of_ℤ p.x) (of_ℤ p.y) (of_ℤ p.z);
        row0 =
            vec (mul cp cy) (sub (mul (mul sr sp) cy) (mul cr sy))
              (add (mul (mul cr sp) cy) (mul sr sy));
        row1 =
            vec (mul cp sy) (add (mul (mul sr sp) sy) (mul cr cy))
              (sub (mul (mul cr sp) sy) (mul sr cy));
        row2 = vec (neg sp) (mul sr cp) (mul cr cp);
      }

  unfoldable pub set_lidars_ext_param :
      LidarPubHandler Float → ExtParameter Float → LidarPubHandler Float
  set_lidars_ext_param h p =
      if h.is_set_extrinsic_params
      then h
      else record h { extrinsic = extrinsic_of p; is_set_extrinsic_params = true }

  abbrev row_sum : Vector Float → Vector Float → Float → Float
  row_sum v row t = add (add (add (mul v.vx row.vx) (mul v.vy row.vy)) (mul v.vz row.vz)) t

  -- The coordinates of a Cartesian point in a unit of which `scale` make a metre.
  unfoldable pub cartesian : ExtParameterDetailed Float → Bool → ℕ → CartesianPoint → Vector Float
  cartesian e extrinsic_enable scale raw =
      let v = vec (of_ℤ raw.x) (of_ℤ raw.y) (of_ℤ raw.z) in
      if extrinsic_enable
      then vec (div v.vx (num scale)) (div v.vy (num scale)) (div v.vz (num scale))
      else vec (div (row_sum v e.row0 e.trans.vx) (num scale))
          (div (row_sum v e.row1 e.trans.vy) (num scale))
          (div (row_sum v e.row2 e.trans.vz) (num scale))

  unfoldable pub spherical : ExtParameterDetailed Float → Bool → SphericalPoint → Vector Float
  spherical e extrinsic_enable raw =
      let radius = div (num raw.depth) (num 1000) in
      let theta = mul (div (div (num raw.theta) (num 100)) (num 180)) pi in
      let phi = mul (div (div (num raw.phi) (num 100)) (num 180)) pi in
      let v =
        vec (mul (mul radius (sin theta)) (cos phi)) (mul (mul radius (sin theta)) (sin phi))
          (mul radius (cos theta)) in
      if extrinsic_enable
      then v
      else vec (row_sum v e.row0 (div e.trans.vx (num 1000)))
          (row_sum v e.row1 (div e.trans.vy (num 1000)))
          (row_sum v e.row2 (div e.trans.vz (num 1000)))
