-- ===== src/ParseCfg/Options.antt =====
-- src/parse_cfg_file/parse_livox_lidar_cfg.cpp: the options of a lidar, from the numbers of the file to
-- the bytes of its configuration.
use mathlib.Core.Path.{subst}
use mathlib.Core.Option.{some-injective}
use livox_ros_driver.Common.{
  ℕ, ◌+◌, ◌-◌, ◌%◌, ◌≤◌, ◌≡◌, ◌≢◌, refl, ap, ◌∙◌, sym, none, some, List, true, arith, Option-cases,
  Bool-cases, inl, inr, ltb,
}
use livox_ros_driver.Common.Eq.{codes}
use livox_ros_driver.Common.Int.{ℤ, pos, negsuc, pos_part, neg_part, ◌≤ℤ◌}
use livox_ros_driver.Common.Memory.{ok}
use livox_ros_driver.Comm.Floats.{Floats}
use livox_ros_driver.Json.{Json}
use livox_ros_driver.Lds.{UserLivoxLidarConfig}
use livox_ros_driver.ParseCfg.{Inet, to_uint8, to_int8, int_member, parse_config, no_extrinsics}

-- The signed byte that is `n` modulo 256.
pub record IsByteOf (n m : ℤ) : Type 0 where
  pub above : negsuc 127 ≤ℤ m
  pub below : m ≤ℤ pos 127
  pub same : (pos_part n + neg_part m) % 256 ≡ (pos_part m + neg_part n) % 256

to_int8-IsByteOf : (n : ℤ) → IsByteOf n (to_int8 n)
unfolding to_int8 to_uint8
to_int8-IsByteOf (pos n) = elim (Bool-cases (ltb (n % 256) 128)) [
  | inl low ↦ rw low (record {
    above = ground (arith, low);
    below = ground (arith, low);
    same = ground (arith, low);
  })
  | inr high ↦ rw high (record {
    above = ground (arith, high);
    below = ground (arith, high);
    same = ground (arith, high);
  })
]
to_int8-IsByteOf (negsuc n) = elim (Bool-cases (ltb (255 - n % 256) 128)) [
  | inl low ↦ rw low (record {
    above = ground (arith, low);
    below = ground (arith, low);
    same = ground (arith, low);
  })
  | inr high ↦ rw high (record {
    above = ground (arith, high);
    below = ground (arith, high);
    same = ground (arith, high);
  })
]

twice-IsByteOf : (n : ℤ) → IsByteOf n (to_int8 (pos (to_uint8 n)))
unfolding to_int8 to_uint8
twice-IsByteOf (pos n) = elim (Bool-cases (ltb (n % 256 % 256) 128)) [
  | inl low ↦ rw low (record {
    above = ground (arith, low);
    below = ground (arith, low);
    same = ground (arith, low);
  })
  | inr high ↦ rw high (record {
    above = ground (arith, high);
    below = ground (arith, high);
    same = ground (arith, high);
  })
]
twice-IsByteOf (negsuc n) = elim (Bool-cases (ltb ((255 - n % 256) % 256) 128)) [
  | inl low ↦ rw low (record {
    above = ground (arith, low);
    below = ground (arith, low);
    same = ground (arith, low);
  })
  | inr high ↦ rw high (record {
    above = ground (arith, high);
    below = ground (arith, high);
    same = ground (arith, high);
  })
]

-- The byte for a number that a signed byte does not hold.
byte_above : (n : ℕ) (m : ℤ) → 128 ≤ n → n ≤ 200 → IsByteOf (pos n) m → m ≡ negsuc (255 - n)
byte_above n (pos k) low high b = absurd (omega (arith, b.below, b.same))
byte_above n (negsuc k) low high b =
    let e : k ≡ 255 - n = omega (arith, b.above, b.same) in ap negsuc e

module _ (fl : Floats) (json : Json fl.Float) where
  open json use {Value}

  -- The member, if there is one, is a number.
  pub record IsNumeric (v : Value) (name : List ℕ) : Type 0 where
    pub number_of :
        (w : Value) → json.find_member v name ≡ some w → (n : ℤ) × (json.as_int w ≡ some n)

  -- An option of the configuration: the byte of the number of the file, or -1 where it has none.
  pub data IsOption (v : Value) (name : List ℕ) (m : ℤ) : Type 0 where
    given :
        (w : Value) (n : ℤ)
        → json.find_member v name ≡ some w
        → json.as_int w ≡ some n
        → IsByteOf n m
        → IsOption v name m
    missing : json.find_member v name ≡ none → m ≡ negsuc 0 → IsOption v name m

  int_member-IsOption :
      (v : Value) (name : List ℕ) (cast : ℤ → ℤ)
      → json.is_object v ≡ true
      → IsNumeric v name
      → ((n : ℤ) → IsByteOf n (cast n))
      → (m : ℤ) × (int_member fl json v name (negsuc 0) cast ≡ ok m) × IsOption v name m
  unfolding int_member
  int_member-IsOption v name cast object numeric casts =
      elim (Option-cases (json.find_member v name)) [
        | inl absent ↦ (negsuc 0, rw (object, absent, int_member) refl, missing absent refl)
        | inr (w, found) ↦
            let (n, read) = numeric.number_of w found in
            (cast n, rw (object, found, read, int_member) refl, given w n found read (casts n))
      ]

  -- An entry that the configuration can be read from: an object with an address, numbers for options and
  -- no extrinsic parameters.
  pub record IsEntry (v ip : Value) (address : List ℕ) : Type 0 where
    pub object : json.is_object v ≡ true
    pub text : json.as_string ip ≡ some address
    pub pcl_data_type : IsNumeric v (codes "pcl_data_type")
    pub pattern_mode : IsNumeric v (codes "pattern_mode")
    pub blind_spot_set : IsNumeric v (codes "blind_spot_set")
    pub dual_emit_en : IsNumeric v (codes "dual_emit_en")
    pub no_extrinsic : json.find_member v (codes "extrinsic_parameter") ≡ none

  -- What the configuration of an entry is.
  pub record IsRead (inet : Inet) (v : Value) (address : List ℕ)
      (config : UserLivoxLidarConfig fl.Float) : Type 0 where
    pub handle : config.handle ≡ inet.ip_string_to_num address
    pub pcl_data_type : IsOption v (codes "pcl_data_type") config.pcl_data_type
    pub pattern_mode : IsOption v (codes "pattern_mode") config.pattern_mode
    pub blind_spot_set : IsOption v (codes "blind_spot_set") config.blind_spot_set
    pub dual_emit_en : IsOption v (codes "dual_emit_en") config.dual_emit_en
    pub nothing_set : config.set_bits ≡ 0
    pub nothing_got : config.get_bits ≡ 0

  -- For an entry of the file that is an object with an address, whose options, where they are
  -- given, are numbers, and without extrinsic parameters: parsing it returns a configuration for
  -- that address without pending or answered requests, in which each of the four options is -1
  -- where the file has none, and else the signed byte that equals the number of the file modulo
  -- 256.
  pub parse_config-IsRead :
      (inet : Inet) (v ip : Value) (address : List ℕ)
      → IsEntry v ip address
      → (config : UserLivoxLidarConfig fl.Float) × (parse_config fl json inet v ip ≡ ok config)
        × IsRead inet v address config
  unfolding parse_config
  parse_config-IsRead inet v ip address e =
      let (a, run_a, a_read) =
        int_member-IsOption v (codes "pcl_data_type") to_int8 e.object e.pcl_data_type
          to_int8-IsByteOf in
      let (b, run_b, b_read) =
        int_member-IsOption v (codes "pattern_mode") to_int8 e.object e.pattern_mode
          to_int8-IsByteOf in
      let (c, run_c, c_read) =
        int_member-IsOption v (codes "blind_spot_set") to_int8 e.object e.blind_spot_set
          to_int8-IsByteOf in
      let (d, run_d, d_read) =
        int_member-IsOption v (codes "dual_emit_en") (λ n. to_int8 (pos (to_uint8 n))) e.object
          e.dual_emit_en twice-IsByteOf in
      (
        record {
          handle = inet.ip_string_to_num address;
          pcl_data_type = a;
          pattern_mode = b;
          blind_spot_set = c;
          dual_emit_en = d;
          extrinsic_param = no_extrinsics fl json;
          set_bits = 0;
          get_bits = 0;
        },
        rw (parse_config, e.text, run_a, run_b, run_c, run_d, e.object, e.no_extrinsic) refl,
        record {
          handle = refl;
          pcl_data_type = a_read;
          pattern_mode = b_read;
          blind_spot_set = c_read;
          dual_emit_en = d_read;
          nothing_set = refl;
          nothing_got = refl;
        },
      )

  -- For such an entry with a `blind_spot_set` from 128 to 200, which README.md allows, parsing
  -- returns a configuration whose `blind_spot_set` is that number less 256, and so negative.
  pub blind_spot_turns_negative :
      (inet : Inet) (v ip w : Value) (address : List ℕ) (n : ℕ)
      → IsEntry v ip address
      → json.find_member v (codes "blind_spot_set") ≡ some w
      → json.as_int w ≡ some (pos n)
      → 128 ≤ n
      → n ≤ 200
      → (config : UserLivoxLidarConfig fl.Float) × (parse_config fl json inet v ip ≡ ok config)
        × (config.blind_spot_set ≡ negsuc (255 - n))
  blind_spot_turns_negative inet v ip w address n e found read low high =
      let (config, run, r) = parse_config-IsRead inet v ip address e in
      (config, run, of_option config.blind_spot_set r.blind_spot_set)
    where
      none_some : (x : Value) → none ≢ some x
      none_some x h = cc

      of_option : (m : ℤ) → IsOption v (codes "blind_spot_set") m → m ≡ negsuc (255 - n)
      of_option m (missing absent e') = absurd (none_some w (sym absent ∙ found))
      of_option m (given w' n' found' read' byte) =
          let same : w' ≡ w = some-injective w' w (sym found' ∙ found) in
          let value : n' ≡ pos n =
            some-injective n' (pos n) (sym read' ∙ (ap json.as_int same ∙ read)) in
          byte_above n m low high (subst (λ (k : ℤ). IsByteOf k m) value byte)
