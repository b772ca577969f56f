-- ===== src/Tests/Roles.antt =====
-- Runs of src/lidar_identity.h and of src/compression: the parameters of one role, and clouds of two
-- bytes with a library that stores bytes as they are.
use mathlib.Core.Path.{subst}
use mathlib.Core.Option.{some-injective}
use livox_ros_driver.Common.{
  ℕ, ◌≡◌, ◌≤◌, ◌↔◌, refl, true, false, none, some, [], ◌∷◌, List, length, Bool, if◌then◌else◌, leb,
  arith,
}
use livox_ros_driver.Common.Int.{pos, negsuc}
use livox_ros_driver.Common.Eq.{codes, bytes_eq}
use livox_ros_driver.Common.Assoc.{lookup}
use livox_ros_driver.Identity.{
  Identity, LidarInfo, guard_accepts, observe_identity, observed_identity, identity_values,
  bounded_string,
}
use livox_ros_driver.Identity.Server.{
  ParamValue, text, number, flag, table_server, table_server-IsAtomic, all_admitted,
}
use livox_ros_driver.Identity.Guarded.{Shows, IsVisible, external_refused, observe_identity-Shows}
use livox_ros_driver.Compression.{PointCloud, StreamStats, compress, compressed_message, decompress}
use livox_ros_driver.Compression.Library.{Zstd, IsLossless}
use livox_ros_driver.Compression.RoundTrip.{decompress-compress}

abbrev table : List (List ℕ × ParamValue)
table =
    (codes "use_sim_time", flag false)
    ∷ (codes "device_info.ip", text (codes "1.2.3.4"))
    ∷ (codes "device_info.serial_number", text [])
    ∷ (codes "device_info.device_type", number (pos 0))
    ∷ (codes "device_info.identity_valid", flag false)
    ∷ (codes "device_info.confirmed_at_ns", number (pos 0))
    ∷ []

abbrev forged : List (List ℕ × ParamValue)
forged =
    (codes "use_sim_time", flag true) ∷ (codes "device_info.serial_number", text (codes "X")) ∷ []

external_refused_example :
    table_server.set_atomically table (guard_accepts false) forged ≡ (false, table)
external_refused_example =
    external_refused table_server table_server-IsAtomic table forged 1 (codes "serial_number")
      (text (codes "X")) refl typed
  where
    typed : all_admitted table_server table forged ≡ true
    typed = unfold all_admitted lookup bytes_eq in refl

abbrev identity : Identity
identity = record {
  role = codes "front";
  ip = codes "1.2.3.4";
  sn = [];
  type = 0;
  valid = false;
  handle = 7;
  configured = true;
  observed = false;
}

abbrev info : LidarInfo
info = record {
  dev_type = 9;
  sn = 65 ∷ 49 ∷ 0 ∷ 7 ∷ [];
  lidar_ip = 49 ∷ 46 ∷ 50 ∷ 46 ∷ 51 ∷ 46 ∷ 52 ∷ 0 ∷ [];
}

observe_identity-Shows_example :
    let after = observe_identity table_server identity table (pos 5) 7 (some info) in
    let serial = bounded_string (info.sn) in
    (after.0 ≡ true)
    × ((valid : Bool) × ((valid ≡ true) ↔ IsVisible serial)
        × Shows table_server after.1.1
            (bounded_string (info.lidar_ip))
            (if valid then serial else [])
            (info.dev_type)
            valid
            (pos 5))
observe_identity-Shows_example =
    observe_identity-Shows table_server table_server-IsAtomic identity table (pos 5) 7 info refl
      refl same_ip declared
  where
    same_ip : bounded_string (info.lidar_ip) ≡ codes "1.2.3.4"
    same_ip = unfold bounded_string in refl

    declared :
        all_admitted table_server table (identity_values (observed_identity identity info) (pos 5))
        ≡ true
    declared = unfold all_admitted identity_values lookup bytes_eq in refl

-- The level and the room do not matter; what does not fit the room is refused.
abbrev stored_bytes : Zstd
stored_bytes = record {
  min_level = negsuc 6;
  max_level = pos 22;
  compress_bound = λ n. n;
  pack = λ level room bytes. if leb (length bytes) room then some bytes else none;
  unpack = λ room bytes. if leb (length bytes) room then some bytes else none;
}

stored_bytes-IsLossless : IsLossless stored_bytes
stored_bytes-IsLossless = record {
  packs = λ level bytes low high. (bytes, rw (fits bytes (length bytes) (omega arith)) refl);
  unpacks = λ level room capacity bytes packed made small.
      of_test room capacity bytes packed (leb (length bytes) room) made small;
}
  where
    fits : (bytes : List ℕ) (room : ℕ) → length bytes ≤ room → leb (length bytes) room ≡ true
    fits bytes room h = ground (arith, h)

    of_test :
        (room capacity : ℕ) (bytes packed : List ℕ) (b : Bool)
        → (if b then some bytes else none) ≡ some packed
        → length bytes ≤ capacity
        → (if leb (length packed) capacity then some packed else none) ≡ some bytes
    of_test room capacity bytes packed true made small =
        subst (λ (p : List ℕ). (if leb (length p) capacity then some p else none) ≡ some bytes)
          (some-injective bytes packed made) (rw (fits bytes capacity small) refl)
    of_test room capacity bytes packed false made small = cc

abbrev cloud : PointCloud ℕ ℕ
cloud = record {
  header = 1;
  height = 1;
  width = 2;
  fields = [];
  is_bigendian = false;
  point_step = 1;
  row_step = 2;
  content = 8 ∷ 9 ∷ [];
  is_dense = true;
}

abbrev stats : StreamStats
stats = record { frames = 0; failures = 0; input_bytes = 0; output_bytes = 0 }

decompress-compress_example :
    (packed : List ℕ) × ((compress stored_bytes (pos 1) cloud stats).0
      ≡ some (compressed_message cloud packed))
    × (decompress stored_bytes (pos 512) (compressed_message cloud packed) ≡ some cloud)
decompress-compress_example =
    decompress-compress stored_bytes stored_bytes-IsLossless (pos 1) (pos 512) cloud stats
      (omega arith) (omega arith) (omega arith)
