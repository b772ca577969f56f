-- ===== src/Compression/Library.antt =====
-- The compression library that src/compression calls: an interface with what its manual says of a frame
-- that is made with `ZSTD_compressBound` bytes of room. A test `ZSTD_isError` is `none`.
use livox_ros_driver.Common.{ℕ, ◌≡◌, ◌≤◌, List, Option, some, length}
use livox_ros_driver.Common.Int.{ℤ, ◌≤ℤ◌}

pub record Zstd : Type 0 where
  pub min_level : ℤ
  pub max_level : ℤ
  pub compress_bound : ℕ → ℕ
  -- The level, the room of the destination and the source.
  pub pack : ℤ → ℕ → List ℕ → Option (List ℕ)
  -- The room of the destination and the source.
  pub unpack : ℕ → List ℕ → Option (List ℕ)

pub record IsLossless (z : Zstd) : Type 0 where
  pub packs :
      (level : ℤ) (bytes : List ℕ)
      → z.min_level ≤ℤ level
      → level ≤ℤ z.max_level
      → (packed : List ℕ) × (z.pack level (z.compress_bound (length bytes)) bytes ≡ some packed)
  pub unpacks :
      (level : ℤ) (room capacity : ℕ) (bytes packed : List ℕ)
      → z.pack level room bytes ≡ some packed
      → length bytes ≤ capacity
      → z.unpack capacity packed ≡ some bytes
