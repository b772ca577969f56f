-- ===== src/Compression/RoundTrip.antt =====
-- src/compression: what the second node makes of what the first one made.
use livox_ros_driver.Common.{ℕ, ◌≡◌, ◌≤◌, refl, true, false, List, some, ltb, ◌==◌, length, arith}
use livox_ros_driver.Common.Eq.{bytes_eq, bytes_eq_instance}
use livox_ros_driver.Common.Int.{ℤ, pos_part, ◌≤ℤ◌}
use livox_ros_driver.Compression.Library.{Zstd, IsLossless}
use livox_ros_driver.Compression.{
  PointCloud, CompressedCloud, StreamStats, compressed_message, compress, decompress,
}

leb_self : (n : ℕ) → (n == n) ≡ true
leb_self n = ground arith

not_above : (a b : ℕ) → a ≤ b → ltb b a ≡ false
not_above a b h = ground arith

module _ {H P : Type 0} (z : Zstd) (lossless : IsLossless z) where
  -- With a lossless library, a level in its range and a cloud within the limit of the
  -- decompressor, `compress` publishes a message, and `decompress` publishes from it the cloud
  -- that was compressed, with its layout.
  pub decompress-compress :
      (level limit : ℤ) (cloud : PointCloud H P) (stats : StreamStats)
      → z.min_level ≤ℤ level
      → level ≤ℤ z.max_level
      → length cloud.content ≤ pos_part limit
      → (packed : List ℕ) × ((compress z level cloud stats).0
          ≡ some (compressed_message cloud packed))
        × (decompress z limit (compressed_message cloud packed) ≡ some cloud)
  unfolding compress decompress compressed_message bytes_eq
  decompress-compress level limit cloud stats low high small =
      let (packed, made) = lossless.packs level cloud.content low high in
      let back =
        lossless.unpacks level (z.compress_bound (length cloud.content)) (length cloud.content)
          cloud.content packed made (omega arith) in
      (
        packed,
        rw (made, compress) refl,
        rw
            (
              not_above (length cloud.content) (pos_part limit) small,
              back,
              leb_self (length cloud.content),
            )
            refl,
      )

-- Whatever a message declares and holds, a cloud that `decompress` publishes has exactly the
-- declared number of bytes, and not more than the limit.
pub decompress_bounded :
    {H P : Type 0} (z : Zstd) (limit : ℤ) (input : CompressedCloud H P) (cloud : PointCloud H P)
    → decompress z limit input ≡ some cloud
    → (length cloud.content ≡ input.uncompressed_size) × (length cloud.content ≤ pos_part limit)
unfolding decompress
decompress_bounded z limit input cloud sent = ground arith
