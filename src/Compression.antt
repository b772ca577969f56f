-- ===== src/Compression.antt =====
-- src/compression/pointcloud_zstd_compressor.cpp and src/compression/pointcloud_zstd_decompressor.cpp:
-- the two nodes that pack and unpack point clouds. The published message is what a call answers.
pub mod Library
pub mod RoundTrip
use livox_ros_driver.Common.{
  ℕ, Bool, true, false, not, ◌||◌, ◌&&◌, List, [], ◌∷◌, Option, none, some, leb, ltb, ◌==◌,
  if◌then◌else◌, length, zero, suc,
}
use livox_ros_driver.Common.Eq.{bytes_eq, codes}
use livox_ros_driver.Common.Int.{ℤ, pos, pos_part, ltb_ℤ}
use livox_ros_driver.Comm.{add64}
use livox_ros_driver.Compression.Library.{Zstd}

-- `sensor_msgs/PointCloud2`; `H` and `P` are the types of its header and of its field descriptions.
pub record PointCloud (H P : Type 0) : Type 0 where
  pub header : H
  pub height : ℕ
  pub width : ℕ
  pub fields : List P
  pub is_bigendian : Bool
  pub point_step : ℕ
  pub row_step : ℕ
  pub content : List ℕ
  pub is_dense : Bool

-- `CompressedPointCloud2`.
pub record CompressedCloud (H P : Type 0) : Type 0 where
  pub header : H
  pub height : ℕ
  pub width : ℕ
  pub fields : List P
  pub is_bigendian : Bool
  pub point_step : ℕ
  pub row_step : ℕ
  pub is_dense : Bool
  pub compression_format : List ℕ
  pub uncompressed_size : ℕ
  pub content : List ℕ

pub record StreamStats : Type 0 where
  pub frames : ℕ
  pub failures : ℕ
  pub input_bytes : ℕ
  pub output_bytes : ℕ

-- The tests on the parameters of the two constructors; `false` is an exception.
abbrev topics_paired : List (List ℕ) → List (List ℕ) → Bool
topics_paired inputs outputs = length inputs == length outputs && not (length inputs == 0)

unfoldable pub compressor_accepts : Zstd → List (List ℕ) → List (List ℕ) → ℤ → Bool
compressor_accepts z inputs outputs level =
    topics_paired inputs outputs && not (ltb_ℤ level z.min_level || ltb_ℤ z.max_level level)

unfoldable pub decompressor_accepts : List (List ℕ) → List (List ℕ) → ℤ → Bool
decompressor_accepts inputs outputs max_uncompressed_bytes =
    topics_paired inputs outputs && ltb_ℤ (pos 0) max_uncompressed_bytes

abbrev format : List ℕ
format = codes "zstd"

module _ {H P : Type 0} where
  -- The message behind a call of `ZSTD_compress` that answers `packed`.
  unfoldable pub compressed_message : PointCloud H P → List ℕ → CompressedCloud H P
  compressed_message input packed = record {
    header = input.header;
    height = input.height;
    width = input.width;
    fields = input.fields;
    is_bigendian = input.is_bigendian;
    point_step = input.point_step;
    row_step = input.row_step;
    is_dense = input.is_dense;
    compression_format = format;
    uncompressed_size = length input.content;
    content = packed;
  }

module _ {H P : Type 0} (z : Zstd) where
  unfoldable pub compress :
      ℤ → PointCloud H P → StreamStats → Option (CompressedCloud H P) × StreamStats
  compress level input stats =
      elim (z.pack level (z.compress_bound (length input.content)) input.content) [
        | none ↦ (none, record stats { failures = add64 stats.failures 1 })
        | some packed ↦ (
          some (compressed_message input packed),
          record stats {
            frames = add64 stats.frames 1;
            input_bytes = add64 stats.input_bytes (length input.content);
            output_bytes = add64 stats.output_bytes (length packed);
          },
        )
      ]

  -- `ZSTD_decompress` writes what it answers to the front of the array.
  unfoldable pub decompress : ℤ → CompressedCloud H P → Option (PointCloud H P)
  decompress max_uncompressed_bytes input =
      if not (bytes_eq input.compression_format format)
      then none
      else if ltb (pos_part max_uncompressed_bytes) input.uncompressed_size
      then none
      else elim (z.unpack input.uncompressed_size input.content) [
        | none ↦ none
        | some unpacked ↦
            if not (length unpacked == input.uncompressed_size)
            then none
            else some (record {
              header = input.header;
              height = input.height;
              width = input.width;
              fields = input.fields;
              is_bigendian = input.is_bigendian;
              point_step = input.point_step;
              row_step = input.row_step;
              content = unpacked;
              is_dense = input.is_dense;
            })
      ]
