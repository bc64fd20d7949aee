-- ===== src/Framing/Zstd.antt =====
-- src/framing.cpp: the two wrappers around zstd. The library itself is a parameter.
use vynkor_sdk_cpp.Base.{ℕ, ◌≡◌, ◌≤◌, Bool, false, not, ◌||◌, All, length, take, ltb, ◌==◌}
use vynkor_sdk_cpp.Base.{◌++◌}
use vynkor_sdk_cpp.Base.Text.{Text, lit}
use vynkor_sdk_cpp.Error.{Result, ok, throws, internal, ◌>>◌, throw_if}
use vynkor_sdk_cpp.Mac.{Bytes, IsByte}
use vynkor_sdk_cpp.Framing.Header.{max_payload_size}

-- ZSTD_CONTENTSIZE_ERROR, ZSTD_CONTENTSIZE_UNKNOWN, or the size that the frame states.
pub data ContentSize : Type 0 where
  content_error content_unknown : ContentSize
  content : ℕ → ContentSize

-- `compress` and `decompress` take the capacity of the destination and return the code with what
-- the destination holds.
pub record Zstd : Type 0 where
  pub get_frame_content_size : Bytes → ContentSize
  pub compress_bound : ℕ → ℕ
  pub compress : ℕ → Bytes → ℕ → ℕ × Bytes
  pub decompress : ℕ → Bytes → ℕ × Bytes
  pub is_error : ℕ → Bool
  pub get_error_name : ℕ → Text

module _ (z : Zstd) where
  unfoldable pub zstd_decompress_bounded : Bytes → Result Bytes
  zstd_decompress_bounded bytes = elim (z.get_frame_content_size bytes) [
    | content_error ↦ throws (internal (lit "decompress frame: invalid zstd frame"))
    | content_unknown ↦
        throws (internal (lit "decompress frame: content size unknown or too large"))
    | content n ↦ do
      throw_if (ltb max_payload_size n)
          (internal (lit "decompress frame: content size unknown or too large"))
      let code = (z.decompress n bytes).0
      throw_if (z.is_error code || not (code == n))
          (internal (lit "decompress frame: " ++ z.get_error_name code))
      ok (z.decompress n bytes).1
  ]

  unfoldable pub zstd_compress_level3 : Bytes → Result Bytes
  zstd_compress_level3 bytes = do
    let out = z.compress (z.compress_bound (length bytes)) bytes 3
    throw_if (z.is_error out.0) (internal (lit "zstd compress failed: " ++ z.get_error_name out.0))
    ok (take out.0 out.1)

-- What zstd documents: decompression fills a buffer of the stated size, and the frame that one call
-- of ZSTD_compress writes states the size of the original and decompresses to it.
pub record IsZstd (z : Zstd) : Type 0 where
  pub compress_bytes :
      (src : Bytes)
      → All IsByte src
      → All IsByte (z.compress (z.compress_bound (length src)) src 3).1
  pub decompress_length :
      (n : ℕ) (bytes : Bytes)
      → z.is_error (z.decompress n bytes).0 ≡ false
      → (z.decompress n bytes).0 ≡ n
      → length (z.decompress n bytes).1 ≡ n
  pub round_trip :
      (src c : Bytes)
      → length src ≤ max_payload_size
      → zstd_compress_level3 z src ≡ ok c
      → (z.get_frame_content_size c ≡ content (length src))
        × (z.is_error (length src) ≡ false)
        × ((z.decompress (length src) c).0 ≡ length src)
        × ((z.decompress (length src) c).1 ≡ src)
