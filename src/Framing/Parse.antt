-- ===== src/Framing/Parse.antt =====
-- src/framing.cpp: `parse_frame_bytes`, which both readers end in.
use vynkor_sdk_cpp.Base.{
  ℕ, ◌+◌, Bool, true, false, not, Option, none, some, length, take, drop, replicate, ltb, ◌==◌,
  if◌then◌else◌, bit_and,
}
use vynkor_sdk_cpp.Base.Text.{lit}
use vynkor_sdk_cpp.Error.{
  Result, ok, throws, io, internal, payload_too_large, frame_magic_mismatch, frame_crc_mismatch,
  ◌>>=◌, ◌>>◌, throw_if,
}
use vynkor_sdk_cpp.Mac.{Bytes, OpenSsl, verify_tag, flag_mac_present, mac_tag_len}
use vynkor_sdk_cpp.Framing.Crc.{vynkor_crc32}
use vynkor_sdk_cpp.Framing.Zstd.{Zstd, zstd_decompress_bounded}
use vynkor_sdk_cpp.Framing.Header.{
  read_be16, read_be32, build_header, frame_magic, frame_header_size, max_payload_size,
  flag_compressed,
}

pub record FrameResult : Type 0 where
  pub payload : Bytes
  pub flags : ℕ
  pub has_mac : Bool
  pub mac : Bytes
  pub raw_header : Bytes

-- `flags & FLAG_MAC_PRESENT`
abbrev pub mac_present : ℕ → Bool
mac_present flags = not (bit_and flags flag_mac_present == 0)

abbrev pub tag_size : ℕ → ℕ
tag_size flags = if mac_present flags then mac_tag_len else 0

-- Decompresses, clears FLAG_COMPRESSED and rebuilds the header of the plain payload.
unfoldable pub normalize : Zstd → Bytes → ℕ → Bytes → Result FrameResult
normalize z buf flags payload =
    if bit_and flags flag_compressed == 0
    then ok (record {
      payload = payload;
      flags = flags;
      has_mac = false;
      mac = replicate mac_tag_len 0;
      raw_header = take frame_header_size buf;
    })
    else do
      plain ← zstd_decompress_bounded z payload
      let plain_flags = bit_and flags 0xfffd
      ok (record {
        payload = plain;
        flags = plain_flags;
        has_mac = false;
        mac = replicate mac_tag_len 0;
        raw_header = build_header plain_flags (take 32 (drop 8 buf)) plain;
      })

unfoldable pub check_mac : OpenSsl → Option Bytes → Bool → Bytes → FrameResult → Result FrameResult
check_mac o none false tag result = ok result
check_mac o none true tag result = ok (record result { has_mac = true; mac = tag })
check_mac o (some key) false tag result = throws (internal (lit "frame MAC verification failed"))
check_mac o (some key) true tag result = do
  good ← verify_tag o key result.raw_header result.payload tag
  throw_if (not good) (internal (lit "frame MAC verification failed"))
  ok (record result { has_mac = true; mac = tag })

-- The result, and what goes to `*consumed`.
unfoldable pub parse_frame_bytes : OpenSsl → Zstd → Bytes → Option Bytes → Result (FrameResult × ℕ)
parse_frame_bytes o z buf session_key = do
  throw_if (ltb (length buf) frame_header_size) (io (lit "frame shorter than header"))
  throw_if (not (read_be16 buf 0 == frame_magic)) frame_magic_mismatch
  let flags = read_be16 buf 2
  let len = read_be32 buf 4
  throw_if (ltb max_payload_size len) (payload_too_large len)
  let total = frame_header_size + len + tag_size flags
  throw_if (ltb (length buf) total) (io (lit "frame truncated"))
  let payload = take len (drop frame_header_size buf)
  throw_if (not (vynkor_crc32 payload == read_be32 buf 40)) frame_crc_mismatch
  result ← normalize z buf flags payload
  checked ←
      check_mac o session_key (mac_present flags)
        (take mac_tag_len (drop (frame_header_size + len) buf)) result
  ok (checked, total)
