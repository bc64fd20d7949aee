-- ===== src/Framing/Pack.antt =====
-- src/framing.cpp: the writers of a wire frame.
pub mod Agree
use vynkor_sdk_cpp.Base.{
  ℕ, ◌+◌, Bool, true, false, not, ◌&&◌, Option, none, some, List, [], ◌∷◌, ◌++◌, length, take, drop,
  min, replicate, ltb, leb, ◌==◌, if◌then◌else◌, bit_and, bit_or,
}
use vynkor_sdk_cpp.Base.Text.{Text}
use vynkor_sdk_cpp.Error.{Result, ok, throws, payload_too_large, ◌>>=◌, ◌>>◌, throw_if}
use vynkor_sdk_cpp.Mac.{Bytes, OpenSsl, compute_tag, flag_mac_present}
use vynkor_sdk_cpp.Framing.Crc.{vynkor_crc32}
use vynkor_sdk_cpp.Framing.Zstd.{Zstd, zstd_compress_level3}
use vynkor_sdk_cpp.Framing.Header.{
  be16, be32, memcpy, build_header, target_to_bytes, serialize_header_ws, frame_magic,
  frame_header_size, max_payload_size, compress_threshold, flag_compressed, flag_raw_binary,
}

-- The header that `pack_frame` and `pack_frame_mac` each write in place.
unfoldable pub inline_header : Text → Bytes → ℕ → Bytes
inline_header target payload flags =
    let crc = vynkor_crc32 payload in
    let h0 = replicate frame_header_size 0 in
    let h1 = memcpy h0 0 (be16 frame_magic) in
    let h2 = memcpy h1 2 (be16 flags) in
    let h3 = memcpy h2 4 (be32 (length payload)) in
    let copy_len = min (length target) 32 in
    let h4 = memcpy h3 8 (take copy_len target) in memcpy h4 40 (be32 crc)

unfoldable pub pack_frame : Text → Bytes → ℕ → Result Bytes
pack_frame target payload extra_flags = do
  throw_if (ltb max_payload_size (length payload)) (payload_too_large (length payload))
  let header = inline_header target payload extra_flags
  ok (header ++ payload)

unfoldable pub pack_frame_mac : OpenSsl → Text → Bytes → Bytes → ℕ → Result Bytes
pack_frame_mac o target payload session_key extra_flags = do
  throw_if (ltb max_payload_size (length payload)) (payload_too_large (length payload))
  let header = inline_header target payload (bit_or flag_mac_present extra_flags)
  tag ← compute_tag o session_key header payload
  ok (header ++ (payload ++ tag))

-- The tag that a session key adds; a null key adds none.
unfoldable pub tag_of : OpenSsl → Option Bytes → Bytes → Bytes → Result Bytes
tag_of o none header payload = ok []
tag_of o (some key) header payload = compute_tag o key header payload

unfoldable pub pack_frame_ws : OpenSsl → Text → ℕ → Bytes → Option Bytes → Result Bytes
pack_frame_ws o target flags payload session_key = do
  throw_if (ltb max_payload_size (length payload)) (payload_too_large (length payload))
  let header = serialize_header_ws target flags payload
  tag ← tag_of o session_key header payload
  ok (header ++ (payload ++ tag))

unfoldable pub is_candidate : ℕ → Bytes → Bool
is_candidate flags payload =
    leb compress_threshold (length payload)
    && (bit_and flags flag_compressed == 0 && bit_and flags flag_raw_binary == 0)

-- The flags and the payload that go on the wire: the compressed ones if that is shorter.
unfoldable pub wire_form : Zstd → ℕ → Bytes → Result (ℕ × Bytes)
wire_form z flags payload = if not (is_candidate flags payload) then ok (flags, payload) else do
  compressed ← zstd_compress_level3 z payload
  let smaller = ltb (length compressed) (length payload)
  ok (if smaller then (bit_or flags flag_compressed, compressed) else (flags, payload))

-- The tag covers the header of the plain payload; the wire header describes the bytes sent.
unfoldable pub pack_frame_raw : OpenSsl → Zstd → Text → ℕ → Bytes → Option Bytes → Result Bytes
pack_frame_raw o z target flags payload session_key = do
  throw_if (ltb max_payload_size (length payload)) (payload_too_large (length payload))
  let target_bytes = target_to_bytes target
  let plain_header = build_header flags target_bytes payload
  tag ← tag_of o session_key plain_header payload
  wire ← wire_form z flags payload
  let wire_header = build_header wire.0 target_bytes wire.1
  ok (wire_header ++ (wire.1 ++ tag))
