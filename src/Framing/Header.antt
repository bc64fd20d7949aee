-- ===== src/Framing/Header.antt =====
-- src/framing.cpp: the 44-byte header of a frame, written by `memcpy` in network byte order.
pub mod Laws
use vynkor_sdk_cpp.Base.{
  ℕ, ◌+◌, ◌*◌, ◌/◌, ◌%◌, List, [], ◌∷◌, ◌++◌, length, take, drop, replicate, get_or, min, ltb,
  if◌then◌else◌,
}
use vynkor_sdk_cpp.Base.Text.{Text}
use vynkor_sdk_cpp.Mac.{Bytes}
use vynkor_sdk_cpp.Framing.Crc.{vynkor_crc32}

abbrev pub frame_magic : ℕ
frame_magic = 0x5652

abbrev pub frame_header_size : ℕ
frame_header_size = 44

abbrev pub max_payload_size : ℕ
max_payload_size = 1048576

abbrev pub flag_compressed : ℕ
flag_compressed = 0x0002

abbrev pub flag_fragmented : ℕ
flag_fragmented = 0x0004

abbrev pub flag_raw_binary : ℕ
flag_raw_binary = 0x0010

abbrev pub compress_threshold : ℕ
compress_threshold = 65536

-- `htons` and `htonl` followed by `memcpy`: the bytes of a number, most significant first.
abbrev pub be16 : ℕ → Bytes
be16 n = (n / 0x100 % 0x100) ∷ (n % 0x100) ∷ []

abbrev pub be32 : ℕ → Bytes
be32 n = (n / 0x1000000 % 0x100) ∷ (n / 0x10000 % 0x100) ∷ (n / 0x100 % 0x100) ∷ (n % 0x100) ∷ []

-- `memcpy` followed by `ntohs` and `ntohl`, at an offset.
abbrev pub read_be16 : Bytes → ℕ → ℕ
read_be16 buf i = get_or buf i 0 * 0x100 + get_or buf (i + 1) 0

abbrev pub read_be32 : Bytes → ℕ → ℕ
read_be32 buf i =
    get_or buf i 0 * 0x1000000
    + get_or buf (i + 1) 0 * 0x10000
    + get_or buf (i + 2) 0 * 0x100
    + get_or buf (i + 3) 0

-- `memcpy(dst + offset, src, length src)`
abbrev pub memcpy : Bytes → ℕ → Bytes → Bytes
memcpy dst offset src = take offset dst ++ (src ++ drop (offset + length src) dst)

unfoldable pub build_header : ℕ → Bytes → Bytes → Bytes
build_header flags target payload =
    let h0 = replicate frame_header_size 0 in
    let h1 = memcpy h0 0 (be16 frame_magic) in
    let h2 = memcpy h1 2 (be16 flags) in
    let h3 = memcpy h2 4 (be32 (length payload)) in
    let h4 = memcpy h3 8 target in memcpy h4 40 (be32 (vynkor_crc32 payload))

unfoldable pub target_to_bytes : Text → Bytes
target_to_bytes target =
    let out = replicate 32 0 in
    let copy_len = min (length target) 32 in
    if ltb 0 copy_len then memcpy out 0 (take copy_len target) else out

unfoldable pub serialize_header_ws : Text → ℕ → Bytes → Bytes
serialize_header_ws target flags payload = build_header flags (target_to_bytes target) payload
