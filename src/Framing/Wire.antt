-- ===== src/Framing/Wire.antt =====
-- A frame as the bytes on the wire: the reader accepts it and cuts out its parts.
use vynkor_sdk_cpp.Base.{
  ℕ, ◌+◌, ◌≤◌, ◌<◌, ◌≡◌, refl, ap, sym, ◌∙◌, arith, Option, ◌++◌, length, take, drop, All,
  length-append, take_append, drop_append, drop-drop, le→ltb_false, ==_refl,
}
use vynkor_sdk_cpp.Error.{ok, ◌>>=◌}
use vynkor_sdk_cpp.Mac.{Bytes, IsByte, OpenSsl, mac_tag_len}
use vynkor_sdk_cpp.Framing.Crc.{vynkor_crc32}
use vynkor_sdk_cpp.Framing.Zstd.{Zstd}
use vynkor_sdk_cpp.Framing.Header.{
  read_be16, read_be32, frame_magic, frame_header_size, max_payload_size,
}
use vynkor_sdk_cpp.Framing.Header.Laws.{
  fields, read_flags, read_length, read_crc, read_rest, length-fields,
}
use vynkor_sdk_cpp.Framing.Crc.Reference.{vynkor_crc32-lt}
use vynkor_sdk_cpp.Framing.Parse.{parse_frame_bytes, normalize, check_mac, mac_present, tag_size}

module _ (o : OpenSsl) (z : Zstd) (key : Option Bytes) where
  -- A buffer that passes the tests up to the CRC.
  pub parse_accepts :
      (buf : Bytes) (flags len : ℕ) (payload tag : Bytes)
      → frame_header_size ≤ length buf
      → read_be16 buf 0 ≡ frame_magic
      → read_be16 buf 2 ≡ flags
      → read_be32 buf 4 ≡ len
      → len ≤ max_payload_size
      → frame_header_size + len + tag_size flags ≤ length buf
      → take len (drop frame_header_size buf) ≡ payload
      → take mac_tag_len (drop (frame_header_size + len) buf) ≡ tag
      → read_be32 buf 40 ≡ vynkor_crc32 payload
      → parse_frame_bytes o z buf key ≡ (
          normalize z buf flags payload >>= λ result.
          check_mac o key (mac_present flags) tag result >>= λ checked.
          ok (checked, frame_header_size + len + tag_size flags))
  unfolding parse_frame_bytes
  parse_accepts buf flags len payload tag short magic f l fits whole cut rest crc = rw (
    le→ltb_false _ _ short,
    magic,
    f,
    l,
    le→ltb_false _ _ fits,
    le→ltb_false _ _ whole,
    cut,
    rest,
    crc,
    ==_refl (vynkor_crc32 payload),
  )

module _ (flags : ℕ) (target payload tag rest : Bytes) where
  -- The bytes on the wire, and whatever follows them.
  abbrev pub wire : Bytes
  wire = fields flags target payload ++ (payload ++ (tag ++ rest))

  pub length-wire :
      length target ≡ 32 → length wire ≡ 44 + (length payload + (length tag + length rest))
  length-wire h = omega (
    arith,
    length-fields flags target payload h,
    length-append (fields flags target payload) (payload ++ (tag ++ rest)),
    length-append payload (tag ++ rest),
    length-append tag rest,
  )

  pub wire_payload :
      length target ≡ 32 → take (length payload) (drop frame_header_size wire) ≡ payload
  wire_payload h =
      rw (read_rest flags target payload (payload ++ (tag ++ rest)) h)
        (take_append (length payload) payload (tag ++ rest) refl)

  pub wire_tag : length target ≡ 32 → drop (frame_header_size + length payload) wire ≡ tag ++ rest
  wire_tag h =
      sym (drop-drop 44 (length payload) wire)
      ∙ ap (drop (length payload)) (read_rest flags target payload (payload ++ (tag ++ rest)) h)
      ∙ drop_append (length payload) payload (tag ++ rest) refl

module _ (o : OpenSsl) (z : Zstd) (key : Option Bytes) (flags : ℕ) (target payload tag rest : Bytes)
    (h : length target ≡ 32) (f : flags < 0x10000) (fits : length payload ≤ max_payload_size)
    (bytes : All IsByte payload) (sized : length tag ≡ tag_size flags) where
  -- A frame on the wire passes the tests up to the CRC, and the payload and the tag are cut out.
  pub parse-wire : parse_frame_bytes o z (wire flags target payload tag rest) key ≡ (
      normalize z (wire flags target payload tag rest) flags payload >>= λ result.
      check_mac o key (mac_present flags) (take mac_tag_len (tag ++ rest)) result >>= λ checked.
      ok (checked, frame_header_size + length payload + tag_size flags))
  parse-wire =
      let all = payload ++ (tag ++ rest) in
      let long = length-wire flags target payload tag rest h in
      parse_accepts o z key (wire flags target payload tag rest) flags (length payload) payload
        (take mac_tag_len (tag ++ rest)) (omega (arith, long)) refl
        (read_flags flags target payload all h f)
        (read_length flags target payload all h (omega arith)) fits (omega (arith, long))
        (wire_payload flags target payload tag rest h)
        (ap (take mac_tag_len) (wire_tag flags target payload tag rest h))
        (read_crc flags target payload all h (vynkor_crc32-lt payload bytes))
