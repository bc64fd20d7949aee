-- ===== src/Framing/Sound.antt =====
-- What an accepted buffer is: the reader's checks, and the authenticity of a keyed frame.
use vynkor_sdk_cpp.Base.{
  ℕ, ◌<◌, ◌^◌, ◌+◌, ◌/◌, ◌≤◌, ◌≡◌, refl, ap, ◌∙◌, arith, Option, none, some, length, take, drop,
  not, length-take, bit_and, ◌==◌, inl, inr, ltb_false→le, ==_iff, Bool, true, false, Bool-cases,
}
use vynkor_sdk_cpp.Error.{ok, throw_if-eq-ok, >>=-eq-ok}
use vynkor_sdk_cpp.Mac.{Bytes, OpenSsl, IsOpenSsl, compute_tag, verify_tag, mac_tag_len}
use vynkor_sdk_cpp.Mac.Laws.{verify_tag_iff}
use vynkor_sdk_cpp.Base.Bits.Step.{bit_and_step}
use vynkor_sdk_cpp.Base.Bits.Flags.{bit_and-2}
use vynkor_sdk_cpp.Framing.Crc.{vynkor_crc32}
use vynkor_sdk_cpp.Framing.Zstd.{
  Zstd, IsZstd, ContentSize, content_error, content_unknown, content, zstd_decompress_bounded,
}
use vynkor_sdk_cpp.Framing.Header.{
  read_be16, read_be32, frame_magic, frame_header_size, max_payload_size,
}
use vynkor_sdk_cpp.Framing.Parse.{
  FrameResult, parse_frame_bytes, normalize, check_mac, mac_present, tag_size,
}

-- The steps that a successful call went through.
pub record Parsed (o : OpenSsl) (z : Zstd) (buf : Bytes) (key : Option Bytes) (r : FrameResult)
    (n : ℕ) : Type 0 where
  pub long : frame_header_size ≤ length buf
  pub magic : read_be16 buf 0 ≡ frame_magic
  pub fits : read_be32 buf 4 ≤ max_payload_size
  pub whole : frame_header_size + read_be32 buf 4 + tag_size (read_be16 buf 2) ≤ length buf
  pub crc : vynkor_crc32 (take (read_be32 buf 4) (drop frame_header_size buf)) ≡ read_be32 buf 40
  pub plain : FrameResult
  pub normalized :
      normalize z buf (read_be16 buf 2) (take (read_be32 buf 4) (drop frame_header_size buf))
      ≡ ok plain
  pub checked :
      check_mac o key
        (mac_present (read_be16 buf 2))
        (take mac_tag_len (drop (frame_header_size + read_be32 buf 4) buf))
        plain
      ≡ ok r
  pub consumed : n ≡ frame_header_size + read_be32 buf 4 + tag_size (read_be16 buf 2)

not-eq-false : (b : Bool) → not b ≡ false → b ≡ true
not-eq-false b h = ground arith

pub parse_frame_bytes-Parsed :
    (o : OpenSsl) (z : Zstd) (buf : Bytes) (key : Option Bytes) (r : FrameResult) (n : ℕ)
    → parse_frame_bytes o z buf key ≡ ok (r, n)
    → Parsed o z buf key r n
unfolding parse_frame_bytes
parse_frame_bytes-Parsed o z buf key r n h =
    let (e1, h1) = throw_if-eq-ok _ _ _ h in
    let (e2, h2) = throw_if-eq-ok _ _ _ h1 in
    let (e3, h3) = throw_if-eq-ok _ _ _ h2 in
    let (e4, h4) = throw_if-eq-ok _ _ _ h3 in
    let (e5, h5) = throw_if-eq-ok _ _ _ h4 in
    let (plain, e6, h6) = >>=-eq-ok _ _ h5 in
    let (s, e7, h7) = >>=-eq-ok _ _ h6 in
    record {
      long = ltb_false→le _ _ e1;
      magic = (==_iff _ _).0 (not-eq-false _ e2);
      fits = ltb_false→le _ _ e3;
      whole = ltb_false→le _ _ e4;
      crc = (==_iff _ _).0 (not-eq-false _ e5);
      plain = plain;
      normalized = e6;
      checked = e7 ∙ cc h7;
      consumed = cc h7;
    }

compressed_cleared : (f : ℕ) → bit_and (bit_and f 0xfffd) 2 ≡ 0
compressed_cleared f =
    omega (arith, bit_and-2 (bit_and f 0xfffd), bit_and_step f 0xfffd, bit_and_step (f / 2) 0x7ffe)

decompress_bounded :
    (z : Zstd) (c p : Bytes)
    → IsZstd z
    → zstd_decompress_bounded z c ≡ ok p
    → length p ≤ max_payload_size
unfolding zstd_decompress_bounded
decompress_bounded z c p lz e = from_size (z.get_frame_content_size c) refl
  where
    from_size : (s : ContentSize) → z.get_frame_content_size c ≡ s → length p ≤ max_payload_size
    from_size content_error q = cc (rw (q, zstd_decompress_bounded) at e)
    from_size content_unknown q = cc (rw (q, zstd_decompress_bounded) at e)
    from_size (content n) q =
        ground (arith, rw (q, zstd_decompress_bounded) at e, lz.decompress_length n c)

normalize_bounds :
    (z : Zstd) (buf : Bytes) (flags : ℕ) (wire : Bytes) (plain : FrameResult)
    → IsZstd z
    → length wire ≤ max_payload_size
    → normalize z buf flags wire ≡ ok plain
    → (length plain.payload ≤ max_payload_size) × (bit_and plain.flags 2 ≡ 0)
unfolding normalize
normalize_bounds z buf flags wire plain lz fits h = elim (Bool-cases (bit_and flags 2 == 0)) [
  | inl clear ↦ ground (arith, rw clear at h)
  | inr set ↦
      let (p, e, r) = >>=-eq-ok (zstd_decompress_bounded z wire) _ (rw set at h) in
      ground (arith, r, decompress_bounded z wire p lz e, compressed_cleared flags)
]

keyed_check :
    (o : OpenSsl) (k : Bytes) (m : Bool) (tag : Bytes) (plain r : FrameResult)
    → IsOpenSsl o
    → check_mac o (some k) m tag plain ≡ ok r
    → (r.has_mac ≡ true) × (compute_tag o k r.raw_header r.payload ≡ ok r.mac)
unfolding check_mac
keyed_check o k false tag plain r lo h = cc
keyed_check o k true tag plain r lo h =
    let (good, e, h') = >>=-eq-ok (verify_tag o k plain.raw_header plain.payload tag) _ h in
    let (g, same) = throw_if-eq-ok (not good) _ _ h' in
    let accepted : verify_tag o k plain.raw_header plain.payload tag ≡ ok true =
      e ∙ ap ok (not-eq-false good g) in
    let authentic = (verify_tag_iff o k plain.raw_header plain.payload tag lo).0 accepted in
    ground (arith, same, authentic)

check_mac_keeps :
    (o : OpenSsl) (key : Option Bytes) (m : Bool) (tag : Bytes) (plain r : FrameResult)
    → check_mac o key m tag plain ≡ ok r
    → (r.payload ≡ plain.payload) × (r.flags ≡ plain.flags)
unfolding check_mac
check_mac_keeps o none false tag plain r h = ground arith
check_mac_keeps o none true tag plain r h = ground arith
check_mac_keeps o (some k) false tag plain r h = cc
check_mac_keeps o (some k) true tag plain r h = ground arith

-- A reader that holds a session key accepts only frames that carry a tag, and that tag is the one
-- that the key gives for the header and the payload which the reader returns.
pub parse_frame_bytes_authentic :
    (o : OpenSsl) (z : Zstd) (buf k : Bytes) (r : FrameResult) (n : ℕ)
    → IsOpenSsl o
    → parse_frame_bytes o z buf (some k) ≡ ok (r, n)
    → (r.has_mac ≡ true) × (compute_tag o k r.raw_header r.payload ≡ ok r.mac)
parse_frame_bytes_authentic o z buf k r n lo h =
    let p = parse_frame_bytes-Parsed o z buf (some k) r n h in
    keyed_check o k (mac_present (read_be16 buf 2)) _ p.plain r lo p.checked

-- Whether keyed or not, what the reader returns is bounded: the payload by 1 MiB, even after
-- decompression, with FLAG_COMPRESSED cleared; and it takes from the buffer the header, the length
-- that the header states and the tag that the flags announce.
pub parse_frame_bytes_bounds :
    (o : OpenSsl) (z : Zstd) (buf : Bytes) (key : Option Bytes) (r : FrameResult) (n : ℕ)
    → IsZstd z
    → parse_frame_bytes o z buf key ≡ ok (r, n)
    → (length r.payload ≤ max_payload_size)
      × (bit_and r.flags 2 ≡ 0)
      × (n ≤ length buf)
      × (n ≡ frame_header_size + read_be32 buf 4 + tag_size (read_be16 buf 2))
parse_frame_bytes_bounds o z buf key r n lz h =
    let p = parse_frame_bytes-Parsed o z buf key r n h in
    let (fits, clear) =
      normalize_bounds z buf _ _ p.plain lz
        (omega (arith, p.fits, length-take (read_be32 buf 4) (drop frame_header_size buf)))
        p.normalized in
    let (same, flags) =
      check_mac_keeps o key (mac_present (read_be16 buf 2)) _ p.plain r p.checked in
    (rw same fits, rw flags clear, omega (arith, p.whole, p.consumed), p.consumed)

pub parse_frame_bytes_small :
    (o : OpenSsl) (z : Zstd) (buf : Bytes) (key : Option Bytes) (r : FrameResult) (n : ℕ)
    → parse_frame_bytes o z buf key ≡ ok (r, n)
    → n < 2 ^ 21
parse_frame_bytes_small o z buf key r n h =
    let p = parse_frame_bytes-Parsed o z buf key r n h in
    elim (Bool-cases (mac_present (read_be16 buf 2))) [
      | inl keyed ↦ ground (arith, p.fits, p.consumed, keyed)
      | inr plain ↦ ground (arith, p.fits, p.consumed, plain)
    ]
