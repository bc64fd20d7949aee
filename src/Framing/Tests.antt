-- ===== src/Framing/Tests.antt =====
-- A small instance of the zstd interface, and runs of src/framing.cpp with it.
use vynkor_sdk_cpp.Base.{
  ◌+◌, ltb→lt, take_all, Bool-cases, inl, inr, ◌≤◌, ◌≡◌, refl, take, drop, text_eq, ap, sym, ◌∙◌,
  arith, true, false, none, some, [], ◌∷◌, ◌++◌, length, ltb, bit_and, bit_or,
}
use vynkor_sdk_cpp.Base.Text.{lit}
use vynkor_sdk_cpp.Error.{Result, ok, throws}
use vynkor_sdk_cpp.Mac.{Bytes, verify_tag, flag_mac_present, compute_tag}
use vynkor_sdk_cpp.Mac.Tests.{toy_ssl, toy_ssl-IsOpenSsl}
use vynkor_sdk_cpp.Framing.Crc.{vynkor_crc32}
use vynkor_sdk_cpp.Framing.Crc.Reference.{crc32_reference, vynkor_crc32-crc32_reference}
use vynkor_sdk_cpp.Framing.Header.{
  build_header, target_to_bytes, frame_header_size, max_payload_size, read_be16, read_be32,
}
use vynkor_sdk_cpp.Framing.Zstd.{Zstd, IsZstd, content, zstd_compress_level3}
use vynkor_sdk_cpp.Framing.Pack.{
  pack_frame, pack_frame_mac, pack_frame_ws, pack_frame_raw, tag_of, wire_form, is_candidate,
}
use vynkor_sdk_cpp.Framing.Pack.Agree.{writers-pack_frame_ws}
use vynkor_sdk_cpp.Framing.Parse.{FrameResult, parse_frame_bytes, normalize, check_mac, tag_size}
use vynkor_sdk_cpp.Framing.RoundTrip.{
  parse_frame_bytes-pack_frame_raw, parse_frame_bytes-pack_frame_ws,
}
use vynkor_sdk_cpp.Framing.Sound.{parse_frame_bytes_authentic, parse_frame_bytes_bounds}

-- Stores the source as it is; codes above 2 ^ 32 are errors.
abbrev pub toy_zstd : Zstd
toy_zstd = record {
  get_frame_content_size = λ src. content (length src);
  compress_bound = λ n. n;
  compress = λ capacity src level. (length src, src);
  decompress = λ capacity src. (length src, src);
  is_error = λ code. ltb 0x100000000 code;
  get_error_name = λ code. lit "error";
}

stored :
    (src c : Bytes)
    → length src ≤ max_payload_size
    → zstd_compress_level3 toy_zstd src ≡ ok c
    → (src ≡ c) × (ltb 0x100000000 (length src) ≡ false)
unfolding zstd_compress_level3
stored src c fits h = elim (Bool-cases (ltb 0x100000000 (length src))) [
  | inl bad ↦ absurd (omega (arith, ltb→lt _ _ bad))
  | inr fine ↦ (sym (take_all (length src) src (omega arith)) ∙ cc (rw fine at h), fine)
]

pub toy_zstd-IsZstd : IsZstd toy_zstd
toy_zstd-IsZstd = record {
  compress_bytes = λ src bytes. bytes;
  decompress_length = λ n bytes fine e. e;
  round_trip = λ src c fits h.
      let (same, fine) = stored src c fits h in
      (ap (λ s. content (length s)) (sym same), fine, ap length (sym same), sym same);
}

-- The check value of the catalogue.
crc_check : vynkor_crc32 (lit "123456789") ≡ 0xcbf43926
unfolding vynkor_crc32 lit
crc_check = refl

vynkor_crc32-crc32_reference_example :
    vynkor_crc32 (0x61 ∷ 0xff ∷ []) ≡ crc32_reference (0x61 ∷ 0xff ∷ [])
vynkor_crc32-crc32_reference_example =
    vynkor_crc32-crc32_reference (0x61 ∷ 0xff ∷ []) (omega arith, (omega arith, tt))

writers-pack_frame_ws_example :
    (pack_frame (lit "kernel") (5 ∷ []) 4 ≡ pack_frame_ws toy_ssl (lit "kernel") 4 (5 ∷ []) none)
    × (pack_frame_mac toy_ssl (lit "kernel") (5 ∷ []) (1 ∷ []) 4
        ≡ pack_frame_ws toy_ssl (lit "kernel") (bit_or flag_mac_present 4) (5 ∷ []) (some (1 ∷ [])))
    × (pack_frame_raw toy_ssl toy_zstd (lit "kernel") 4 (5 ∷ []) none
        ≡ pack_frame_ws toy_ssl (lit "kernel") 4 (5 ∷ []) none)
unfolding is_candidate
writers-pack_frame_ws_example =
    writers-pack_frame_ws toy_ssl toy_zstd (lit "kernel") (5 ∷ []) (1 ∷ []) 4 none refl

-- The frame that a result holds, or no bytes.
abbrev bytes_of : Result Bytes → Bytes
bytes_of (ok frame) = frame
bytes_of (throws e) = []

-- A keyed frame with a payload of two bytes.
abbrev pub raw_frame : Bytes
raw_frame = bytes_of (pack_frame_raw toy_ssl toy_zstd (lit "kernel") 1 (5 ∷ 6 ∷ []) (some (1 ∷ [])))

pub raw_frame_lem :
    pack_frame_raw toy_ssl toy_zstd (lit "kernel") 1 (5 ∷ 6 ∷ []) (some (1 ∷ [])) ≡ ok raw_frame
unfolding pack_frame_raw tag_of compute_tag wire_form is_candidate
raw_frame_lem = refl

-- What the holder of the key reads from it.
abbrev pub raw_result : FrameResult
raw_result = record {
  payload = 5 ∷ 6 ∷ [];
  flags = 1;
  has_mac = true;
  mac = drop 46 raw_frame;
  raw_header = take 44 raw_frame;
}

raw_result_lem : parse_frame_bytes toy_ssl toy_zstd raw_frame (some (1 ∷ [])) ≡ ok (raw_result, 78)
unfolding pack_frame_raw tag_of compute_tag wire_form is_candidate parse_frame_bytes check_mac
    verify_tag normalize vynkor_crc32 build_header target_to_bytes lit text_eq
raw_result_lem = refl

raw_frame_sized : length raw_frame ≡ 78
unfolding pack_frame_raw tag_of compute_tag wire_form is_candidate parse_frame_bytes check_mac
    verify_tag normalize vynkor_crc32 build_header target_to_bytes lit text_eq
raw_frame_sized = refl

-- The result, with all of the frame consumed.
pub raw_result_whole :
    (length raw_frame ≡ 78)
    × (parse_frame_bytes toy_ssl toy_zstd raw_frame (some (1 ∷ []))
        ≡ ok (raw_result, length raw_frame))
raw_result_whole =
    (raw_frame_sized, raw_result_lem ∙ ap (λ n. ok (raw_result, n)) (sym raw_frame_sized))

parse_frame_bytes-pack_frame_raw_example :
    (r : FrameResult) × (parse_frame_bytes toy_ssl toy_zstd (raw_frame ++ (9 ∷ [])) (some (1 ∷ []))
      ≡ ok (r, length raw_frame))
    × (r.payload ≡ 5 ∷ 6 ∷ [])
    × (r.flags ≡ 1)
    × (r.has_mac ≡ true)
    × (r.raw_header ≡ build_header 1 (target_to_bytes (lit "kernel")) (5 ∷ 6 ∷ []))
parse_frame_bytes-pack_frame_raw_example =
    parse_frame_bytes-pack_frame_raw toy_ssl toy_zstd (lit "kernel") 1 (5 ∷ 6 ∷ []) (some (1 ∷ []))
      raw_frame (9 ∷ []) toy_ssl-IsOpenSsl toy_zstd-IsZstd (omega arith) refl refl
      (omega arith, (omega arith, tt)) raw_frame_lem

abbrev ws_frame : Bytes
ws_frame = bytes_of (pack_frame_ws toy_ssl (lit "kernel") 1 (5 ∷ 6 ∷ []) (some (1 ∷ [])))

ws_frame_lem : pack_frame_ws toy_ssl (lit "kernel") 1 (5 ∷ 6 ∷ []) (some (1 ∷ [])) ≡ ok ws_frame
unfolding pack_frame_ws tag_of compute_tag
ws_frame_lem = refl

parse_frame_bytes-pack_frame_ws_example :
    (r : FrameResult) × (parse_frame_bytes toy_ssl toy_zstd (ws_frame ++ (9 ∷ [])) (some (1 ∷ []))
      ≡ ok (r, length ws_frame))
    × (r.payload ≡ 5 ∷ 6 ∷ [])
    × (r.flags ≡ 1)
    × (r.has_mac ≡ true)
    × (r.raw_header ≡ build_header 1 (target_to_bytes (lit "kernel")) (5 ∷ 6 ∷ []))
parse_frame_bytes-pack_frame_ws_example =
    parse_frame_bytes-pack_frame_ws toy_ssl toy_zstd (lit "kernel") 1 (5 ∷ 6 ∷ []) (some (1 ∷ []))
      ws_frame (9 ∷ []) toy_ssl-IsOpenSsl toy_zstd-IsZstd (omega arith) refl refl
      (omega arith, (omega arith, tt)) ws_frame_lem

parse_frame_bytes_authentic_example :
    (raw_result.has_mac ≡ true)
    × (compute_tag toy_ssl (1 ∷ []) raw_result.raw_header raw_result.payload ≡ ok raw_result.mac)
parse_frame_bytes_authentic_example =
    parse_frame_bytes_authentic toy_ssl toy_zstd raw_frame (1 ∷ []) raw_result 78 toy_ssl-IsOpenSsl
      raw_result_lem

parse_frame_bytes_bounds_example :
    (length raw_result.payload ≤ max_payload_size)
    × (bit_and raw_result.flags 2 ≡ 0)
    × (78 ≤ length raw_frame)
    × (78 ≡ frame_header_size + read_be32 raw_frame 4 + tag_size (read_be16 raw_frame 2))
parse_frame_bytes_bounds_example =
    parse_frame_bytes_bounds toy_ssl toy_zstd raw_frame (some (1 ∷ [])) raw_result 78
      toy_zstd-IsZstd raw_result_lem
