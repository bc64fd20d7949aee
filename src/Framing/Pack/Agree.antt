-- ===== src/Framing/Pack/Agree.antt =====
-- The writers agree on uncompressed frames, and `pack_frame_ws` as the fields on the wire.
use vynkor_sdk_cpp.Base.{
  ℕ, ◌+◌, ◌-◌, ◌≤◌, ◌≡◌, refl, ap, sym, ◌∙◌, arith, Option, none, some, ◌∷◌, ◌++◌, length, take,
  drop, min, replicate, length-append, length-take, length-replicate, append-nil, append_assoc,
  bit_or, zero, suc, drop-drop, false,
}
use vynkor_sdk_cpp.Base.Text.{Text}
use vynkor_sdk_cpp.Error.{ok}
use vynkor_sdk_cpp.Mac.{Bytes, OpenSsl, flag_mac_present}
use mathlib.Core.Path.{ap₂}
use vynkor_sdk_cpp.Framing.Zstd.{Zstd}
use vynkor_sdk_cpp.Framing.Crc.{vynkor_crc32}
use vynkor_sdk_cpp.Framing.Header.{be16, be32, target_to_bytes, serialize_header_ws, frame_magic}
use vynkor_sdk_cpp.Framing.Header.Laws.{
  build_header_lem, target_to_bytes_lem, length-target_to_bytes, take-min, drop-replicate, tail_lem,
}
use vynkor_sdk_cpp.Framing.Pack.{
  inline_header, pack_frame, pack_frame_mac, pack_frame_ws, pack_frame_raw, tag_of, is_candidate,
  wire_form,
}

replicate_add : (m k : ℕ) → replicate {A = ℕ} (m + k) 0 ≡ replicate m 0 ++ replicate k 0
replicate_add zero k = ap {A = ℕ} (λ n. replicate n 0) {x = 0 + k} (omega arith)
replicate_add (suc m) k =
    ap {A = ℕ} (λ n. replicate n 0) {x = suc m + k} {y = suc (m + k)} (omega arith)
    ∙ ap (◌∷◌ 0) (replicate_add m k)

zeros_split :
    (n : ℕ) (src : Bytes)
    → n ≤ 32
    → src ++ drop n (replicate 36 0) ≡ (src ++ replicate (32 - n) 0) ++ replicate 4 0
zeros_split n src k =
    ap (◌++◌ src) (
      drop-replicate n 36
      ∙ ap {A = ℕ} (λ m. replicate m 0) {x = 36 - n} {y = 32 - n + 4} (omega arith)
      ∙ replicate_add (32 - n) 4)
    ∙ sym (append_assoc src (replicate (32 - n) 0) (replicate 4 0))

padded :
    (n : ℕ) (src c : Bytes)
    → length src ≡ n
    → n ≤ 32
    → take 32 (src ++ drop n (replicate 36 0)) ++ (c ++ drop 36 (src ++ drop n (replicate 36 0)))
      ≡ (src ++ replicate (32 - n) 0) ++ c
padded n src c h k =
    ap (λ t. take 32 t ++ (c ++ drop 36 t)) (zeros_split n src k)
    ∙ tail_lem (src ++ replicate (32 - n) 0) (replicate 4 0) c
        (omega
          (arith, length-append src (replicate (32 - n) 0), length-replicate {A = ℕ} (32 - n) 0))
        refl

-- Writing a clipped target into zeros pads it.
inline_header_lem :
    (target : Text) (payload : Bytes) (flags : ℕ)
    → inline_header target payload flags ≡ serialize_header_ws target flags payload
unfolding inline_header serialize_header_ws
inline_header_lem target payload flags =
    let n = min (length target) 32 in
    let src = take n target in
    let c = be32 (vynkor_crc32 payload) in
    let front = λ (t : Bytes). be16 frame_magic ++ (be16 flags ++ (be32 (length payload) ++ t)) in
    let sized : length src ≡ n = omega (arith, length-take n target) in
    ap (λ t. front (take 32 (src ++ t) ++ (c ++ drop 36 (src ++ t))))
      (sym (drop-drop 8 (length src) (front (replicate 36 0))))
    ∙ ap front (padded (length src) src c refl (omega arith))
    ∙ ap (λ t. front (t ++ c))
        (ap₂ (λ (m : ℕ) t. t ++ replicate (32 - m) 0) sized (take-min 32 target)
          ∙ sym (target_to_bytes_lem target))
    ∙ sym (build_header_lem flags (target_to_bytes target) payload (length-target_to_bytes target))

-- `pack_frame` writes the frame that `pack_frame_ws` writes without a key, or refuses it alike.
pack_frame-pack_frame_ws :
    (o : OpenSsl) (target : Text) (payload : Bytes) (extra_flags : ℕ)
    → pack_frame target payload extra_flags ≡ pack_frame_ws o target extra_flags payload none
unfolding pack_frame pack_frame_ws tag_of
pack_frame-pack_frame_ws o target payload extra_flags = simp (inline_header_lem, append-nil)

-- `pack_frame_mac` writes the frame that `pack_frame_ws` writes with the key and FLAG_MAC_PRESENT
-- added to the flags, or fails alike.
pack_frame_mac-pack_frame_ws :
    (o : OpenSsl) (target : Text) (payload key : Bytes) (extra_flags : ℕ)
    → pack_frame_mac o target payload key extra_flags
      ≡ pack_frame_ws o target (bit_or flag_mac_present extra_flags) payload (some key)
unfolding pack_frame_mac pack_frame_ws tag_of
pack_frame_mac-pack_frame_ws o target payload key extra_flags = simp inline_header_lem

wire_form_plain :
    (z : Zstd) (flags : ℕ) (payload : Bytes)
    → is_candidate flags payload ≡ false
    → wire_form z flags payload ≡ ok (flags, payload)
unfolding wire_form
wire_form_plain z flags payload h = rw h

-- Where compression does not apply, `pack_frame_raw` writes what `pack_frame_ws` writes.
pack_frame_raw-pack_frame_ws :
    (o : OpenSsl) (z : Zstd) (target : Text) (flags : ℕ) (payload : Bytes) (key : Option Bytes)
    → is_candidate flags payload ≡ false
    → pack_frame_raw o z target flags payload key ≡ pack_frame_ws o target flags payload key
unfolding pack_frame_raw pack_frame_ws serialize_header_ws
pack_frame_raw-pack_frame_ws o z target flags payload key h =
    simp (wire_form_plain z flags payload h)

-- The writers agree, on a target of any length: `pack_frame` writes what `pack_frame_ws` writes without a key,
-- `pack_frame_mac` what it writes with the key and FLAG_MAC_PRESENT added to the flags, and `pack_frame_raw`, with
-- or without a key, what it writes with that key and the same flags, where compression does not apply. Each of them
-- fails alike.
pub writers-pack_frame_ws :
    (o : OpenSsl) (z : Zstd) (target : Text) (payload key : Bytes) (flags : ℕ)
    (maybe_key : Option Bytes)
    → is_candidate flags payload ≡ false
    → (pack_frame target payload flags ≡ pack_frame_ws o target flags payload none)
      × (pack_frame_mac o target payload key flags
          ≡ pack_frame_ws o target (bit_or flag_mac_present flags) payload (some key))
      × (pack_frame_raw o z target flags payload maybe_key
          ≡ pack_frame_ws o target flags payload maybe_key)
writers-pack_frame_ws o z target payload key flags maybe_key h = (
  pack_frame-pack_frame_ws o target payload flags,
  pack_frame_mac-pack_frame_ws o target payload key flags,
  pack_frame_raw-pack_frame_ws o z target flags payload maybe_key h,
)
