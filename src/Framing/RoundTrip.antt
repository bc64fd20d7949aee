-- ===== src/Framing/RoundTrip.antt =====
-- What the reader makes of the frames that the writers make.
use vynkor_sdk_cpp.Base.{
  ℕ, ◌+◌, ◌≤◌, ◌<◌, ◌≡◌, refl, ap, ◌∙◌, arith, Option, none, some, ◌++◌, length, take, All,
  length-append, append_assoc, bit_or, bit_and, take_append, ◌==◌, All-take, inl, inr, ◌⊎◌,
  ltb_false→le, Bool, true, false, Bool-cases, replicate, ltb, subst, subst, if◌then◌else◌,
}
use vynkor_sdk_cpp.Base.Bits.Flags.{bit_and-1, bit_and-2, bit_or-2, bit_and-0xfffd}
use vynkor_sdk_cpp.Base.Text.{Text}
use vynkor_sdk_cpp.Error.{Result, ok, throws, ◌>>=◌, >>=-eq-ok}
use vynkor_sdk_cpp.Mac.{Bytes, IsByte, OpenSsl, IsOpenSsl, mac_tag_len}
use vynkor_sdk_cpp.Mac.Laws.{length-compute_tag, verify-compute_tag}
use vynkor_sdk_cpp.Framing.Zstd.{Zstd, IsZstd, zstd_compress_level3, zstd_decompress_bounded}
use vynkor_sdk_cpp.Framing.Crc.{vynkor_crc32}
use vynkor_sdk_cpp.Framing.Header.{
  be32, build_header, target_to_bytes, serialize_header_ws, frame_header_size, max_payload_size,
}
use vynkor_sdk_cpp.Framing.Header.Laws.{
  fields, build_header_lem, length-target_to_bytes, read_target, read_header,
}
use vynkor_sdk_cpp.Framing.Pack.{pack_frame_raw, pack_frame_ws, tag_of, wire_form}
use vynkor_sdk_cpp.Framing.Parse.{
  FrameResult, parse_frame_bytes, normalize, check_mac, mac_present, tag_size,
}
use vynkor_sdk_cpp.Framing.Wire.{wire, parse-wire}

abbrev pub keyed : Option Bytes → Bool
keyed none = false
keyed (some k) = true

-- A frame goes out as it is, or compressed if that is shorter.
abbrev Form : Zstd → ℕ → Bytes → ℕ → Bytes → Type 0
Form z flags payload wf wp =
    ((wf ≡ flags) × (wp ≡ payload))
    ⊎ ((zstd_compress_level3 z payload ≡ ok wp)
        × (length wp < length payload)
        × (wf ≡ bit_or flags 2))

wire_form-Form :
    (z : Zstd) (flags : ℕ) (payload : Bytes) (wf : ℕ) (wp : Bytes)
    → wire_form z flags payload ≡ ok (wf, wp)
    → Form z flags payload wf wp
unfolding wire_form
wire_form-Form z flags payload wf wp h = ground arith

-- What a successful writer went through.
record Packed (o : OpenSsl) (z : Zstd) (target : Text) (flags : ℕ) (payload : Bytes)
    (key : Option Bytes) (frame : Bytes) : Type 0 where
  tag : Bytes
  wire_flags : ℕ
  wire_payload : Bytes
  fits : length payload ≤ max_payload_size
  tagged : tag_of o key (build_header flags (target_to_bytes target) payload) payload ≡ ok tag
  formed : Form z flags payload wire_flags wire_payload
  written :
      frame ≡ build_header wire_flags (target_to_bytes target) wire_payload ++ (wire_payload ++ tag)

packing_result :
    (o : OpenSsl) (z : Zstd) (target : Text) (flags : ℕ) (payload : Bytes) (key : Option Bytes)
    (frame : Bytes) (t : Result Bytes) (w : Result (ℕ × Bytes))
    → length payload ≤ max_payload_size
    → tag_of o key (build_header flags (target_to_bytes target) payload) payload ≡ t
    → wire_form z flags payload ≡ w
    → (t >>= λ tag. w >>= λ f. ok (build_header f.0 (target_to_bytes target) f.1 ++ (f.1 ++ tag)))
      ≡ ok frame
    → Packed o z target flags payload key frame
packing_result o z target flags payload key frame (throws e) w l et ew h = cc
packing_result o z target flags payload key frame (ok tag) (throws e) l et ew h = cc
packing_result o z target flags payload key frame (ok tag) (ok (wf, wp)) l et ew h = record {
  tag = tag;
  wire_flags = wf;
  wire_payload = wp;
  fits = l;
  tagged = et;
  formed = wire_form-Form z flags payload wf wp ew;
  written = cc h;
}

pack_frame_raw-Packed :
    (o : OpenSsl) (z : Zstd) (target : Text) (flags : ℕ) (payload : Bytes) (key : Option Bytes)
    (frame : Bytes)
    → pack_frame_raw o z target flags payload key ≡ ok frame
    → Packed o z target flags payload key frame
unfolding pack_frame_raw
pack_frame_raw-Packed o z target flags payload key frame h =
    elim (Bool-cases (ltb max_payload_size (length payload))) [
      | inl big ↦ cc (rw big at h)
      | inr small ↦
          packing_result o z target flags payload key frame _ _ (ltb_false→le _ _ small) refl refl
            (rw small at h)
    ]

pack_frame_ws-Packed :
    (o : OpenSsl) (z : Zstd) (target : Text) (flags : ℕ) (payload : Bytes) (key : Option Bytes)
    (frame : Bytes)
    → pack_frame_ws o target flags payload key ≡ ok frame
    → Packed o z target flags payload key frame
unfolding pack_frame_ws serialize_header_ws
pack_frame_ws-Packed o z target flags payload key frame h =
    elim (Bool-cases (ltb max_payload_size (length payload))) [
      | inl big ↦ cc (rw big at h)
      | inr small ↦
          let (tag, et, ef) = >>=-eq-ok (tag_of o key _ payload) _ (rw small at h) in
          record {
            tag = tag;
            wire_flags = flags;
            wire_payload = payload;
            fits = ltb_false→le _ _ small;
            tagged = et;
            formed = inl (refl, refl);
            written = cc ef;
          }
    ]

-- The tag fits its place, and the reader with the same key accepts it.
module _ (o : OpenSsl) (lawful : IsOpenSsl o) where
  pub length-tag_of :
      (key : Option Bytes) (header payload tag : Bytes)
      → tag_of o key header payload ≡ ok tag
      → length tag ≡ (if keyed key then 32 else 0)
  unfolding tag_of
  length-tag_of none header payload tag h = ground arith
  length-tag_of (some k) header payload tag h = length-compute_tag o lawful k header payload tag h

  pub check_mac-tag_of :
      (key : Option Bytes) (tag rest : Bytes) (r : FrameResult)
      → tag_of o key r.raw_header r.payload ≡ ok tag
      → r.has_mac ≡ false
      → (s : FrameResult) × (check_mac o key (keyed key) (take mac_tag_len (tag ++ rest)) r ≡ ok s)
        × (s.payload ≡ r.payload)
        × (s.flags ≡ r.flags)
        × (s.raw_header ≡ r.raw_header)
        × (s.has_mac ≡ keyed key)
  unfolding check_mac tag_of
  check_mac-tag_of none tag rest r h e = (r, refl, refl, refl, refl, e)
  check_mac-tag_of (some k) tag rest r h e = (
    record r { has_mac = true; mac = tag },
    rw (
      take_append 32 tag rest (length-compute_tag o lawful k _ _ tag h),
      verify-compute_tag o lawful k _ _ tag h,
    ),
    refl,
    refl,
    refl,
    refl,
  )

abbrev plain_result : ℕ → Bytes → Bytes → FrameResult
plain_result flags target payload = record {
  payload = payload;
  flags = flags;
  has_mac = false;
  mac = replicate mac_tag_len 0;
  raw_header = build_header flags target payload;
}

decompress_lem :
    (z : Zstd) (lawful : IsZstd z) (src c : Bytes)
    → length src ≤ max_payload_size
    → zstd_compress_level3 z src ≡ ok c
    → zstd_decompress_bounded z c ≡ ok src
unfolding zstd_decompress_bounded
decompress_lem z lawful src c fits h =
    let (size, fine, code, out) = lawful.round_trip src c fits h in
    ground (arith, size, fine, code, out)

compressed-IsByte :
    (z : Zstd) (lawful : IsZstd z) (src c : Bytes)
    → All IsByte src
    → zstd_compress_level3 z src ≡ ok c
    → All IsByte c
unfolding zstd_compress_level3
compressed-IsByte z lawful src c bytes h =
    let out = z.compress (z.compress_bound (length src)) src 3 in
    elim (Bool-cases (z.is_error out.0)) [
      | inl bad ↦ cc (rw bad at h)
      | inr good ↦
          subst (All IsByte) (cc (rw good at h))
            (All-take IsByte out.0 out.1 (lawful.compress_bytes src bytes))
    ]

-- Whichever form went on the wire, the reader restores the plain one, and with it the header that
-- the tag covers.
normalize-wire :
    (z : Zstd) (lawful : IsZstd z) (flags : ℕ) (target payload : Bytes) (wf : ℕ) (wp rest : Bytes)
    → length target ≡ 32
    → flags < 0x10000
    → bit_and flags 2 ≡ 0
    → length payload ≤ max_payload_size
    → Form z flags payload wf wp
    → normalize z (fields wf target wp ++ rest) wf wp ≡ ok (plain_result flags target payload)
unfolding normalize
normalize-wire z lawful flags target payload wf wp rest h f clear fits (inl (ef, ep)) = rw (
  ef,
  ep,
  clear,
  read_header flags target payload rest h,
  build_header_lem flags target payload h,
)
normalize-wire z lawful flags target payload wf wp rest h f clear fits (inr (ec, less, ef)) =
    rw (
      read_target wf target wp rest h,
      decompress_lem z lawful payload wp fits ec,
      flag_set,
      cleared,
    )
  where
    flag_set : (bit_and wf 2 == 0) ≡ false
    flag_set = ground (arith, bit_and-2 flags, bit_or-2 flags, bit_and-2 wf)

    cleared : bit_and wf 0xfffd ≡ flags
    cleared = omega (arith, bit_and-2 flags, bit_or-2 flags, bit_and-0xfffd wf)

sent_facts :
    (z : Zstd) (lawful : IsZstd z) (flags : ℕ) (payload : Bytes) (wf : ℕ) (wp : Bytes)
    → flags < 0x10000
    → length payload ≤ max_payload_size
    → All IsByte payload
    → Form z flags payload wf wp
    → (wf < 0x10000)
      × (mac_present wf ≡ mac_present flags)
      × (length wp ≤ max_payload_size)
      × All IsByte wp
sent_facts z lawful flags payload wf wp f fits bytes (inl (ef, ep)) =
    (omega arith, ap mac_present ef, rw ep fits, rw ep bytes)
sent_facts z lawful flags payload wf wp f fits bytes (inr (ec, less, ef)) = (
  omega (arith, bit_or-2 flags),
  ground (arith, bit_or-2 flags, bit_and-1 flags, bit_and-1 wf),
  omega arith,
  compressed-IsByte z lawful payload wp bytes ec,
)

module _ (o : OpenSsl) (z : Zstd) (target : Text) (flags : ℕ) (payload : Bytes) (key : Option Bytes)
    (frame rest : Bytes) where
  read_back :
      IsOpenSsl o
      → IsZstd z
      → flags < 0x10000
      → bit_and flags 2 ≡ 0
      → mac_present flags ≡ keyed key
      → All IsByte payload
      → Packed o z target flags payload key frame
      → (r : FrameResult) × (parse_frame_bytes o z (frame ++ rest) key ≡ ok (r, length frame))
        × (r.payload ≡ payload)
        × (r.flags ≡ flags)
        × (r.has_mac ≡ keyed key)
        × (r.raw_header ≡ build_header flags (target_to_bytes target) payload)
  read_back lo lz f clear k bytes p =
      let tb = target_to_bytes target in
      let h = length-target_to_bytes target in
      let (wf, m, wl, wb) =
        sent_facts z lz flags payload p.wire_flags p.wire_payload f p.fits bytes p.formed in
      let sized : length p.tag ≡ tag_size p.wire_flags =
        rw (m, k) (length-tag_of o lo key (build_header flags tb payload) payload p.tag p.tagged) in
      let (r, checked, ep, ef, eh, em) =
        check_mac-tag_of o lo key p.tag rest (plain_result flags tb payload) p.tagged refl in
      (
        r,
        rw (frame_wire p h) (
            parse-wire o z key p.wire_flags tb p.wire_payload p.tag rest h wf wl wb sized
            ∙ rw
                (
                  normalize-wire z lz flags tb payload p.wire_flags p.wire_payload
                      (p.wire_payload ++ (p.tag ++ rest)) h f clear p.fits p.formed,
                  m,
                  k,
                  checked,
                )
                (ap (λ (n : ℕ). ok (r, n))
                  (frame_length p h (length-tag_of o lo key _ payload p.tag p.tagged)))),
        ep,
        ef,
        em,
        eh,
      )
    where
      frame_wire :
          (q : Packed o z target flags payload key frame)
          → length (target_to_bytes target) ≡ 32
          → frame ++ rest ≡ wire q.wire_flags (target_to_bytes target) q.wire_payload q.tag rest
      frame_wire q h =
          rw (q.written, build_header_lem q.wire_flags (target_to_bytes target) q.wire_payload h)
            (append_assoc hdr (q.wire_payload ++ q.tag) rest
              ∙ ap (◌++◌ hdr) (append_assoc q.wire_payload q.tag rest))
        where
          hdr : Bytes
          hdr = fields q.wire_flags (target_to_bytes target) q.wire_payload

      frame_length :
          (q : Packed o z target flags payload key frame)
          → length (target_to_bytes target) ≡ 32
          → length q.tag ≡ (if keyed key then 32 else 0)
          → frame_header_size + length q.wire_payload + (if keyed key then 32 else 0) ≡ length frame
      frame_length q h t =
          rw
            (
              q.written,
              build_header_lem q.wire_flags (target_to_bytes target) q.wire_payload h,
              ← t,
            )
            (omega (
              arith,
              length-append (fields q.wire_flags (target_to_bytes target) q.wire_payload)
                  (q.wire_payload ++ q.tag),
              length-append q.wire_payload q.tag,
              length-append (target_to_bytes target) (be32 (vynkor_crc32 q.wire_payload)),
            ))

-- For a target of any length, flags of 16 bits without FLAG_COMPRESSED and with FLAG_MAC_PRESENT
-- exactly when there is a key, and a payload of bytes: a reader with the same key takes just the
-- frame off a buffer that begins with what `pack_frame_raw` wrote, and restores the payload, the flags
-- and the header of the plain payload, whether or not the payload travelled compressed.
-- OpenSSL and zstd are assumed to behave as documented.
pub parse_frame_bytes-pack_frame_raw :
    (o : OpenSsl) (z : Zstd) (target : Text) (flags : ℕ) (payload : Bytes) (key : Option Bytes)
    (frame rest : Bytes)
    → IsOpenSsl o
    → IsZstd z
    → flags < 0x10000
    → bit_and flags 2 ≡ 0
    → mac_present flags ≡ keyed key
    → All IsByte payload
    → pack_frame_raw o z target flags payload key ≡ ok frame
    → (r : FrameResult) × (parse_frame_bytes o z (frame ++ rest) key ≡ ok (r, length frame))
      × (r.payload ≡ payload)
      × (r.flags ≡ flags)
      × (r.has_mac ≡ keyed key)
      × (r.raw_header ≡ build_header flags (target_to_bytes target) payload)
parse_frame_bytes-pack_frame_raw o z target flags payload key frame rest lo lz f clear k bytes h =
    read_back o z target flags payload key frame rest lo lz f clear k bytes
      (pack_frame_raw-Packed o z target flags payload key frame h)

-- For a target of any length, flags of 16 bits without FLAG_COMPRESSED and with FLAG_MAC_PRESENT
-- exactly when there is a key, and a payload of bytes: a reader with the same key takes just the
-- frame off a buffer that begins with what `pack_frame_ws` wrote, and restores the payload, the flags
-- and the header. OpenSSL and zstd are assumed to behave as documented.
pub parse_frame_bytes-pack_frame_ws :
    (o : OpenSsl) (z : Zstd) (target : Text) (flags : ℕ) (payload : Bytes) (key : Option Bytes)
    (frame rest : Bytes)
    → IsOpenSsl o
    → IsZstd z
    → flags < 0x10000
    → bit_and flags 2 ≡ 0
    → mac_present flags ≡ keyed key
    → All IsByte payload
    → pack_frame_ws o target flags payload key ≡ ok frame
    → (r : FrameResult) × (parse_frame_bytes o z (frame ++ rest) key ≡ ok (r, length frame))
      × (r.payload ≡ payload)
      × (r.flags ≡ flags)
      × (r.has_mac ≡ keyed key)
      × (r.raw_header ≡ build_header flags (target_to_bytes target) payload)
parse_frame_bytes-pack_frame_ws o z target flags payload key frame rest lo lz f clear k bytes h =
    read_back o z target flags payload key frame rest lo lz f clear k bytes
      (pack_frame_ws-Packed o z target flags payload key frame h)
