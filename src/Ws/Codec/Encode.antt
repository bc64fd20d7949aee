-- ===== src/Ws/Codec/Encode.antt =====
-- What a server reads from the client's frames.
use vynkor_sdk_cpp.Base.{
  ℕ, ◌+◌, ◌-◌, ◌%◌, ◌^◌, bit_xor, get_or, ◌≤◌, ◌<◌, ◌≡◌, refl, ap, sym, ◌∙◌, arith, bit_or, false,
  ◌&&◌, Option, none, some, [], ◌∷◌, ◌++◌, length, take, drop, ltb, leb, ◌==◌, if◌then◌else◌,
  append_assoc, take_append, drop_append, lt→ltb, le→leb, Bool-cases, inl, inr,
}
use vynkor_sdk_cpp.Base.Bits.Flags.{bit_or_top}
use vynkor_sdk_cpp.Base.Bits.Xor.{bit_xor_assoc, bit_xor_self, bit_xor-zero}
use vynkor_sdk_cpp.Error.{ok}
use vynkor_sdk_cpp.Mac.{Bytes}
use vynkor_sdk_cpp.Framing.Header.{be16, read_be16}
use vynkor_sdk_cpp.Ws.Codec.{be64, read_be64, mask_from, length_field, ws_encode_client_frame}
use vynkor_sdk_cpp.Ws.Codec.Mask.{length-mask_from}

-- RFC 6455, section 5.3, as a server reads it: the four bytes of the key take turns, and the one that was
-- used goes to the back.
pub unmask_bytes : ℕ → ℕ → ℕ → ℕ → Bytes → Bytes
unmask_bytes k0 k1 k2 k3 [] = []
unmask_bytes k0 k1 k2 k3 (b ∷ bs) = bit_xor b k0 ∷ unmask_bytes k1 k2 k3 k0 bs

-- From the index `i` on, the bytes of the mask come in this order.
abbrev Turns : Bytes → ℕ → ℕ → ℕ → ℕ → ℕ → Type 0
Turns mask i k0 k1 k2 k3 =
    (get_or mask (i % 4) 0 ≡ k0)
    × (get_or mask ((i + 1) % 4) 0 ≡ k1)
    × (get_or mask ((i + 2) % 4) 0 ≡ k2)
    × (get_or mask ((i + 3) % 4) 0 ≡ k3)

unmask_bytes-mask_from :
    (mask : Bytes) (i k0 k1 k2 k3 : ℕ) (payload : Bytes)
    → Turns mask i k0 k1 k2 k3
    → unmask_bytes k0 k1 k2 k3 (mask_from mask i payload) ≡ payload
unfolding mask_from unmask_bytes
unmask_bytes-mask_from mask i k0 k1 k2 k3 [] turns = refl
unmask_bytes-mask_from mask i k0 k1 k2 k3 (b ∷ bs) (e0, e1, e2, e3) =
    let at : ℕ → ℕ = λ n. get_or mask n 0 in
    let back : bit_xor (bit_xor b (at (i % 4))) k0 ≡ b =
      ap (λ k. bit_xor (bit_xor b k) k0) e0
      ∙ (bit_xor_assoc b k0 k0 ∙ (ap (bit_xor b) (bit_xor_self k0) ∙ bit_xor-zero b)) in
    let two : (i + 1 + 1) % 4 ≡ (i + 2) % 4 = omega arith in
    let three : (i + 1 + 2) % 4 ≡ (i + 3) % 4 = omega arith in
    let around : (i + 1 + 3) % 4 ≡ i % 4 = omega arith in
    rw back (
      ap (λ t. b ∷ t)
        (unmask_bytes-mask_from mask (i + 1) k1 k2 k3 k0 bs
          (e1, ap at two ∙ e2, ap at three ∙ e3, ap at around ∙ e0)))

-- RFC 6455, section 5.2, by arithmetic: a masked frame with FIN and no reserved bits, with the length in
-- 7, 16 or 64 bits: the opcode, the payload unmasked, and the bytes behind the frame.
abbrev unmask : ℕ → ℕ → Bytes → Option (ℕ × Bytes × Bytes)
unmask opcode len (m0 ∷ m1 ∷ m2 ∷ m3 ∷ rest) =
    some (opcode, unmask_bytes m0 m1 m2 m3 (take len rest), drop len rest)
unmask opcode len _ = none

pub server_reads : Bytes → Option (ℕ × Bytes × Bytes)
server_reads (b0 ∷ b1 ∷ rest) =
    if leb 128 b0 && (ltb b0 144 && leb 128 b1)
    then if b1 == 254
      then unmask (b0 - 128) (read_be16 rest 0) (drop 2 rest)
      else if b1 == 255
      then unmask (b0 - 128) (read_be64 rest 0) (drop 8 rest)
      else unmask (b0 - 128) (b1 - 128) rest
    else none
server_reads _ = none

unmask_frame :
    (opcode m0 m1 m2 m3 : ℕ) (payload rest : Bytes)
    → unmask opcode
        (length payload)
        (m0 ∷ m1 ∷ m2 ∷ m3 ∷ (mask_from (m0 ∷ m1 ∷ m2 ∷ m3 ∷ []) 0 payload ++ rest))
      ≡ some (opcode, payload, rest)
unmask_frame opcode m0 m1 m2 m3 payload rest =
    let mask = m0 ∷ m1 ∷ m2 ∷ m3 ∷ [] in
    let body = mask_from mask 0 payload in
    let sized = length-mask_from mask 0 payload in
    rw
      (
        take_append (length payload) body rest sized,
        drop_append (length payload) body rest sized,
        unmask_bytes-mask_from mask 0 m0 m1 m2 m3 payload (refl, refl, refl, refl),
      )
      refl

server_reads_lem :
    (opcode b1 : ℕ) (rest : Bytes)
    → opcode < 16
    → 128 ≤ b1
    → server_reads ((128 + opcode) ∷ b1 ∷ rest) ≡ (
        if b1 == 254
        then unmask opcode (read_be16 rest 0) (drop 2 rest)
        else if b1 == 255
        then unmask opcode (read_be64 rest 0) (drop 8 rest)
        else unmask opcode (b1 - 128) rest)
unfolding server_reads
server_reads_lem opcode b1 rest small set =
    let back : 128 + opcode - 128 ≡ opcode = omega arith in
    rw
      (
        le→leb 128 (128 + opcode) (omega arith),
        lt→ltb (128 + opcode) 144 (omega arith),
        le→leb 128 b1 set,
        back,
      )
      refl

-- The three forms of the length.
length_field-server_reads :
    (opcode m0 m1 m2 m3 : ℕ) (payload rest : Bytes)
    → opcode < 16
    → length payload < 2 ^ 64
    → server_reads (
        ((128 + opcode) ∷ length_field (length payload))
        ++ (m0 ∷ m1 ∷ m2 ∷ m3 ∷ (mask_from (m0 ∷ m1 ∷ m2 ∷ m3 ∷ []) 0 payload ++ rest)))
      ≡ some (opcode, payload, rest)
unfolding length_field
length_field-server_reads opcode m0 m1 m2 m3 payload rest small fits =
    let len = length payload in
    let done = unmask_frame opcode m0 m1 m2 m3 payload rest in
    elim (Bool-cases (ltb len 126)) [
      | inl short ↦
          let field : bit_or 0x80 len ≡ 128 + len = bit_or_top 7 len (ground (arith, short)) in
          let not_mid : (128 + len == 254) ≡ false = ground (arith, short) in
          let not_long : (128 + len == 255) ≡ false = ground (arith, short) in
          let back : 128 + len - 128 ≡ len = omega arith in
          rw (short, length_field, field)
            (server_reads_lem opcode (128 + len) _ small (omega arith)
              ∙ rw (not_mid, not_long, back) done)
      | inr long ↦
          let body = m0 ∷ m1 ∷ m2 ∷ m3 ∷ (mask_from (m0 ∷ m1 ∷ m2 ∷ m3 ∷ []) 0 payload ++ rest) in
          elim (Bool-cases (leb len 0xffff)) [
            | inl mid ↦
                let read : read_be16 (be16 len ++ body) 0 ≡ len = ground (arith, mid) in
                rw (long, mid, length_field)
                  (server_reads_lem opcode 254 (be16 len ++ body) small (omega arith)
                    ∙ (ap (λ n. unmask opcode n body) read ∙ done))
            | inr far ↦
                let read : read_be64 (be64 len ++ body) 0 ≡ len = omega (arith, fits) in
                rw (long, far, length_field)
                  (server_reads_lem opcode 255 (be64 len ++ body) small (omega arith)
                    ∙ (ap (λ n. unmask opcode n body) read ∙ done))
          ]
    ]

-- The frame that the client writes for a payload of at most 2 ^ 64 - 1 bytes, with any mask of four bytes and an
-- opcode of four bits, is read by a server, with whatever follows: the opcode, the payload and the rest.
pub ws_encode_client_frame-server_reads :
    (m0 m1 m2 m3 opcode : ℕ) (payload frame rest : Bytes)
    → opcode < 16
    → length payload < 2 ^ 64
    → ws_encode_client_frame (some (m0 ∷ m1 ∷ m2 ∷ m3 ∷ [])) opcode payload ≡ ok frame
    → server_reads (frame ++ rest) ≡ some (opcode, payload, rest)
unfolding ws_encode_client_frame
ws_encode_client_frame-server_reads m0 m1 m2 m3 opcode payload frame rest small fits h =
    let mask = m0 ∷ m1 ∷ m2 ∷ m3 ∷ [] in
    let first : bit_or 0x80 opcode ≡ 128 + opcode = bit_or_top 7 opcode (omega arith) in
    let frame_lem : (bit_or 0x80 opcode ∷ length_field (length payload))
          ++ (mask ++ mask_from mask 0 payload)
        ≡ frame =
      cc h in
    ap (λ t. server_reads (t ++ rest)) (sym frame_lem)
    ∙ (ap server_reads (
          append_assoc (bit_or 0x80 opcode ∷ length_field (length payload))
            (mask ++ mask_from mask 0 payload) rest
          ∙ ap
              (λ b.
                (b ∷ length_field (length payload)) ++ ((mask ++ mask_from mask 0 payload) ++ rest))
              first)
        ∙ length_field-server_reads opcode m0 m1 m2 m3 payload rest small fits)
