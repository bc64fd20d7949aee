-- ===== src/Ws/Codec/Decode.antt =====
-- What the client reads from a server's frames.
use vynkor_sdk_cpp.Base.{
  ℕ, suc, ◌+◌, ◌≤◌, ◌<◌, ◌≡◌, refl, ap, sym, ◌∙◌, arith, bit_and, Bool, false, not, none, some, [],
  ◌∷◌, ◌++◌, length, ltb, leb, ◌==◌, if◌then◌else◌, length-append, take_append, drop_append,
  le→ltb_false, ltb→lt, Bool-cases, inl, inr,
}
use vynkor_sdk_cpp.Base.Bits.Flags.{bit_and-15, bit_and-127, bit_and-128}
use vynkor_sdk_cpp.Error.{ok}
use vynkor_sdk_cpp.Mac.{Bytes}
use vynkor_sdk_cpp.Framing.Header.{be16, read_be16}
use vynkor_sdk_cpp.Ws.Codec.{
  be64, read_be64, cut_frame, ws_try_decode_server_frame, ws_max_message_size,
}

-- RFC 6455, section 5.2: an unmasked frame, its length in the shortest form.
unfoldable pub server_frame : Bool → ℕ → Bytes → Bytes
server_frame fin opcode payload =
    let len = length payload in
    ((if fin then 128 else 0) + opcode)
    ∷ ((if ltb len 126 then len ∷ [] else if leb len 0xffff then 126 ∷ be16 len else 127 ∷ be64 len)
        ++ payload)

-- The frame at the front of a buffer, and how many bytes it takes.
abbrev pub Decodes : Bytes → Bool → ℕ → Bytes → ℕ → Type 0
Decodes buf fin opcode payload n =
    ws_try_decode_server_frame buf
    ≡ ok (some (record { fin = fin; opcode = opcode; payload = payload }, n))

cut_frame_lem :
    (fin : Bool) (opcode len : ℕ) (head payload rest : Bytes) (n : ℕ)
    → n ≡ length head + len
    → len ≡ length payload
    → length payload ≤ ws_max_message_size
    → cut_frame fin opcode (length head) len (head ++ (payload ++ rest))
      ≡ ok (some (record { fin = fin; opcode = opcode; payload = payload }, n))
unfolding cut_frame
cut_frame_lem fin opcode len head payload rest n total sized fits =
    let small : ltb ws_max_message_size len ≡ false = le→ltb_false _ _ (omega arith) in
    let there : ltb (length (head ++ (payload ++ rest))) (length head + len) ≡ false =
      le→ltb_false _ _
        (omega (arith, sized, length-append head (payload ++ rest), length-append payload rest)) in
    rw
      (
        small,
        there,
        drop_append (length head) head (payload ++ rest) refl,
        take_append len payload rest (sym sized),
      )
      (ap (λ k. ok (some (record { fin = fin; opcode = opcode; payload = payload }, k)))
        (sym total))

module _ (fin : Bool) (opcode b1 : ℕ) (rest : Bytes) (small : opcode < 16) where
  -- The first byte in its two parts.
  fin_bit : not (bit_and ((if fin then 128 else 0) + opcode) 0x80 == 0) ≡ fin
  fin_bit = ground (arith, bit_and-128 ((if fin then 128 else 0) + opcode))

  opcode_bits : bit_and ((if fin then 128 else 0) + opcode) 0x0f ≡ opcode
  opcode_bits = ground (arith, bit_and-15 ((if fin then 128 else 0) + opcode))

  unmasked : b1 < 128 → not (bit_and b1 0x80 == 0) ≡ false
  unmasked h = ground (arith, bit_and-128 b1)

  length_bits : b1 < 128 → bit_and b1 0x7f ≡ b1
  length_bits h = omega (arith, bit_and-127 b1)

  decode_lem :
      b1 < 128
      → ws_try_decode_server_frame (((if fin then 128 else 0) + opcode) ∷ b1 ∷ rest) ≡ (
          if b1 == 126
          then if ltb (suc (suc (length rest))) 4
            then ok none
            else cut_frame fin opcode 4
                (read_be16 rest 0)
                (((if fin then 128 else 0) + opcode) ∷ b1 ∷ rest)
          else if b1 == 127
          then if ltb (suc (suc (length rest))) 10
            then ok none
            else cut_frame fin opcode 10
                (read_be64 rest 0)
                (((if fin then 128 else 0) + opcode) ∷ b1 ∷ rest)
          else cut_frame fin opcode 2 b1 (((if fin then 128 else 0) + opcode) ∷ b1 ∷ rest))
  unfolding ws_try_decode_server_frame
  decode_lem h =
      rw
        (
          fin_bit,
          opcode_bits,
          unmasked h,
          length_bits h,
          le→ltb_false (suc (suc (length rest))) 2 (omega arith),
        )
        refl

-- A frame that a server writes, with a payload of at most 4 MiB, is decoded from the front of a buffer,
-- whatever follows it, and just the frame is consumed.
pub ws_try_decode_server_frame-server_frame :
    (fin : Bool) (opcode : ℕ) (payload rest : Bytes)
    → opcode < 16
    → length payload ≤ ws_max_message_size
    → Decodes
        (server_frame fin opcode payload ++ rest)
        fin
        opcode
        payload
        (length (server_frame fin opcode payload))
unfolding server_frame
ws_try_decode_server_frame-server_frame fin opcode payload rest small fits =
    let len = length payload in
    let b0 = (if fin then 128 else 0) + opcode in
    elim (Bool-cases (ltb len 126)) [
      | inl short ↦
          let not_mid : (len == 126) ≡ false = ground (arith, short) in
          let not_long : (len == 127) ≡ false = ground (arith, short) in
          rw (short, server_frame)
            (decode_lem fin opcode len (payload ++ rest) small (omega (arith, ltb→lt _ _ short))
              ∙ rw (not_mid, not_long)
                  (cut_frame_lem fin opcode len (b0 ∷ len ∷ []) payload rest _ (omega arith) refl
                    fits))
      | inr long ↦ elim (Bool-cases (leb len 0xffff)) [
        | inl mid ↦
            let body = be16 len ++ (payload ++ rest) in
            let read : read_be16 body 0 ≡ len = ground (arith, mid) in
            let there : ltb (suc (suc (length body))) 4 ≡ false = le→ltb_false _ _ (omega arith) in
            rw (long, mid, server_frame)
              (decode_lem fin opcode 126 body small (omega arith)
                ∙ rw there (
                    cut_frame_lem fin opcode (read_be16 body 0) (b0 ∷ 126 ∷ be16 len) payload rest _
                      (omega (arith, read)) read fits))
        | inr far ↦
            let body = be64 len ++ (payload ++ rest) in
            let read : read_be64 body 0 ≡ len = omega (arith, fits) in
            let there : ltb (suc (suc (length body))) 10 ≡ false = le→ltb_false _ _ (omega arith) in
            rw (long, far, server_frame)
              (decode_lem fin opcode 127 body small (omega arith)
                ∙ rw there (
                    cut_frame_lem fin opcode (read_be64 body 0) (b0 ∷ 127 ∷ be64 len) payload rest _
                      (omega (arith, read)) read fits))
      ]
    ]

pub length-server_frame :
    (fin : Bool) (opcode : ℕ) (payload : Bytes)
    → length payload ≤ length (server_frame fin opcode payload)
unfolding server_frame
length-server_frame fin opcode payload =
    let len = length payload in
    let field =
      if ltb len 126 then len ∷ [] else if leb len 0xffff then 126 ∷ be16 len else 127 ∷ be64 len in
    omega (arith, length-append field payload)
