-- ===== src/Ws/Codec/Stable.antt =====
-- The decoder's answers do not change when more bytes arrive.
use vynkor_sdk_cpp.Base.{
  ℕ, ◌+◌, ◌≤◌, ◌≡◌, refl, ap, ◌∙◌, arith, bit_and, Bool, false, not, some, [], ◌∷◌, ◌++◌, length,
  take, drop, ltb, ◌==◌, length-append, le→ltb_false, ltb_false→le, Bool-cases, inl, inr,
  length-drop, length-take, take_append_within, drop_append_within, get_or-append_left,
}
use vynkor_sdk_cpp.Error.{Exception, ok, throws}
use vynkor_sdk_cpp.Mac.{Bytes}
use vynkor_sdk_cpp.Framing.Header.{read_be16}
use vynkor_sdk_cpp.Ws.Codec.{
  read_be64, WsIncomingFrame, cut_frame, ws_try_decode_server_frame, ws_max_message_size,
}

cut_frame_append :
    (fin : Bool) (opcode offset len : ℕ) (buf more : Bytes) (frame : WsIncomingFrame) (n : ℕ)
    → cut_frame fin opcode offset len buf ≡ ok (some (frame, n))
    → (cut_frame fin opcode offset len (buf ++ more) ≡ ok (some (frame, n)))
      × ((n ≤ length buf) × ((offset ≤ n) × (length frame.payload ≤ ws_max_message_size)))
unfolding cut_frame
cut_frame_append fin opcode offset len buf more frame n h =
    elim (Bool-cases (ltb ws_max_message_size len)) [
      | inl big ↦ cc (rw (big, cut_frame) at h)
      | inr fits ↦ elim (Bool-cases (ltb (length buf) (offset + len))) [
        | inl short ↦ cc (rw (fits, short, cut_frame) at h)
        | inr there ↦
            let same : take len (drop offset (buf ++ more)) ≡ take len (drop offset buf) =
              ap (take len) (drop_append_within offset buf more (ground (arith, there)))
              ∙ take_append_within len (drop offset buf) more
                  (ground (arith, there, length-drop offset buf)) in
            let there' : ltb (length (buf ++ more)) (offset + len) ≡ false =
              ground (arith, there, length-append buf more) in
            let cut = rw (fits, there, cut_frame) at h in
            let total : offset + len ≡ n = cc cut in
            let bytes : take len (drop offset buf) ≡ frame.payload = cc cut in
            (
              rw (fits, there', same, cut_frame) cut,
              (
                ground (arith, there, total),
                (
                  omega (arith, total),
                  omega (
                    arith,
                    ap length bytes,
                    length-take len (drop offset buf),
                    ltb_false→le _ _ fits,
                  ),
                ),
              ),
            )
      ]
    ]

read_be16_left : (buf more : Bytes) → 2 ≤ length buf → read_be16 (buf ++ more) 0 ≡ read_be16 buf 0
read_be16_left (a ∷ b ∷ buf) more h = refl
read_be16_left (a ∷ []) more h = absurd (omega arith)
read_be16_left [] more h = absurd (omega arith)

read_be64_left : (buf more : Bytes) → 8 ≤ length buf → read_be64 (buf ++ more) 0 ≡ read_be64 buf 0
read_be64_left buf more h = omega (
  arith,
  get_or-append_left buf more 0 0 (omega arith),
  get_or-append_left buf more 1 0 (omega arith),
  get_or-append_left buf more 2 0 (omega arith),
  get_or-append_left buf more 3 0 (omega arith),
  get_or-append_left buf more 4 0 (omega arith),
  get_or-append_left buf more 5 0 (omega arith),
  get_or-append_left buf more 6 0 (omega arith),
  get_or-append_left buf more 7 0 (omega arith),
)

cut_frame_throws :
    (fin : Bool) (opcode offset len : ℕ) (buf more : Bytes) (e : Exception)
    → cut_frame fin opcode offset len buf ≡ throws e
    → cut_frame fin opcode offset len (buf ++ more) ≡ throws e
unfolding cut_frame
cut_frame_throws fin opcode offset len buf more e h =
    elim (Bool-cases (ltb ws_max_message_size len)) [
      | inl big ↦ rw (big, cut_frame) (rw (big, cut_frame) at h)
      | inr fits ↦ elim (Bool-cases (ltb (length buf) (offset + len))) [
        | inl short ↦ cc (rw (fits, short, cut_frame) at h)
        | inr there ↦ cc (rw (fits, there, cut_frame) at h)
      ]
    ]

pub ws_try_decode_server_frame_throws :
    (buf more : Bytes) (e : Exception)
    → ws_try_decode_server_frame buf ≡ throws e
    → ws_try_decode_server_frame (buf ++ more) ≡ throws e
unfolding ws_try_decode_server_frame
ws_try_decode_server_frame_throws [] more e h = cc h
ws_try_decode_server_frame_throws (b0 ∷ []) more e h = cc h
ws_try_decode_server_frame_throws (b0 ∷ b1 ∷ rest) more e h =
    let fin = not (bit_and b0 0x80 == 0) in
    let opcode = bit_and b0 0x0f in
    let long : ltb (length (b0 ∷ b1 ∷ rest)) 2 ≡ false = le→ltb_false _ _ (omega arith) in
    let long' : ltb (length (b0 ∷ b1 ∷ (rest ++ more))) 2 ≡ false =
      le→ltb_false _ _ (omega arith) in
    let h1 = rw (long, ws_try_decode_server_frame) at h in
    elim (Bool-cases (not (bit_and b1 0x80 == 0))) [
      | inl masked ↦ rw (long', masked, ws_try_decode_server_frame) (rw masked at h1)
      | inr clear ↦
          let h2 = rw clear at h1 in
          elim (Bool-cases (bit_and b1 0x7f == 126)) [
            | inl mid ↦ elim (Bool-cases (ltb (length (b0 ∷ b1 ∷ rest)) 4)) [
              | inl short ↦ cc (rw (mid, short) at h2)
              | inr enough ↦
                  let here : read_be16 (rest ++ more) 0 ≡ read_be16 rest 0 =
                    read_be16_left rest more (ground (arith, enough)) in
                  let enough' : ltb (length (b0 ∷ b1 ∷ (rest ++ more))) 4 ≡ false =
                    ground (arith, enough, length-append rest more) in
                  rw (long', clear, mid, enough', here, ws_try_decode_server_frame)
                    (cut_frame_throws fin opcode 4 (read_be16 rest 0) (b0 ∷ b1 ∷ rest) more e
                      (rw (mid, enough) at h2))
            ]
            | inr not_mid ↦ elim (Bool-cases (bit_and b1 0x7f == 127)) [
              | inl far ↦ elim (Bool-cases (ltb (length (b0 ∷ b1 ∷ rest)) 10)) [
                | inl short ↦ cc (rw (not_mid, far, short) at h2)
                | inr enough ↦
                    let here : read_be64 (rest ++ more) 0 ≡ read_be64 rest 0 =
                      read_be64_left rest more (ground (arith, enough)) in
                    let enough' : ltb (length (b0 ∷ b1 ∷ (rest ++ more))) 10 ≡ false =
                      ground (arith, enough, length-append rest more) in
                    rw (long', clear, not_mid, far, enough', here, ws_try_decode_server_frame)
                      (cut_frame_throws fin opcode 10 (read_be64 rest 0) (b0 ∷ b1 ∷ rest) more e
                        (rw (not_mid, far, enough) at h2))
              ]
              | inr not_far ↦
                  rw (long', clear, not_mid, not_far, ws_try_decode_server_frame)
                    (cut_frame_throws fin opcode 2 (bit_and b1 0x7f) (b0 ∷ b1 ∷ rest) more e
                      (rw (not_mid, not_far) at h2))
            ]
          ]
    ]

-- A decoded frame stays as it is when more bytes arrive behind it; it lies in the buffer, takes at
-- least two bytes and carries at most 4 MiB.
pub ws_try_decode_server_frame_append :
    (buf more : Bytes) (frame : WsIncomingFrame) (n : ℕ)
    → ws_try_decode_server_frame buf ≡ ok (some (frame, n))
    → (ws_try_decode_server_frame (buf ++ more) ≡ ok (some (frame, n)))
      × ((n ≤ length buf) × ((2 ≤ n) × (length frame.payload ≤ ws_max_message_size)))
unfolding ws_try_decode_server_frame
ws_try_decode_server_frame_append [] more frame n h = cc h
ws_try_decode_server_frame_append (b0 ∷ []) more frame n h = cc h
ws_try_decode_server_frame_append (b0 ∷ b1 ∷ rest) more frame n h =
    let fin = not (bit_and b0 0x80 == 0) in
    let opcode = bit_and b0 0x0f in
    let long : ltb (length (b0 ∷ b1 ∷ rest)) 2 ≡ false = le→ltb_false _ _ (omega arith) in
    let long' : ltb (length (b0 ∷ b1 ∷ (rest ++ more))) 2 ≡ false =
      le→ltb_false _ _ (omega arith) in
    let h1 = rw (long, ws_try_decode_server_frame) at h in
    elim (Bool-cases (not (bit_and b1 0x80 == 0))) [
      | inl masked ↦ cc (rw masked at h1)
      | inr clear ↦
          let h2 = rw clear at h1 in
          elim (Bool-cases (bit_and b1 0x7f == 126)) [
            | inl mid ↦ elim (Bool-cases (ltb (length (b0 ∷ b1 ∷ rest)) 4)) [
              | inl short ↦ cc (rw (mid, short) at h2)
              | inr enough ↦
                  let here : read_be16 (rest ++ more) 0 ≡ read_be16 rest 0 =
                    read_be16_left rest more (ground (arith, enough)) in
                  let enough' : ltb (length (b0 ∷ b1 ∷ (rest ++ more))) 4 ≡ false =
                    ground (arith, enough, length-append rest more) in
                  let (kept, (within, (least, small))) =
                    cut_frame_append fin opcode 4 (read_be16 rest 0) (b0 ∷ b1 ∷ rest) more frame n
                      (rw (mid, enough) at h2) in
                  (
                    rw (long', clear, mid, enough', here, ws_try_decode_server_frame) kept,
                    (within, (omega (arith, least), small)),
                  )
            ]
            | inr not_mid ↦ elim (Bool-cases (bit_and b1 0x7f == 127)) [
              | inl far ↦ elim (Bool-cases (ltb (length (b0 ∷ b1 ∷ rest)) 10)) [
                | inl short ↦ cc (rw (not_mid, far, short) at h2)
                | inr enough ↦
                    let here : read_be64 (rest ++ more) 0 ≡ read_be64 rest 0 =
                      read_be64_left rest more (ground (arith, enough)) in
                    let enough' : ltb (length (b0 ∷ b1 ∷ (rest ++ more))) 10 ≡ false =
                      ground (arith, enough, length-append rest more) in
                    let (kept, (within, (least, small))) =
                      cut_frame_append fin opcode 10 (read_be64 rest 0) (b0 ∷ b1 ∷ rest) more frame
                        n (rw (not_mid, far, enough) at h2) in
                    (
                      rw (long', clear, not_mid, far, enough', here, ws_try_decode_server_frame)
                          kept,
                      (within, (omega (arith, least), small)),
                    )
              ]
              | inr not_far ↦
                  let (kept, (within, (least, small))) =
                    cut_frame_append fin opcode 2 (bit_and b1 0x7f) (b0 ∷ b1 ∷ rest) more frame n
                      (rw (not_mid, not_far) at h2) in
                  (
                    rw (long', clear, not_mid, not_far, ws_try_decode_server_frame) kept,
                    (within, (least, small)),
                  )
            ]
          ]
    ]
