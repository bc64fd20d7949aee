-- ===== src/Ws/Receive/Frames.antt =====
-- The next frame of the stream, however its bytes are cut into fills.
use vynkor_sdk_cpp.Base.{
  ℕ, ◌≤◌, ◌<◌, ◌≡◌, refl, ap, sym, ◌∙◌, arith, Bool, false, Option, none, some, List, [], ◌∷◌, ◌++◌,
  length, take, drop, ltb, append-nil, append_assoc, append_cancel, length-take, take-append-drop,
  drop_append, drop_append_within, le→ltb_false, inl, inr, ◌⊎◌, Bool-cases,
}
use vynkor_sdk_cpp.Error.{Exception, Result, ok, throws}
use vynkor_sdk_cpp.Mac.{Bytes}
use vynkor_sdk_cpp.Ws.Codec.{WsIncomingFrame, ws_try_decode_server_frame, ws_max_message_size}
use vynkor_sdk_cpp.Ws.Codec.Decode.{
  server_frame, length-server_frame, ws_try_decode_server_frame-server_frame,
}
use vynkor_sdk_cpp.Ws.Codec.Stable.{
  ws_try_decode_server_frame_append, ws_try_decode_server_frame_throws,
}
use vynkor_sdk_cpp.Ws.Stream.{Fill, filled, fill_throws, fill_waits}
use vynkor_sdk_cpp.Ws.Receive.{frame_at, try_frame, next_frame}

-- The fills give bytes, these.
abbrev pub AllFilled : List Fill → Type 0
AllFilled [] = Unit {0}
AllFilled (filled b bs ∷ fills) = AllFilled fills
AllFilled (fill_throws e ∷ fills) = ⊥
AllFilled (fill_waits ∷ fills) = ⊥

abbrev pub chunks : List Fill → Bytes
chunks [] = []
chunks (filled b bs ∷ fills) = (b ∷ bs) ++ chunks fills
chunks (fill_throws e ∷ fills) = []
chunks (fill_waits ∷ fills) = []

next_frame_decoded :
    (fills : List Fill) (buf : Bytes) (frame : WsIncomingFrame) (n : ℕ)
    → ws_try_decode_server_frame buf ≡ ok (some (frame, n))
    → next_frame fills buf ≡ frame_at frame (drop n buf) fills
unfolding next_frame try_frame
next_frame_decoded [] buf frame n h = rw (h, next_frame, try_frame) refl
next_frame_decoded (filled b bs ∷ fills) buf frame n h = rw (h, next_frame, try_frame) refl
next_frame_decoded (fill_throws e ∷ fills) buf frame n h = rw (h, next_frame, try_frame) refl
next_frame_decoded (fill_waits ∷ fills) buf frame n h = rw (h, next_frame, try_frame) refl

next_frame_more :
    (b : ℕ) (bs : Bytes) (fills : List Fill) (buf : Bytes)
    → ws_try_decode_server_frame buf ≡ ok none
    → length buf ≤ ws_max_message_size
    → next_frame (filled b bs ∷ fills) buf ≡ next_frame fills (buf ++ (b ∷ bs))
unfolding next_frame try_frame
next_frame_more b bs fills buf h small =
    let room : ltb ws_max_message_size (length buf) ≡ false = le→ltb_false _ _ small in
    rw (h, room, next_frame, try_frame) refl

-- A frame at the front of buffer and fills, and what is behind it.
pub record Found (frame : WsIncomingFrame) (fills : List Fill) (buf rest : Bytes) : Type 0 where
  pub left : Bytes
  pub later : List Fill
  pub found : next_frame fills buf ≡ frame_at frame left later
  pub behind : left ++ chunks later ≡ rest
  pub gives : AllFilled later

pub decode-cases :
    (r : Result (Option (WsIncomingFrame × ℕ)))
    → ((e : Exception) × (r ≡ throws e))
      ⊎ ((r ≡ ok none) ⊎ ((frame : WsIncomingFrame) × (n : ℕ) × (r ≡ ok (some (frame, n)))))
decode-cases (throws e) = inl (e, refl)
decode-cases (ok none) = inr (inl refl)
decode-cases (ok (some (frame, n))) = inr (inr (frame, n, refl))

module _ (fin : Bool) (opcode : ℕ) (payload rest : Bytes) (small : opcode < 16)
    (fits : length (server_frame fin opcode payload) ≤ ws_max_message_size) where
  abbrev wanted : WsIncomingFrame
  wanted = record { fin = fin; opcode = opcode; payload = payload }

  abbrev bytes : Bytes
  bytes = server_frame fin opcode payload

  payload_fits : length payload ≤ ws_max_message_size
  payload_fits = omega (arith, fits, length-server_frame fin opcode payload)

  -- Too few bytes for the frame, where the decoder asks for more.
  undecoded_short :
      (buf more : Bytes)
      → buf ++ more ≡ bytes ++ rest
      → ws_try_decode_server_frame buf ≡ ok none
      → length buf ≤ ws_max_message_size
  undecoded_short buf more e h = elim (Bool-cases (ltb (length buf) (length bytes))) [
    | inl short ↦ ground (arith, short, fits)
    | inr long ↦
        let n = length bytes in
        let (same, after) =
          append_cancel (take n buf) (drop n buf ++ more) bytes rest
            (ground (arith, long, length-take n buf))
            (sym (append_assoc (take n buf) (drop n buf) more)
              ∙ (ap (λ t. t ++ more) (take-append-drop n buf) ∙ e)) in
        let decoded =
          ws_try_decode_server_frame-server_frame fin opcode payload (drop n buf) small
            payload_fits in
        let buf_lem : bytes ++ drop n buf ≡ buf =
          ap (λ t. t ++ drop n buf) (sym same) ∙ take-append-drop n buf in
        cc (h, buf_lem, decoded)
  ]

  -- The decoder's answer on a part of the bytes is none, or the frame.
  decode_part :
      (buf more : Bytes)
      → buf ++ more ≡ bytes ++ rest
      → (ws_try_decode_server_frame buf ≡ ok none)
        ⊎ ((ws_try_decode_server_frame buf ≡ ok (some (wanted, length bytes)))
            × (drop (length bytes) buf ++ more ≡ rest))
  decode_part buf more e =
      let whole : ws_try_decode_server_frame (buf ++ more) ≡ ok (some (wanted, length bytes)) =
        ap ws_try_decode_server_frame e
        ∙ ws_try_decode_server_frame-server_frame fin opcode payload rest small payload_fits in
      elim (decode-cases (ws_try_decode_server_frame buf)) [
        | inl (x, h) ↦ cc (whole, ws_try_decode_server_frame_throws buf more x h)
        | inr (inl h) ↦ inl h
        | inr (inr (frame, n, h)) ↦
            let (kept, (within, _)) = ws_try_decode_server_frame_append buf more frame n h in
            let n_lem : n ≡ length bytes = cc (kept, whole) in
            let frame_lem : frame ≡ wanted = cc (kept, whole) in
            inr (
              h ∙ ap (λ f. ok (some (f, n))) frame_lem ∙ ap (λ k. ok (some (wanted, k))) n_lem,
              sym (drop_append_within (length bytes) buf more (omega (arith, within, n_lem)))
                  ∙ (ap (drop (length bytes)) e ∙ drop_append (length bytes) bytes rest refl),
            )
      ]

  Found-now :
      (fills : List Fill) (buf : Bytes)
      → AllFilled fills
      → ws_try_decode_server_frame buf ≡ ok (some (wanted, length bytes))
      → drop (length bytes) buf ++ chunks fills ≡ rest
      → Found wanted fills buf rest
  Found-now fills buf gives h behind = record {
    left = drop (length bytes) buf;
    later = fills;
    found = next_frame_decoded fills buf wanted (length bytes) h;
    behind = behind;
    gives = gives;
  }

  -- However the bytes of a frame arrive, the loop finds that frame and leaves what follows it.
  pub next_frame-Found :
      (fills : List Fill) (buf : Bytes)
      → AllFilled fills
      → buf ++ chunks fills ≡ bytes ++ rest
      → Found wanted fills buf rest
  next_frame-Found [] buf gives e = elim (decode_part buf [] e) [
    | inr (h, behind) ↦ Found-now [] buf gives h behind
    | inl h ↦
        let whole =
          ws_try_decode_server_frame-server_frame fin opcode payload rest small payload_fits in
        cc (h, whole, ap ws_try_decode_server_frame (sym (append-nil buf) ∙ e))
  ]
  next_frame-Found (filled b bs ∷ fills) buf gives e =
      elim (decode_part buf (chunks (filled b bs ∷ fills)) e) [
        | inr (h, behind) ↦ Found-now (filled b bs ∷ fills) buf gives h behind
        | inl h ↦
            let room = undecoded_short buf (chunks (filled b bs ∷ fills)) e h in
            let later =
              next_frame-Found fills (buf ++ (b ∷ bs)) gives
                (append_assoc buf (b ∷ bs) (chunks fills) ∙ e) in
            record {
              left = later.left;
              later = later.later;
              found = next_frame_more b bs fills buf h room ∙ later.found;
              behind = later.behind;
              gives = later.gives;
            }
      ]
  next_frame-Found (fill_throws x ∷ fills) buf gives e = absurd gives
  next_frame-Found (fill_waits ∷ fills) buf gives e = absurd gives
