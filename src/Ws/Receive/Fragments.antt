-- ===== src/Ws/Receive/Fragments.antt =====
-- src/ws.cpp, `receive_binary_deadline`: what a fragmented message is, and that it is assembled.
use vynkor_sdk_cpp.Base.{
  ℕ, ◌≤◌, ◌≡◌, refl, ap, sym, ◌∙◌, subst, arith, Bool, true, false, List, [], ◌∷◌, ◌++◌, length,
  append-nil, append_assoc, length-append, le→ltb_false,
}
use vynkor_sdk_cpp.Error.{ok}
use vynkor_sdk_cpp.Mac.{Bytes}
use vynkor_sdk_cpp.Ws.Codec.{
  WsIncomingFrame, ws_max_message_size, op_cont, op_text, op_binary, op_ping, op_pong,
}
use vynkor_sdk_cpp.Ws.Stream.{Fill}
use vynkor_sdk_cpp.Ws.Receive.{
  Reply, Rx, goes_on, on_frame, on_binary, on_cont, on_ping, answered, received,
  receive_binary_deadline,
}
use vynkor_sdk_cpp.Ws.Receive.Frames.{AllFilled, chunks}
use vynkor_sdk_cpp.Ws.Receive.Message.{
  wire, AllFit, assembled, over_frames, Implements, receive_loop-Implements,
}

abbrev pub framed : Bool → ℕ → Bytes → WsIncomingFrame
framed fin opcode payload = record { fin = fin; opcode = opcode; payload = payload }

-- A frame beside the message, and the frames that are written for it.
pub data Aside : Reply → WsIncomingFrame → List Bytes → Type 0 where
  text_frame :
      (reply : Reply) (fin : Bool) (payload : Bytes) → Aside reply (framed fin op_text payload) []
  pong_frame :
      (reply : Reply) (fin : Bool) (payload : Bytes) → Aside reply (framed fin op_pong payload) []
  ping_frame :
      (reply : Reply) (fin : Bool) (payload pong : Bytes)
      → answered reply op_pong payload ≡ ok pong
      → Aside reply (framed fin op_ping payload) (pong ∷ [])

-- The frames behind a started message, and the bytes they add.
pub data Continuation : List Reply → List WsIncomingFrame → Bytes → List Bytes → Type 0 where
  last :
      (reply : Reply) (payload : Bytes)
      → Continuation (reply ∷ []) (framed true op_cont payload ∷ []) payload []
  fragment :
      (reply : Reply) (replies : List Reply) (payload bytes : Bytes) (frames : List WsIncomingFrame)
      (sent : List Bytes)
      → Continuation replies frames bytes sent
      → Continuation
          (reply ∷ replies)
          (framed false op_cont payload ∷ frames)
          (payload ++ bytes)
          sent
  between :
      (reply : Reply) (replies : List Reply) (frame : WsIncomingFrame) (bytes : Bytes)
      (frames : List WsIncomingFrame) (now sent : List Bytes)
      → Aside reply frame now
      → Continuation replies frames bytes sent
      → Continuation (reply ∷ replies) (frame ∷ frames) bytes (now ++ sent)

-- The frames of one message, with the frames before its start.
pub data Message : List Reply → List WsIncomingFrame → Bytes → List Bytes → Type 0 where
  single :
      (reply : Reply) (payload : Bytes)
      → Message (reply ∷ []) (framed true op_binary payload ∷ []) payload []
  started :
      (reply : Reply) (replies : List Reply) (payload bytes : Bytes) (frames : List WsIncomingFrame)
      (sent : List Bytes)
      → Continuation replies frames bytes sent
      → Message (reply ∷ replies) (framed false op_binary payload ∷ frames) (payload ++ bytes) sent
  ahead :
      (reply : Reply) (replies : List Reply) (frame : WsIncomingFrame) (bytes : Bytes)
      (frames : List WsIncomingFrame) (now sent : List Bytes)
      → Aside reply frame now
      → Message replies frames bytes sent
      → Message (reply ∷ replies) (frame ∷ frames) bytes (now ++ sent)

on_frame-Aside :
    (reply : Reply) (frame : WsIncomingFrame) (now : List Bytes) (s : Rx)
    → Aside reply frame now
    → on_frame reply s frame ≡ goes_on (record s { sent = s.sent ++ now })
unfolding on_frame on_ping
on_frame-Aside reply frame now s (text_frame r fin payload) = rw (append-nil s.sent) refl
on_frame-Aside reply frame now s (pong_frame r fin payload) = rw (append-nil s.sent) refl
on_frame-Aside reply frame now s (ping_frame r fin payload pong e) = rw (e, on_ping) refl

over_frames-Aside :
    (reply : Reply) (frame : WsIncomingFrame) (now : List Bytes) (s : Rx)
    → Aside reply frame now
    → (replies : List Reply) (frames : List WsIncomingFrame)
    → over_frames (reply ∷ replies) (frame ∷ frames) s
      ≡ over_frames replies frames (record s { sent = s.sent ++ now })
unfolding over_frames
over_frames-Aside reply frame now s aside replies frames =
    rw (on_frame-Aside reply frame now s aside, over_frames) refl

over_frames-Continuation :
    (replies : List Reply) (frames : List WsIncomingFrame) (bytes : Bytes) (sent : List Bytes)
    → Continuation replies frames bytes sent
    → (more : List WsIncomingFrame) (message : Bytes) (before : List Bytes)
    → length (message ++ bytes) ≤ ws_max_message_size
    → over_frames replies
        (frames ++ more)
        (record { message = message; in_message = true; sent = before })
      ≡ assembled (message ++ bytes) more (before ++ sent)
unfolding over_frames on_frame on_cont
over_frames-Continuation replies frames bytes sent (last reply payload) more message before fits =
    rw (le→ltb_false _ _ fits, append-nil before, over_frames, on_frame, on_cont) refl
over_frames-Continuation replies frames bytes sent
      (fragment reply replies' payload rest frames' sent' c) more message before fits =
    let fits' : length ((message ++ payload) ++ rest) ≤ ws_max_message_size =
      subst (λ t. length t ≤ ws_max_message_size) (sym (append_assoc message payload rest)) fits in
    let part : length (message ++ payload) ≤ ws_max_message_size =
      omega (arith, fits', length-append (message ++ payload) rest) in
    rw (le→ltb_false _ _ part, over_frames, on_frame, on_cont)
      (over_frames-Continuation replies' frames' rest sent' c more (message ++ payload) before fits'
        ∙ ap (λ t. assembled t more (before ++ sent')) (append_assoc message payload rest))
over_frames-Continuation replies frames bytes sent
      (between reply replies' frame rest frames' now sent' a c) more message before fits =
    over_frames-Aside reply frame now
      (record { message = message; in_message = true; sent = before }) a replies' (frames' ++ more)
    ∙ (over_frames-Continuation replies' frames' rest sent' c more message (before ++ now) fits
        ∙ ap (assembled (message ++ rest) more) (append_assoc before now sent'))

over_frames-Message :
    (replies : List Reply) (frames : List WsIncomingFrame) (bytes : Bytes) (sent : List Bytes)
    → Message replies frames bytes sent
    → (more : List WsIncomingFrame) (before : List Bytes) → length bytes ≤ ws_max_message_size
    → over_frames replies
        (frames ++ more)
        (record { message = []; in_message = false; sent = before })
      ≡ assembled bytes more (before ++ sent)
unfolding over_frames on_frame on_binary
over_frames-Message replies frames bytes sent (single reply payload) more before fits =
    rw (append-nil before, over_frames, on_frame, on_binary) refl
over_frames-Message replies frames bytes sent (started reply replies' payload rest frames' sent' c)
      more before fits =
    over_frames-Continuation replies' frames' rest sent' c more payload before fits
over_frames-Message replies frames bytes sent
      (ahead reply replies' frame rest frames' now sent' a m) more before fits =
    over_frames-Aside reply frame now (record { message = []; in_message = false; sent = before }) a
      replies' (frames' ++ more)
    ∙ (over_frames-Message replies' frames' rest sent' m more (before ++ now) fits
        ∙ ap (assembled rest more) (append_assoc before now sent'))

-- However the bytes of a message's frames and of whole frames behind it are cut into fills, the call
-- returns the payloads of the message's frames in their order, with the pongs written for
-- its pings, and what it leaves in the buffer and the stream is the bytes of the frames behind it;
-- the frames have an opcode below 16 and at most 4 MiB with their header, and the message has
-- at most 4 MiB.
pub receive_binary_deadline-Message :
    (replies : List Reply) (frames more : List WsIncomingFrame) (bytes : Bytes) (sent : List Bytes)
    (fills : List Fill) (buf : Bytes)
    → Message replies frames bytes sent
    → AllFit (frames ++ more)
    → length bytes ≤ ws_max_message_size
    → AllFilled fills
    → buf ++ chunks fills ≡ wire (frames ++ more)
    → (left : Bytes) × (later : List Fill) × (receive_binary_deadline replies fills buf
        ≡ received bytes left later sent)
      × AllFilled later
      × (left ++ chunks later ≡ wire more)
unfolding receive_binary_deadline
receive_binary_deadline-Message replies frames more bytes sent fills buf m fit fits gives e =
    subst (λ o. Implements o (receive_binary_deadline replies fills buf))
      (over_frames-Message replies frames bytes sent m more [] fits)
      (receive_loop-Implements replies (frames ++ more) fills buf
        (record { message = []; in_message = false; sent = [] }) fit gives e)
