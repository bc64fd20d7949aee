-- ===== src/Ws/Receive.antt =====
-- src/ws.cpp: `receive_binary_deadline`, which assembles a message from frames. What each call of
-- `stream_fill` gives is a script, and so is, for each frame, the mask and the outcome of the write
-- that answers a ping or a close; a script that ends leaves the loop waiting.
pub mod Frames
pub mod Message
pub mod Fragments
pub mod Bounds
use vynkor_sdk_cpp.Base.{
  ℕ, ◌+◌, Bool, true, false, not, Option, none, some, List, [], ◌∷◌, ◌++◌, length, take, drop, min,
  ltb, ◌==◌, if◌then◌else◌,
}
use vynkor_sdk_cpp.Base.Text.{lit, to_string}
use vynkor_sdk_cpp.Error.{Exception, Result, ok, throws, io, internal, payload_too_large, ◌>>=◌}
use vynkor_sdk_cpp.Mac.{Bytes}
use vynkor_sdk_cpp.Ws.Codec.{
  WsIncomingFrame, ws_encode_client_frame, ws_try_decode_server_frame, ws_max_message_size,
  op_binary, op_cont, op_text, op_ping, op_pong, op_close,
}
use vynkor_sdk_cpp.Ws.Stream.{Fill, filled, fill_throws, fill_waits}

-- The next frame with the buffer and the fills behind it, an exception, or the loop waits.
pub data Next : Type 0 where
  frame_at : WsIncomingFrame → Bytes → List Fill → Next
  stopped : Exception → Next
  blocked : Next

-- One test of the inner loop; `later` is what the loop does after the next fill.
unfoldable pub try_frame : List Fill → Bytes → Next → Next
try_frame fills buf later = elim (ws_try_decode_server_frame buf) [
  | throws e ↦ stopped e
  | ok (some (frame, consumed)) ↦ frame_at frame (drop consumed buf) fills
  | ok none ↦
      if ltb ws_max_message_size (length buf)
      then stopped (payload_too_large (ws_max_message_size + 1))
      else later
]

unfoldable pub next_frame : List Fill → Bytes → Next
next_frame [] buf = try_frame [] buf blocked
next_frame (filled b bs ∷ fills) buf =
    try_frame (filled b bs ∷ fills) buf (next_frame fills (buf ++ (b ∷ bs)))
next_frame (fill_throws e ∷ fills) buf = try_frame (fill_throws e ∷ fills) buf (stopped e)
next_frame (fill_waits ∷ fills) buf = try_frame (fill_waits ∷ fills) buf blocked

-- The mask and the outcome of the write, where a frame is answered.
abbrev pub Reply : Type 0
Reply = Option Bytes × Result (Unit {0})

pub record Rx : Type 0 where
  pub message : Bytes
  pub in_message : Bool
  pub sent : List Bytes

pub data Step : Type 0 where
  delivers : Bytes → Step
  goes_on : Rx → Step
  fails : Exception → Step

unfoldable pub on_binary : Rx → WsIncomingFrame → Step
on_binary s frame =
    if s.in_message
    then fails (internal (lit "websocket: unexpected binary fragment start"))
    else if frame.fin
    then delivers frame.payload
    else goes_on (record s { in_message = true; message = frame.payload })

unfoldable pub on_cont : Rx → WsIncomingFrame → Step
on_cont s frame =
    let message = s.message ++ frame.payload in
    if not s.in_message
    then fails (internal (lit "websocket: continuation without a started message"))
    else if ltb ws_max_message_size (length message)
    then fails (payload_too_large (length message))
    else if frame.fin
    then delivers message
    else goes_on (record s { message = message })

-- The frame that is written, or the exception.
unfoldable pub answered : Reply → ℕ → Bytes → Result Bytes
answered (random, written) opcode payload =
    ws_encode_client_frame random opcode payload >>= λ frame. written >>= λ done. ok frame

unfoldable pub on_ping : Reply → Rx → WsIncomingFrame → Step
on_ping reply s frame = elim (answered reply op_pong frame.payload) [
  | throws e ↦ fails e
  | ok pong ↦ goes_on (record s { sent = s.sent ++ (pong ∷ []) })
]

-- The reply to a close frame: at most 125 bytes of its payload, none where it cannot be sent.
unfoldable pub close_reply : Reply → WsIncomingFrame → List Bytes
close_reply reply frame =
    elim (answered reply op_close (take (min (length frame.payload) 125) frame.payload)) [
      | throws e ↦ []
      | ok bytes ↦ bytes ∷ []
    ]

unfoldable pub on_frame : Reply → Rx → WsIncomingFrame → Step
on_frame reply s frame =
    if frame.opcode == op_binary
    then on_binary s frame
    else if frame.opcode == op_cont
    then on_cont s frame
    else if frame.opcode == op_text
    then goes_on s
    else if frame.opcode == op_ping
    then on_ping reply s frame
    else if frame.opcode == op_pong
    then goes_on s
    else if frame.opcode == op_close
    then fails (io (lit "websocket connection closed"))
    else fails (internal (lit "websocket: unknown opcode " ++ to_string frame.opcode))

-- The message, with the buffer and the fills behind it and the frames written on the way.
pub data Received : Type 0 where
  received : Bytes → Bytes → List Fill → List Bytes → Received
  receive_throws : Exception → List Bytes → Received
  receive_waits : Received

-- What was written when a frame stops the loop.
abbrev pub last_words : Reply → Rx → WsIncomingFrame → List Bytes
last_words reply s frame =
    if frame.opcode == op_close then s.sent ++ close_reply reply frame else s.sent

unfoldable pub receive_loop : List Reply → List Fill → Bytes → Rx → Received
receive_loop [] fills buf s = receive_waits
receive_loop (reply ∷ replies) fills buf s = elim (next_frame fills buf) [
  | blocked ↦ receive_waits
  | stopped e ↦ receive_throws e s.sent
  | frame_at frame left fills' ↦ elim (on_frame reply s frame) [
    | delivers message ↦ received message left fills' s.sent
    | fails e ↦ receive_throws e (last_words reply s frame)
    | goes_on s' ↦ receive_loop replies fills' left s'
  ]
]

unfoldable pub receive_binary_deadline : List Reply → List Fill → Bytes → Received
unfolding receive_loop
receive_binary_deadline replies fills buf =
    receive_loop replies fills buf (record { message = []; in_message = false; sent = [] })
