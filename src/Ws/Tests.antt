-- ===== src/Ws/Tests.antt =====
-- Runs of the WebSocket codec and receiver: a message in two fragments around a ping.
use vynkor_sdk_cpp.Base.{ℕ, ◌≤◌, ◌≡◌, refl, arith, true, false, some, List, [], ◌∷◌, ◌++◌, length}
use vynkor_sdk_cpp.Error.{ok, io}
use vynkor_sdk_cpp.Base.Text.{lit}
use vynkor_sdk_cpp.Mac.{Bytes}
use vynkor_sdk_cpp.Ws.Codec.{
  WsIncomingFrame, length_field, mask_from, cut_frame, ws_encode_client_frame,
  ws_try_decode_server_frame, ws_max_message_size, op_binary, op_text, op_ping, op_cont, op_close,
}
use vynkor_sdk_cpp.Ws.Codec.Encode.{server_reads, ws_encode_client_frame-server_reads}
use vynkor_sdk_cpp.Ws.Codec.Decode.{Decodes, server_frame, ws_try_decode_server_frame-server_frame}
use vynkor_sdk_cpp.Ws.Stream.{
  Fill, filled, chunk, retry, stream_fill, poll_readable, read_answer, stream_write_all, wrote,
  rewrite, all_written,
}
use vynkor_sdk_cpp.Framing.Read.{poll_interrupted, ready}
use vynkor_sdk_cpp.Ws.Receive.{
  next_frame, try_frame, on_frame, close_reply, answered, Reply, Rx, received, receive_throws,
  receive_loop, receive_binary_deadline,
}
use vynkor_sdk_cpp.Ws.Receive.{on_binary}
use vynkor_sdk_cpp.Ws.Receive.Bounds.{receive_loop_bounded}
use vynkor_sdk_cpp.Ws.Receive.Frames.{AllFilled, chunks}
use vynkor_sdk_cpp.Ws.Receive.Message.{
  wire, AllFit, Implements, over_frames, receive_loop-Implements,
}
use vynkor_sdk_cpp.Ws.Receive.Fragments.{
  framed, text_frame, ping_frame, last, between, started, ahead, Message,
  receive_binary_deadline-Message,
}

abbrev masked_frame : Bytes
masked_frame = 130 ∷ 131 ∷ 1 ∷ 2 ∷ 3 ∷ 4 ∷ 8 ∷ 8 ∷ 8 ∷ []

ws_encode_client_frame-server_reads_example :
    server_reads (masked_frame ++ (7 ∷ [])) ≡ some (2, 9 ∷ 10 ∷ 11 ∷ [], 7 ∷ [])
unfolding ws_encode_client_frame length_field mask_from
ws_encode_client_frame-server_reads_example =
    ws_encode_client_frame-server_reads 1 2 3 4 2 (9 ∷ 10 ∷ 11 ∷ []) masked_frame (7 ∷ [])
      (omega arith) (omega arith) refl

ws_try_decode_server_frame-server_frame_example :
    Decodes
      (server_frame true 2 (5 ∷ 6 ∷ []) ++ (1 ∷ []))
      true
      2
      (5 ∷ 6 ∷ [])
      (length (server_frame true 2 (5 ∷ 6 ∷ [])))
ws_try_decode_server_frame-server_frame_example =
    ws_try_decode_server_frame-server_frame true 2 (5 ∷ 6 ∷ []) (1 ∷ []) (omega arith) (omega arith)

abbrev reply : Reply
reply = (some (1 ∷ 2 ∷ 3 ∷ 4 ∷ []), ok tt)

abbrev pong : Bytes
pong = 138 ∷ 129 ∷ 1 ∷ 2 ∷ 3 ∷ 4 ∷ 64 ∷ []

abbrev fragments : List WsIncomingFrame
fragments =
    framed true op_text (9 ∷ [])
    ∷ framed false op_binary (1 ∷ 2 ∷ [])
    ∷ framed true op_ping (65 ∷ [])
    ∷ framed true op_cont (3 ∷ [])
    ∷ []

abbrev replies : List Reply
replies = reply ∷ reply ∷ reply ∷ reply ∷ []

fragments-Message : Message replies fragments (1 ∷ 2 ∷ 3 ∷ []) (pong ∷ [])
unfolding ws_encode_client_frame length_field mask_from answered
fragments-Message = ahead reply _ _ _ _ [] _ (text_frame reply true (9 ∷ [])) (
    started reply _ (1 ∷ 2 ∷ []) _ _ _ (
      between reply _ _ _ _ (pong ∷ []) [] (ping_frame reply true (65 ∷ []) pong refl)
        (last reply (3 ∷ []))))

abbrev behind : List WsIncomingFrame
behind = framed true op_close [] ∷ []

fragments-AllFit : AllFit (fragments ++ behind)
unfolding server_frame
fragments-AllFit = (
  omega arith,
  omega arith,
  (
    omega arith,
    omega arith,
    (omega arith, omega arith, (omega arith, omega arith, (omega arith, omega arith, tt))),
  ),
)

-- Two bytes are in the buffer, and the fills cut the frames in their midst.
abbrev pieces : List Fill
pieces =
    filled 9 (2 ∷ [])
    ∷ filled 2 (1 ∷ 2 ∷ 137 ∷ [])
    ∷ filled 1 (65 ∷ 128 ∷ 1 ∷ 3 ∷ 136 ∷ 0 ∷ [])
    ∷ []

receive_binary_deadline-Message_example :
    (left : Bytes) × (later : List Fill) × (receive_binary_deadline replies pieces (129 ∷ 1 ∷ [])
      ≡ received (1 ∷ 2 ∷ 3 ∷ []) left later (pong ∷ []))
    × AllFilled later
    × (left ++ chunks later ≡ wire behind)
unfolding server_frame
receive_binary_deadline-Message_example =
    receive_binary_deadline-Message replies fragments behind (1 ∷ 2 ∷ 3 ∷ []) (pong ∷ []) pieces
      (129 ∷ 1 ∷ []) fragments-Message fragments-AllFit (omega arith) tt refl

abbrev start : Rx
start = record { message = []; in_message = false; sent = [] }

receive_loop-Implements_example :
    Implements
      (over_frames replies (fragments ++ behind) start)
      (receive_loop replies pieces (129 ∷ 1 ∷ []) start)
unfolding server_frame
receive_loop-Implements_example =
    receive_loop-Implements replies (fragments ++ behind) pieces (129 ∷ 1 ∷ []) start
      fragments-AllFit tt refl

-- A close frame is answered and ends the call.
closing :
    receive_binary_deadline replies (filled 136 (0 ∷ []) ∷ []) []
    ≡ receive_throws
        (io (lit "websocket connection closed"))
        ((136 ∷ 128 ∷ 1 ∷ 2 ∷ 3 ∷ 4 ∷ []) ∷ [])
unfolding receive_binary_deadline receive_loop next_frame try_frame ws_try_decode_server_frame
    cut_frame on_frame close_reply answered ws_encode_client_frame length_field mask_from
closing = refl

waits_and_reads :
    stream_fill false (some 100) (
      record { pending = false; polls = (5, poll_interrupted) ∷ (6, ready) ∷ []; read = retry }
      ∷ record { pending = false; polls = (7, ready) ∷ []; read = chunk 1 (2 ∷ []) }
      ∷ [])
    ≡ filled 1 (2 ∷ [])
unfolding stream_fill poll_readable read_answer
waits_and_reads = refl

writes_in_parts :
    stream_write_all false (wrote 1 ∷ rewrite ∷ wrote 0 ∷ []) (1 ∷ 2 ∷ 3 ∷ [])
    ≡ (1 ∷ 2 ∷ 3 ∷ [], all_written)
unfolding stream_write_all
writes_in_parts = refl

receive_loop_bounded_example : length {A = ℕ} (5 ∷ []) ≤ ws_max_message_size
unfolding receive_loop next_frame try_frame ws_try_decode_server_frame cut_frame on_frame on_binary
receive_loop_bounded_example =
    receive_loop_bounded replies (filled 130 (1 ∷ 5 ∷ []) ∷ []) [] start (5 ∷ []) [] [] [] refl
