-- ===== src/Client/Gateway/Tests.antt =====
-- A frame to the gateway, and one from it.
use vynkor_sdk_cpp.Base.{◌≡◌, refl, arith, true, false, none, some, List, [], ◌∷◌, ◌++◌, length}
use vynkor_sdk_cpp.Base.Text.{lit}
use vynkor_sdk_cpp.Error.{Result, ok, throws}
use vynkor_sdk_cpp.Mac.{Bytes}
use vynkor_sdk_cpp.Mac.Tests.{toy_ssl, toy_ssl-IsOpenSsl}
use vynkor_sdk_cpp.Framing.Tests.{toy_zstd, toy_zstd-IsZstd}
use vynkor_sdk_cpp.Framing.Pack.{pack_frame_ws, tag_of}
use vynkor_sdk_cpp.Framing.Header.{serialize_header_ws, build_header, target_to_bytes}
use vynkor_sdk_cpp.Framing.Parse.{FrameResult, parse_frame_bytes}
use vynkor_sdk_cpp.Client.State.{VynkorClient, new_client}
use vynkor_sdk_cpp.Client.Send.{send_raw, send_raw_with_flags}
use vynkor_sdk_cpp.Client.Receive.{read_transport_frame, ws_message}
use vynkor_sdk_cpp.Client.Gateway.{
  send_raw-server_reads, receive_binary_deadline-read_transport_frame,
}
use vynkor_sdk_cpp.Ws.Codec.{
  WsIncomingFrame, op_binary, ws_encode_client_frame, length_field, mask_from,
}
use vynkor_sdk_cpp.Ws.Codec.Encode.{server_reads}
use vynkor_sdk_cpp.Ws.Codec.Decode.{server_frame}
use vynkor_sdk_cpp.Ws.Stream.{Fill, filled, StreamWrite, wrote, all_written, stream_write_all}
use vynkor_sdk_cpp.Ws.Receive.{Reply, received, receive_binary_deadline}
use vynkor_sdk_cpp.Ws.Receive.Frames.{chunks}
use vynkor_sdk_cpp.Ws.Receive.Message.{AllFit}
use vynkor_sdk_cpp.Ws.Receive.Fragments.{framed, single}
use vynkor_sdk_cpp.Ws.Connection.{send_binary}

abbrev client : VynkorClient
client = record (new_client [] []) { ws = true }

abbrev bytes_of : Result Bytes → Bytes
bytes_of (ok bytes) = bytes
bytes_of (throws e) = []

abbrev frame : Bytes
frame = bytes_of (pack_frame_ws toy_ssl (lit "k") 0 (5 ∷ []) none)

frame_lem : pack_frame_ws toy_ssl (lit "k") 0 (5 ∷ []) none ≡ ok frame
unfolding pack_frame_ws tag_of
frame_lem = refl

sent_lem : send_raw toy_ssl toy_zstd client (lit "k") (5 ∷ []) ≡ ok frame
unfolding send_raw send_raw_with_flags pack_frame_ws tag_of
sent_lem = refl

abbrev mask : Bytes
mask = 1 ∷ (2 ∷ (3 ∷ (4 ∷ [])))

abbrev script : List StreamWrite
script = wrote 9 ∷ (wrote 100 ∷ [])

written_lem : (send_binary false (some mask) script frame).1 ≡ all_written
unfolding stream_write_all ws_encode_client_frame length_field mask_from pack_frame_ws tag_of
    serialize_header_ws build_header target_to_bytes lit
written_lem = refl

send_raw-server_reads_example :
    (r : FrameResult) × (server_reads ((send_binary false (some mask) script frame).0 ++ (9 ∷ []))
      ≡ some (op_binary, frame, 9 ∷ []))
    × (parse_frame_bytes toy_ssl toy_zstd frame none ≡ ok (r, length frame))
    × (r.payload ≡ 5 ∷ [])
    × (r.has_mac ≡ false)
send_raw-server_reads_example =
    send_raw-server_reads toy_ssl toy_zstd client (lit "k") (5 ∷ []) frame (9 ∷ []) 1 2 3 4 false
      script toy_ssl-IsOpenSsl toy_zstd-IsZstd refl (omega arith, tt) sent_lem written_lem

abbrev reply : Reply
reply = (none, ok tt)

abbrev frames : List WsIncomingFrame
frames = framed true op_binary frame ∷ []

abbrev fills : List Fill
fills = filled 130 (45 ∷ frame) ∷ []

frames-AllFit : AllFit (frames ++ [])
unfolding server_frame pack_frame_ws tag_of serialize_header_ws build_header target_to_bytes lit
frames-AllFit = (omega arith, omega arith, tt)

receive_binary_deadline-read_transport_frame_example :
    (left : Bytes) × (later : List Fill) × (r : FrameResult) × (receive_binary_deadline
        (reply ∷ [])
        fills
        []
      ≡ received frame left later [])
    × (read_transport_frame toy_ssl toy_zstd none (ws_message (ok frame)) ≡ ok r)
    × (r.payload ≡ 5 ∷ [])
    × (r.flags ≡ 0)
    × (left ++ chunks later ≡ [])
unfolding server_frame pack_frame_ws tag_of serialize_header_ws build_header target_to_bytes lit
receive_binary_deadline-read_transport_frame_example =
    receive_binary_deadline-read_transport_frame toy_ssl toy_zstd (lit "k") 0 (5 ∷ []) frame none
      (reply ∷ []) frames [] [] fills [] toy_ssl-IsOpenSsl toy_zstd-IsZstd (omega arith) refl refl
      (omega arith, tt) frame_lem (single reply frame) frames-AllFit tt refl
